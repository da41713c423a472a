-- ===== src/Kernel/Invariante.antt =====
-- What holds of the kernel's state between the rounds of its threads.
pub mod Parcial
pub mod Turnos
pub mod Rondas
pub mod Multiprogramacion
pub mod Pedidos
pub mod Semaforos
pub mod Despacho
pub mod Pasos
pub mod Espera
pub mod Inicio
use tp_2014_1c_tp_so.Base.{
  ℕ, zero, suc, ◌+◌, ◌≡◌, refl, sym, ◌∙◌, ◌≢◌, List, [], ◌∷◌, ◌++◌, some, length, arith,
  list_remove, if◌then◌else◌,
}
use tp_2014_1c_tp_so.Base.Int.{ℤ, pos, ◌==ℤ◌}
use tp_2014_1c_tp_so.Base.Outcome.{Outcome, ok}
use tp_2014_1c_tp_so.Kernel.Estado.{Cpu, PcbOtros, Kernel}
use tp_2014_1c_tp_so.Kernel.Colas.Cuentas.{veces, en_cpus, uno}

-- How many process control blocks of the process `id` the kernel has.
abbrev pub total : ℤ → Kernel → ℕ
total id k =
    veces id k.cola_new
    + veces id k.cola_ready
    + veces id k.cola_exec
    + veces id k.cola_block
    + veces id k.cola_exit

-- Each semaphore counts what it stands for; a CPU executes a process exactly if it is in EXEC; and
-- the processes in READY, EXEC and BLOCK, with those that may still come in, are `grado`, the degree
-- of multiprogramming.
pub record Valido (grado : ℕ) (k : Kernel) : Type 0 where
  pub nuevos : k.cant_new ≡ length k.cola_new
  pub listos : k.cant_ready ≡ length k.cola_ready
  pub salidos : k.cant_exit ≡ length k.cola_exit
  pub libres : k.cant_cpu_libres ≡ en_cpus (pos 0) k.lista_cpu
  pub ocupadas : (id : ℤ) → id ≢ pos 0 → en_cpus id k.lista_cpu ≡ veces id k.cola_exec
  pub numerados : total (pos 0) k ≡ 0
  pub multiprog :
      k.cant_multiprog + length k.cola_ready + length k.cola_exec + length k.cola_block ≡ grado

-- A step that ends, keeps the state valid, and neither loses a process nor makes a second of it.
pub record Bien (grado : ℕ) (k k' : Kernel) : Type 0 where
  pub valido : Valido grado k'
  pub mismos : (id : ℤ) → total id k' ≡ total id k

-- The CPU with this socket is in the list, and executes a process.
pub record Ocupada (k : Kernel) (soc_cpu : ℤ) : Type 0 where
  pub cpu : Cpu
  pub resto : List Cpu
  pub esta : list_remove (λ c. c.soc_cpu ==ℤ soc_cpu) k.lista_cpu ≡ some (cpu, resto)
  pub activa : cpu.id_prog_exec ≢ pos 0
