-- ===== src/Sistema.antt =====
-- What the parts do together: kernel/kernel.c between a CPU and the client of its program.
pub mod Impresion
pub mod Turno
pub mod Espera
pub mod Servicio
pub mod Conexion
pub mod Concedidas
pub mod Escritura
pub mod Carga
pub mod Rechazo
pub mod Salida
pub mod Compartida
use tp_2014_1c_tp_so.Base.{List, [], ◌∷◌, ◌++◌, if◌then◌else◌}
use tp_2014_1c_tp_so.Base.Int.{ℤ, pos, ◌==ℤ◌}
use tp_2014_1c_tp_so.Base.Outcome.{Outcome, ok, ◌>>=◌}
use tp_2014_1c_tp_so.Mensajes.{MenComun, MenQuantumPcb, aviso}
use tp_2014_1c_tp_so.Mensajes.Tipos
use tp_2014_1c_tp_so.Kernel.Estado.{Kernel, Envio, a_comun, a_cpu, a_umv, a_umv_dato, Recepcion}
use tp_2014_1c_tp_so.Cpu.Estado.{Maquina}
use tp_2014_1c_tp_so.Kernel.Servicios.{Texto, administrar_men_cpus}

-- What is sent to the socket `soc`.
unfoldable pub para : ℤ → List Envio → List MenComun
para soc [] = []
para soc (a_comun s men ∷ es) = if s ==ℤ soc then men ∷ para soc es else para soc es
para soc (a_cpu s men ∷ es) = para soc es
para soc (a_umv men ∷ es) = para soc es
para soc (a_umv_dato men ∷ es) = para soc es

-- The process control block that the CPU sends with a process, and the message that says whether it
-- closes.
abbrev pub lugar_de : Maquina → MenQuantumPcb
lugar_de m = record { tipo = Tipos.pcb_y_quantum; quantum = pos 0; pcb = m.pcb }

abbrev pub cierre_de : ℤ → Maquina → MenComun
cierre_de tipo m =
    if m.quit_sistema then aviso tipo else record { tam_dato = pos 1; tipo = tipo; dato = 0 ∷ [] }

module _ (t : Texto) where
  -- The kernel's loop on the messages of one CPU, each with what follows it on the socket.
  unfoldable pub atender_mensajes :
      Kernel → ℤ → List (MenComun × Recepcion) → Outcome (Kernel × List Envio)
  atender_mensajes k soc_cpu [] = ok (k, [])
  atender_mensajes k soc_cpu ((men, sig) ∷ mens) = administrar_men_cpus t k soc_cpu men sig >>= λ r.
      atender_mensajes r.0 soc_cpu mens >>= λ q. ok (q.0, r.1 ++ q.1)
