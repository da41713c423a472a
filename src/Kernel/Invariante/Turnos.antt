-- ===== src/Kernel/Invariante/Turnos.antt =====
-- The messages that end a process's turn on a CPU keep the state valid.
use tp_2014_1c_tp_so.Base.{
  ℕ, suc, ◌≡◌, refl, inl, inr, false, List, [], ◌∷◌, ◌++◌, some, arith, list_remove, length,
  Bool-cases,
}
use tp_2014_1c_tp_so.Base.Int.{ℤ, pos, ◌==ℤ◌}
use tp_2014_1c_tp_so.Base.Outcome.{ok}
use tp_2014_1c_tp_so.Mensajes.{MenComun, MenQuantumPcb}
use tp_2014_1c_tp_so.Kernel.Estado.{Cpu, PcbOtros, Semaforo, Io, Kernel, avisar, Siguientes, llegan}
use tp_2014_1c_tp_so.Kernel.Colas.{rotar_hasta, pasar_pcb_exit, pasar_ready}
use tp_2014_1c_tp_so.Kernel.Colas.Cuentas.{en_cpus, en_cpus-push, list_remove-en_cpus}
use tp_2014_1c_tp_so.Kernel.Cpus.{
  sacar_cpu, get_cpu_soc_cpu_remove, liberar_cpu, quitar_soc_cpu, recv_actualizar_pcb,
  ingresar_new_cpu, conec_cerrada_cpu, fin_quantum, llamada_erronea, fin_ejecucion,
  actualizar_pcb_y_bloq,
}
use tp_2014_1c_tp_so.Kernel.Invariante.{Valido, Bien, Ocupada}
use tp_2014_1c_tp_so.Kernel.Invariante.Parcial.{
  Parcial-ready, Parcial-block, Parcial-exit, Parcial-libera, Parcial-soc, turno_lem, Turno-Parcial,
}

-- `fin_quantum` for a CPU that executes a process: the process goes to READY, and the CPU is free, or
-- gone if the message says that it was killed. The state stays valid, and no process is lost.
pub fin_quantum-Bien :
    (grado : ℕ) (k : Kernel) (soc_cpu : ℤ) (men_cpu : MenComun) (sig : Siguientes)
    → Valido grado k
    → Ocupada k soc_cpu
    → (k' : Kernel) × (fin_quantum k soc_cpu men_cpu (llegan sig) ≡ ok k') × Bien grado k k'
unfolding fin_quantum recv_actualizar_pcb
fin_quantum-Bien grado k soc_cpu men_cpu sig v o =
    let t = turno_lem grado k soc_cpu v o in
    let j : Kernel = record k { lista_cpu = t.cpus; cola_exec = t.exec } in
    let h = Turno-Parcial grado k soc_cpu t v in
    let y = recv_actualizar_pcb sig.pcb t.elegido in
    elim (Bool-cases (men_cpu.tam_dato ==ℤ pos 1)) [
      | inl e ↦ (
        pasar_ready (quitar_soc_cpu j soc_cpu) t.elegido,
        rw (e, t.saca, t.toma) refl,
        Parcial-ready grado k t.elegido (quitar_soc_cpu j soc_cpu)
            (Parcial-soc grado k t.elegido j h soc_cpu) t.elegido refl,
      )
      | inr e ↦ (
        pasar_ready (liberar_cpu j t.cpu) y,
        rw (e, t.saca, t.toma) refl,
        Parcial-ready grado k t.elegido (liberar_cpu j t.cpu)
            (Parcial-libera grado k t.elegido j h t.cpu) y refl,
      )
    ]

-- `fin_ejecucion` for a CPU that executes a process: the process goes to EXIT with the type of its
-- end, the CPU is free, and one process more may come in. The state stays valid.
pub fin_ejecucion-Bien :
    (grado : ℕ) (k : Kernel) (tipo soc_cpu : ℤ)
    → Valido grado k
    → Ocupada k soc_cpu
    → (k' : Kernel) × (fin_ejecucion k tipo soc_cpu ≡ ok k') × Bien grado k k'
unfolding fin_ejecucion pasar_pcb_exit
fin_ejecucion-Bien grado k tipo soc_cpu v o =
    let t = turno_lem grado k soc_cpu v o in
    let j : Kernel = record k { lista_cpu = t.cpus; cola_exec = t.exec } in
    let h = Turno-Parcial grado k soc_cpu t v in
    let y : PcbOtros = record t.elegido { tipo_fin_ejecucion = tipo } in
    (
      pasar_pcb_exit (liberar_cpu j t.cpu) (some y),
      rw (t.saca, t.toma) refl,
      Parcial-exit grado k t.elegido (liberar_cpu j t.cpu)
          (Parcial-libera grado k t.elegido j h t.cpu) y refl,
    )

-- A wrong call (a semaphore or a variable that does not exist) ends the process in the same way, and
-- the CPU is told the error.
pub llamada_erronea-Bien :
    (grado : ℕ) (k : Kernel) (soc_cpu tipo_error : ℤ)
    → Valido grado k
    → Ocupada k soc_cpu
    → (k' : Kernel) × (llamada_erronea k soc_cpu tipo_error
        ≡ ok (k', avisar soc_cpu tipo_error ∷ []))
      × Bien grado k k'
unfolding llamada_erronea pasar_pcb_exit
llamada_erronea-Bien grado k soc_cpu tipo_error v o =
    let t = turno_lem grado k soc_cpu v o in
    let j : Kernel = record k { lista_cpu = t.cpus; cola_exec = t.exec } in
    let h = Turno-Parcial grado k soc_cpu t v in
    let y : PcbOtros = record t.elegido { tipo_fin_ejecucion = tipo_error } in
    (
      pasar_pcb_exit (liberar_cpu j t.cpu) (some y),
      rw (t.saca, t.toma) refl,
      Parcial-exit grado k t.elegido (liberar_cpu j t.cpu)
          (Parcial-libera grado k t.elegido j h t.cpu) y refl,
    )

-- The process of the CPU `soc_cpu` in `k` is blocked in `k'`: it has left EXEC, and stands at the end of
-- BLOCK with the place `lugar`; READY is as it was.
pub record Bloqueado (k : Kernel) (soc_cpu : ℤ) (lugar : MenQuantumPcb) (k' : Kernel) : Type 0 where
  pub cpu : Cpu
  pub cpus : List Cpu
  pub proceso : PcbOtros
  pub exec : List PcbOtros
  pub esta : list_remove (λ c. c.soc_cpu ==ℤ soc_cpu) k.lista_cpu ≡ some (cpu, cpus)
  pub ejecuta :
      rotar_hasta (length k.cola_exec) (λ y. cpu.id_prog_exec ==ℤ y.pcb.id) k.cola_exec
      ≡ (some proceso, exec)
  pub es_suyo : proceso.pcb.id ≡ cpu.id_prog_exec
  pub sin_el : k'.cola_exec ≡ exec
  pub en_block : k'.cola_block ≡ k.cola_block ++ (recv_actualizar_pcb lugar proceso ∷ [])
  pub en_ready : k'.cola_ready ≡ k.cola_ready

-- The dictionaries do not matter for it.
abbrev pub Bloqueado-dicc :
    {k k' : Kernel} {soc_cpu : ℤ} {lugar : MenQuantumPcb} (sem sem' : List (List ℕ × Semaforo))
    (io' : List (List ℕ × Io))
    → Bloqueado k soc_cpu lugar k'
    → Bloqueado
        (record k { dicc_sem = sem })
        soc_cpu
        lugar
        (record k' { dicc_sem = sem'; dicc_disp_io = io' })
Bloqueado-dicc sem sem' io' b = record {
  cpu = b.cpu;
  cpus = b.cpus;
  proceso = b.proceso;
  exec = b.exec;
  esta = b.esta;
  ejecuta = b.ejecuta;
  es_suyo = b.es_suyo;
  sin_el = b.sin_el;
  en_block = b.en_block;
  en_ready = b.en_ready;
}

-- A process that is blocked leaves its CPU: it goes to BLOCK, and the CPU is free, or gone if it
-- says that it closes.
pub bloquear-Bien :
    (grado : ℕ) (k : Kernel) (soc_cpu : ℤ) (sig : Siguientes)
    → Valido grado k
    → Ocupada k soc_cpu
    → (c : Cpu) × (j k' : Kernel) × (get_cpu_soc_cpu_remove k soc_cpu ≡ ok (c, j))
      × (actualizar_pcb_y_bloq j c (llegan sig) ≡ ok (k', c.id_prog_exec))
      × Bien grado k k'
      × (k'.dicc_sem ≡ k.dicc_sem)
      × (k'.dicc_disp_io ≡ k.dicc_disp_io)
      × (j ≡ record k { lista_cpu = j.lista_cpu })
      × (b : Bloqueado k soc_cpu sig.pcb k') × (b.cpu ≡ c)
unfolding actualizar_pcb_y_bloq recv_actualizar_pcb
bloquear-Bien grado k soc_cpu sig v o =
    let t = turno_lem grado k soc_cpu v o in
    let j : Kernel = record k { lista_cpu = t.cpus; cola_exec = t.exec } in
    let h = Turno-Parcial grado k soc_cpu t v in
    let y = recv_actualizar_pcb sig.pcb t.elegido in
    let bloqueado : (k' : Kernel)
        → k'.cola_exec ≡ t.exec
        → k'.cola_block ≡ k.cola_block ++ (y ∷ [])
        → k'.cola_ready ≡ k.cola_ready
        → Bloqueado k soc_cpu sig.pcb k' =
      λ k' p q r. record {
        cpu = t.cpu;
        cpus = t.cpus;
        proceso = t.elegido;
        exec = t.exec;
        esta = t.esta;
        ejecuta = t.ejecuta;
        es_suyo = t.es_suyo;
        sin_el = p;
        en_block = q;
        en_ready = r;
      } in
    elim (Bool-cases (sig.cerrar.tam_dato ==ℤ pos 0)) [
      | inl e ↦
          let i = liberar_cpu j t.cpu in
          (
            t.cpu,
            record k { lista_cpu = t.cpus },
            record i { cola_block = i.cola_block ++ (y ∷ []) },
            t.saca,
            rw (e, t.toma, t.es_suyo) refl,
            Parcial-block grado k t.elegido i (Parcial-libera grado k t.elegido j h t.cpu) y refl,
            refl,
            refl,
            refl,
            bloqueado _ refl refl refl,
            refl,
          )
      | inr e ↦
          let i = quitar_soc_cpu j t.cpu.soc_cpu in
          (
            t.cpu,
            record k { lista_cpu = t.cpus },
            record i { cola_block = i.cola_block ++ (y ∷ []) },
            t.saca,
            rw (e, t.toma, t.es_suyo) refl,
            Parcial-block grado k t.elegido i (Parcial-soc grado k t.elegido j h t.cpu.soc_cpu) y
                refl,
            refl,
            refl,
            refl,
            bloqueado _ refl refl refl,
            refl,
          )
    ]

get_cpu_soc_cpu_remove-eq :
    (k : Kernel) (soc_cpu : ℤ) (c : Cpu) (resto : List Cpu)
    → list_remove (λ c. c.soc_cpu ==ℤ soc_cpu) k.lista_cpu ≡ some (c, resto)
    → get_cpu_soc_cpu_remove k soc_cpu ≡ ok (c, record k { lista_cpu = resto })
unfolding get_cpu_soc_cpu_remove sacar_cpu
get_cpu_soc_cpu_remove-eq k soc_cpu c resto e = ground (arith, e)

-- The state with the CPU's connection closed: its process, if it has one, goes back to READY, and
-- otherwise there is one free CPU less. It does not wait.
pub conec_cerrada_cpu-Bien :
    (grado : ℕ) (k : Kernel) (soc_cpu : ℤ) (c : Cpu) (resto : List Cpu)
    → Valido grado k
    → list_remove (λ c. c.soc_cpu ==ℤ soc_cpu) k.lista_cpu ≡ some (c, resto)
    → (k' : Kernel) × (conec_cerrada_cpu k soc_cpu ≡ ok k') × Bien grado k k'
unfolding conec_cerrada_cpu
conec_cerrada_cpu-Bien grado k soc_cpu c resto v e = elim (Bool-cases (c.id_prog_exec ==ℤ pos 0)) [
  | inl z ↦
      let q = list_remove-en_cpus (λ c. c.soc_cpu ==ℤ soc_cpu) k.lista_cpu c resto e in
      let hay : k.cant_cpu_libres ≡ suc (en_cpus (pos 0) resto) =
        ground (arith, v.libres, q.1 (pos 0)) in
      (
        record (quitar_soc_cpu k soc_cpu) {
          lista_cpu = resto;
          cant_cpu_libres = en_cpus (pos 0) resto;
        },
        rw (get_cpu_soc_cpu_remove-eq k soc_cpu c resto e, z, hay) refl,
        record {
          valido = record {
            nuevos = v.nuevos;
            listos = v.listos;
            salidos = v.salidos;
            libres = refl;
            ocupadas = λ id ne. ground (arith, v.ocupadas id ne, q.1 id);
            numerados = v.numerados;
            multiprog = v.multiprog;
          };
          mismos = λ id. refl;
        },
      )
  | inr z ↦
      let o : Ocupada k soc_cpu = record {
        cpu = c;
        resto = resto;
        esta = e;
        activa = λ q. absurd (ground arith);
      } in
      let t = turno_lem grado k soc_cpu v o in
      let j : Kernel = record k { lista_cpu = t.cpus; cola_exec = t.exec } in
      let activa : (t.cpu.id_prog_exec ==ℤ pos 0) ≡ false = ground (arith, t.activa) in
      (
        pasar_ready (quitar_soc_cpu j soc_cpu) t.elegido,
        rw (t.saca, activa, t.toma) refl,
        Parcial-ready grado k t.elegido (quitar_soc_cpu j soc_cpu)
            (Parcial-soc grado k t.elegido j (Turno-Parcial grado k soc_cpu t v) soc_cpu) t.elegido
            refl,
      )
]

-- A CPU that connects is free.
pub ingresar_new_cpu-Bien :
    (grado : ℕ) (k : Kernel) (new_soc_cpu : ℤ)
    → Valido grado k
    → Bien grado k (ingresar_new_cpu k new_soc_cpu).0
unfolding ingresar_new_cpu
ingresar_new_cpu-Bien grado k new_soc_cpu v =
    let d : Cpu = record { soc_cpu = new_soc_cpu; soc_prog = pos 0; id_prog_exec = pos 0 } in
    record {
      valido = record {
        nuevos = v.nuevos;
        listos = v.listos;
        salidos = v.salidos;
        libres = omega (arith, v.libres, en_cpus-push (pos 0) k.lista_cpu d);
        ocupadas = λ id ne. ground (arith, v.ocupadas id ne, en_cpus-push id k.lista_cpu d);
        numerados = v.numerados;
        multiprog = v.multiprog;
      };
      mismos = λ id. refl;
    }
