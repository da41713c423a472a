-- ===== src/Sistema/Espera.antt =====
-- `wait` of the CPU and of the kernel together.
use mathlib.Core.List.{append_assoc}
use tp_2014_1c_tp_so.Base.{
  ℕ, ◌≡◌, refl, ◌∙◌, ap, Bool, true, false, Bool-cases, inl, inr, List, [], ◌∷◌, ◌++◌, some, arith,
  if◌then◌else◌,
}
use tp_2014_1c_tp_so.Base.Int.{ℤ, pos, ltb_ℤ}
use tp_2014_1c_tp_so.Base.Words.{sub32}
use tp_2014_1c_tp_so.Base.Outcome.{ok}
use tp_2014_1c_tp_so.Base.Diccionario.{clave, clave_de, dictionary_get}
use tp_2014_1c_tp_so.Mensajes.{MenComun, aviso}
use tp_2014_1c_tp_so.Mensajes.Tipos
use tp_2014_1c_tp_so.Kernel.Estado.{Kernel, Semaforo, Siguientes, llegan, a_comun}
use tp_2014_1c_tp_so.Kernel.Servicios as Atencion
use tp_2014_1c_tp_so.Kernel.Invariante.{Valido, Ocupada}
use tp_2014_1c_tp_so.Kernel.Invariante.Semaforos.{SemHecho, wait_efecto}
use tp_2014_1c_tp_so.Cpu.Estado.{Maquina, comun, quantum_pcb, con_cadena, al_kernel, enviar_pcb}
use tp_2014_1c_tp_so.Cpu.Servicios.{enviar_cierre, wait}
use tp_2014_1c_tp_so.Sistema.{lugar_de, cierre_de}
use tp_2014_1c_tp_so.Sistema.Impresion.{EsCadena, cadena_nil, cadena_cons, con_cadena_lem}

clave-cadena : {s : List ℕ} → EsCadena s → clave (s ++ (0 ∷ [])) ≡ s
unfolding clave
clave-cadena cadena_nil = refl
clave-cadena (cadena_cons b h) = ground (arith, clave-cadena h)

pub clave_de-cadena : {s : List ℕ} → EsCadena s → clave_de (s ++ (0 ∷ [])) ≡ ok s
unfolding clave_de
clave_de-cadena cadena_nil = ap ok (clave-cadena cadena_nil)
clave_de-cadena (cadena_cons b h) = ap ok (clave-cadena (cadena_cons b h))

-- What the CPU does when the kernel answers that it may go on, or that the process is blocked.
sigue_lem :
    (m : Maquina) (nombre : List ℕ) (entrada : List MenComun)
    → wait (record m { entrada = aviso Tipos.sem_ok ∷ entrada }) nombre ≡ record m {
      entrada = entrada;
      salida = m.salida ++ (comun (con_cadena Tipos.wait nombre) ∷ []);
    }
unfolding wait al_kernel
sigue_lem m nombre entrada = refl

se_bloquea_lem :
    (m : Maquina) (nombre : List ℕ) (entrada : List MenComun)
    → wait (record m { entrada = aviso Tipos.sem_bloqueado ∷ entrada }) nombre ≡ record m {
      entrada = entrada;
      fue_fin_ejecucion = true;
      salida =
          m.salida
          ++ (comun (con_cadena Tipos.wait nombre)
              ∷ quantum_pcb (lugar_de m)
              ∷ comun (cierre_de Tipos.wait m)
              ∷ []);
    }
unfolding wait al_kernel enviar_pcb enviar_cierre
se_bloquea_lem m nombre entrada = elim (Bool-cases m.quit_sistema) [
  | inl h ↦
      rw
        (
          h,
          append_assoc (m.salida ++ (comun (con_cadena Tipos.wait nombre) ∷ [])),
          append_assoc m.salida,
        )
        refl
  | inr h ↦
      rw
        (
          h,
          append_assoc (m.salida ++ (comun (con_cadena Tipos.wait nombre) ∷ [])),
          append_assoc m.salida,
        )
        refl
]

-- The machine after `wait`, if it may go on or is blocked.
abbrev pub tras_wait : Bool → Maquina → List ℕ → List MenComun → Maquina
tras_wait true m nombre entrada = record m {
  entrada = entrada;
  salida = m.salida ++ (comun (con_cadena Tipos.wait nombre) ∷ []);
}
tras_wait false m nombre entrada = record m {
  entrada = entrada;
  fue_fin_ejecucion = true;
  salida =
      m.salida
      ++ (comun (con_cadena Tipos.wait nombre)
          ∷ quantum_pcb (lugar_de m)
          ∷ comun (cierre_de Tipos.wait m)
          ∷ []);
}

-- `wait` of the CPU that executes a process, and of the kernel, on a semaphore that exists. The
-- kernel answers the CPU's message and its state stays valid, with the semaphore one lower. The CPU
-- takes one message off its connection and nothing more. If the semaphore was above 0 it goes on,
-- and has sent its message alone; else it stops the program, and has sent the process control block
-- and the message that says whether it closes, which are what the kernel read.
pub wait-wait :
    (grado : ℕ) (k : Kernel) (soc_cpu : ℤ) (sig : Siguientes) (s : Semaforo) (m : Maquina)
    (nombre : List ℕ) (entrada : List MenComun)
    → Valido grado k
    → Ocupada k soc_cpu
    → EsCadena nombre
    → dictionary_get nombre k.dicc_sem ≡ some s
    → (k' : Kernel) × (s' : Semaforo) × (respuesta : MenComun) × (Atencion.wait k soc_cpu
          (con_cadena Tipos.wait nombre)
          (llegan (record sig { pcb = lugar_de m; cerrar = cierre_de Tipos.wait m }))
        ≡ ok (k', a_comun soc_cpu respuesta ∷ []))
      × SemHecho grado k nombre k' s'
      × (s'.valor ≡ sub32 s.valor (pos 1))
      × (wait (record m { entrada = respuesta ∷ entrada }) nombre
          ≡ tras_wait (ltb_ℤ (pos 0) s.valor) m nombre entrada)
wait-wait grado k soc_cpu sig s m nombre entrada v o c h =
    let d : clave_de (con_cadena Tipos.wait nombre).dato ≡ ok nombre =
      ap (λ (w : MenComun). clave_de w.dato) (con_cadena_lem Tipos.wait nombre)
      ∙ clave_de-cadena c in
    let w =
      wait_efecto grado k soc_cpu (con_cadena Tipos.wait nombre)
        (record sig { pcb = lugar_de m; cerrar = cierre_de Tipos.wait m }) s nombre d v o h in
    (
      w.0,
      w.1,
      aviso (if ltb_ℤ (pos 0) s.valor then Tipos.sem_ok else Tipos.sem_bloqueado),
      w.2,
      w.3,
      w.4,
      elim (Bool-cases (ltb_ℤ (pos 0) s.valor)) [
        | inl e ↦ rw e (sigue_lem m nombre entrada)
        | inr e ↦ rw e (se_bloquea_lem m nombre entrada)
      ],
    )
