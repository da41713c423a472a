-- ===== src/Kernel/Planificador.antt =====
-- The threads of kernel/kernel.c that move processes between the queues, a round each: the semaphores
-- that it waits on, and then its critical section.
use tp_2014_1c_tp_so.Base.{
  ℕ, ◌+◌, ◌-◌, List, [], ◌∷◌, ◌++◌, Option, none, some, length, if◌then◌else◌, list_remove,
}
use tp_2014_1c_tp_so.Base.Int.{ℤ, pos, negsuc, pos_part, ltb_ℤ, leb_ℤ, ◌==ℤ◌}
use tp_2014_1c_tp_so.Base.Words.{sub32, mul32}
use tp_2014_1c_tp_so.Base.Outcome.{Outcome, ok, fault, ◌>>=◌}
use tp_2014_1c_tp_so.Mensajes.Tipos.{pcb_y_quantum, destr_segs}
use tp_2014_1c_tp_so.Kernel.Estado.{
  Cpu, PcbOtros, Io, Semaforo, Kernel, Envio, a_cpu, a_umv, avisar, sem_decre,
}
use tp_2014_1c_tp_so.Base.Diccionario.{dictionary_get, dictionary_put}
use tp_2014_1c_tp_so.Kernel.Colas.{get_peso_min, pasar_ready, pasar_pcb_block_ready}

unfoldable pub manejador_new_ready : Kernel → Outcome Kernel
manejador_new_ready k = sem_decre k.cant_new >>= λ n. sem_decre k.cant_multiprog >>= λ m.
    let r = get_peso_min (record k { cant_new = n; cant_multiprog = m }) in
    elim r.0 [ none ↦ ok r.1 | some x ↦ ok (pasar_ready r.1 x) ]

-- The first free CPU, or `none` for a null pointer.
unfoldable pub get_cpu_libre_remove : Kernel → Option Cpu × Kernel
unfolding list_remove
get_cpu_libre_remove k = elim (list_remove (λ c. c.id_prog_exec ==ℤ pos 0) k.lista_cpu) [
  | none ↦ (none, k)
  | some (c, resto) ↦ (some c, record k { lista_cpu = resto })
]

-- The end of the round: the process goes to the CPU.
unfoldable pub ejecutar : Kernel → Cpu → PcbOtros → Kernel × List Envio
ejecutar k c x = (
  record k {
    lista_cpu = k.lista_cpu ++ (record c { id_prog_exec = x.pcb.id; soc_prog = x.n_socket } ∷ []);
    cola_exec = k.cola_exec ++ (x ∷ []);
  },
  a_cpu c.soc_cpu (record { tipo = pcb_y_quantum; quantum = k.quantum_max; pcb = x.pcb }) ∷ [],
)

unfoldable pub manejador_ready_exec : Kernel → Outcome (Kernel × List Envio)
manejador_ready_exec k = sem_decre k.cant_ready >>= λ n. sem_decre k.cant_cpu_libres >>= λ m.
    let r = get_cpu_libre_remove (record k { cant_ready = n; cant_cpu_libres = m }) in
    elim r.1.cola_ready [
      | [] ↦ ok (r.1, [])
      | x ∷ resto ↦ elim r.0 [
        | none ↦ fault
        | some c ↦ ok (ejecutar (record r.1 { cola_ready = resto }) c x)
      ]
    ]

unfoldable pub manejador_exit : Kernel → Outcome (Kernel × List Envio)
manejador_exit k = sem_decre k.cant_exit >>= λ n. elim k.cola_exit [
  | [] ↦ ok (record k { cant_exit = n }, [])
  | x ∷ resto ↦
      let destruir = a_umv (record { tipo = destr_segs; id_prog = x.pcb.id; tam_seg = pos 0 }) in
      ok (
        record k { cant_exit = n; cola_exit = resto },
        (if x.tipo_fin_ejecucion ==ℤ negsuc 0
            then destruir ∷ []
            else avisar x.n_socket x.tipo_fin_ejecucion ∷ destruir ∷ []),
      )
]

-- The thread of the device `nombre`.
unfoldable pub manejador_io : Kernel → List ℕ → Outcome Kernel
manejador_io k nombre = elim (dictionary_get nombre k.dicc_disp_io) [
  | none ↦ fault
  | some io ↦ sem_decre io.cont_cant_proc >>= λ n. elim io.procesos [
    | [] ↦ fault
    | p ∷ resto ↦ ok (
        pasar_pcb_block_ready
          (record k {
            dicc_disp_io =
                dictionary_put nombre (record io { cont_cant_proc = n; procesos = resto })
                  k.dicc_disp_io;
          })
          p.id_prog)
  ]
]

unfoldable pub cambiar_multiprog : Kernel → ℤ → Kernel
cambiar_multiprog k multiprog_nueva =
    let cant_progs = length k.cola_ready + length k.cola_block + length k.cola_exec in
    let dif = sub32 multiprog_nueva (pos (cant_progs + k.cant_multiprog)) in
    if ltb_ℤ (pos 0) dif
    then record k { cant_multiprog = k.cant_multiprog + pos_part dif }
    else if leb_ℤ (mul32 dif (negsuc 0)) (pos k.cant_multiprog)
    then record k { cant_multiprog = k.cant_multiprog - pos_part (mul32 dif (negsuc 0)) }
    else k

-- The state at the start, with what `levantar_config` reads of the configuration.
unfoldable pub crear_inicializar_estructuras :
    ℕ → ℤ → ℤ → List (List ℕ × Io) → List (List ℕ × ℤ) → List (List ℕ × Semaforo) → Kernel
crear_inicializar_estructuras multiprogramacion quantum_max tamanio_stack disp_io var sem = record {
  conj_soc_progs = [];
  conj_soc_cpus = [];
  contador_programa = pos 0;
  cola_new = [];
  cola_ready = [];
  cola_exec = [];
  cola_block = [];
  cola_exit = [];
  lista_cpu = [];
  cant_new = 0;
  cant_ready = 0;
  cant_exit = 0;
  cant_multiprog = multiprogramacion;
  cant_cpu_libres = 0;
  quantum_max = quantum_max;
  tamanio_stack = tamanio_stack;
  dicc_disp_io = disp_io;
  dicc_var = var;
  dicc_sem = sem;
}
