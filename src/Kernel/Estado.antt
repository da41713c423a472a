-- ===== src/Kernel/Estado.antt =====
-- The globals of kernel/kernel.c and the records of kernel/kernel.h.
use tp_2014_1c_tp_so.Base.{ℕ, zero, suc, List, list_filter, not}
use tp_2014_1c_tp_so.Base.Int.{ℤ, ◌==ℤ◌}
use tp_2014_1c_tp_so.Base.Outcome.{Outcome, ok, espera}
use tp_2014_1c_tp_so.Mensajes.{Pcb, MenComun, MenSeg, MenQuantumPcb, aviso}

-- `t_cpu`
pub record Cpu : Type 0 where
  pub soc_cpu : ℤ
  pub soc_prog : ℤ
  pub id_prog_exec : ℤ

-- `t_pcb_otros`; each is in one queue at a time, or held by the function that took it out.
pub record PcbOtros : Type 0 where
  pub pcb : Pcb
  pub n_socket : ℤ
  pub peso : ℤ
  pub tipo_fin_ejecucion : ℤ

-- `t_IO_espera`
pub record IoEspera : Type 0 where
  pub id_prog : ℤ
  pub unidades : ℤ

-- `t_IO`
pub record Io : Type 0 where
  pub io_sleep : ℤ
  pub procesos : List IoEspera
  pub cont_cant_proc : ℕ

-- `t_semaforo`
pub record Semaforo : Type 0 where
  pub valor : ℤ
  pub procesos : List ℤ

-- The globals, with the five queues of `colas`. A `sem_t` is its count.
pub record Kernel : Type 0 where
  pub conj_soc_progs : List ℤ
  pub conj_soc_cpus : List ℤ
  pub contador_programa : ℤ
  pub cola_new : List PcbOtros
  pub cola_ready : List PcbOtros
  pub cola_exec : List PcbOtros
  pub cola_block : List PcbOtros
  pub cola_exit : List PcbOtros
  pub lista_cpu : List Cpu
  pub cant_new : ℕ
  pub cant_ready : ℕ
  pub cant_exit : ℕ
  pub cant_multiprog : ℕ
  pub cant_cpu_libres : ℕ
  pub quantum_max : ℤ
  pub tamanio_stack : ℤ
  pub dicc_disp_io : List (List ℕ × Io)
  pub dicc_var : List (List ℕ × ℤ)
  pub dicc_sem : List (List ℕ × Semaforo)

-- What the kernel sends, and to which socket.
pub data Envio : Type 0 where
  a_comun : ℤ → MenComun → Envio
  a_cpu : ℤ → MenQuantumPcb → Envio
  a_umv : MenSeg → Envio
  a_umv_dato : MenComun → Envio

-- A message of a type alone.
abbrev pub avisar : ℤ → ℤ → Envio
avisar soc tipo = a_comun soc (aviso tipo)

-- `sem_decre`
abbrev pub sem_decre : ℕ → Outcome ℕ
sem_decre zero = espera
sem_decre (suc n) = ok n

-- `FD_CLR`
abbrev pub fd_clr : ℤ → List ℤ → List ℤ
fd_clr soc conj = list_filter (λ s. not (s ==ℤ soc)) conj

-- The messages that a CPU sends after the one that says what happened, for the handlers that read
-- them: a number as text, the process control block, and whether the CPU closes.
pub record Siguientes : Type 0 where
  pub dato : MenComun
  pub pcb : MenQuantumPcb
  pub cerrar : MenComun

-- What the receptions of those messages give: a connection that the CPU closes in between makes
-- `socket_recv_quantum_pcb` follow a null pointer.
pub record Recepcion : Type 0 where
  pub dato : Outcome MenComun
  pub pcb : Outcome MenQuantumPcb
  pub cerrar : Outcome MenComun

-- All three come whole.
abbrev pub llegan : Siguientes → Recepcion
llegan s = record { dato = ok s.dato; pcb = ok s.pcb; cerrar = ok s.cerrar }
