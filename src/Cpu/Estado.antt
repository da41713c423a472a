-- ===== src/Cpu/Estado.antt =====
-- The globals of CPU/cpu.c, with the other ends of its two connections, and its messages to the UMV and the
-- kernel. The thread of the UMV that serves this CPU does a round for each message that it is sent.
use tp_2014_1c_tp_so.Base.{ℕ, Bool, false, ◌+◌, List, [], ◌∷◌, ◌++◌, Option, none, length}
use tp_2014_1c_tp_so.Base.Int.{ℤ, pos}
use tp_2014_1c_tp_so.Base.Outcome.{Outcome, ok, espera, ◌>>=◌}
use tp_2014_1c_tp_so.Mensajes.{Pcb, MenComun, MenQuantumPcb, crear_men_comun, aviso}
use tp_2014_1c_tp_so.Mensajes.Tipos
use tp_2014_1c_tp_so.Sockets.CpuUmv.{crear_men_cpu_umv}
use tp_2014_1c_tp_so.Umv.Estado.{Umv}
use tp_2014_1c_tp_so.Umv.Sesion.{Entorno, SesionCpu, atender_cpu}
use tp_2014_1c_tp_so.Kernel.Servicios.{Texto}

-- What the CPU sends to the kernel.
pub data AlKernel : Type 0 where
  comun : MenComun → AlKernel
  quantum_pcb : MenQuantumPcb → AlKernel

-- `umv` and `sesion` are the state of the thread at the other end of `soc_umv`; `entrada` is what
-- the kernel sends on `soc_kernel` before it closes it, and `salida` what was sent to it.
pub record Maquina : Type 0 where
  pub pcb : Pcb
  pub dic_variables : List (List ℕ × ℤ)
  pub quantum_max : ℤ
  pub etiquetas : List ℕ
  pub fue_fin_ejecucion : Bool
  pub hubo_seg_fault : Bool
  pub quit_sistema : Bool
  pub umv : Umv
  pub sesion : SesionCpu
  pub entrada : List MenComun
  pub salida : List AlKernel

-- What the code calls that is not the repository's: the text functions (`string_trim` of the
-- commons library too), the parser's `metadata_buscar_etiqueta`, what a block of memory holds that
-- nobody wrote (`sin_valor`, the variable `valor` of `dereferenciar`) and what stands after the
-- two bytes of a block with a name (`tras_clave`). A string is its bytes without the final 0.
pub record Externo : Type 0 where
  pub umv : Entorno
  pub texto : Texto
  pub string_trim : List ℕ → List ℕ
  pub metadata_buscar_etiqueta : List ℕ → List ℕ → ℤ → ℤ
  pub sin_valor : Maquina → ℤ
  pub tras_clave : Maquina → List ℕ

-- `enviar_men_comun_destruir(soc_kernel, …)`
unfoldable pub al_kernel : Maquina → MenComun → Maquina
al_kernel m men = record m { salida = m.salida ++ (comun men ∷ []) }

-- A string and its end: `string_length(s)+BARRA_CERO` bytes.
abbrev pub con_cadena : ℤ → List ℕ → MenComun
con_cadena tipo s = crear_men_comun tipo (s ++ (0 ∷ [])) (pos (length s + 1))

-- `socket_recv_comun(soc_kernel)`
unfoldable pub del_kernel : Maquina → MenComun × Maquina
del_kernel m = elim m.entrada [
  | [] ↦ (aviso Tipos.conec_cerrada, m)
  | men ∷ resto ↦ (men, record m { entrada = resto })
]

-- `recibir_resp_kernel`: any other type than the one expected is only printed.
unfoldable pub recibir_resp_kernel : Maquina → Maquina
unfolding del_kernel
recibir_resp_kernel m = (del_kernel m).1

-- `enviar_pcb_destruir`
unfoldable pub enviar_pcb : Maquina → Maquina
enviar_pcb m = record m {
  salida =
      m.salida
      ++ (quantum_pcb (record { tipo = Tipos.pcb_y_quantum; quantum = pos 0; pcb = m.pcb }) ∷ []);
}

-- While the CPU has a process, the handler closes no connection.
abbrev pub signal_handler : Maquina → Maquina
signal_handler m = record m { quit_sistema = false }

abbrev pub limpiar_destruir_dic_var : Maquina → Maquina
limpiar_destruir_dic_var m = record m { dic_variables = [] }

-- A copy of the string, trimmed.
abbrev pub sacar_caracteres_escape : Externo → List ℕ → List ℕ
sacar_caracteres_escape x un_string = x.string_trim un_string

module _ (x : Externo) where
  -- `enviar_men_cpu_umv_destruir`, and the round of the UMV's thread: its answers, if any.
  unfoldable pub enviar_men_cpu_umv :
      Maquina → ℤ → ℤ → ℤ → ℤ → Option (List ℕ) → Outcome (List MenComun × Maquina)
  enviar_men_cpu_umv m tipo base offset tam buffer =
      crear_men_cpu_umv tipo base offset tam buffer >>= λ men.
      atender_cpu x.umv m.umv m.sesion men >>= λ r. ok (r.2, record m { umv = r.0; sesion = r.1 })

  -- The same, and `socket_recv_comun(soc_umv)`, which waits where no answer comes.
  unfoldable pub pedir : Maquina → ℤ → ℤ → ℤ → ℤ → Option (List ℕ) → Outcome (MenComun × Maquina)
  unfolding enviar_men_cpu_umv
  pedir m tipo base offset tam buffer = enviar_men_cpu_umv m tipo base offset tam buffer >>= λ r.
      elim r.0 [ [] ↦ espera | men ∷ _ ↦ ok (men, r.1) ]

  unfoldable pub cambio_pa : Maquina → ℤ → Outcome Maquina
  cambio_pa m id_proc =
      enviar_men_cpu_umv m Tipos.cambio_pa id_proc (pos 0) (pos 0) none >>= λ r. ok r.1
