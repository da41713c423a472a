-- ===== src/Sockets/Secuencia.antt =====
-- Messages one after the other on a connection: what calls of `socket_recv_*` get of what calls of
-- `socket_send_*` put there.
use mathlib.Core.List.{append_assoc}
use tp_2014_1c_tp_so.Base.{ℕ, ◌≡◌, refl, List, [], ◌∷◌, ◌++◌, map}
use tp_2014_1c_tp_so.Base.Outcome.{Outcome, ok, ◌>>=◌}
use tp_2014_1c_tp_so.Mensajes.{MenComun, MenSeg, MenCpuUmv, MenQuantumPcb}
use tp_2014_1c_tp_so.Sockets.Enteros.{SonInt32}
use tp_2014_1c_tp_so.Sockets.Comun.{
  EsComun, socket_send_comun, socket_recv_comun, socket_recv_comun-socket_send_comun,
}
use tp_2014_1c_tp_so.Sockets.Pedido.{
  SegInt32, socket_send_seg, socket_recv_seg, socket_recv_seg-socket_send_seg,
}
use tp_2014_1c_tp_so.Sockets.CpuUmv.{
  EsCpuUmv, socket_send_cpu_umv, socket_recv_cpu_umv, socket_recv_cpu_umv-socket_send_cpu_umv,
}
use tp_2014_1c_tp_so.Sockets.QuantumPcb.{
  campos_quantum_pcb, socket_send_quantum_pcb, socket_recv_quantum_pcb,
  socket_recv_quantum_pcb-socket_send_quantum_pcb,
}

-- The common messages that a connection carries.
abbrev pub Enviables : List MenComun → Type 0
Enviables [] = Unit {0}
Enviables (m ∷ ms) = EsComun m × Enviables ms

-- One `socket_send_comun` after the other.
unfoldable pub enviar_todos : List MenComun → Outcome (List ℕ)
enviar_todos [] = ok []
enviar_todos (m ∷ ms) =
    socket_send_comun m >>= λ bytes. enviar_todos ms >>= λ resto. ok (bytes ++ resto)

-- A message of one of the four kinds.
pub data Mensaje : Type 0 where
  de_comun : MenComun → Mensaje
  de_seg : MenSeg → Mensaje
  de_cpu_umv : MenCpuUmv → Mensaje
  de_quantum_pcb : MenQuantumPcb → Mensaje

pub data Clase : Type 0 where
  es_comun : Clase
  es_seg : Clase
  es_cpu_umv : Clase
  es_quantum_pcb : Clase

abbrev pub clase : Mensaje → Clase
clase (de_comun m) = es_comun
clase (de_seg m) = es_seg
clase (de_cpu_umv m) = es_cpu_umv
clase (de_quantum_pcb m) = es_quantum_pcb

-- The messages whose fields fit an `int32_t` and whose lengths are those of their data.
abbrev pub Enviable : Mensaje → Type 0
Enviable (de_comun m) = EsComun m
Enviable (de_seg m) = SegInt32 m
Enviable (de_cpu_umv m) = EsCpuUmv m
Enviable (de_quantum_pcb m) = SonInt32 (campos_quantum_pcb m)

abbrev pub TodosEnviables : List Mensaje → Type 0
TodosEnviables [] = Unit {0}
TodosEnviables (m ∷ ms) = Enviable m × TodosEnviables ms

-- The call of `socket_send_*` for a message, and that of `socket_recv_*` for a kind.
unfoldable pub enviar_uno : Mensaje → Outcome (List ℕ)
enviar_uno (de_comun m) = socket_send_comun m
enviar_uno (de_seg m) = socket_send_seg m
enviar_uno (de_cpu_umv m) = socket_send_cpu_umv m
enviar_uno (de_quantum_pcb m) = socket_send_quantum_pcb m

unfoldable pub recibir_uno : Clase → List ℕ → Outcome (Mensaje × List ℕ)
recibir_uno es_comun soc = socket_recv_comun soc >>= λ r. ok (de_comun r.0, r.1)
recibir_uno es_seg soc = socket_recv_seg soc >>= λ r. ok (de_seg r.0, r.1)
recibir_uno es_cpu_umv soc = socket_recv_cpu_umv soc >>= λ r. ok (de_cpu_umv r.0, r.1)
recibir_uno es_quantum_pcb soc = socket_recv_quantum_pcb soc >>= λ r. ok (de_quantum_pcb r.0, r.1)

unfoldable pub enviar_varios : List Mensaje → Outcome (List ℕ)
enviar_varios [] = ok []
enviar_varios (m ∷ ms) = enviar_uno m >>= λ bytes. enviar_varios ms >>= λ resto. ok (bytes ++ resto)

unfoldable pub recibir_varios : List Clase → List ℕ → Outcome (List Mensaje × List ℕ)
recibir_varios [] soc = ok ([], soc)
recibir_varios (c ∷ cs) soc =
    recibir_uno c soc >>= λ r. recibir_varios cs r.1 >>= λ q. ok (r.0 ∷ q.0, q.1)

recibir_uno-enviar_uno :
    (m : Mensaje) (soc : List ℕ)
    → Enviable m
    → (bytes : List ℕ) × (enviar_uno m ≡ ok bytes)
      × (recibir_uno (clase m) (bytes ++ soc) ≡ ok (m, soc))
unfolding enviar_uno recibir_uno
recibir_uno-enviar_uno (de_comun m) soc h =
    let r = socket_recv_comun-socket_send_comun m soc h in (r.0, r.1, rw r.2 refl)
recibir_uno-enviar_uno (de_seg m) soc h =
    let r = socket_recv_seg-socket_send_seg m soc h in (r.0, r.1, rw r.2 refl)
recibir_uno-enviar_uno (de_cpu_umv m) soc h =
    let r = socket_recv_cpu_umv-socket_send_cpu_umv m soc h in (r.0, r.1, rw r.2 refl)
recibir_uno-enviar_uno (de_quantum_pcb m) soc h =
    let r = socket_recv_quantum_pcb-socket_send_quantum_pcb m soc h in (r.0, r.1, rw r.2 refl)

-- What one side sends with `socket_send_comun`, `socket_send_seg`, `socket_send_cpu_umv` and
-- `socket_send_quantum_pcb`, in any order, the other receives with the `socket_recv_*` of the same
-- kinds in that order: the same messages, with no bytes of one taken for those of another, and the
-- bytes that follow left on the connection. The fields of the messages fit an `int32_t`, and the
-- lengths in them are those of their data.
pub recibir_varios-enviar_varios :
    (ms : List Mensaje) (soc : List ℕ)
    → TodosEnviables ms
    → (bytes : List ℕ) × (enviar_varios ms ≡ ok bytes)
      × (recibir_varios (map clase ms) (bytes ++ soc) ≡ ok (ms, soc))
unfolding enviar_varios recibir_varios
recibir_varios-enviar_varios [] soc h = ([], refl, refl)
recibir_varios-enviar_varios (m ∷ ms) soc h =
    let resto = recibir_varios-enviar_varios ms soc h.1 in
    let uno = recibir_uno-enviar_uno m (resto.0 ++ soc) h.0 in
    (uno.0 ++ resto.0, rw (uno.1, resto.1) refl, rw (append_assoc uno.0, uno.2, resto.2) refl)
