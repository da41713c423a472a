-- ===== src/Kernel/Conexion.antt =====
-- The connections of kernel/kernel.c: the handshakes with the CPUs, the programs and the UMV, and a program
-- that comes in. `soc` is what the other side sends before it closes the connection.
use tp_2014_1c_tp_so.Base.{ℕ, Bool, List, [], ◌∷◌}
use tp_2014_1c_tp_so.Base.Int.{ℤ, ◌==ℤ◌}
use tp_2014_1c_tp_so.Base.Outcome.{Outcome, ok, ◌>>=◌}
use tp_2014_1c_tp_so.Mensajes.{aviso}
use tp_2014_1c_tp_so.Mensajes.Tipos.{hs_kernel, hs_prog, hs_cpu, hs_umv}
use tp_2014_1c_tp_so.Sockets.Comun.{socket_send_comun, socket_recv_comun}
use tp_2014_1c_tp_so.Kernel.Estado.{Kernel, Envio, avisar}

-- What is sent, whether the message was the expected one (if not, that is printed), and what is left.
unfoldable pub handshake_cpu : List ℕ → Outcome (List ℕ × Bool × List ℕ)
handshake_cpu soc = socket_recv_comun soc >>= λ r.
    socket_send_comun (aviso hs_kernel) >>= λ bytes. ok (bytes, r.0.tipo ==ℤ hs_cpu, r.1)

unfoldable pub handshake_prog : List ℕ → Outcome (List ℕ × Bool × List ℕ)
handshake_prog soc = socket_recv_comun soc >>= λ r.
    socket_send_comun (aviso hs_kernel) >>= λ bytes. ok (bytes, r.0.tipo ==ℤ hs_prog, r.1)

unfoldable pub handshake_umv : List ℕ → Outcome (List ℕ × Bool × List ℕ)
handshake_umv soc = socket_send_comun (aviso hs_kernel) >>= λ bytes.
    socket_recv_comun soc >>= λ r. ok (bytes, r.0.tipo ==ℤ hs_umv, r.1)

-- The socket that `socket_accept` gave, and what comes on it: whatever the handshake is, `HS_KERNEL` is
-- sent and the client is watched from then on.
unfoldable pub ingresar_nuevo_programa : Kernel → ℤ → List ℕ → Outcome (Kernel × List Envio)
unfolding handshake_prog
ingresar_nuevo_programa k new_soc soc = handshake_prog soc >>= λ r.
    ok (record k { conj_soc_progs = new_soc ∷ k.conj_soc_progs }, avisar new_soc hs_kernel ∷ [])
