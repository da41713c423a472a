-- ===== src/Cpu/Conexion.antt =====
-- The handshakes of CPU/cpu.c. `soc` is what the other side sends before it closes the connection.
use tp_2014_1c_tp_so.Base.{ℕ, Bool, List}
use tp_2014_1c_tp_so.Base.Int.{◌==ℤ◌}
use tp_2014_1c_tp_so.Base.Outcome.{Outcome, ok, ◌>>=◌}
use tp_2014_1c_tp_so.Mensajes.{aviso}
use tp_2014_1c_tp_so.Mensajes.Tipos.{hs_kernel, hs_cpu, hs_umv}
use tp_2014_1c_tp_so.Sockets.Comun.{socket_send_comun, socket_recv_comun}

-- What is sent, whether the answer was the expected one (it is only printed), and what is left.
unfoldable pub handshake_umv : List ℕ → Outcome (List ℕ × Bool × List ℕ)
handshake_umv soc = socket_send_comun (aviso hs_cpu) >>= λ bytes.
    socket_recv_comun soc >>= λ r. ok (bytes, r.0.tipo ==ℤ hs_umv, r.1)

unfoldable pub handshake_kernel : List ℕ → Outcome (List ℕ × Bool × List ℕ)
handshake_kernel soc = socket_send_comun (aviso hs_cpu) >>= λ bytes.
    socket_recv_comun soc >>= λ r. ok (bytes, r.0.tipo ==ℤ hs_kernel, r.1)
