-- ===== src/Kernel/Seleccion/Clientes.antt =====
-- The clients that `plp` of kernel/kernel.c watches.
use mathlib.Core.Logic.Or
use tp_2014_1c_tp_so.Base.{ℕ, ◌≡◌, ◌≢◌, true, List, Mem, ◌⊎◌}
use tp_2014_1c_tp_so.Base.Int.{ℤ, ◌≤ℤ◌}
use tp_2014_1c_tp_so.Base.Outcome.{Outcome, ok, ◌>>=◌}
use tp_2014_1c_tp_so.Mensajes.{MenComun}
use tp_2014_1c_tp_so.Sockets.Comun.{socket_recv_comun}
use tp_2014_1c_tp_so.Kernel.Estado.{Kernel, Envio, fd_clr}
use tp_2014_1c_tp_so.Kernel.Programas.{Entorno, Respuestas, administrar_men_progs}
use tp_2014_1c_tp_so.Kernel.Conexion.{ingresar_nuevo_programa}
use tp_2014_1c_tp_so.Kernel.Seleccion.{Seleccion}

-- No socket of the set is above `fdmax`, so that `select` sees them all.
abbrev pub Vigilados : Kernel → ℤ → Type 0
Vigilados k fdmax = (fd : ℤ) → Mem fd k.conj_soc_progs → fd ≤ℤ fdmax

-- The set is the same, or without that socket.
abbrev Menos : ℤ → List ℤ → List ℤ → Type 0
Menos soc_prog antes despues = (despues ≡ antes) ⊎ (despues ≡ fd_clr soc_prog antes)

-- What has come on a socket is a message, or the end of the connection.
abbrev pub Recibe : List ℕ → Type 0
Recibe soc = (r : MenComun × List ℕ) × (socket_recv_comun soc ≡ ok r)

module _ (e : Entorno) (respuestas : ℤ → Respuestas) (s : Seleccion) where
  abbrev pub ingresar : Kernel → ℤ → Outcome (Kernel × List Envio)
  ingresar k new_soc = ingresar_nuevo_programa k new_soc (s.llega new_soc)

  abbrev pub administrar : Kernel → ℤ → Outcome (Kernel × List Envio)
  administrar k num_fd = socket_recv_comun (s.llega num_fd) >>= λ r.
      ok (administrar_men_progs e k num_fd r.0 (respuestas num_fd))

  -- The messages that the round waits for come.
  pub record Llegan : Type 0 where
    pub de_cliente : (fd : ℤ) → s.listos fd ≡ true → fd ≢ s.listener → Recibe (s.llega fd)
    pub de_nuevo : s.listos s.listener ≡ true → Recibe (s.llega s.new_soc)

  abbrev Sigue : Kernel → ℤ → Outcome (Kernel × ℤ × List Envio) → Type 0
  Sigue k fdmax o = (r : Kernel × ℤ × List Envio) × (o ≡ ok r) × Vigilados r.0 r.1 × (fdmax ≤ℤ r.1)
