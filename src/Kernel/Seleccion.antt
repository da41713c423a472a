-- ===== src/Kernel/Seleccion.antt =====
-- A round of the threads `plp` and `pcp` of kernel/kernel.c: what `socket_select` has found is served, from
-- the lowest socket to the highest.
pub mod Vigilados
pub mod Clientes
use tp_2014_1c_tp_so.Base.{
  ℕ, zero, suc, ◌+◌, Bool, true, false, List, [], ◌∷◌, ◌++◌, max, if◌then◌else◌,
}
use tp_2014_1c_tp_so.Base.Int.{ℤ, pos, pos_part, ltb_ℤ, leb_ℤ, ◌==ℤ◌}
use tp_2014_1c_tp_so.Base.Outcome.{Outcome, ok, ◌>>=◌}
use tp_2014_1c_tp_so.Sockets.Comun.{socket_recv_comun}
use tp_2014_1c_tp_so.Kernel.Estado.{Kernel, Envio, Recepcion}
use tp_2014_1c_tp_so.Kernel.Cpus.{ingresar_new_cpu}
use tp_2014_1c_tp_so.Kernel.Servicios.{Texto, administrar_men_cpus}
use tp_2014_1c_tp_so.Kernel.Programas.{Entorno, Respuestas, administrar_men_progs}
use tp_2014_1c_tp_so.Kernel.Conexion.{handshake_cpu, ingresar_nuevo_programa}

-- What a round finds: `FD_ISSET(_, &read_fds)`, the socket that `socket_accept` gives, and what comes
-- on each socket before the other side closes it.
pub record Seleccion : Type 0 where
  pub listos : ℤ → Bool
  pub listener : ℤ
  pub new_soc : ℤ
  pub llega : ℤ → List ℕ

module _ (s : Seleccion) (ingresar : Kernel → ℤ → Outcome (Kernel × List Envio))
    (administrar : Kernel → ℤ → Outcome (Kernel × List Envio)) where
  -- What is done for one socket; `fdmax` grows with a connection.
  unfoldable pub atender_fd : Kernel → ℤ → ℤ → Outcome (Kernel × ℤ × List Envio)
  atender_fd k fdmax num_fd =
      if s.listos num_fd
      then (if num_fd ==ℤ s.listener
          then (ingresar k s.new_soc >>= λ r.
              ok (r.0, (if ltb_ℤ fdmax s.new_soc then s.new_soc else fdmax), r.1))
          else administrar k num_fd >>= λ r. ok (r.0, fdmax, r.1))
      else ok (k, fdmax, [])

  -- `for(; num_fd <= fdmax; num_fd++)`
  unfoldable pub recorrer_fds : ℕ → Kernel → ℤ → ℕ → Outcome (Kernel × ℤ × List Envio)
  unfolding atender_fd
  recorrer_fds zero k fdmax num_fd = ok (k, fdmax, [])
  recorrer_fds (suc n) k fdmax num_fd = elim (leb_ℤ (pos num_fd) fdmax) [
    | false ↦ ok (k, fdmax, [])
    | true ↦ atender_fd k fdmax (pos num_fd) >>= λ r.
        recorrer_fds n r.0 r.1 (num_fd + 1) >>= λ q. ok (q.0, q.1, r.2 ++ q.2)
  ]

  -- The loop begins at 3, after the standard files; it has no more rounds than this.
  abbrev pub ronda : Kernel → ℤ → Outcome (Kernel × ℤ × List Envio)
  ronda k fdmax = recorrer_fds (max (pos_part fdmax) (pos_part s.new_soc)) k fdmax 3

-- The answers of the UMV to a script are those that come in this round.
unfoldable pub plp :
    Entorno → (ℤ → Respuestas) → Seleccion → Kernel → ℤ → Outcome (Kernel × ℤ × List Envio)
unfolding recorrer_fds
plp e respuestas s =
    ronda s (λ k new_soc. ingresar_nuevo_programa k new_soc (s.llega new_soc))
      (λ k num_fd. socket_recv_comun (s.llega num_fd) >>= λ r.
        ok (administrar_men_progs e k num_fd r.0 (respuestas num_fd)))

unfoldable pub pcp :
    Texto → (ℤ → Recepcion) → Seleccion → Kernel → ℤ → Outcome (Kernel × ℤ × List Envio)
unfolding recorrer_fds
pcp t siguientes s =
    ronda s (λ k new_soc. handshake_cpu (s.llega new_soc) >>= λ r. ok (ingresar_new_cpu k new_soc))
      (λ k num_fd. socket_recv_comun (s.llega num_fd) >>= λ r.
        administrar_men_cpus t k num_fd r.0 (siguientes num_fd))
