-- ===== src/Kernel/Seleccion/Vigilados.antt =====
-- What a round of `plp` and `pcp` does and keeps.

use tp_2014_1c_tp_so.Base.{
  ℕ, zero, suc, ◌+◌, ◌≤◌, ◌<◌, ◌≡◌, refl, true, false, List, [], ◌∷◌, ◌++◌, max, list_filter, arith,
  Bool-cases, inl, inr, if◌then◌else◌,
}
use tp_2014_1c_tp_so.Base.Int.{ℤ, pos, pos_part, leb_ℤ, ◌≤ℤ◌}
use tp_2014_1c_tp_so.Base.Outcome.{Outcome, ok, ◌>>=◌, >>=-ap, >>=-ok}
use tp_2014_1c_tp_so.Kernel.Estado.{Kernel, Envio}
use tp_2014_1c_tp_so.Kernel.Seleccion.{Seleccion, atender_fd, recorrer_fds}

-- The numbers from `m` on.
abbrev pub rango : ℕ → ℕ → List ℕ
rango m zero = []
rango m (suc n) = m ∷ rango (m + 1) n

module _ (s : Seleccion) (ingresar : Kernel → ℤ → Outcome (Kernel × List Envio))
    (administrar : Kernel → ℤ → Outcome (Kernel × List Envio)) where
  -- `fdmax` is the same or the new socket, and not lower.
  atender_fd-fdmax :
      (k : Kernel) (fdmax num_fd : ℤ) (r : Kernel × ℤ × List Envio)
      → atender_fd s ingresar administrar k fdmax num_fd ≡ ok r
      → (fdmax ≤ℤ r.1)
        × (max (pos_part r.1) (pos_part s.new_soc) ≤ max (pos_part fdmax) (pos_part s.new_soc))
  unfolding atender_fd
  atender_fd-fdmax k fdmax num_fd r h = ground arith

  -- More rounds than there are sockets change nothing.
  pub recorrer_fds-more :
      (n : ℕ) (k : Kernel) (fdmax : ℤ) (num_fd : ℕ)
      → max (pos_part fdmax) (pos_part s.new_soc) < num_fd + n
      → recorrer_fds s ingresar administrar (suc n) k fdmax num_fd
        ≡ recorrer_fds s ingresar administrar n k fdmax num_fd
  unfolding recorrer_fds
  recorrer_fds-more zero k fdmax num_fd h =
      let fin : leb_ℤ (pos num_fd) fdmax ≡ false = ground arith in rw (fin, recorrer_fds) refl
  recorrer_fds-more (suc n) k fdmax num_fd h = elim (Bool-cases (leb_ℤ (pos num_fd) fdmax)) [
    | inr e ↦ rw (e, recorrer_fds) refl
    | inl e ↦
        rw (e, recorrer_fds)
          (>>=-ap (atender_fd s ingresar administrar k fdmax (pos num_fd)) _ _ (λ r q.
            rw
              (recorrer_fds-more n r.0 r.1 (num_fd + 1)
                (omega (arith, h, atender_fd-fdmax k fdmax (pos num_fd) r q)))
              refl))
  ]

  -- The sockets that are ready, from the lowest to the highest.
  abbrev pub listos_desde : ℕ → ℕ → List ℕ
  listos_desde n num_fd = list_filter (λ fd. s.listos (pos fd)) (rango num_fd n)

  -- Each socket of a list is served once, in its order.
  unfoldable pub todos : List ℕ → Kernel → ℤ → Outcome (Kernel × ℤ × List Envio)
  todos [] k fdmax = ok (k, fdmax, [])
  todos (fd ∷ fds) k fdmax = atender_fd s ingresar administrar k fdmax (pos fd) >>= λ r.
      todos fds r.0 r.1 >>= λ q. ok (q.0, q.1, r.2 ++ q.2)

  -- The sockets that are ready are among those that the loop goes over.
  abbrev pub Alcanzados : ℤ → Type 0
  Alcanzados fdmax = (fd : ℕ) → s.listos (pos fd) ≡ true → pos fd ≤ℤ fdmax

  ninguno :
      (n : ℕ) (fdmax : ℤ) (num_fd : ℕ)
      → Alcanzados fdmax
      → leb_ℤ (pos num_fd) fdmax ≡ false
      → listos_desde n num_fd ≡ []
  unfolding list_filter
  ninguno zero fdmax num_fd h e = refl
  ninguno (suc n) fdmax num_fd h e =
      let resto = ninguno n fdmax (num_fd + 1) h (ground arith) in
      elim (Bool-cases (s.listos (pos num_fd))) [
        | inl l ↦ let m = h num_fd l in absurd (ground arith)
        | inr l ↦ rw l resto
      ]

  listos_desde-suc :
      (n num_fd : ℕ)
      → listos_desde (suc n) num_fd ≡ (
          if s.listos (pos num_fd)
          then num_fd ∷ listos_desde n (num_fd + 1)
          else listos_desde n (num_fd + 1))
  unfolding list_filter
  listos_desde-suc n num_fd = refl

  no_listo :
      (k : Kernel) (fdmax num_fd : ℤ)
      → s.listos num_fd ≡ false
      → atender_fd s ingresar administrar k fdmax num_fd ≡ ok (k, fdmax, [])
  unfolding atender_fd
  no_listo k fdmax num_fd h = rw h refl

  -- The loop, whose bound grows as it goes, serves the ready sockets and no other.
  pub recorrer_fds-todos :
      (n : ℕ) (k : Kernel) (fdmax : ℤ) (num_fd : ℕ)
      → Alcanzados fdmax
      → recorrer_fds s ingresar administrar n k fdmax num_fd ≡ todos (listos_desde n num_fd) k fdmax
  unfolding recorrer_fds todos
  recorrer_fds-todos zero k fdmax num_fd h = unfold list_filter in refl
  recorrer_fds-todos (suc n) k fdmax num_fd h = elim (Bool-cases (leb_ℤ (pos num_fd) fdmax)) [
    | inr e ↦ rw (ninguno (suc n) fdmax num_fd h e) (rw (e, recorrer_fds) refl)
    | inl e ↦ elim (Bool-cases (s.listos (pos num_fd))) [
      | inl l ↦ rw (listos_desde-suc n num_fd) (
          rw (l, e, recorrer_fds)
            (>>=-ap (atender_fd s ingresar administrar k fdmax (pos num_fd)) _ _ (λ r q.
              rw
                (recorrer_fds-todos n r.0 r.1 (num_fd + 1) (λ fd m.
                  let a = h fd m in omega (arith, a, atender_fd-fdmax k fdmax (pos num_fd) r q)))
                refl)))
      | inr l ↦ rw (listos_desde-suc n num_fd) (
          rw (l, e, recorrer_fds)
            (rw (no_listo k fdmax (pos num_fd) l, recorrer_fds-todos n k fdmax (num_fd + 1) h)
              (>>=-ok _)))
    ]
  ]
