-- ===== src/Umv/Segmentos/Destruccion.antt =====
-- `destruirSegmentos`: its loop ends, and what it leaves.
use mathlib.Core.List.{Pairwise-cons, mem-cons, not-mem-nil}
use mathlib.Core.Logic.Or
use tp_2014_1c_tp_so.Base.{
  ℕ, zero, suc, ◌≤◌, ◌≡◌, ◌≢◌, refl, true, Mem, ◌∙◌, sym, Bool, not, List, [], ◌∷◌, none, some,
  Pairwise, arith, length, list_remove, list_filter, mem-list_filter, if◌then◌else◌, Bool-cases,
  inl, inr, Option-cases,
}
use tp_2014_1c_tp_so.Base.Int.{ℤ, pos, ◌==ℤ◌}
use tp_2014_1c_tp_so.Umv.Estado.{Seg, Umv, Separados}
use tp_2014_1c_tp_so.Umv.Espacio.Validez.{SegsValidos, IsValid}
use tp_2014_1c_tp_so.Umv.Segmentos.{destruir_mientras, destruir_segmentos}

module _ (p : Seg → Bool) where
  list_remove-none :
      (segs : List Seg) → list_remove p segs ≡ none → list_filter (λ s. not (p s)) segs ≡ segs
  unfolding list_remove list_filter
  list_remove-none [] e = refl
  list_remove-none (s ∷ segs) e = ground (arith, list_remove-none segs)

  list_remove-some :
      (segs : List Seg) (s : Seg) (resto : List Seg)
      → list_remove p segs ≡ some (s, resto)
      → (list_filter (λ t. not (p t)) resto ≡ list_filter (λ t. not (p t)) segs)
        × (length segs ≡ suc (length resto))
  unfolding list_remove list_filter
  list_remove-some [] s resto e = cc
  list_remove-some (t ∷ segs) s resto e = elim (Option-cases (list_remove p segs)) [
    | inl n ↦ ground arith
    | inr ((y, ys), h) ↦ ground (arith, list_remove-some segs y ys h)
  ]

  -- As many rounds as there are segments are enough.
  destruir_mientras_lem :
      (n : ℕ) (segs : List Seg)
      → length segs ≤ n
      → destruir_mientras n p segs ≡ list_filter (λ s. not (p s)) segs
  unfolding destruir_mientras
  destruir_mientras_lem zero [] h = unfold list_filter in refl
  destruir_mientras_lem zero (s ∷ segs) h = absurd (omega arith)
  destruir_mientras_lem (suc n) segs h = elim (Option-cases (list_remove p segs)) [
    | inl e ↦ rw (e, destruir_mientras) (sym (list_remove-none segs e))
    | inr ((s, resto), e) ↦
        let k = list_remove-some segs s resto e in
        rw (e, destruir_mientras) (destruir_mientras_lem n resto (omega (arith, k.1)) ∙ k.0)
  ]

  Pairwise-list_filter :
      (segs : List Seg) → Pairwise Separados segs → Pairwise Separados (list_filter p segs)
  unfolding list_filter
  Pairwise-list_filter [] h = h
  Pairwise-list_filter (t ∷ segs) h = elim (Bool-cases (p t)) [
    | inl e ↦ rw e (
        Pairwise-cons.1 (
          λ s m. (Pairwise-cons.0 h).0 s (mem-list_filter p segs s m),
          Pairwise-list_filter segs (Pairwise-cons.0 h).1,
        ))
    | inr e ↦ rw e (Pairwise-list_filter segs (Pairwise-cons.0 h).1)
  ]

list_filter-SegsValidos :
    (p : Seg → Bool) (total : ℕ) (segs : List Seg)
    → SegsValidos total segs
    → SegsValidos total (list_filter p segs)
list_filter-SegsValidos p total segs v = record {
  caben = λ s m. v.caben s (mem-list_filter p segs s m);
  separados = Pairwise-list_filter p segs v.separados;
}

-- `destruirSegmentos` ends, and takes away the segments of the process, in whatever state, or every
-- segment if the process is 0; the others stay as they were and in their order.
pub destruir_segmentos_lem :
    (u : Umv) (id_prog : ℤ)
    → destruir_segmentos u id_prog ≡ record u {
      list_seg =
          if id_prog ==ℤ pos 0
          then []
          else list_filter (λ s. not (s.id_proc ==ℤ id_prog)) u.list_seg;
    }
unfolding destruir_segmentos
destruir_segmentos_lem u id_prog =
    ground
      (arith, destruir_mientras_lem (λ s. s.id_proc ==ℤ id_prog) (length u.list_seg) u.list_seg)

-- `destruirSegmentos` leaves a memory that was valid valid, for whatever process.
pub destruir_segmentos-IsValid :
    (u : Umv) (id_prog : ℤ) → IsValid u → IsValid (destruir_segmentos u id_prog)
destruir_segmentos-IsValid u id_prog v = rw (destruir_segmentos_lem u id_prog) (record {
  total_nonneg = v.total_nonneg;
  total_small = v.total_small;
  reservada = v.reservada;
  segs = elim (Bool-cases (id_prog ==ℤ pos 0)) [
    | inl e ↦ rw e (record { caben = λ s m. absurd (not-mem-nil m); separados = Pairwise.nil })
    | inr e ↦ rw e (list_filter-SegsValidos _ _ u.list_seg v.segs)
  ];
})

-- Nothing that the filter turns away is left.
mem-list_filter-passes :
    (p : Seg → Bool) (segs : List Seg) (s : Seg) → Mem s (list_filter p segs) → p s ≡ true
unfolding list_filter
mem-list_filter-passes p [] s m = absurd (not-mem-nil m)
mem-list_filter-passes p (t ∷ segs) s m = elim (Bool-cases (p t)) [
  | inl e ↦
      Or.elim (hlevel) (mem-cons.0 (rw e at m)) (λ q. rw q e)
        (λ k. mem-list_filter-passes p segs s k)
  | inr e ↦ mem-list_filter-passes p segs s (rw e at m)
]

pub destruir_segmentos-sin :
    (u : Umv) (id_prog : ℤ) (s : Seg)
    → Mem s (destruir_segmentos u id_prog).list_seg
    → s.id_proc ≢ id_prog
destruir_segmentos-sin u id_prog s m q =
    let m' = rw (destruir_segmentos_lem u id_prog) at m in
    elim (Bool-cases (id_prog ==ℤ pos 0)) [
      | inl e ↦ absurd (not-mem-nil (rw e at m'))
      | inr e ↦ let h = mem-list_filter-passes _ u.list_seg s (rw e at m') in ground (arith, h)
    ]

pub destruir_segmentos-total :
    (u : Umv) (id_prog : ℤ) → (destruir_segmentos u id_prog).tam_mem_total ≡ u.tam_mem_total
destruir_segmentos-total u id_prog = rw (destruir_segmentos_lem u id_prog) refl
