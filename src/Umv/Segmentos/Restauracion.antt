-- ===== src/Umv/Segmentos/Restauracion.antt =====
-- `destruirSegmentos` and the segments without their places: what a process asked for is taken away again.
use mathlib.Core.List.{mem-cons_self, mem-cons_of_mem, filter_map, append-nil}
use mathlib.Core.List.Perm
use mathlib.Core.Option.{Option-elim}
use tp_2014_1c_tp_so.Base.{
  ◌≡◌, refl, ◌∙◌, sym, Bool, true, false, not, ◌≢◌, ◌++◌, ap, List, [], ◌∷◌, map, none, some, Mem,
  Perm, arith, list_filter, if◌then◌else◌, Bool-cases, inl, inr,
}
use tp_2014_1c_tp_so.Base.Int.{ℤ, pos, ◌==ℤ◌}
use tp_2014_1c_tp_so.Umv.Estado.{Seg, Umv}
use tp_2014_1c_tp_so.Umv.Segmentos.{destruir_segmentos}
use tp_2014_1c_tp_so.Umv.Segmentos.Fichas.{ficha, fichas}
use tp_2014_1c_tp_so.Umv.Segmentos.Destruccion.{destruir_segmentos_lem}

-- A filter takes the same elements of two lists that are one up to the order.
list_filter-filter_map :
    (p : Seg → Bool) (xs : List Seg)
    → list_filter p xs ≡ filter_map (λ s. if p s then some s else none) xs
unfolding list_filter filter_map Option-elim
list_filter-filter_map p [] = refl
list_filter-filter_map p (x ∷ xs) = elim (Bool-cases (p x)) [
  | inl e ↦ rw e (ap (◌∷◌ x) (list_filter-filter_map p xs))
  | inr e ↦ rw e (list_filter-filter_map p xs)
]

list_filter-Perm :
    (p : Seg → Bool) (xs ys : List Seg) → Perm xs ys → Perm (list_filter p xs) (list_filter p ys)
list_filter-Perm p xs ys h =
    rw (list_filter-filter_map p xs, list_filter-filter_map p ys) (Perm.filter_map _ h)

list_filter-map-ficha :
    (id_prog : ℤ) (xs : List Seg)
    → map ficha (list_filter (λ s. not (s.id_proc ==ℤ id_prog)) xs)
      ≡ list_filter (λ s. not (s.id_proc ==ℤ id_prog)) (map ficha xs)
unfolding list_filter
list_filter-map-ficha id_prog [] = refl
list_filter-map-ficha id_prog (x ∷ xs) = ground (arith, list_filter-map-ficha id_prog xs)

-- Where the segments lie does not matter to it.
pub destruir_segmentos-fichas :
    (u w : Umv) (id_prog : ℤ)
    → Perm (fichas w) (fichas u)
    → Perm (fichas (destruir_segmentos w id_prog)) (fichas (destruir_segmentos u id_prog))
destruir_segmentos-fichas u w id_prog h =
    rw (destruir_segmentos_lem u id_prog, destruir_segmentos_lem w id_prog)
      (elim (Bool-cases (id_prog ==ℤ pos 0)) [
        | inl e ↦ rw e (Perm.refl [])
        | inr e ↦
            rw
              (
                e,
                list_filter-map-ficha id_prog w.list_seg,
                list_filter-map-ficha id_prog u.list_seg,
              )
              (list_filter-Perm _ (fichas w) (fichas u) h)
      ])

list_filter-append :
    (p : Seg → Bool) (xs ys : List Seg)
    → list_filter p (xs ++ ys) ≡ list_filter p xs ++ list_filter p ys
unfolding list_filter
list_filter-append p [] ys = refl
list_filter-append p (x ∷ xs) ys = ground (arith, list_filter-append p xs ys)

list_filter-all :
    (p : Seg → Bool) (xs : List Seg) → ((s : Seg) → Mem s xs → p s ≡ true) → list_filter p xs ≡ xs
unfolding list_filter
list_filter-all p [] h = refl
list_filter-all p (x ∷ xs) h =
    rw (h x mem-cons_self, list_filter-all p xs (λ s m. h s (mem-cons_of_mem x m))) refl

-- All are of this process.
abbrev pub DeProceso : ℤ → List Seg → Type 0
DeProceso id [] = Unit {0}
DeProceso id (f ∷ fs) = (f.id_proc ≡ id) × DeProceso id fs

list_filter-DeProceso :
    (id : ℤ) (fs : List Seg) → DeProceso id fs → list_filter (λ s. not (s.id_proc ==ℤ id)) fs ≡ []
unfolding list_filter
list_filter-DeProceso id [] h = refl
list_filter-DeProceso id (f ∷ fs) h = ground (arith, list_filter-DeProceso id fs)

-- It undoes what was added for a process that had no segments.
pub destruir_segmentos-Perm :
    (u w : Umv) (id_prog : ℤ) (fs : List Seg)
    → (id_prog ==ℤ pos 0) ≡ false
    → ((s : Seg) → Mem s u.list_seg → s.id_proc ≢ id_prog)
    → DeProceso id_prog fs
    → Perm (fichas w) (fichas u ++ fs)
    → Perm (fichas (destruir_segmentos w id_prog)) (fichas u)
destruir_segmentos-Perm u w id_prog fs h sin de p =
    let otros : Seg → Bool = λ s. not (s.id_proc ==ℤ id_prog) in
    let quedan : list_filter otros u.list_seg ≡ u.list_seg =
      list_filter-all otros u.list_seg (λ s m. let ne = sin s m in ground arith) in
    let todos : list_filter otros (fichas u ++ fs) ≡ fichas u =
      list_filter-append otros (fichas u) fs
      ∙ ap (λ (xs : List Seg). list_filter otros (fichas u) ++ xs)
          (list_filter-DeProceso id_prog fs de)
      ∙ append-nil (list_filter otros (fichas u))
      ∙ sym (list_filter-map-ficha id_prog u.list_seg)
      ∙ ap (map ficha) quedan in
    rw (destruir_segmentos_lem w id_prog, h, list_filter-map-ficha id_prog w.list_seg)
      (rw todos at (list_filter-Perm otros (fichas w) (fichas u ++ fs) p))
