-- ===== src/Pruebas/Orden.antt =====
-- An insertion sort that has what is asked of `list_sort`.
use mathlib.Core.List.{Pairwise-cons, mem-cons, not-mem-nil}
use mathlib.Core.List.Perm
use mathlib.Core.Logic.Or
use native.Mathlib.Bridge.{le_prop}
use tp_2014_1c_tp_so.Base.{
  Bool, List, [], ◌∷◌, Perm, Pairwise, arith, if◌then◌else◌, Bool-cases, inl, inr,
}
use tp_2014_1c_tp_so.Base.Int.{ℤ, ltb_ℤ, ◌≤ℤ◌}
use tp_2014_1c_tp_so.Umv.Estado.{Seg, ListSort}

abbrev insertar : (Seg → Seg → Bool) → Seg → List Seg → List Seg
insertar menor s [] = s ∷ []
insertar menor s (t ∷ ts) = if menor t s then t ∷ insertar menor s ts else s ∷ t ∷ ts

abbrev ordenar : (Seg → Seg → Bool) → List Seg → List Seg
ordenar menor [] = []
ordenar menor (s ∷ segs) = insertar menor s (ordenar menor segs)

insertar-Perm :
    (menor : Seg → Seg → Bool) (s : Seg) (ts : List Seg) → Perm (insertar menor s ts) (s ∷ ts)
insertar-Perm menor s [] = Perm.refl (s ∷ [])
insertar-Perm menor s (t ∷ ts) = elim (Bool-cases (menor t s)) [
  | inl e ↦ rw e (Perm.trans (Perm.cons t (insertar-Perm menor s ts)) (Perm.swap s t ts))
  | inr e ↦ rw e (Perm.refl (s ∷ t ∷ ts))
]

pub ordenar-Perm : (menor : Seg → Seg → Bool) (xs : List Seg) → Perm (ordenar menor xs) xs
ordenar-Perm menor [] = Perm.refl []
ordenar-Perm menor (s ∷ xs) =
    Perm.trans (insertar-Perm menor s (ordenar menor xs)) (Perm.cons s (ordenar-Perm menor xs))

module _ (key : Seg → ℤ) where
  insertar-Pairwise :
      (s : Seg) (ts : List Seg)
      → Pairwise (λ s t. key s ≤ℤ key t) ts
      → Pairwise (λ s t. key s ≤ℤ key t) (insertar (λ s t. ltb_ℤ (key s) (key t)) s ts)
  insertar-Pairwise s [] h = Pairwise.cons (λ t m. absurd (not-mem-nil m)) Pairwise.nil
  insertar-Pairwise s (t ∷ ts) h = elim (Bool-cases (ltb_ℤ (key t) (key s))) [
    | inl e ↦ rw e (
        Pairwise-cons.1 (
          λ x m.
              Or.elim le_prop
                (mem-cons.0 (Perm.subset (insertar-Perm (λ s t. ltb_ℤ (key s) (key t)) s ts) x m))
                (λ q. rw q (ground arith)) (λ k. (Pairwise-cons.0 h).0 x k),
          insertar-Pairwise s ts (Pairwise-cons.0 h).1,
        ))
    | inr e ↦ rw e (
        Pairwise-cons.1 (
          λ x m.
              Or.elim le_prop (mem-cons.0 m) (λ q. rw q (ground arith))
                (λ k. ground (arith, (Pairwise-cons.0 h).0 x k)),
          h,
        ))
  ]

  pub ordenar-Pairwise :
      (xs : List Seg) → Pairwise (λ s t. key s ≤ℤ key t) (ordenar (λ s t. ltb_ℤ (key s) (key t)) xs)
  ordenar-Pairwise [] = Pairwise.nil
  ordenar-Pairwise (s ∷ xs) = insertar-Pairwise s _ (ordenar-Pairwise xs)

abbrev pub orden : ListSort
orden = record {
  list_sort = ordenar;
  list_sort-Perm = ordenar-Perm;
  list_sort-Pairwise = ordenar-Pairwise;
}
