-- ===== src/Umv/Segmentos/Ubicacion.antt =====
-- The segments that `compactar` has placed are valid, and as long together as before.
use mathlib.Core.List.{Pairwise-cons, mem-cons, mem-cons_self, mem-cons_of_mem, not-mem-nil, Permᴰ}
use mathlib.Core.Logic.Or
use mathlib.Core.Logic.{∥∥₁_elim}
use native.Mathlib.Bridge.{le_prop}
use native.Mathlib.Nat.{ℕ_set}
use tp_2014_1c_tp_so.Base.{
  ℕ, ◌+◌, ◌≤◌, ◌≡◌, refl, ◌∙◌, ap, List, [], ◌∷◌, ◌++◌, Mem, Perm, Pairwise, max, arith,
}
use tp_2014_1c_tp_so.Base.Int.{neg_part}
use tp_2014_1c_tp_so.Umv.Estado.{Seg, ListSort, inicio, largo, Separados}
use tp_2014_1c_tp_so.Umv.Espacio.{menor_dir_fisica}
use tp_2014_1c_tp_so.Umv.Espacio.Validez.{
  Cabe, Cabe-prop, Cabe-mono, SegsValidos, Cadena, fin_cadena, fin_cadena-le,
}
use tp_2014_1c_tp_so.Umv.Espacio.Busqueda.{Cadena-SegsValidos}
use tp_2014_1c_tp_so.Umv.Segmentos.Compactacion.{ubicar, suma}

-- The placed segments lie between `b` and `b + suma segs`.
ubicar-above : (b : ℕ) (segs : List Seg) (s : Seg) → Mem s (ubicar b segs) → b ≤ inicio s
ubicar-above b [] s m = absurd (not-mem-nil m)
ubicar-above b (t ∷ segs) s m =
    Or.elim le_prop (mem-cons.0 m) (λ e. rw e (omega arith))
      (λ k. omega (arith, ubicar-above (b + largo t) segs s k))

ubicar-Cabe :
    (b : ℕ) (segs : List Seg)
    → ((s : Seg) → Mem s segs → neg_part s.tam_seg ≡ 0)
    → (s : Seg) → Mem s (ubicar b segs)
    → Cabe (b + suma segs) s
ubicar-Cabe b [] h s m = absurd (not-mem-nil m)
ubicar-Cabe b (t ∷ segs) h s m =
    let ht = h t mem-cons_self in
    Or.elim Cabe-prop (mem-cons.0 m)
      (λ e. rw e (record { dir_nonneg = refl; tam_nonneg = ht; dentro = omega arith }))
      (λ k.
        Cabe-mono (b + largo t + suma segs) (b + (largo t + suma segs)) s (omega arith)
          (ubicar-Cabe (b + largo t) segs (λ u l. h u (mem-cons_of_mem t l)) s k))

ubicar-Separados : (b : ℕ) (segs : List Seg) → Pairwise Separados (ubicar b segs)
ubicar-Separados b [] = Pairwise.nil
ubicar-Separados b (t ∷ segs) =
    Pairwise-cons.1 (
      λ s m. omega (arith, ubicar-above (b + largo t) segs s m),
      ubicar-Separados (b + largo t) segs,
    )

pub ubicar-SegsValidos :
    (segs : List Seg)
    → ((s : Seg) → Mem s segs → neg_part s.tam_seg ≡ 0)
    → SegsValidos (suma segs) (ubicar 0 segs)
ubicar-SegsValidos segs h = record {
  caben = λ s m. Cabe-mono (0 + suma segs) (suma segs) s (omega arith) (ubicar-Cabe 0 segs h s m);
  separados = ubicar-Separados 0 segs;
}

pub SegsValidos-mono :
    (n total : ℕ) (segs : List Seg) → n ≤ total → SegsValidos n segs → SegsValidos total segs
SegsValidos-mono n total segs le v = record {
  caben = λ s m. Cabe-mono n total s le (v.caben s m);
  separados = v.separados;
}

-- Valid segments are no longer, all together, than memory.
suma-Cadena :
    (total b : ℕ) (segs : List Seg) → Cadena total b segs → b + suma segs ≤ fin_cadena b segs
suma-Cadena total b [] c = omega arith
suma-Cadena total b (s ∷ segs) (cs, h, c) =
    omega (arith, suma-Cadena total (max b (inicio s) + largo s) segs c)

suma-Permᴰ : {xs ys : List Seg} → Permᴰ xs ys → suma xs ≡ suma ys
suma-Permᴰ Permᴰ.nil = refl
suma-Permᴰ (Permᴰ.cons e d) = omega (arith, ap largo e, suma-Permᴰ d)
suma-Permᴰ (Permᴰ.swap e f) = omega (arith, ap largo e, ap largo f)
suma-Permᴰ (Permᴰ.trans d d') = suma-Permᴰ d ∙ suma-Permᴰ d'

pub suma-Perm : {xs ys : List Seg} → Perm xs ys → suma xs ≡ suma ys
suma-Perm p = ∥∥₁_elim p (ℕ_set _ _) suma-Permᴰ

pub suma-le :
    (lib : ListSort) (total : ℕ) (segs : List Seg) → SegsValidos total segs → suma segs ≤ total
suma-le lib total segs v =
    let c = Cadena-SegsValidos lib total segs v in
    omega (
      arith,
      suma-Cadena total 0 (lib.list_sort menor_dir_fisica segs) c,
      fin_cadena-le total 0 (lib.list_sort menor_dir_fisica segs) c,
      suma-Perm (lib.list_sort-Perm menor_dir_fisica segs),
    )

pub suma-append : (xs ys : List Seg) → suma (xs ++ ys) ≡ suma xs + suma ys
suma-append [] ys = omega arith
suma-append (x ∷ xs) ys = omega (arith, suma-append xs ys)

pub suma-ubicar : (b : ℕ) (segs : List Seg) → suma (ubicar b segs) ≡ suma segs
suma-ubicar b [] = refl
suma-ubicar b (s ∷ segs) = omega (arith, suma-ubicar (b + largo s) segs)
