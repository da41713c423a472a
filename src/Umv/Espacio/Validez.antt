-- ===== src/Umv/Espacio/Validez.antt =====
-- What holds of the segment list, and what it says of the list once it is sorted.
use mathlib.Core.List.{Pairwise-cons, mem-cons, mem-cons_self, mem-cons_of_mem, not-mem-nil}
use mathlib.Core.Logic.Or
use native.Mathlib.Bridge.{le_prop}
use native.Mathlib.Nat.{ℕ_set}
use tp_2014_1c_tp_so.Base.{
  ℕ, ◌+◌, ◌≤◌, ◌<◌, ◌^◌, ◌≡◌, List, [], ◌∷◌, Mem, Pairwise, min, max, arith, length,
}
use tp_2014_1c_tp_so.Base.Int.{pos_part, neg_part, ◌≤ℤ◌}
use tp_2014_1c_tp_so.Umv.Estado.{Seg, Umv, inicio, largo, fin, Separados}

-- A segment has a size, and lies inside the first `total` bytes.
pub record Cabe (total : ℕ) (s : Seg) : Type 0 where
  pub dir_nonneg : neg_part s.dir_fisica ≡ 0
  pub tam_nonneg : neg_part s.tam_seg ≡ 0
  pub dentro : fin s ≤ total

pub Cabe-prop : {total : ℕ} {s : Seg} → IsProp (Cabe total s)
Cabe-prop = hlevel (ℕ_set, le_prop)

pub Cabe-mono : (n total : ℕ) (s : Seg) → n ≤ total → Cabe n s → Cabe total s
Cabe-mono n total s le c = omega arith

-- The segments of a list lie inside memory and share no byte.
pub record SegsValidos (total : ℕ) (segs : List Seg) : Type 0 where
  pub caben : (s : Seg) → Mem s segs → Cabe total s
  pub separados : Pairwise Separados segs

-- Memory has the size that it is said to have, and the segments lie in it.
pub record IsValid (u : Umv) : Type 0 where
  pub total_nonneg : neg_part u.tam_mem_total ≡ 0
  pub total_small : pos_part u.tam_mem_total < 2 ^ 31
  pub reservada : length u.mem_prin ≡ pos_part u.tam_mem_total
  pub segs : SegsValidos (pos_part u.tam_mem_total) u.list_seg

-- The bytes from `p` to `p + n` belong to no segment.
abbrev pub IsLibre : List Seg → ℕ → ℕ → Type 0
IsLibre segs p n = (s : Seg) → Mem s segs → min (p + n) (fin s) ≤ max p (inicio s)

-- A sorted list as the loops walk it: at `ind_mem ≡ b` the next segment begins at `b` or later, or
-- holds no byte.
abbrev pub Cadena : ℕ → ℕ → List Seg → Type 0
Cadena total b [] = Unit {0}
Cadena total b (s ∷ segs) =
    Cabe total s × (min b (fin s) ≤ inicio s) × Cadena total (max b (inicio s) + largo s) segs

-- Where the walk ends.
abbrev pub fin_cadena : ℕ → List Seg → ℕ
fin_cadena b [] = b
fin_cadena b (s ∷ segs) = fin_cadena (max b (inicio s) + largo s) segs

pub Cadena-of_sorted :
    (total b : ℕ) (segs : List Seg)
    → ((s : Seg) → Mem s segs → Cabe total s)
    → Pairwise Separados segs
    → Pairwise (λ s t. s.dir_fisica ≤ℤ t.dir_fisica) segs
    → ((s : Seg) → Mem s segs → min b (fin s) ≤ inicio s)
    → Cadena total b segs
Cadena-of_sorted total b [] c p o h = tt
Cadena-of_sorted total b (s ∷ segs) c p o h =
    let cs = c s mem-cons_self in
    (
      cs,
      h s mem-cons_self,
      Cadena-of_sorted total (max b (inicio s) + largo s) segs (λ t m. c t (mem-cons_of_mem s m))
          (Pairwise-cons.0 p).1 (Pairwise-cons.0 o).1
          (λ t m. omega (
            arith,
            cs.dir_nonneg,
            (c t (mem-cons_of_mem s m)).dir_nonneg,
            h s mem-cons_self,
            h t (mem-cons_of_mem s m),
            (Pairwise-cons.0 p).0 t m,
            (Pairwise-cons.0 o).0 t m,
          )),
    )

pub IsLibre-nil : (p n : ℕ) → IsLibre [] p n
IsLibre-nil p n s m = absurd (not-mem-nil m)

pub IsLibre-cons :
    (s : Seg) (segs : List Seg) (p n : ℕ)
    → min (p + n) (fin s) ≤ max p (inicio s)
    → IsLibre segs p n
    → IsLibre (s ∷ segs) p n
IsLibre-cons s segs p n h k t m = Or.elim le_prop (mem-cons.0 m) (λ e. rw e h) (k t)

-- From where the walk stands, every segment to come begins later or holds no byte.
pub Cadena-after :
    (total b : ℕ) (segs : List Seg)
    → Cadena total b segs
    → (s : Seg) → Mem s segs
    → min b (fin s) ≤ inicio s
Cadena-after total b [] c s m = absurd (not-mem-nil m)
Cadena-after total b (t ∷ segs) (_, h, c) s m =
    Or.elim le_prop (mem-cons.0 m) (λ e. rw e h)
      (λ m'. omega (arith, Cadena-after total (max b (inicio t) + largo t) segs c s m'))

-- The bytes from `b` up to `b + n` are free if the walk goes on past them.
pub IsLibre-Cadena :
    (total b c n : ℕ) (segs : List Seg) → Cadena total c segs → b + n ≤ c → IsLibre segs b n
IsLibre-Cadena total b c n segs h le s m = omega (arith, Cadena-after total c segs h s m)

pub Cadena-next :
    (total b : ℕ) (s : Seg)
    → Cabe total s
    → min b (fin s) ≤ inicio s
    → b ≤ total
    → max b (inicio s) + largo s ≤ total
Cadena-next total b s c h le = omega arith

pub fin_cadena-le :
    (total b : ℕ) (segs : List Seg) → Cadena total b segs → b ≤ total → fin_cadena b segs ≤ total
fin_cadena-le total b [] c le = le
fin_cadena-le total b (s ∷ segs) (cs, h, c) le =
    fin_cadena-le total (max b (inicio s) + largo s) segs c (Cadena-next total b s cs h le)

-- Every segment of the walk lies before its end, or holds no byte.
pub fin_cadena-ge : (b : ℕ) (segs : List Seg) → b ≤ fin_cadena b segs
fin_cadena-ge b [] = omega arith
fin_cadena-ge b (s ∷ segs) = omega (arith, fin_cadena-ge (max b (inicio s) + largo s) segs)

pub IsLibre-fin_cadena : (b n p : ℕ) (segs : List Seg) → fin_cadena b segs ≤ p → IsLibre segs p n
IsLibre-fin_cadena b n p [] le = IsLibre-nil p n
IsLibre-fin_cadena b n p (s ∷ segs) le =
    let b' = max b (inicio s) + largo s in
    IsLibre-cons s segs p n (omega (arith, fin_cadena-ge b' segs))
      (IsLibre-fin_cadena b' n p segs le)
