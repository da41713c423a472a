-- ===== src/Umv/Espacio/PrimerAjuste.antt =====
-- The first-fit loop of `buscar_espacio_mem_prin` over a sorted list.
use tp_2014_1c_tp_so.Base.{
  ℕ, zero, suc, ◌+◌, ◌-◌, ◌^◌, ◌≤◌, ◌<◌, ◌≡◌, refl, List, [], ◌∷◌, max, min, arith, ltb,
  if◌then◌else◌, Bool-cases, inl, inr,
}
use tp_2014_1c_tp_so.Base.Int.{pos, pos_part, neg_part, ◌-ℤ◌, pos_of_neg_part}
use tp_2014_1c_tp_so.Base.Words.{add32-pos, sub32-pos}
use tp_2014_1c_tp_so.Umv.Estado.{Seg, inicio, largo, fin}
use tp_2014_1c_tp_so.Umv.Espacio.{Recorrido, hallado, sigue, recorrer_hueco, rondas, primer_ajuste}
use tp_2014_1c_tp_so.Umv.Espacio.Validez.{
  Cabe, IsLibre, Cadena, fin_cadena, IsLibre-cons, IsLibre-Cadena, Cadena-next,
}

-- One gap: it is taken if it is longer than what is asked for.
recorrer_hueco_lem :
    (n d k i t : ℕ)
    → d - i ≤ n
    → t ≤ i
    → t ≤ k
    → i < 2 ^ 31
    → d < 2 ^ 31
    → recorrer_hueco n (pos d) (pos k) (pos i) (pos t)
      ≡ (if ltb (k + i) (d + t) then hallado (pos (i - t)) else sigue (pos (max i d)))
unfolding recorrer_hueco
recorrer_hueco_lem zero d k i t hn hi hk si sd = ground arith
recorrer_hueco_lem (suc n) d k i t hn hi hk si sd =
    ground
      (arith, add32-pos i 1, add32-pos t 1, sub32-pos i t, recorrer_hueco_lem n d k (i + 1) (t + 1))

pub rondas-pos : (d i : ℕ) → rondas (pos d) (pos i) ≡ d - i
unfolding ◌-ℤ◌
rondas-pos d i = ground arith

-- One segment of the walk, at numbers.
primer_ajuste-cons :
    (total b k : ℕ) (s : Seg) (segs : List Seg)
    → Cabe total s
    → min b (fin s) ≤ inicio s
    → b ≤ total
    → total < 2 ^ 31
    → primer_ajuste (s ∷ segs) (pos k) (pos b) ≡ (
        if ltb (k + b) (inicio s)
        then hallado (pos b)
        else primer_ajuste segs (pos k) (pos (max b (inicio s) + largo s)))
unfolding primer_ajuste
primer_ajuste-cons total b k s segs c h le small = ground (
  arith,
  pos_of_neg_part s.dir_fisica,
  pos_of_neg_part s.tam_seg,
  rondas-pos (inicio s) b,
  recorrer_hueco_lem (inicio s - b) (inicio s) k b 0,
  add32-pos (max b (inicio s)) (largo s),
)

-- No gap of the walk is longer than `k`.
abbrev pub SinHueco : ℕ → ℕ → List Seg → Type 0
SinHueco k b [] = Unit {0}
SinHueco k b (s ∷ segs) = (inicio s ≤ b + k) × SinHueco k (max b (inicio s) + largo s) segs

-- What the loop has found when it stops.
abbrev pub Hallazgo : ℕ → ℕ → ℕ → List Seg → Recorrido → Type 0
Hallazgo total k b segs (hallado z) =
    (neg_part z ≡ 0) × (b ≤ pos_part z) × (pos_part z + k ≤ total) × IsLibre segs (pos_part z) k
Hallazgo total k b segs (sigue z) = (z ≡ pos (fin_cadena b segs)) × SinHueco k b segs

Hallazgo-cons :
    (total k b : ℕ) (s : Seg) (segs : List Seg) (r : Recorrido)
    → inicio s ≤ b + k
    → Hallazgo total k (max b (inicio s) + largo s) segs r
    → Hallazgo total k b (s ∷ segs) r
Hallazgo-cons total k b s segs (hallado z) h (neg, low, high, libre) =
    (neg, omega arith, high, IsLibre-cons s segs (pos_part z) k (omega arith) libre)
Hallazgo-cons total k b s segs (sigue z) h (e, sin) = (e, (h, sin))

pub primer_ajuste-Hallazgo :
    (total b k : ℕ) (segs : List Seg)
    → Cadena total b segs
    → b ≤ total
    → total < 2 ^ 31
    → Hallazgo total k b segs (primer_ajuste segs (pos k) (pos b))
primer_ajuste-Hallazgo total b k [] c le small = unfold primer_ajuste in (refl, tt)
primer_ajuste-Hallazgo total b k (s ∷ segs) (cs, h, c) le small =
    let b' = max b (inicio s) + largo s in
    let ih = primer_ajuste-Hallazgo total b' k segs c (Cadena-next total b s cs h le) small in
    rw (primer_ajuste-cons total b k s segs cs h le small)
      (elim (Bool-cases (ltb (k + b) (inicio s))) [
        | inl e ↦ rw e (
          refl,
          omega arith,
          ground arith,
          IsLibre-cons s segs b k (ground arith)
              (IsLibre-Cadena total b b' k segs c (ground arith)),
        )
        | inr e ↦ rw e (Hallazgo-cons total k b s segs _ (ground arith) ih)
      ])

pub SinHueco-mono : (k k' b : ℕ) (segs : List Seg) → k ≤ k' → SinHueco k b segs → SinHueco k' b segs
SinHueco-mono k k' b [] le h = tt
SinHueco-mono k k' b (s ∷ segs) le (h, hs) =
    (omega arith, SinHueco-mono k k' (max b (inicio s) + largo s) segs le hs)
