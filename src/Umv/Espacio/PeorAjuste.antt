-- ===== src/Umv/Espacio/PeorAjuste.antt =====
-- The worst-fit loop of `buscar_espacio_mem_prin` over a sorted list.
use tp_2014_1c_tp_so.Base.{
  ℕ, zero, suc, ◌+◌, ◌-◌, ◌^◌, ◌≤◌, ◌<◌, ◌≡◌, refl, ◌⊎◌, ◌&&◌, List, [], ◌∷◌, max, min, arith, ltb,
  if◌then◌else◌, Bool-cases, inl, inr, true,
}
use tp_2014_1c_tp_so.Base.Int.{ℤ, pos, pos_part, neg_part, ltb_ℤ, ◌≤ℤ◌, pos_of_neg_part}
use tp_2014_1c_tp_so.Base.Words.{add32-pos, sub32-pos}
use tp_2014_1c_tp_so.Umv.Estado.{Seg, inicio, largo, fin}
use tp_2014_1c_tp_so.Umv.Espacio.{Peor, recorrer_peor, peor_ajuste}
use tp_2014_1c_tp_so.Umv.Espacio.Validez.{
  Cabe, IsLibre, Cadena, fin_cadena, IsLibre-cons, IsLibre-Cadena, Cadena-next,
}
use tp_2014_1c_tp_so.Umv.Espacio.PrimerAjuste.{SinHueco, rondas-pos}

abbrev pub peor : ℕ → ℤ → ℤ → Peor
peor i m p = record { ind_mem = pos i; tam_seg_max = m; pos_seg_max = p }

-- One gap of `d - i` bytes counts for one byte less.
recorrer_peor_lem :
    (n d i t : ℕ) (m p : ℤ)
    → d - i ≤ n
    → t ≤ i
    → i < 2 ^ 31
    → d < 2 ^ 31
    → recorrer_peor n (pos d) (pos t) (peor i m p) ≡ (
        if ltb i d && ltb_ℤ m (pos (t + (d - i) - 1))
        then peor d (pos (t + (d - i) - 1)) (pos (i - t))
        else peor (max i d) m p)
unfolding recorrer_peor
recorrer_peor_lem zero d i t m p hn hi si sd = ground arith
recorrer_peor_lem (suc n) d i t m p hn hi si sd = ground (
  arith,
  add32-pos i 1,
  add32-pos t 1,
  sub32-pos i t,
  recorrer_peor_lem n d (i + 1) (t + 1) m p,
  recorrer_peor_lem n d (i + 1) (t + 1) (pos t) (pos (i - t)),
)

-- One segment of the walk, at numbers.
peor_ajuste-cons :
    (total b : ℕ) (m p : ℤ) (s : Seg) (segs : List Seg)
    → Cabe total s
    → min b (fin s) ≤ inicio s
    → b ≤ total
    → total < 2 ^ 31
    → let b' = max b (inicio s) + largo s in
      peor_ajuste (s ∷ segs) (peor b m p) ≡ (
        if ltb b (inicio s) && ltb_ℤ m (pos (inicio s - b - 1))
        then peor_ajuste segs (peor b' (pos (inicio s - b - 1)) (pos b))
        else peor_ajuste segs (peor b' m p))
unfolding peor_ajuste
peor_ajuste-cons total b m p s segs c h le small = ground (
  arith,
  pos_of_neg_part s.dir_fisica,
  pos_of_neg_part s.tam_seg,
  rondas-pos (inicio s) b,
  recorrer_peor_lem (inicio s - b) (inicio s) b 0 m p,
  add32-pos (max b (inicio s)) (largo s),
)

-- The longest gap that the maximum `m` stands for; -1 stands for none.
abbrev pub tope : ℤ → ℕ
tope m = pos_part m + 1 - neg_part m

abbrev pub Candidato : ℕ → List Seg → ℤ → ℤ → Type 0
Candidato total segs m p =
    (neg_part m ≡ 0)
    × (neg_part p ≡ 0)
    × (pos_part p + tope m ≤ total)
    × IsLibre segs (pos_part p) (tope m)

-- What the loop from `peor b m p` leaves: no gap is longer than the maximum, which is the old one or
-- that of a free range.
pub record HallazgoPeor (total b : ℕ) (m p : ℤ) (segs : List Seg) (w : Peor) : Type 0 where
  pub termina : w.ind_mem ≡ pos (fin_cadena b segs)
  pub crece : m ≤ℤ w.tam_seg_max
  pub sin_hueco : SinHueco (tope w.tam_seg_max) b segs
  pub candidato :
      ((w.tam_seg_max ≡ m) × (w.pos_seg_max ≡ p))
      ⊎ ((b ≤ pos_part w.pos_seg_max) × Candidato total segs w.tam_seg_max w.pos_seg_max)

-- A candidate among the segments to come is one of the whole list.
Candidato-cons :
    (total b : ℕ) (m p : ℤ) (s : Seg) (segs : List Seg)
    → max b (inicio s) + largo s ≤ pos_part p
    → Candidato total segs m p
    → (b ≤ pos_part p) × Candidato total (s ∷ segs) m p
Candidato-cons total b m p s segs h (nm, np, le, libre) =
    (omega arith, (nm, np, le, IsLibre-cons s segs (pos_part p) (tope m) (omega arith) libre))

module _ (total b : ℕ) (m p : ℤ) (s : Seg) (segs : List Seg) (cs : Cabe total s)
    (c : Cadena total (max b (inicio s) + largo s) segs) (w : Peor) where
  -- The gap before `s` becomes the candidate.
  gap-Candidato : b < inicio s → Candidato total (s ∷ segs) (pos (inicio s - b - 1)) (pos b)
  gap-Candidato lt = (
    refl,
    refl,
    omega (arith, cs.dentro),
    IsLibre-cons s segs b (tope (pos (inicio s - b - 1))) (omega arith)
        (IsLibre-Cadena total b (max b (inicio s) + largo s) _ segs c (omega arith)),
  )

  HallazgoPeor-take :
      b < inicio s
      → ltb_ℤ m (pos (inicio s - b - 1)) ≡ true
      → HallazgoPeor total (max b (inicio s) + largo s) (pos (inicio s - b - 1)) (pos b) segs w
      → HallazgoPeor total b m p (s ∷ segs) w
  HallazgoPeor-take lt e h = record {
    termina = h.termina;
    crece = ground (arith, h.crece);
    sin_hueco = (omega (arith, h.crece), h.sin_hueco);
    candidato = inr (elim h.candidato [
      | inl (em, ep) ↦ rw (em, ep) (omega arith, gap-Candidato lt)
      | inr (le, k) ↦ Candidato-cons total b w.tam_seg_max w.pos_seg_max s segs le k
    ]);
  }

  HallazgoPeor-skip :
      (inicio s ≤ b) ⊎ (pos (inicio s - b - 1) ≤ℤ m)
      → HallazgoPeor total (max b (inicio s) + largo s) m p segs w
      → HallazgoPeor total b m p (s ∷ segs) w
  HallazgoPeor-skip o h = record {
    termina = h.termina;
    crece = h.crece;
    sin_hueco = (omega (arith, h.crece), h.sin_hueco);
    candidato = elim h.candidato [
      | inl e ↦ inl e
      | inr (le, k) ↦ inr (Candidato-cons total b w.tam_seg_max w.pos_seg_max s segs le k)
    ];
  }

pub peor_ajuste-HallazgoPeor :
    (total b : ℕ) (m p : ℤ) (segs : List Seg)
    → Cadena total b segs
    → b ≤ total
    → total < 2 ^ 31
    → HallazgoPeor total b m p segs (peor_ajuste segs (peor b m p))
peor_ajuste-HallazgoPeor total b m p [] c le small =
    unfold peor_ajuste in
    record { termina = refl; crece = omega arith; sin_hueco = tt; candidato = inl (refl, refl) }
peor_ajuste-HallazgoPeor total b m p (s ∷ segs) (cs, h, c) le small =
    let b' = max b (inicio s) + largo s in
    let ih = λ (m' p' : ℤ).
      peor_ajuste-HallazgoPeor total b' m' p' segs c (Cadena-next total b s cs h le) small in
    rw (peor_ajuste-cons total b m p s segs cs h le small)
      (elim (Bool-cases (ltb b (inicio s) && ltb_ℤ m (pos (inicio s - b - 1)))) [
        | inl e ↦
            rw e
              (HallazgoPeor-take total b m p s segs cs c _ (ground arith) (ground arith) (ih _ _))
        | inr e ↦ rw e (HallazgoPeor-skip total b m p s segs cs c _ (ground arith) (ih m p))
      ])
