-- ===== src/Umv/Espacio/Busqueda.antt =====
-- What `buscar_espacio_mem_prin` answers, whichever the algorithm.
use mathlib.Core.List.Perm
use native.Mathlib.Bridge.{le_prop}
use tp_2014_1c_tp_so.Base.{
  ℕ, ◌+◌, ◌-◌, ◌^◌, ◌≤◌, ◌<◌, ◌≡◌, refl, ◌⊎◌, List, Perm, arith, if◌then◌else◌, Bool-cases, inl,
  inr,
}
use tp_2014_1c_tp_so.Base.Int.{
  ℤ, pos, negsuc, pos_part, neg_part, leb_ℤ, ltb_ℤ, ◌==ℤ◌, ◌≤ℤ◌, pos_of_neg_part,
}
use tp_2014_1c_tp_so.Base.Words.{sub32, sub32-pos}
use tp_2014_1c_tp_so.Umv.Estado.{Seg, Umv, ListSort, first_fit}
use tp_2014_1c_tp_so.Umv.Espacio.{
  Peor, Recorrido, hallado, sigue, mejorar, buscar_first_fit, buscar_worst_fit, menor_dir_fisica,
  ordenar_lista_seg_por_dir_fisica, buscar_espacio_mem_prin,
}
use tp_2014_1c_tp_so.Umv.Espacio.Validez.{
  SegsValidos, IsValid, IsLibre, Cadena, fin_cadena, Cadena-of_sorted, fin_cadena-le,
  IsLibre-fin_cadena,
}
use tp_2014_1c_tp_so.Umv.Espacio.PrimerAjuste.{
  SinHueco, SinHueco-mono, Hallazgo, primer_ajuste-Hallazgo,
}
use tp_2014_1c_tp_so.Umv.Espacio.PeorAjuste.{tope, HallazgoPeor, peor_ajuste-HallazgoPeor}

-- An address where `k` bytes are free, or -1 if every gap has `k` bytes at most and what follows the
-- last segment has fewer.
abbrev pub Respuesta : ℕ → ℕ → List Seg → ℤ → Type 0
Respuesta total k segs z =
    ((neg_part z ≡ 0) × (pos_part z + k ≤ total) × IsLibre segs (pos_part z) k)
    ⊎ ((z ≡ negsuc 0) × SinHueco k 0 segs × (total < fin_cadena 0 segs + k))

module _ (total k : ℕ) (segs : List Seg) where
  Respuesta-if :
      (m p : ℤ)
      → (pos k ≤ℤ m → (neg_part p ≡ 0) × (pos_part p + k ≤ total) × IsLibre segs (pos_part p) k)
      → (pos_part m < k + neg_part m → SinHueco k 0 segs × (total < fin_cadena 0 segs + k))
      → Respuesta total k segs (if leb_ℤ (pos k) m then p else negsuc 0)
  Respuesta-if m p fits fails = elim (Bool-cases (leb_ℤ (pos k) m)) [
    | inl t ↦ rw t (inl (fits (ground arith)))
    | inr f ↦ rw f (let h = fails (ground arith) in inr (refl, h.0, h.1))
  ]

  IsLibre-mono : (n p : ℕ) → k ≤ n → IsLibre segs p n → IsLibre segs p k
  IsLibre-mono n p le h s m = omega (arith, h s m)

  module _ (small : total < 2 ^ 31) (le : fin_cadena 0 segs ≤ total) where
    Hallazgo-Respuesta :
        (r : Recorrido)
        → Hallazgo total k 0 segs r
        → Respuesta total k segs (elim r [
          | hallado p ↦ p
          | sigue i ↦ if leb_ℤ (pos k) (sub32 (pos total) i) then i else negsuc 0
        ])
    Hallazgo-Respuesta (hallado z) (neg, low, high, libre) = inl (neg, high, libre)
    Hallazgo-Respuesta (sigue z) (e, sin) =
        rw (e, sub32-pos total (fin_cadena 0 segs) le small)
          (Respuesta-if (pos (total - fin_cadena 0 segs)) (pos (fin_cadena 0 segs))
            (λ h. (refl, omega arith, IsLibre-fin_cadena 0 k _ segs (omega arith)))
            (λ h. (sin, omega arith)))

    HallazgoPeor-Respuesta :
        (w : Peor)
        → HallazgoPeor total 0 (negsuc 0) (negsuc 0) segs w
        → let w' = mejorar w (sub32 (pos total) w.ind_mem) w.ind_mem in
          Respuesta total k segs (if leb_ℤ (pos k) w'.tam_seg_max then w'.pos_seg_max else negsuc 0)
    HallazgoPeor-Respuesta w h =
        rw (h.termina, sub32-pos total (fin_cadena 0 segs) le small)
          (elim (Bool-cases (ltb_ℤ w.tam_seg_max (pos (total - fin_cadena 0 segs)))) [
            | inl t ↦ rw t (
                Respuesta-if (pos (total - fin_cadena 0 segs)) (pos (fin_cadena 0 segs))
                  (λ l. (refl, omega arith, IsLibre-fin_cadena 0 k _ segs (omega arith)))
                  (λ l. (
                    SinHueco-mono (tope w.tam_seg_max) k 0 segs (ground arith) h.sin_hueco,
                    omega arith,
                  )))
            | inr f ↦ rw f (
                Respuesta-if w.tam_seg_max w.pos_seg_max
                  (λ l. elim h.candidato [
                    | inl (em, ep) ↦ absurd (ground arith)
                    | inr (_, (nm, np, le', libre)) ↦ (
                      np,
                      omega arith,
                      IsLibre-mono (tope w.tam_seg_max) (pos_part w.pos_seg_max) (omega arith)
                          libre,
                    )
                  ])
                  (λ l. (
                    SinHueco-mono (tope w.tam_seg_max) k 0 segs (ground arith) h.sin_hueco,
                    ground arith,
                  )))
          ])

-- A rearranged list is as valid.
pub SegsValidos-Perm :
    (total : ℕ) (xs ys : List Seg) → Perm xs ys → SegsValidos total xs → SegsValidos total ys
SegsValidos-Perm total xs ys p v = record {
  caben = λ s m. v.caben s (Perm.subset (Perm.symm p) s m);
  separados = Perm.pairwise (λ s t. le_prop) (λ s t h. omega arith) p v.separados;
}

pub Cadena-SegsValidos :
    (lib : ListSort) (total : ℕ) (segs : List Seg)
    → SegsValidos total segs
    → Cadena total 0 (lib.list_sort menor_dir_fisica segs)
Cadena-SegsValidos lib total segs v =
    let sorted = lib.list_sort menor_dir_fisica segs in
    let w =
      SegsValidos-Perm total segs sorted (Perm.symm (lib.list_sort-Perm menor_dir_fisica segs)) v in
    Cadena-of_sorted total 0 sorted w.caben w.separados
      (lib.list_sort-Pairwise (λ s. s.dir_fisica) segs) (λ s m. omega arith)

buscar_first_fit-Respuesta :
    (total k : ℕ) (segs : List Seg)
    → total < 2 ^ 31
    → Cadena total 0 segs
    → Respuesta total k segs (buscar_first_fit segs (pos total) (pos k))
unfolding buscar_first_fit
buscar_first_fit-Respuesta total k segs small c =
    Hallazgo-Respuesta total k segs small (fin_cadena-le total 0 segs c (omega arith)) _
      (primer_ajuste-Hallazgo total 0 k segs c (omega arith) small)

buscar_worst_fit-Respuesta :
    (total k : ℕ) (segs : List Seg)
    → total < 2 ^ 31
    → Cadena total 0 segs
    → Respuesta total k segs (buscar_worst_fit segs (pos total) (pos k))
unfolding buscar_worst_fit
buscar_worst_fit-Respuesta total k segs small c =
    HallazgoPeor-Respuesta total k segs small (fin_cadena-le total 0 segs c (omega arith)) _
      (peor_ajuste-HallazgoPeor total 0 (negsuc 0) (negsuc 0) segs c (omega arith) small)

-- With valid segments and a request that is not negative, `buscar_espacio_mem_prin` only sorts the
-- list. It answers an address from which that many bytes lie inside memory and belong to no
-- segment; or -1, and then every gap before a segment has at most the size asked for, and the bytes
-- after the last segment are fewer.
pub buscar_espacio_mem_prin-Respuesta :
    (lib : ListSort) (u : Umv) (k : ℕ)
    → IsValid u
    → let (v, z) = buscar_espacio_mem_prin lib u (pos k) in
      (v ≡ ordenar_lista_seg_por_dir_fisica lib u)
      × Respuesta (pos_part u.tam_mem_total) k v.list_seg z
unfolding buscar_espacio_mem_prin
buscar_espacio_mem_prin-Respuesta lib u k v =
    let total = pos_part u.tam_mem_total in
    let segs = lib.list_sort menor_dir_fisica u.list_seg in
    let c = Cadena-SegsValidos lib total u.list_seg v.segs in
    let e = pos_of_neg_part u.tam_mem_total v.total_nonneg in
    (
      refl,
      rw e (elim (Bool-cases (u.alg_actual ==ℤ first_fit)) [
        | inl t ↦ rw t (buscar_first_fit-Respuesta total k segs v.total_small c)
        | inr f ↦ rw f (buscar_worst_fit-Respuesta total k segs v.total_small c)
      ]),
    )

pub ordenar-IsValid :
    (lib : ListSort) (u : Umv) → IsValid u → IsValid (ordenar_lista_seg_por_dir_fisica lib u)
unfolding ordenar_lista_seg_por_dir_fisica
ordenar-IsValid lib u v = record {
  total_nonneg = v.total_nonneg;
  total_small = v.total_small;
  reservada = v.reservada;
  segs =
      SegsValidos-Perm _ u.list_seg _ (Perm.symm (lib.list_sort-Perm menor_dir_fisica u.list_seg))
        v.segs;
}
