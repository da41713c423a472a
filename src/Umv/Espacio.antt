-- ===== src/Umv/Espacio.antt =====
-- `ordenar_lista_seg_por_dir_fisica` and `buscar_espacio_mem_prin` of UMV/UMV.c: where a segment of a
-- given size goes. Each loop is a function of its own over its variables.
pub mod Validez
pub mod PrimerAjuste
pub mod PeorAjuste
pub mod Busqueda
use tp_2014_1c_tp_so.Base.{ℕ, zero, suc, Bool, true, false, List, [], ◌∷◌, if◌then◌else◌}
use tp_2014_1c_tp_so.Base.Int.{ℤ, pos, negsuc, pos_part, neg_part, ◌-ℤ◌, ltb_ℤ, leb_ℤ, ◌==ℤ◌}
use tp_2014_1c_tp_so.Base.Words.{add32, sub32}
use tp_2014_1c_tp_so.Umv.Estado.{Seg, Umv, ListSort, first_fit}

abbrev pub menor_dir_fisica : Seg → Seg → Bool
menor_dir_fisica s t = ltb_ℤ s.dir_fisica t.dir_fisica

-- The rounds that `for(; ind_mem < dir_fisica; ind_mem++)` makes.
abbrev pub rondas : ℤ → ℤ → ℕ
rondas dir_fisica ind_mem = pos_part (dir_fisica -ℤ ind_mem)

-- The loop has returned an address, or goes on with this `ind_mem`.
pub data Recorrido : Type 0 where
  hallado : ℤ → Recorrido
  sigue : ℤ → Recorrido

-- `for(tam_seg=0; ind_mem<dir_fisica; ind_mem++,tam_seg++) if (tam_seg==tam) return ind_mem-tam_seg;`
unfoldable pub recorrer_hueco : ℕ → ℤ → ℤ → ℤ → ℤ → Recorrido
recorrer_hueco zero dir_fisica tam ind_mem tam_seg = sigue ind_mem
recorrer_hueco (suc n) dir_fisica tam ind_mem tam_seg =
    let resto = recorrer_hueco n dir_fisica tam (add32 ind_mem (pos 1)) (add32 tam_seg (pos 1)) in
    if ltb_ℤ ind_mem dir_fisica
    then (if tam_seg ==ℤ tam then hallado (sub32 ind_mem tam_seg) else resto)
    else sigue ind_mem

unfoldable pub primer_ajuste : List Seg → ℤ → ℤ → Recorrido
primer_ajuste [] tam ind_mem = sigue ind_mem
primer_ajuste (s ∷ segs) tam ind_mem =
    elim (recorrer_hueco (rondas s.dir_fisica ind_mem) s.dir_fisica tam ind_mem (pos 0)) [
      | hallado p ↦ hallado p
      | sigue i ↦ primer_ajuste segs tam (add32 i s.tam_seg)
    ]

-- The variables of the worst-fit loop.
pub record Peor : Type 0 where
  pub ind_mem : ℤ
  pub tam_seg_max : ℤ
  pub pos_seg_max : ℤ

-- `if (tam_seg > tam_seg_max) { tam_seg_max = tam_seg; pos_seg_max = pos; }`
abbrev pub mejorar : Peor → ℤ → ℤ → Peor
mejorar w tam_seg p =
    if ltb_ℤ w.tam_seg_max tam_seg then record w { tam_seg_max = tam_seg; pos_seg_max = p } else w

unfoldable pub recorrer_peor : ℕ → ℤ → ℤ → Peor → Peor
recorrer_peor zero dir_fisica tam_seg w = w
recorrer_peor (suc n) dir_fisica tam_seg w =
    let w' = mejorar w tam_seg (sub32 w.ind_mem tam_seg) in
    let resto =
      recorrer_peor n dir_fisica (add32 tam_seg (pos 1))
        (record w' { ind_mem = add32 w'.ind_mem (pos 1) }) in
    if ltb_ℤ w.ind_mem dir_fisica then resto else w

unfoldable pub peor_ajuste : List Seg → Peor → Peor
peor_ajuste [] w = w
peor_ajuste (s ∷ segs) w =
    let w' = recorrer_peor (rondas s.dir_fisica w.ind_mem) s.dir_fisica (pos 0) w in
    peor_ajuste segs (record w' { ind_mem = add32 w'.ind_mem s.tam_seg })

-- The part of `buscar_espacio_mem_prin` below the sort, on the sorted list.
unfoldable pub buscar_first_fit : List Seg → ℤ → ℤ → ℤ
buscar_first_fit segs total tam = elim (primer_ajuste segs tam (pos 0)) [
  | hallado p ↦ p
  | sigue i ↦ if leb_ℤ tam (sub32 total i) then i else negsuc 0
]

unfoldable pub buscar_worst_fit : List Seg → ℤ → ℤ → ℤ
buscar_worst_fit segs total tam =
    let w =
      peor_ajuste segs
        (record { ind_mem = pos 0; tam_seg_max = negsuc 0; pos_seg_max = negsuc 0 }) in
    let w' = mejorar w (sub32 total w.ind_mem) w.ind_mem in
    if leb_ℤ tam w'.tam_seg_max then w'.pos_seg_max else negsuc 0

module _ (lib : ListSort) where
  open lib use {list_sort}

  unfoldable pub ordenar_lista_seg_por_dir_fisica : Umv → Umv
  ordenar_lista_seg_por_dir_fisica u = record u { list_seg = list_sort menor_dir_fisica u.list_seg }

  -- The state has its list sorted on return.
  unfoldable pub buscar_espacio_mem_prin : Umv → ℤ → Umv × ℤ
  unfolding ordenar_lista_seg_por_dir_fisica
  buscar_espacio_mem_prin u tam_a_reservar =
      let v = ordenar_lista_seg_por_dir_fisica u in
      (
        v,
        if v.alg_actual ==ℤ first_fit
            then buscar_first_fit v.list_seg v.tam_mem_total tam_a_reservar
            else buscar_worst_fit v.list_seg v.tam_mem_total tam_a_reservar,
      )
