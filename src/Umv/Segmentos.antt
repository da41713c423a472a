-- ===== src/Umv/Segmentos.antt =====
-- `compactar`, `crearSegmento`, `destruirSegmentos` and the searches by process of UMV/UMV.c.
pub mod Compactacion
pub mod Ubicacion
pub mod Fichas
pub mod Busqueda
pub mod Agregado
pub mod Creacion
pub mod Destruccion
pub mod Restauracion
use tp_2014_1c_tp_so.Base.{
  ℕ, zero, suc, Bool, true, false, not, ◌&&◌, List, [], ◌∷◌, ◌++◌, Option, none, some, length,
  if◌then◌else◌, list_find, list_remove,
}
use tp_2014_1c_tp_so.Base.Int.{ℤ, pos, negsuc, ◌==ℤ◌}
use tp_2014_1c_tp_so.Base.Words.{add32}
use tp_2014_1c_tp_so.Mensajes.{MenSeg}
use tp_2014_1c_tp_so.Mensajes.Tipos.{
  ped_mem_seg_cod, ped_mem_ind_eti, ped_mem_ind_cod, ped_mem_seg_stack, codigo_script, ind_eti_func,
  ind_cod, ind_stack,
}
use tp_2014_1c_tp_so.Base.Outcome.{Outcome, ok, fault, ◌>>=◌}
use tp_2014_1c_tp_so.Umv.Estado.{Seg, Umv, ListSort}
use tp_2014_1c_tp_so.Base.Memoria.{memcpy_hacia}
use tp_2014_1c_tp_so.Umv.Espacio.{ordenar_lista_seg_por_dir_fisica, buscar_espacio_mem_prin}

unfoldable pub buscar_segmento_tipo_seg : Umv → ℤ → ℤ → Option Seg
unfolding list_find
buscar_segmento_tipo_seg u id_proc tipo_seg =
    list_find (λ s. s.tipo_seg ==ℤ tipo_seg && s.id_proc ==ℤ id_proc) u.list_seg

unfoldable pub buscar_segmento_dir_logica : Umv → ℤ → ℤ → Option Seg
unfolding list_find
buscar_segmento_dir_logica u id_proc dir_logica =
    list_find (λ s. s.dir_logica ==ℤ dir_logica && s.id_proc ==ℤ id_proc) u.list_seg

-- The loop of `compactar`, over the sorted list. The source of its `memcpy` is `&aux_seg`, the
-- address of the loop's own pointer: `pila s` are the bytes that stand there, and after it on the
-- stack, when the pointer is the one to `s`.
unfoldable pub compactar_desde :
    (Seg → List ℕ) → List ℕ → ℤ → List Seg → Outcome (List ℕ × List Seg)
compactar_desde pila m ind_mem [] = ok (m, [])
compactar_desde pila m ind_mem (s ∷ segs) = elim (ind_mem ==ℤ s.dir_fisica) [
  | true ↦ compactar_desde pila m (add32 ind_mem s.tam_seg) segs >>= λ r. ok (r.0, s ∷ r.1)
  | false ↦ memcpy_hacia m ind_mem (pila s) s.tam_seg >>= λ m'.
      compactar_desde pila m' (add32 ind_mem s.tam_seg) segs >>= λ r.
      ok (r.0, record s { dir_fisica = ind_mem } ∷ r.1)
]

-- `while(list_any_satisfy(p)) list_remove_and_destroy_by_condition(p)`: `list_remove` fails where
-- no element passes.
unfoldable pub destruir_mientras : ℕ → (Seg → Bool) → List Seg → List Seg
unfolding list_remove
destruir_mientras zero p segs = segs
destruir_mientras (suc n) p segs = elim (list_remove p segs) [
  | none ↦ segs
  | some (_, resto) ↦ destruir_mientras n p resto
]

unfoldable pub destruir_segmentos : Umv → ℤ → Umv
unfolding destruir_mientras
destruir_segmentos u id_prog = if id_prog ==ℤ pos 0 then record u { list_seg = [] } else record u {
  list_seg = destruir_mientras (length u.list_seg) (λ s. s.id_proc ==ℤ id_prog) u.list_seg;
}

-- The `switch` of `crearSegmento`.
unfoldable pub tipo_de_pedido : ℤ → ℤ
tipo_de_pedido tipo =
    if tipo ==ℤ ped_mem_seg_cod
    then codigo_script
    else if tipo ==ℤ ped_mem_ind_eti
    then ind_eti_func
    else if tipo ==ℤ ped_mem_ind_cod
    then ind_cod
    else if tipo ==ℤ ped_mem_seg_stack
    then ind_stack
    else tipo

-- The end of `crearSegmento`: the new segment goes to the end of the list. `azar` is what `rand()`
-- returns.
unfoldable pub agregar_segmento : Umv → MenSeg → ℤ → ℤ → Umv
unfolding tipo_de_pedido
agregar_segmento u men resp azar = record u { list_seg = u.list_seg ++ (nuevo ∷ []) }
  where
    nuevo : Seg
    nuevo = record {
      id_proc = men.id_prog;
      dir_logica = azar;
      dir_fisica = resp;
      tam_seg = men.tam_seg;
      tipo_seg = tipo_de_pedido men.tipo;
    }

module _ (lib : ListSort) (pila : Seg → List ℕ) where
  unfoldable pub compactar : Umv → Outcome Umv
  unfolding compactar_desde ordenar_lista_seg_por_dir_fisica
  compactar u =
      let v = ordenar_lista_seg_por_dir_fisica lib u in
      compactar_desde pila v.mem_prin (pos 0) v.list_seg >>= λ r.
      ok (record v { mem_prin = r.0; list_seg = r.1 })

  -- The second search of `crearSegmento`, after the compaction.
  unfoldable pub crear_compactado : Umv → MenSeg → ℤ → Umv × ℤ
  crear_compactado u men azar =
      let (v, resp) = buscar_espacio_mem_prin lib u men.tam_seg in
      if resp ==ℤ negsuc 0 then (v, negsuc 0) else (agregar_segmento v men resp azar, azar)

  -- The state and the logical address of the new segment, or -1.
  unfoldable pub crear_segmento : Umv → MenSeg → ℤ → Outcome (Umv × ℤ)
  crear_segmento u men azar =
      let (v, resp) = buscar_espacio_mem_prin lib u men.tam_seg in
      if resp ==ℤ negsuc 0
      then compactar v >>= (λ w. ok (crear_compactado w men azar))
      else ok (agregar_segmento v men resp azar, azar)
