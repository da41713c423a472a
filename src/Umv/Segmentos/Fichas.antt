-- ===== src/Umv/Segmentos/Fichas.antt =====
-- What `crearSegmento` keeps of the segments that are there: all but where they lie.
use mathlib.Core.List.{map-append}
use mathlib.Core.List.Perm
use tp_2014_1c_tp_so.Base.{ℕ, ◌+◌, ◌≡◌, refl, sym, ◌∙◌, ap, List, [], ◌∷◌, ◌++◌, map, Perm, arith}
use tp_2014_1c_tp_so.Base.Int.{ℤ, pos}
use tp_2014_1c_tp_so.Mensajes.{MenSeg}
use tp_2014_1c_tp_so.Umv.Estado.{Seg, Umv, ListSort, largo}
use tp_2014_1c_tp_so.Umv.Espacio.{menor_dir_fisica, ordenar_lista_seg_por_dir_fisica}
use tp_2014_1c_tp_so.Umv.Segmentos.{tipo_de_pedido, agregar_segmento}
use tp_2014_1c_tp_so.Umv.Segmentos.Compactacion.{ubicar, suma}
use tp_2014_1c_tp_so.Umv.Segmentos.Ubicacion.{suma-Perm, suma-append}

-- A segment without its place in memory.
abbrev pub ficha : Seg → Seg
ficha s = record s { dir_fisica = pos 0 }

abbrev pub fichas : Umv → List Seg
fichas u = map ficha u.list_seg

-- The segment that a request makes, whose logical address is `azar`.
abbrev pub ficha_nueva : MenSeg → ℤ → Seg
ficha_nueva men azar = record {
  id_proc = men.id_prog;
  dir_logica = azar;
  dir_fisica = pos 0;
  tam_seg = men.tam_seg;
  tipo_seg = tipo_de_pedido men.tipo;
}

pub map-ficha-ubicar : (b : ℕ) (segs : List Seg) → map ficha (ubicar b segs) ≡ map ficha segs
map-ficha-ubicar b [] = refl
map-ficha-ubicar b (s ∷ segs) = ap (◌∷◌ (ficha s)) (map-ficha-ubicar (b + largo s) segs)

suma-map-ficha : (segs : List Seg) → suma (map ficha segs) ≡ suma segs
suma-map-ficha [] = refl
suma-map-ficha (s ∷ segs) = omega (arith, suma-map-ficha segs)

pub suma-fichas : (xs ys : List Seg) → Perm (map ficha xs) (map ficha ys) → suma xs ≡ suma ys
suma-fichas xs ys p = sym (suma-map-ficha xs) ∙ suma-Perm p ∙ suma-map-ficha ys

pub suma-fichas_append :
    (xs ys fs : List Seg) → Perm (map ficha xs) (map ficha ys ++ fs) → suma xs ≡ suma ys + suma fs
suma-fichas_append xs ys fs p =
    omega (arith, suma-map-ficha xs, suma-Perm p, suma-append (map ficha ys) fs, suma-map-ficha ys)

pub ordenar-fichas :
    (lib : ListSort) (u : Umv) → Perm (fichas (ordenar_lista_seg_por_dir_fisica lib u)) (fichas u)
unfolding ordenar_lista_seg_por_dir_fisica
ordenar-fichas lib u = Perm.map ficha (lib.list_sort-Perm menor_dir_fisica u.list_seg)

pub agregar_segmento-fichas :
    (u : Umv) (men : MenSeg) (resp azar : ℤ)
    → fichas (agregar_segmento u men resp azar) ≡ fichas u ++ (ficha_nueva men azar ∷ [])
unfolding agregar_segmento
agregar_segmento-fichas u men resp azar = map-append ficha u.list_seg _
