-- ===== src/Umv/Segmentos/Agregado.antt =====
-- A new segment of `crearSegmento` in a valid memory, and how that operation ends.
use mathlib.Core.List.{Pairwise-append, mem-append, mem-cons, not-mem-nil}
use mathlib.Core.List.Perm
use mathlib.Core.Logic.Or
use native.Mathlib.Bridge.{le_prop}
use tp_2014_1c_tp_so.Base.{
  ℕ, ◌+◌, ◌≤◌, ◌<◌, ◌≡◌, refl, ap, ◌⊎◌, [], ◌∷◌, ◌++◌, Perm, Pairwise, arith, inr,
}
use tp_2014_1c_tp_so.Base.Int.{ℤ, pos, negsuc, pos_part, neg_part}
use tp_2014_1c_tp_so.Mensajes.{MenSeg}
use tp_2014_1c_tp_so.Umv.Estado.{Umv, ListSort, Separados}
use tp_2014_1c_tp_so.Umv.Espacio.Validez.{Cabe-prop, IsValid, IsLibre}
use tp_2014_1c_tp_so.Umv.Segmentos.{agregar_segmento}
use tp_2014_1c_tp_so.Umv.Segmentos.Compactacion.{suma}
use tp_2014_1c_tp_so.Umv.Segmentos.Ubicacion.{suma-le}
use tp_2014_1c_tp_so.Umv.Segmentos.Fichas.{
  fichas, ficha_nueva, suma-fichas_append, agregar_segmento-fichas,
}

-- A segment put where memory is free keeps it valid.
agregar_segmento-IsValid :
    (u : Umv) (men : MenSeg) (resp azar : ℤ) (k : ℕ)
    → IsValid u
    → men.tam_seg ≡ pos k
    → neg_part resp ≡ 0
    → pos_part resp + k ≤ pos_part u.tam_mem_total
    → IsLibre u.list_seg (pos_part resp) k
    → IsValid (agregar_segmento u men resp azar)
unfolding agregar_segmento
agregar_segmento-IsValid u men resp azar k v et nr cabe libre = record {
  total_nonneg = v.total_nonneg;
  total_small = v.total_small;
  reservada = v.reservada;
  segs = record {
    caben = λ s m.
        Or.elim Cabe-prop (mem-append.0 m) (λ l. v.segs.caben s l)
          (λ l.
            Or.elim Cabe-prop (mem-cons.0 l)
              (λ e. rw (e, et) (record { dir_nonneg = nr; tam_nonneg = refl; dentro = cabe }))
              (λ n. absurd (not-mem-nil n)));
    separados = (Pairwise-append {R = Separados} (λ s t. le_prop)).1 (
      v.segs.separados,
      Pairwise.cons (λ t m. absurd (not-mem-nil m)) Pairwise.nil,
      λ s m t n.
          Or.elim le_prop (mem-cons.0 n) (λ e. rw (e, et) (omega (arith, libre s m)))
            (λ l. absurd (not-mem-nil l)),
    );
  };
}

-- How `crearSegmento` ends, asked for `k` bytes: -1 exactly if the segments and `k` are longer
-- together than memory, the segments being then the same; or the new logical address, with the new
-- segment among them. Where the segments lie is left open.
pub record Creado (u : Umv) (men : MenSeg) (k : ℕ) (azar : ℤ) (r : Umv × ℤ) : Type 0 where
  pub valido : IsValid r.0
  pub total : r.0.tam_mem_total ≡ u.tam_mem_total
  pub resultado :
      ((r.1 ≡ negsuc 0)
        × (pos_part u.tam_mem_total < suma u.list_seg + k)
        × Perm (fichas r.0) (fichas u))
      ⊎ ((r.1 ≡ azar)
          × (suma u.list_seg + k ≤ pos_part u.tam_mem_total)
          × Perm (fichas r.0) (fichas u ++ (ficha_nueva men azar ∷ [])))

-- The new segment stands at a free address of `w`, which holds the segments of `u`.
pub agregar_segmento-Creado :
    (lib : ListSort) (u w : Umv) (men : MenSeg) (resp azar : ℤ) (k : ℕ)
    → IsValid w
    → w.tam_mem_total ≡ u.tam_mem_total
    → Perm (fichas w) (fichas u)
    → men.tam_seg ≡ pos k
    → neg_part resp ≡ 0
    → pos_part resp + k ≤ pos_part w.tam_mem_total
    → IsLibre w.list_seg (pos_part resp) k
    → Creado u men k azar (agregar_segmento w men resp azar, azar)
agregar_segmento-Creado lib u w men resp azar k v et es em nr cabe libre =
    let nuevo = agregar_segmento-IsValid w men resp azar k v em nr cabe libre in
    let crece : Perm (fichas (agregar_segmento w men resp azar))
        (fichas u ++ (ficha_nueva men azar ∷ [])) =
      rw (agregar_segmento-fichas w men resp azar)
        (Perm.append_right (ficha_nueva men azar ∷ []) es) in
    let mas = suma-fichas_append (agregar_segmento w men resp azar).list_seg u.list_seg _ crece in
    let mismo : (agregar_segmento w men resp azar).tam_mem_total ≡ u.tam_mem_total =
      unfold agregar_segmento in et in
    record {
      valido = nuevo;
      total = mismo;
      resultado = inr (
        refl,
        omega (arith, suma-le lib _ _ nuevo.segs, mas, ap pos_part em, ap pos_part mismo),
        crece,
      );
    }
