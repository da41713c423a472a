-- ===== src/Umv/Segmentos/Creacion.antt =====
-- `compactar` and `crearSegmento` on a valid memory.
use mathlib.Core.List.Perm
use tp_2014_1c_tp_so.Base.{
  ℕ, ◌+◌, ◌≤◌, ◌≡◌, refl, sym, ◌∙◌, ap, List, map, Perm, arith, inl, inr, true, false,
}
use tp_2014_1c_tp_so.Base.Int.{ℤ, pos, negsuc, pos_part, neg_part, ◌==ℤ◌}
use tp_2014_1c_tp_so.Mensajes.{MenSeg}
use tp_2014_1c_tp_so.Base.Outcome.{ok, ◌>>=◌}
use tp_2014_1c_tp_so.Umv.Estado.{Seg, Umv, ListSort}
use tp_2014_1c_tp_so.Umv.Espacio.{
  menor_dir_fisica, ordenar_lista_seg_por_dir_fisica, buscar_espacio_mem_prin,
}
use tp_2014_1c_tp_so.Umv.Espacio.Validez.{SegsValidos, IsValid, IsLibre, fin_cadena, fin_cadena-le}
use tp_2014_1c_tp_so.Umv.Espacio.Busqueda.{
  Cadena-SegsValidos, ordenar-IsValid, buscar_espacio_mem_prin-Respuesta,
}
use tp_2014_1c_tp_so.Umv.Segmentos.{compactar, agregar_segmento, crear_compactado, crear_segmento}
use tp_2014_1c_tp_so.Umv.Segmentos.Compactacion.{
  ubicar, suma, PilaLarga, Contenidos, compactar_desde-Compactado,
}
use tp_2014_1c_tp_so.Umv.Segmentos.Ubicacion.{
  ubicar-SegsValidos, SegsValidos-mono, suma-Perm, suma-le, suma-ubicar,
}
use tp_2014_1c_tp_so.Umv.Segmentos.Agregado.{Creado, agregar_segmento-Creado}
use tp_2014_1c_tp_so.Umv.Segmentos.Fichas.{
  ficha, fichas, map-ficha-ubicar, suma-fichas, ordenar-fichas,
}

module _ (lib : ListSort) (pila : Seg → List ℕ) (u : Umv) (v : IsValid u)
    (larga : PilaLarga pila u.list_seg) where
  -- On a valid memory, where the stack holds, from the loop's pointer on, at least as many bytes as each
  -- segment is long (`compactar` copies from the pointer itself, which the C standard does not allow),
  -- `compactar` ends. It puts the segments, in the order of their
  -- addresses and with nothing else changed, one after the other from address 0; memory stays
  -- valid. A segment that did not move keeps its bytes; one that moved gets, in place of its bytes,
  -- those of the stack from the address of the loop's pointer on.
  pub compactar_lem :
      let segs = lib.list_sort menor_dir_fisica u.list_seg in
      (m' : List ℕ) × (compactar lib pila u
        ≡ ok (record u { mem_prin = m'; list_seg = ubicar 0 segs }))
      × IsValid (record u { mem_prin = m'; list_seg = ubicar 0 segs })
      × Contenidos pila u.mem_prin m' 0 segs
  unfolding compactar
  compactar_lem =
      let segs = lib.list_sort menor_dir_fisica u.list_seg in
      let total = pos_part u.tam_mem_total in
      let p = lib.list_sort-Perm menor_dir_fisica u.list_seg in
      let r =
        compactar_desde-Compactado pila total 0 0 u.mem_prin segs
          (Cadena-SegsValidos lib total u.list_seg v.segs) (omega arith) (omega arith) v.total_small
          v.reservada (λ s m. larga s (Perm.subset p s m)) in
      (
        r.0,
        rw r.1.termina,
        record {
          total_nonneg = v.total_nonneg;
          total_small = v.total_small;
          reservada = r.1.medida ∙ v.reservada;
          segs =
              SegsValidos-mono (suma segs) total (ubicar 0 segs)
                (omega (arith, suma-Perm p, suma-le lib total u.list_seg v.segs))
                (ubicar-SegsValidos segs (λ s m. (v.segs.caben s (Perm.subset p s m)).tam_nonneg));
        },
        r.1.contenidos,
      )

ordenar-total :
    (lib : ListSort) (u : Umv)
    → (ordenar_lista_seg_por_dir_fisica lib u).tam_mem_total ≡ u.tam_mem_total
unfolding ordenar_lista_seg_por_dir_fisica
ordenar-total lib u = refl

ordenar-PilaLarga :
    (lib : ListSort) (pila : Seg → List ℕ) (u : Umv)
    → PilaLarga pila u.list_seg
    → PilaLarga pila (ordenar_lista_seg_por_dir_fisica lib u).list_seg
unfolding ordenar_lista_seg_por_dir_fisica
ordenar-PilaLarga lib pila u h s m =
    h s (Perm.subset (lib.list_sort-Perm menor_dir_fisica u.list_seg) s m)

-- Where the segments lie in as many bytes as they are long, the walk over them ends there.
ordenar-fin_cadena :
    (lib : ListSort) (n : ℕ) (u : Umv)
    → SegsValidos n u.list_seg
    → fin_cadena 0 (ordenar_lista_seg_por_dir_fisica lib u).list_seg ≤ n
unfolding ordenar_lista_seg_por_dir_fisica
ordenar-fin_cadena lib n u v =
    fin_cadena-le n 0 (lib.list_sort menor_dir_fisica u.list_seg)
      (Cadena-SegsValidos lib n u.list_seg v) (omega arith)

module _ (lib : ListSort) (pila : Seg → List ℕ) (u : Umv) (men : MenSeg) (azar : ℤ) (k : ℕ)
    (em : men.tam_seg ≡ pos k) where
  -- The search found an address in `w`.
  hallado-Creado :
      (w : Umv) (v : IsValid w)
      → w.tam_mem_total ≡ u.tam_mem_total
      → Perm (fichas w) (fichas u)
      → let (b, z) = buscar_espacio_mem_prin lib w (pos k) in
        b ≡ ordenar_lista_seg_por_dir_fisica lib w
        → neg_part z ≡ 0
        → pos_part z + k ≤ pos_part w.tam_mem_total
        → IsLibre b.list_seg (pos_part z) k
        → Creado u men k azar (agregar_segmento b men z azar, azar)
  hallado-Creado w v et es e nr cabe libre =
      agregar_segmento-Creado lib u _ men _ azar k (rw e (ordenar-IsValid lib w v))
        (rw e (ordenar-total lib w ∙ et)) (rw e (Perm.trans (ordenar-fichas lib w) es)) em nr
        (rw (e, ordenar-total) cabe) libre

  -- The search after the compaction.
  crear_compactado-Creado :
      (w : Umv)
      → IsValid w
      → w.tam_mem_total ≡ u.tam_mem_total
      → Perm (fichas w) (fichas u)
      → SegsValidos (suma u.list_seg) w.list_seg
      → Creado u men k azar (crear_compactado lib pila w men azar)
  unfolding crear_compactado
  crear_compactado-Creado w v et es placed =
      let s = buscar_espacio_mem_prin-Respuesta lib w k v in
      simp em (elim s.1 [
        | inl (nr, cabe, libre) ↦
            let hay : ((buscar_espacio_mem_prin lib w (pos k)).1 ==ℤ negsuc 0) ≡ false =
              ground arith in
            rw hay (hallado-Creado w v et es s.0 nr cabe libre)
        | inr (e, sin, lleno) ↦
            let no_hay : ((buscar_espacio_mem_prin lib w (pos k)).1 ==ℤ negsuc 0) ≡ true =
              ground arith in
            rw no_hay (record {
              valido = rw s.0 (ordenar-IsValid lib w v);
              total = rw s.0 (ordenar-total lib w ∙ et);
              resultado = inl (
                refl,
                omega (
                  arith,
                  ap pos_part et,
                  rw s.0 at lleno,
                  ordenar-fin_cadena lib (suma u.list_seg) w placed,
                ),
                rw s.0 (Perm.trans (ordenar-fichas lib w) es),
              );
            })
      ])

  -- What `crearSegmento` does once the first search has failed.
  compactar-Creado :
      (w : Umv)
      → IsValid w
      → PilaLarga pila w.list_seg
      → w.tam_mem_total ≡ u.tam_mem_total
      → Perm (fichas w) (fichas u)
      → (r : Umv × ℤ) × ((compactar lib pila w >>= λ x. ok (crear_compactado lib pila x men azar))
          ≡ ok r)
        × Creado u men k azar r
  compactar-Creado w v larga et es =
      let c = compactar_lem lib pila w v larga in
      let segs = lib.list_sort menor_dir_fisica w.list_seg in
      let p = lib.list_sort-Perm menor_dir_fisica w.list_seg in
      let placed =
        ubicar-SegsValidos segs (λ s m. (v.segs.caben s (Perm.subset p s m)).tam_nonneg) in
      let es' : Perm (map ficha (ubicar 0 segs)) (fichas u) =
        rw (map-ficha-ubicar 0 segs) (Perm.trans (Perm.map ficha p) es) in
      let mide = suma-fichas (ubicar 0 segs) u.list_seg es' in
      (
        _,
        rw c.1,
        crear_compactado-Creado (record w { mem_prin = c.0; list_seg = ubicar 0 segs }) c.2 et es'
            (rw (sym (suma-ubicar 0 segs) ∙ mide) at placed),
      )

  -- On a valid memory, where the stack holds, from the pointer of the loop of `compactar` on, at least
  -- as many bytes as each segment is long (what that loop copies by mistake), `crearSegmento`, asked for
  -- `k` bytes, ends and leaves a valid memory.
  -- It answers -1 exactly if the segments and `k` are longer together than memory, and then the
  -- segments are the same but for their places; else it answers the logical address that `rand` gave,
  -- and the segments are the same, but for their places, and the one that was asked for.
  pub crear_segmento-Creado :
      IsValid u
      → PilaLarga pila u.list_seg
      → (r : Umv × ℤ) × (crear_segmento lib pila u men azar ≡ ok r) × Creado u men k azar r
  unfolding crear_segmento
  crear_segmento-Creado v larga =
      let s = buscar_espacio_mem_prin-Respuesta lib u k v in
      simp em (elim s.1 [
        | inl (nr, cabe, libre) ↦
            let hay : ((buscar_espacio_mem_prin lib u (pos k)).1 ==ℤ negsuc 0) ≡ false =
              ground arith in
            (_, rw hay, hallado-Creado u v refl (Perm.refl (fichas u)) s.0 nr cabe libre)
        | inr (e, sin, lleno) ↦
            let no_hay : ((buscar_espacio_mem_prin lib u (pos k)).1 ==ℤ negsuc 0) ≡ true =
              ground arith in
            rw no_hay (
              compactar-Creado _ (rw s.0 (ordenar-IsValid lib u v))
                (rw s.0 (ordenar-PilaLarga lib pila u larga)) (rw s.0 (ordenar-total lib u))
                (rw s.0 (ordenar-fichas lib u)))
      ])
