-- ===== src/Sistema/Escritura.antt =====
-- The three writes of kernel/kernel.c into the segments of a script, and what UMV/UMV.c then gives to read.
use mathlib.Core.List.{mem-cons_self, mem-cons_of_mem}
use tp_2014_1c_tp_so.Base.{
  ℕ, ◌^◌, ◌<◌, ◌≡◌, refl, ◌∙◌, sym, ap, ◌≢◌, List, [], ◌∷◌, none, some, Mem, arith, length,
}
use tp_2014_1c_tp_so.Base.Int.{ℤ, pos, pos_part}
use tp_2014_1c_tp_so.Base.Outcome.{ok}
use tp_2014_1c_tp_so.Mensajes.{aviso}
use tp_2014_1c_tp_so.Mensajes.Tipos.{
  escribir_seg, men_alm_ok, codigo_script, ind_eti_func, ind_cod, ind_stack,
}
use tp_2014_1c_tp_so.Umv.Estado.{Seg, Umv}
use tp_2014_1c_tp_so.Umv.Espacio.Validez.{IsValid}
use tp_2014_1c_tp_so.Umv.Segmentos.{buscar_segmento_tipo_seg, buscar_segmento_dir_logica}
use tp_2014_1c_tp_so.Umv.Segmentos.Fichas.{ficha}
use tp_2014_1c_tp_so.Umv.Segmentos.Busqueda.{Distintas, Propios, buscar-Propios}
use tp_2014_1c_tp_so.Umv.Bytes.{solicitar_bytes}
use tp_2014_1c_tp_so.Umv.Bytes.Acceso.{buscar-escrito, Separados-mem}
use tp_2014_1c_tp_so.Umv.Segmentos.Busqueda.{buscar_segmento_tipo_seg-mem}
use tp_2014_1c_tp_so.Umv.Sesion as Sesion
use tp_2014_1c_tp_so.Umv.Sesion.{cadena}
use tp_2014_1c_tp_so.Umv.Sesion.Concesion.{solicitar_bytes-Guarda}
use tp_2014_1c_tp_so.Kernel.Estado.{a_umv_dato}
use tp_2014_1c_tp_so.Kernel.Programas.{pedir_seg}
use tp_2014_1c_tp_so.Sistema.Concedidas.{lleva}
use tp_2014_1c_tp_so.Sistema.Servicio.{servir, lote, hecho, Destino, servir-escrituras}

-- Segments with other types are others.
otro_tipo : (s t f g : Seg) → ficha s ≡ f → ficha t ≡ g → f.tipo_seg ≢ g.tipo_seg → s ≢ t
otro_tipo s t f g ef eg ne q = ne (
    sym (ap (λ (x : Seg). x.tipo_seg) ef)
    ∙ ap (λ (x : Seg). x.tipo_seg) q
    ∙ ap (λ (x : Seg). x.tipo_seg) eg)

-- A segment that was found for a part of the script.
hallado-Destino :
    (w : Umv) (id : ℤ) (tipo : ℤ) (bs : List ℕ) (a : ℕ) (s : Seg)
    → buscar_segmento_tipo_seg w id tipo ≡ some s
    → ficha s ≡ hecho id tipo (length bs) a
    → Destino w id (lleva tipo bs) s
hallado-Destino w id tipo bs a s h e = record {
  hallado = h;
  tam = sym (ap (λ (x : Seg). x.tam_seg) e);
  entero = sym (ap (λ (x : Seg). pos_part x.tam_seg) e);
}

-- Four segments that are filled as the kernel does it.
module _ (eu : Sesion.Entorno) (hay : (n : ℤ) → eu.malloc n ≢ none) (w : Umv) (v : IsValid w)
    (small : pos_part w.tam_mem_total < 2 ^ 30) (id : ℤ) (b1 b2 b3 : List ℕ) (k4 a1 a2 a3 a4 : ℕ)
    (h : Propios id (lote id (length b1) (length b2) (length b3) k4 a1 a2 a3 a4) w)
    (dirs : Distintas
      (λ f. f.dir_logica)
      (lote id (length b1) (length b2) (length b3) k4 a1 a2 a3 a4)) where
  -- The part of type `tipo` is read at the address `a`.
  abbrev pub Leida : Umv → ℕ → List ℕ → Type 0
  Leida x a bs = solicitar_bytes eu.malloc x id (pos a) (pos 0) (pos (length bs)) ≡ ok (some bs)

  pub servir-Leidas :
      (z1 z2 z3 : ℤ)
      → (x : Umv) × (servir eu w
            (pedir_seg escribir_seg id (pos 0)
              ∷ a_umv_dato (lleva codigo_script b1)
              ∷ pedir_seg escribir_seg id (pos 0)
              ∷ a_umv_dato (lleva ind_eti_func b2)
              ∷ pedir_seg escribir_seg id (pos 0)
              ∷ a_umv_dato (lleva ind_cod b3)
              ∷ [])
            (z1 ∷ z2 ∷ z3 ∷ [])
          ≡ ok (x, aviso men_alm_ok ∷ aviso men_alm_ok ∷ aviso men_alm_ok ∷ []))
        × IsValid x
        × Leida x a1 b1
        × Leida x a2 b2
        × Leida x a3 b3
        × ((s : Seg) × (buscar_segmento_dir_logica x id (pos a4) ≡ some s) × (s.tam_seg ≡ pos k4))
  servir-Leidas z1 z2 z3 =
      let fs = lote id (length b1) (length b2) (length b3) k4 a1 a2 a3 a4 in
      let tipos : Distintas (λ f. f.tipo_seg) fs = ground arith in
      let f1 = hecho id codigo_script (length b1) a1 in
      let f2 = hecho id ind_eti_func (length b2) a2 in
      let f3 = hecho id ind_cod (length b3) a3 in
      let f4 = hecho id ind_stack k4 a4 in
      let m1 : Mem f1 fs = mem-cons_self in
      let m2 : Mem f2 fs = mem-cons_of_mem _ mem-cons_self in
      let m3 : Mem f3 fs = mem-cons_of_mem _ (mem-cons_of_mem _ mem-cons_self) in
      let m4 : Mem f4 fs =
        mem-cons_of_mem _ (mem-cons_of_mem _ (mem-cons_of_mem _ mem-cons_self)) in
      let g1 = buscar-Propios w id fs h tipos dirs f1 m1 refl in
      let g2 = buscar-Propios w id fs h tipos dirs f2 m2 refl in
      let g3 = buscar-Propios w id fs h tipos dirs f3 m3 refl in
      let g4 = buscar-Propios w id fs h tipos dirs f4 m4 refl in
      let esta = buscar_segmento_tipo_seg-mem w id in
      let aparte = Separados-mem w.list_seg in
      let n1 = esta _ g1.0 g1.1 in
      let n2 = esta _ g2.0 g2.1 in
      let n3 = esta _ g3.0 g3.1 in
      let d1 = hallado-Destino w id codigo_script b1 a1 g1.0 g1.1 g1.3 in
      let d2 = hallado-Destino w id ind_eti_func b2 a2 g2.0 g2.1 g2.3 in
      let d3 = hallado-Destino w id ind_cod b3 a3 g3.0 g3.1 g3.3 in
      let r =
        servir-escrituras eu w v id _ _ _ g1.0 g2.0 g3.0 d1 d2 d3
          (aparte _ _ v.segs.separados n1 n2
            (otro_tipo _ _ f1 f2 g1.3 g2.3 (λ q. absurd (ground arith))))
          (aparte _ _ v.segs.separados n1 n3
            (otro_tipo _ _ f1 f3 g1.3 g3.3 (λ q. absurd (ground arith))))
          (aparte _ _ v.segs.separados n2 n3
            (otro_tipo _ _ f2 f3 g2.3 g3.3 (λ q. absurd (ground arith))))
          z1 z2 z3 in
      let x = record w { mem_prin = r.0 } in
      (
        x,
        r.1,
        r.2,
        solicitar_bytes-Guarda eu.malloc x id a1 g1.0 b1 hay r.2 small
            (buscar-escrito w r.0 id (pos a1) ∙ g1.2) d1.entero r.3,
        solicitar_bytes-Guarda eu.malloc x id a2 g2.0 b2 hay r.2 small
            (buscar-escrito w r.0 id (pos a2) ∙ g2.2) d2.entero r.4,
        solicitar_bytes-Guarda eu.malloc x id a3 g3.0 b3 hay r.2 small
            (buscar-escrito w r.0 id (pos a3) ∙ g3.2) d3.entero r.5,
        (g4.0, buscar-escrito w r.0 id (pos a4) ∙ g4.2, ap (λ (s : Seg). s.tam_seg) g4.3),
      )
