-- ===== src/Umv/Bytes/Aislamiento.antt =====
-- A write by one process does not change what another reads.
use tp_2014_1c_tp_so.Base.{
  ℕ, ◌+◌, ◌^◌, ◌≤◌, ◌<◌, ◌≡◌, refl, sym, ap, ◌∙◌, ◌≢◌, ◌⊎◌, List, Option, some, arith, length, take,
  leb, Bool-cases, inl, inr, Option-cases,
}
use tp_2014_1c_tp_so.Base.Int.{ℤ, pos, negsuc, pos_part, neg_part, pos_of_neg_part}
use tp_2014_1c_tp_so.Base.Words.{add32-pos}
use tp_2014_1c_tp_so.Base.Outcome.{ok}
use tp_2014_1c_tp_so.Umv.Estado.{Umv, Seg, inicio, largo}
use tp_2014_1c_tp_so.Base.Memoria.{memcpy_desde, memcpy_hacia, length-escribir}
use tp_2014_1c_tp_so.Umv.Espacio.Validez.{IsValid}
use tp_2014_1c_tp_so.Umv.Segmentos.{buscar_segmento_dir_logica}
use tp_2014_1c_tp_so.Umv.Bytes.{solicitar_bytes, almacenar_bytes}
use tp_2014_1c_tp_so.Umv.Bytes.Acceso.{
  buscar_segmento_dir_logica_lem, almacenar_bytes_lem, escrito, escrito-IsValid, buscar-escrito,
  leer-escrito, Separados-mem,
}

-- Either the write changed nothing, or it went into a segment of the process.
abbrev pub Escritura : Umv → ℤ → ℤ → List ℕ → Umv → Type 0
Escritura u id_proc base buffer w =
    (w ≡ u)
    ⊎ ((s : Seg) × (o : ℕ) × (n : ℕ) × (buscar_segmento_dir_logica u id_proc base ≡ some s)
        × (o + n ≤ largo s)
        × (w ≡ escrito u s o n buffer))

module _ (u : Umv) (v : IsValid u) (small : pos_part u.tam_mem_total < 2 ^ 30) where
  almacenar_en :
      (id_proc base : ℤ) (buffer : List ℕ) (w : Umv) (r : ℤ) (s : Seg) (o n : ℕ)
      → neg_part base ≡ 0
      → buscar_segmento_dir_logica u id_proc base ≡ some s
      → almacenar_bytes u id_proc base (pos o) (pos n) buffer ≡ ok (w, r)
      → Escritura u id_proc base buffer w
  unfolding almacenar_bytes memcpy_hacia
  almacenar_en id_proc base buffer w r s o n nb e h =
      let c = v.segs.caben s (buscar_segmento_dir_logica_lem u id_proc base s e).0 in
      elim (Bool-cases (leb n (length buffer))) [
        | inl l ↦
            let k = almacenar_bytes_lem u id_proc base s o n buffer v small nb (ground arith) e in
            elim (Bool-cases (leb (o + n) (largo s))) [
              | inl d ↦ inr (s, o, n, e, ground arith, ground (arith, k))
              | inr d ↦ inl (ground (arith, k))
            ]
        | inr l ↦ inl (ground (arith, add32-pos o n, pos_of_neg_part s.tam_seg c.tam_nonneg))
      ]

  almacenar_bytes-Escritura :
      (id_proc base offset tam : ℤ) (buffer : List ℕ) (w : Umv) (r : ℤ)
      → almacenar_bytes u id_proc base offset tam buffer ≡ ok (w, r)
      → Escritura u id_proc base buffer w
  unfolding almacenar_bytes memcpy_hacia
  almacenar_bytes-Escritura id_proc base (negsuc o) tam buffer w r h = inl (ground arith)
  almacenar_bytes-Escritura id_proc base (pos o) (negsuc n) buffer w r h = inl (ground arith)
  almacenar_bytes-Escritura id_proc (negsuc b) (pos o) (pos n) buffer w r h = inl (ground arith)
  almacenar_bytes-Escritura id_proc (pos b) (pos o) (pos n) buffer w r h =
      elim (Option-cases (buscar_segmento_dir_logica u id_proc (pos b))) [
        | inl e ↦ inl (ground arith)
        | inr (s, e) ↦ almacenar_en id_proc (pos b) buffer w r s o n refl e h
      ]

  -- A read of another process's segment, or of none, after the write.
  solicitar-escrito :
      (malloc : ℤ → Option (List ℕ)) (id_proc base : ℤ) (s : Seg) (o n : ℕ) (buffer : List ℕ)
      (id_otro base' offset tam : ℤ)
      → buscar_segmento_dir_logica u id_proc base ≡ some s
      → o + n ≤ largo s
      → id_otro ≢ id_proc
      → solicitar_bytes malloc (escrito u s o n buffer) id_otro base' offset tam
        ≡ solicitar_bytes malloc u id_otro base' offset tam
  unfolding solicitar_bytes memcpy_desde
  solicitar-escrito malloc id_proc base s o n buffer id_otro base' (negsuc k) tam e d ne =
      ground arith
  solicitar-escrito malloc id_proc base s o n buffer id_otro base' (pos k) tam e d ne =
      let w = escrito u s o n buffer in
      let len = length-escribir u.mem_prin (inicio s + o) (take n buffer) in
      let igual = buscar-escrito u w.mem_prin id_otro base' in
      elim (Option-cases (buscar_segmento_dir_logica u id_otro base')) [
        | inl f ↦ ground (arith, igual, f)
        | inr (t, f) ↦
            let rs = buscar_segmento_dir_logica_lem u id_proc base s e in
            let rt = buscar_segmento_dir_logica_lem u id_otro base' t f in
            let c = v.segs.caben t rt.0 in
            let apart =
              Separados-mem u.list_seg s t v.segs.separados rs.0 rt.0
                (λ q. ne (sym rt.1 ∙ sym (ap (λ (x : Seg). x.id_proc) q) ∙ rs.1)) in
            ground (
              arith,
              igual,
              f,
              len,
              c,
              v.reservada,
              add32-pos k (pos_part tam),
              add32-pos (inicio t) k,
              pos_of_neg_part tam,
              pos_of_neg_part t.dir_fisica c.dir_nonneg,
              pos_of_neg_part t.tam_seg c.tam_nonneg,
              leer-escrito u s t o n k (pos_part tam) buffer apart d,
            )
      ]

-- A write changes bytes only.
pub almacenar_bytes-lista :
    (u : Umv)
    → IsValid u
    → pos_part u.tam_mem_total < 2 ^ 30
    → (id_proc base offset tam : ℤ) (buffer : List ℕ) (w : Umv) (r : ℤ)
    → almacenar_bytes u id_proc base offset tam buffer ≡ ok (w, r)
    → (w.list_seg ≡ u.list_seg) × (w.tam_mem_total ≡ u.tam_mem_total)
almacenar_bytes-lista u v small id_proc base offset tam buffer w r h =
    elim (almacenar_bytes-Escritura u v small id_proc base offset tam buffer w r h) [
      | inl e ↦ rw e (refl, refl)
      | inr (s, o, n, e, d, q) ↦ rw q (refl, refl)
    ]

-- On a valid memory of less than 1 GiB, a write that ends, accepted or refused and with any base,
-- offset and size, leaves a valid memory, in which every other process reads, at any base, offset
-- and size, exactly what it read before.
pub almacenar_bytes_aislado :
    (u : Umv) (id_proc base offset tam : ℤ) (buffer : List ℕ) (w : Umv) (r : ℤ)
    → IsValid u
    → pos_part u.tam_mem_total < 2 ^ 30
    → almacenar_bytes u id_proc base offset tam buffer ≡ ok (w, r)
    → IsValid w
      × ((malloc : ℤ → Option (List ℕ)) (id_otro base' offset' tam' : ℤ)
          → id_otro ≢ id_proc
          → solicitar_bytes malloc w id_otro base' offset' tam'
            ≡ solicitar_bytes malloc u id_otro base' offset' tam')
almacenar_bytes_aislado u id_proc base offset tam buffer w r v small h =
    elim (almacenar_bytes-Escritura u v small id_proc base offset tam buffer w r h) [
      | inl e ↦ rw e (v, λ malloc id_otro base' offset' tam' ne. refl)
      | inr (s, o, n, e, d, q) ↦ rw q (
        escrito-IsValid u s o n buffer v,
        λ malloc id_otro base' offset' tam' ne.
            solicitar-escrito u v small malloc id_proc base s o n buffer id_otro base' offset' tam'
              e d ne,
      )
    ]
