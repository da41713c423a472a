-- ===== src/Sistema/Servicio.antt =====
-- What kernel/kernel.c sends to the UMV, served by the rounds of UMV/UMV.c: the requests of a script and the
-- writes that follow them.
use tp_2014_1c_tp_so.Base.{
  ℕ, ◌+◌, ◌≤◌, ◌≡◌, refl, ◌∙◌, List, [], ◌∷◌, ◌++◌, some, arith, length, get_or, drop,
}
use tp_2014_1c_tp_so.Base.Int.{ℤ, pos, pos_part}
use tp_2014_1c_tp_so.Base.Outcome.{Outcome, ok, ◌>>=◌}
use tp_2014_1c_tp_so.Mensajes.{MenComun, MenSeg, aviso}
use tp_2014_1c_tp_so.Mensajes.Tipos.{
  ped_mem_seg_cod, ped_mem_ind_eti, ped_mem_ind_cod, ped_mem_seg_stack, escribir_seg, men_alm_ok,
  resp_mem_seg_cod, resp_mem_ind_eti, resp_mem_ind_cod, resp_mem_seg_stack, codigo_script,
  ind_eti_func, ind_cod, ind_stack,
}
use tp_2014_1c_tp_so.Umv.Estado.{Seg, Umv, largo, Separados}
use tp_2014_1c_tp_so.Umv.Espacio.Validez.{IsValid}
use tp_2014_1c_tp_so.Umv.Segmentos.{tipo_de_pedido, buscar_segmento_tipo_seg}
use tp_2014_1c_tp_so.Umv.Segmentos.Compactacion.{suma}
use tp_2014_1c_tp_so.Umv.Bytes.Acceso.{escrito, escrito-IsValid}
use tp_2014_1c_tp_so.Umv.Sesion.{Entorno, cadena, gestionar_alm_seg, atender_kernel}
use tp_2014_1c_tp_so.Umv.Segmentos.Busqueda.{buscar_segmento_tipo_seg-mem}
use tp_2014_1c_tp_so.Umv.Sesion.Concesion.{
  Crecida, Crecida-nil, gestionar_ped_seg-Crecida, almacenar_segmento-escrito, Guarda,
  Guarda-escrito, Guarda-apart,
}
use tp_2014_1c_tp_so.Cpu.Pila.{take-all}
use tp_2014_1c_tp_so.Kernel.Estado.{Envio, a_comun, a_cpu, a_umv, a_umv_dato}
use tp_2014_1c_tp_so.Kernel.Programas.{pedir_seg}

-- The message that follows on the socket; nothing reads it if none does.
abbrev siguiente : List Envio → MenComun
siguiente (a_umv_dato d ∷ es) = d
siguiente _ = aviso (pos 0)

-- The rounds of `admin_conec_kernel` on what is sent to the UMV, and its answers: `azares` is what
-- `rand()` returns, a number for each round.
unfoldable pub servir : Entorno → Umv → List Envio → List ℤ → Outcome (Umv × List MenComun)
servir e u [] azares = ok (u, [])
servir e u (a_comun s men ∷ es) azares = servir e u es azares
servir e u (a_cpu s men ∷ es) azares = servir e u es azares
servir e u (a_umv_dato d ∷ es) azares = servir e u es azares
servir e u (a_umv men ∷ es) azares =
    atender_kernel e u men (siguiente es) (get_or azares 0 (pos 0)) >>= λ r.
    servir e r.0 es (drop 1 azares) >>= λ q. ok (q.0, r.1 ++ q.1)

-- A round, and those that follow it.
pub servir-paso :
    (e : Entorno) (u w : Umv) (men : MenSeg) (es : List Envio) (azar : ℤ) (azares : List ℤ)
    (r : MenComun) (x : Umv) (rs : List MenComun)
    → atender_kernel e u men (siguiente es) azar ≡ ok (w, r ∷ [])
    → servir e w es azares ≡ ok (x, rs)
    → servir e u (a_umv men ∷ es) (azar ∷ azares) ≡ ok (x, r ∷ rs)
unfolding servir
servir-paso e u w men es azar azares r x rs h k = rw (h, k) refl

-- What is sent to a client the UMV does not see.
pub servir-fin :
    (e : Entorno) (u : Umv) (soc : ℤ) (men : MenComun) (azares : List ℤ)
    → servir e u (a_comun soc men ∷ []) azares ≡ ok (u, [])
unfolding servir
servir-fin e u soc men azares = refl

-- The segments that a script asks for, without their places.
abbrev pub hecho : ℤ → ℤ → ℕ → ℕ → Seg
hecho id tipo k a = record {
  id_proc = id;
  dir_logica = pos a;
  dir_fisica = pos 0;
  tam_seg = pos k;
  tipo_seg = tipo;
}

abbrev pub lote : ℤ → ℕ → ℕ → ℕ → ℕ → ℕ → ℕ → ℕ → ℕ → List Seg
lote id k1 k2 k3 k4 a1 a2 a3 a4 =
    hecho id codigo_script k1 a1
    ∷ hecho id ind_eti_func k2 a2
    ∷ hecho id ind_cod k3 a3
    ∷ hecho id ind_stack k4 a4
    ∷ []

module _ (e : Entorno) (larga : (s : Seg) → largo s ≤ length (e.pila s)) (u : Umv) (v : IsValid u)
    (id : ℤ) (k1 k2 k3 k4 a1 a2 a3 a4 : ℕ)
    (cabe : suma u.list_seg + k1 + k2 + k3 + k4 ≤ pos_part u.tam_mem_total) where
  -- The four requests, if there is room.
  pub servir-pedidos :
      (w : Umv) × ((es : List Envio) (azares : List ℤ) (x : Umv) (rs : List MenComun)
        → servir e w es azares ≡ ok (x, rs)
        → servir e u
            (pedir_seg ped_mem_seg_cod id (pos k1)
              ∷ pedir_seg ped_mem_ind_eti id (pos k2)
              ∷ pedir_seg ped_mem_ind_cod id (pos k3)
              ∷ pedir_seg ped_mem_seg_stack id (pos k4)
              ∷ es)
            (pos a1 ∷ pos a2 ∷ pos a3 ∷ pos a4 ∷ azares)
          ≡ ok (
            x,
            cadena e resp_mem_seg_cod (pos a1)
                ∷ cadena e resp_mem_ind_eti (pos a2)
                ∷ cadena e resp_mem_ind_cod (pos a3)
                ∷ cadena e resp_mem_seg_stack (pos a4)
                ∷ rs,
          ))
      × Crecida u (lote id k1 k2 k3 k4 a1 a2 a3 a4) w
  unfolding atender_kernel tipo_de_pedido
  servir-pedidos =
      let c1 =
        gestionar_ped_seg-Crecida e larga u [] u
          (record { tipo = ped_mem_seg_cod; id_prog = id; tam_seg = pos k1 }) resp_mem_seg_cod
          (pos a1) k1 (Crecida-nil u v) refl refl (omega arith) in
      let c2 =
        gestionar_ped_seg-Crecida e larga u _ c1.0
          (record { tipo = ped_mem_ind_eti; id_prog = id; tam_seg = pos k2 }) resp_mem_ind_eti
          (pos a2) k2 c1.2 refl refl (omega arith) in
      let c3 =
        gestionar_ped_seg-Crecida e larga u _ c2.0
          (record { tipo = ped_mem_ind_cod; id_prog = id; tam_seg = pos k3 }) resp_mem_ind_cod
          (pos a3) k3 c2.2 refl refl (omega arith) in
      let c4 =
        gestionar_ped_seg-Crecida e larga u _ c3.0
          (record { tipo = ped_mem_seg_stack; id_prog = id; tam_seg = pos k4 }) resp_mem_seg_stack
          (pos a4) k4 c3.2 refl refl (omega arith) in
      (
        c4.0,
        λ es azares x rs h. servir-paso e u c1.0 _ _ _ _ _ x _ c1.1 (
            servir-paso e c1.0 c2.0 _ _ _ _ _ x _ c2.1 (
              servir-paso e c2.0 c3.0 _ _ _ _ _ x _ c3.1
                (servir-paso e c3.0 c4.0 _ es _ azares _ x rs c4.1 h))),
        c4.2,
      )

-- A write of the kernel, and the rounds that follow it.
pub servir-escribir :
    (e : Entorno) (u : Umv) (id : ℤ) (d : MenComun) (s : Seg) (es : List Envio) (azar : ℤ)
    (azares : List ℤ) (x : Umv) (rs : List MenComun)
    → IsValid u
    → buscar_segmento_tipo_seg u id d.tipo ≡ some s
    → d.tam_dato ≡ s.tam_seg
    → largo s ≤ length d.dato
    → servir e (escrito u s 0 (largo s) d.dato) es azares ≡ ok (x, rs)
    → servir e u (pedir_seg escribir_seg id (pos 0) ∷ a_umv_dato d ∷ es) (azar ∷ azares)
      ≡ ok (x, aviso men_alm_ok ∷ rs)
unfolding servir atender_kernel gestionar_alm_seg
servir-escribir e u id d s es azar azares x rs v b t l h =
    rw (almacenar_segmento-escrito u d id s v b t l, h) refl

-- The search does not look at the bytes.
pub buscar_tipo-escrito :
    (u : Umv) (m : List ℕ) (id tipo : ℤ)
    → buscar_segmento_tipo_seg (record u { mem_prin = m }) id tipo
      ≡ buscar_segmento_tipo_seg u id tipo
unfolding buscar_segmento_tipo_seg
buscar_tipo-escrito u m id tipo = refl

-- What a segment that the kernel fills has to be.
pub record Destino (u : Umv) (id : ℤ) (d : MenComun) (s : Seg) : Type 0 where
  pub hallado : buscar_segmento_tipo_seg u id d.tipo ≡ some s
  pub tam : d.tam_dato ≡ s.tam_seg
  pub entero : length d.dato ≡ largo s

-- A write into a memory with the same segments.
lleno :
    (u w : Umv) (id : ℤ) (d : MenComun) (s : Seg)
    → IsValid w
    → w.list_seg ≡ u.list_seg
    → Destino u id d s
    → Guarda (escrito w s 0 (largo s) d.dato) s d.dato
lleno u w id d s vw ew h =
    Guarda-escrito w s d.dato vw (rw ew (buscar_segmento_tipo_seg-mem u id d.tipo s h.hallado))
      (omega (arith, h.entero))
    ∙ take-all (largo s) d.dato h.entero

module _ (e : Entorno) (u : Umv) (v : IsValid u) (id : ℤ) (d1 d2 d3 : MenComun) (s1 s2 s3 : Seg)
    (h1 : Destino u id d1 s1) (h2 : Destino u id d2 s2) (h3 : Destino u id d3 s3)
    (n12 : Separados s1 s2) (n13 : Separados s1 s3) (n23 : Separados s2 s3) where
  -- The three writes fill the three segments.
  pub servir-escrituras :
      (z1 z2 z3 : ℤ)
      → (m : List ℕ) × (servir e u
            (pedir_seg escribir_seg id (pos 0)
              ∷ a_umv_dato d1
              ∷ pedir_seg escribir_seg id (pos 0)
              ∷ a_umv_dato d2
              ∷ pedir_seg escribir_seg id (pos 0)
              ∷ a_umv_dato d3
              ∷ [])
            (z1 ∷ z2 ∷ z3 ∷ [])
          ≡ ok (
            record u { mem_prin = m },
            aviso men_alm_ok ∷ aviso men_alm_ok ∷ aviso men_alm_ok ∷ [],
          ))
        × IsValid (record u { mem_prin = m })
        × Guarda (record u { mem_prin = m }) s1 d1.dato
        × Guarda (record u { mem_prin = m }) s2 d2.dato
        × Guarda (record u { mem_prin = m }) s3 d3.dato
  servir-escrituras z1 z2 z3 =
      let w1 = escrito u s1 0 (largo s1) d1.dato in
      let w2 = escrito w1 s2 0 (largo s2) d2.dato in
      let w3 = escrito w2 s3 0 (largo s3) d3.dato in
      let v1 = escrito-IsValid u s1 0 (largo s1) d1.dato v in
      let v2 = escrito-IsValid w1 s2 0 (largo s2) d2.dato v1 in
      let v3 = escrito-IsValid w2 s3 0 (largo s3) d3.dato v2 in
      (
        w3.mem_prin,
        servir-escribir e u id d1 s1 _ z1 _ w3 _ v h1.hallado h1.tam (omega (arith, h1.entero)) (
            servir-escribir e w1 id d2 s2 _ z2 _ w3 _ v1
              (buscar_tipo-escrito u _ id d2.tipo ∙ h2.hallado) h2.tam (omega (arith, h2.entero))
              (servir-escribir e w2 id d3 s3 [] z3 [] w3 [] v2
                (buscar_tipo-escrito u _ id d3.tipo ∙ h3.hallado) h3.tam (omega (arith, h3.entero))
                (unfold servir in refl))),
        v3,
        Guarda-apart w2 s3 s1 d3.dato d1.dato (omega (arith, n13)) (
            Guarda-apart w1 s2 s1 d2.dato d1.dato (omega (arith, n12))
              (lleno u u id d1 s1 v refl h1)),
        Guarda-apart w2 s3 s2 d3.dato d2.dato (omega (arith, n23)) (lleno u w1 id d2 s2 v1 refl h2),
        lleno u w2 id d3 s3 v2 refl h3,
      )
