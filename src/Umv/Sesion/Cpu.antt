-- ===== src/Umv/Sesion/Cpu.antt =====
-- A round of `admin_conec_cpu` on a valid memory of less than 1 GiB.
use tp_2014_1c_tp_so.Base.{
  ℕ, ◌+◌, ◌^◌, ◌≤◌, ◌<◌, ◌≡◌, refl, ◌≢◌, Bool, true, false, List, [], ◌∷◌, Option, none, arith,
  length, leb, if◌then◌else◌, Bool-cases, inl, inr, Option-cases,
}
use tp_2014_1c_tp_so.Base.Int.{ℤ, pos, negsuc, pos_part, ◌==ℤ◌}
use tp_2014_1c_tp_so.Mensajes.{MenComun, MenCpuUmv, crear_men_comun, aviso}
use tp_2014_1c_tp_so.Mensajes.Tipos.{
  conec_cerrada, cambio_pa, sol_bytes, alm_bytes, segmen_fault, r_sol_bytes,
}
use tp_2014_1c_tp_so.Base.Outcome.{Outcome, ok}
use tp_2014_1c_tp_so.Umv.Estado.{Umv, largo}
use tp_2014_1c_tp_so.Umv.Espacio.Validez.{IsValid}
use tp_2014_1c_tp_so.Umv.Segmentos.{buscar_segmento_dir_logica}
use tp_2014_1c_tp_so.Umv.Bytes.{fuera_de_rango, solicitar_bytes, almacenar_bytes}
use tp_2014_1c_tp_so.Umv.Bytes.Acceso.{solicitar_bytes_lem, almacenar_bytes_lem}
use tp_2014_1c_tp_so.Umv.Bytes.Aislamiento.{almacenar_bytes_aislado}
use tp_2014_1c_tp_so.Umv.Sesion.{
  Entorno, SesionCpu, gestionar_solicitud_bytes, gestionar_almacenamiento_bytes, atender_cpu,
}

module _ (u : Umv) (v : IsValid u) (small : pos_part u.tam_mem_total < 2 ^ 30) where
  -- `solicitar_bytes` ends, for any process, base and offset, where `malloc` does.
  solicitar_bytes-termina :
      (malloc : ℤ → Option (List ℕ)) (id_proc base offset : ℤ) (n : ℕ)
      → malloc (pos n) ≢ none
      → (r : Option (List ℕ)) × (solicitar_bytes malloc u id_proc base offset (pos n) ≡ ok r)
  solicitar_bytes-termina malloc id_proc base (negsuc o) n hm =
      (none, unfold solicitar_bytes in ground arith)
  solicitar_bytes-termina malloc id_proc (negsuc b) (pos o) n hm =
      (none, unfold solicitar_bytes in ground arith)
  solicitar_bytes-termina malloc id_proc (pos b) (pos o) n hm =
      elim (Option-cases (buscar_segmento_dir_logica u id_proc (pos b))) [
        | inl e ↦ (
          (if fuera_de_rango u (pos b) (pos o) (pos n) then none else malloc (pos n)),
          unfold solicitar_bytes in ground arith,
        )
        | inr (s, e) ↦ (_, solicitar_bytes_lem malloc u id_proc (pos b) s o n v small refl hm e)
      ]

  -- So does `almacenar_bytes`, where the process has the segment, and memory stays valid.
  almacenar_bytes-termina :
      (id_proc base offset : ℤ) (n : ℕ) (buffer : List ℕ)
      → n ≤ length buffer
      → buscar_segmento_dir_logica u id_proc base ≢ none
      → (r : Umv × ℤ) × (almacenar_bytes u id_proc base offset (pos n) buffer ≡ ok r)
        × (r.0.list_seg ≡ u.list_seg)
        × (r.0.tam_mem_total ≡ u.tam_mem_total)
  almacenar_bytes-termina id_proc base (negsuc o) n buffer hl hs =
      ((u, segmen_fault), unfold almacenar_bytes in ground arith, refl, refl)
  almacenar_bytes-termina id_proc (negsuc b) (pos o) n buffer hl hs =
      ((u, segmen_fault), unfold almacenar_bytes in ground arith, refl, refl)
  almacenar_bytes-termina id_proc (pos b) (pos o) n buffer hl hs =
      elim (Option-cases (buscar_segmento_dir_logica u id_proc (pos b))) [
        | inl e ↦ absurd (hs e)
        | inr (s, e) ↦
            let k = almacenar_bytes_lem u id_proc (pos b) s o n buffer v small refl hl e in
            elim (Bool-cases (leb (o + n) (largo s))) [
              | inl d ↦ (_, rw d at k, refl, refl)
              | inr d ↦ (_, rw d at k, refl, refl)
            ]
      ]

-- A round that does not fault leaves a valid memory with the same segments, and the process of the
-- connection as it was but for `CAMBIO_PA`.
pub record RondaCpu (u : Umv) (c : SesionCpu) (men : MenCpuUmv)
    (r : Umv × SesionCpu × List MenComun) : Type 0 where
  pub valido : IsValid r.0
  pub total : r.0.tam_mem_total ≡ u.tam_mem_total
  pub lista : r.0.list_seg ≡ u.list_seg
  pub activo : r.1.proc_activo ≡ (if men.tipo ==ℤ cambio_pa then men.base else c.proc_activo)
  pub ajenos :
      (malloc : ℤ → Option (List ℕ)) (id_otro base offset tam : ℤ)
      → id_otro ≢ c.proc_activo
      → solicitar_bytes malloc r.0 id_otro base offset tam
        ≡ solicitar_bytes malloc u id_otro base offset tam

RondaCpu-if :
    (u : Umv) (c : SesionCpu) (men : MenCpuUmv) (b : Bool)
    (x y : Outcome (Umv × SesionCpu × List MenComun))
    → (b ≡ true → (r : Umv × SesionCpu × List MenComun) × (x ≡ ok r) × RondaCpu u c men r)
    → (b ≡ false → (r : Umv × SesionCpu × List MenComun) × (y ≡ ok r) × RondaCpu u c men r)
    → (r : Umv × SesionCpu × List MenComun) × ((if b then x else y) ≡ ok r) × RondaCpu u c men r
RondaCpu-if u c men true x y hx hy = hx refl
RondaCpu-if u c men false x y hx hy = hy refl

-- A round that leaves memory alone.
pub RondaCpu-refl :
    (u : Umv) (c d : SesionCpu) (men : MenCpuUmv) (rs : List MenComun)
    → IsValid u
    → d.proc_activo ≡ (if men.tipo ==ℤ cambio_pa then men.base else c.proc_activo)
    → RondaCpu u c men (u, d, rs)
RondaCpu-refl u c d men rs v h = record {
  valido = v;
  total = refl;
  lista = refl;
  activo = h;
  ajenos = λ malloc id_otro base offset tam ne. refl;
}

gestionar_solicitud_bytes-termina :
    (e : Entorno) (u : Umv) (men : MenCpuUmv) (proc_activo : ℤ) (n : ℕ)
    → IsValid u
    → pos_part u.tam_mem_total < 2 ^ 30
    → men.tam ≡ pos n
    → e.malloc (pos n) ≢ none
    → (rs : List MenComun) × (gestionar_solicitud_bytes e u men proc_activo ≡ ok rs)
unfolding gestionar_solicitud_bytes
gestionar_solicitud_bytes-termina e u men proc_activo n v small et hm =
    let r = solicitar_bytes-termina u v small e.malloc proc_activo men.base men.offset n hm in
    let leido : solicitar_bytes e.malloc u proc_activo men.base men.offset men.tam ≡ ok r.0 =
      rw et r.1 in
    elim (Option-cases r.0) [
      | inl q ↦ (aviso segmen_fault ∷ [], rw (leido, q) refl)
      | inr (bs, q) ↦ (crear_men_comun r_sol_bytes bs men.tam ∷ [], rw (leido, q) refl)
    ]

almacenamiento-RondaCpu :
    (e : Entorno) (u : Umv) (c : SesionCpu) (men : MenCpuUmv) (n : ℕ)
    → IsValid u
    → pos_part u.tam_mem_total < 2 ^ 30
    → men.tam ≡ pos n
    → n ≤ length men.buffer
    → buscar_segmento_dir_logica u c.proc_activo men.base ≢ none
    → (men.tipo ==ℤ cambio_pa) ≡ false
    → (r : Umv × List MenComun) × (gestionar_almacenamiento_bytes e u men c.proc_activo ≡ ok r)
      × RondaCpu u c men (r.0, c, r.1)
unfolding gestionar_almacenamiento_bytes
almacenamiento-RondaCpu e u c men n v small et hl hs t =
    let k =
      almacenar_bytes-termina u v small c.proc_activo men.base men.offset n men.buffer hl hs in
    let a =
      almacenar_bytes_aislado u c.proc_activo men.base men.offset (pos n) men.buffer k.0.0 k.0.1 v
        small k.1 in
    (
      (k.0.0, aviso k.0.1 ∷ []),
      rw (et, k.1) refl,
      record { valido = a.0; total = k.3; lista = k.2; activo = rw t refl; ajenos = a.1 },
    )

-- A round of `admin_conec_cpu` on a valid memory of less than 1 GiB, for a message whose buffer is
-- as long as it says, where `malloc` succeeds and, for a write, the process has the segment: it does
-- not fault. It leaves a valid memory with the same segments; the active process is the one that
-- `CAMBIO_PA` names, and otherwise the same; and every process that is not the active one reads, at
-- any base, offset and size, what it read before.
pub atender_cpu-RondaCpu :
    (e : Entorno) (u : Umv) (c : SesionCpu) (men : MenCpuUmv) (n : ℕ)
    → IsValid u
    → pos_part u.tam_mem_total < 2 ^ 30
    → men.tam ≡ pos n
    → n ≤ length men.buffer
    → e.malloc (pos n) ≢ none
    → (men.tipo ≡ alm_bytes → buscar_segmento_dir_logica u c.proc_activo men.base ≢ none)
    → (r : Umv × SesionCpu × List MenComun) × (atender_cpu e u c men ≡ ok r) × RondaCpu u c men r
unfolding atender_cpu gestionar_solicitud_bytes gestionar_almacenamiento_bytes
atender_cpu-RondaCpu e u c men n v small et hl hm hs =
    RondaCpu-if u c men (men.tipo ==ℤ conec_cerrada) _ _
      (λ t. (_, refl, RondaCpu-refl u c _ men [] v (ground arith)))
      (λ t.
        RondaCpu-if u c men (men.tipo ==ℤ cambio_pa) _ _
          (λ t'. (_, refl, RondaCpu-refl u c _ men [] v (ground arith)))
          (λ t'.
            RondaCpu-if u c men (men.tipo ==ℤ sol_bytes) _ _
              (λ s.
                let r = gestionar_solicitud_bytes-termina e u men c.proc_activo n v small et hm in
                ((u, c, r.0), rw r.1 refl, RondaCpu-refl u c c men r.0 v (rw t' refl)))
              (λ s.
                RondaCpu-if u c men (men.tipo ==ℤ alm_bytes) _ _
                  (λ a.
                    let r =
                      almacenamiento-RondaCpu e u c men n v small et hl (hs (ground arith)) t' in
                    ((r.0.0, c, r.0.1), rw r.1 refl, r.2))
                  (λ a. (_, refl, RondaCpu-refl u c c men [] v (ground arith))))))
