-- ===== src/Umv/Sesion/Kernel.antt =====
-- A round of `admin_conec_kernel` on a valid memory.

use tp_2014_1c_tp_so.Base.{
  ℕ, ◌+◌, ◌≤◌, ◌<◌, ◌≡◌, refl, sym, ◌∙◌, ◌≢◌, ◌⊎◌, Bool, true, false, List, [], ◌∷◌, ◌++◌, some,
  Mem, Perm, arith, length, take, length-take, if◌then◌else◌, Bool-cases, inl, inr, Option-cases,
}
use tp_2014_1c_tp_so.Base.Int.{ℤ, pos, negsuc, pos_part, neg_part, ◌==ℤ◌}
use tp_2014_1c_tp_so.Mensajes.{MenComun, MenSeg, aviso}
use tp_2014_1c_tp_so.Mensajes.Tipos.{
  mem_overload, men_alm_ok, ped_mem_seg_cod, ped_mem_ind_eti, ped_mem_ind_cod, ped_mem_seg_stack,
  escribir_seg, resp_mem_seg_cod, resp_mem_ind_eti, resp_mem_ind_cod, resp_mem_seg_stack,
}
use tp_2014_1c_tp_so.Base.Outcome.{Outcome, ok}
use tp_2014_1c_tp_so.Umv.Estado.{Seg, Umv, inicio, largo}
use tp_2014_1c_tp_so.Base.Memoria.{memcpy_hacia, leer, escribir, length-escribir, leer-escribir}
use tp_2014_1c_tp_so.Umv.Espacio.Validez.{IsValid}
use tp_2014_1c_tp_so.Umv.Segmentos.{buscar_segmento_tipo_seg, destruir_segmentos}
use tp_2014_1c_tp_so.Umv.Segmentos.Compactacion.{suma, PilaLarga}
use tp_2014_1c_tp_so.Umv.Segmentos.Fichas.{fichas, ficha_nueva}
use tp_2014_1c_tp_so.Umv.Segmentos.Creacion.{crear_segmento-Creado}
use tp_2014_1c_tp_so.Umv.Segmentos.Destruccion.{
  destruir_segmentos-IsValid, destruir_segmentos-sin, destruir_segmentos-total,
}
use tp_2014_1c_tp_so.Umv.Segmentos.Busqueda.{buscar_segmento_tipo_seg-mem}
use tp_2014_1c_tp_so.Umv.Segmentos.Restauracion.{destruir_segmentos-fichas}
use tp_2014_1c_tp_so.Umv.Sesion.{
  Entorno, cadena, almacenar_segmento, gestionar_ped_seg, gestionar_alm_seg, atender_kernel,
}

-- How a request for `k` bytes ends.
pub record Pedido (e : Entorno) (u : Umv) (men : MenSeg) (tipo_resp azar : ℤ) (k : ℕ)
    (r : Umv × List MenComun) : Type 0 where
  pub valido : IsValid r.0
  pub total : r.0.tam_mem_total ≡ u.tam_mem_total
  pub respuesta :
      ((pos_part u.tam_mem_total < suma u.list_seg + k)
        × (r.1 ≡ aviso mem_overload ∷ [])
        × Perm (fichas r.0) (fichas (destruir_segmentos u men.id_prog))
        × ((s : Seg) → Mem s r.0.list_seg → s.id_proc ≢ men.id_prog))
      ⊎ ((suma u.list_seg + k ≤ pos_part u.tam_mem_total)
          × (r.1 ≡ cadena e tipo_resp azar ∷ [])
          × Perm (fichas r.0) (fichas u ++ (ficha_nueva men azar ∷ [])))

-- `gestionar_ped_seg` for a request of `k` bytes on a valid memory, with a logical address that is not
-- negative, and a stack that holds, from the pointer of the loop of `compactar` on, at least as many
-- bytes as each segment is long (what that loop copies by mistake): it ends and leaves a valid memory
-- of the same size. If the segments and `k` are longer together than memory, it answers
-- `MEM_OVERLOAD`, the process has no segment left, and the segments are those that
-- `destruirSegmentos` leaves, but for their places; else it answers the logical address, as a
-- string, and the segments are the same, but for their places, and the one that was asked for.
pub gestionar_ped_seg-Pedido :
    (e : Entorno) (u : Umv) (men : MenSeg) (tipo_resp azar : ℤ) (k : ℕ)
    → IsValid u
    → PilaLarga e.pila u.list_seg
    → men.tam_seg ≡ pos k
    → neg_part azar ≡ 0
    → (r : Umv × List MenComun) × (gestionar_ped_seg e u men tipo_resp azar ≡ ok r)
      × Pedido e u men tipo_resp azar k r
unfolding gestionar_ped_seg
gestionar_ped_seg-Pedido e u men tipo_resp azar k v larga em na =
    let c = crear_segmento-Creado e.lib e.pila u men azar k em v larga in
    elim c.2.resultado [
      | inl (q, h, p) ↦
          let no : (c.0.1 ==ℤ negsuc 0) ≡ true = ground arith in
          (
            (destruir_segmentos c.0.0 men.id_prog, aviso mem_overload ∷ []),
            rw (c.1, no) refl,
            record {
              valido = destruir_segmentos-IsValid c.0.0 men.id_prog c.2.valido;
              total = destruir_segmentos-total c.0.0 men.id_prog ∙ c.2.total;
              respuesta = inl (
                h,
                refl,
                destruir_segmentos-fichas u c.0.0 men.id_prog p,
                destruir_segmentos-sin c.0.0 men.id_prog,
              );
            },
          )
      | inr (q, h, p) ↦
          let si : (c.0.1 ==ℤ negsuc 0) ≡ false = ground arith in
          (
            (c.0.0, cadena e tipo_resp c.0.1 ∷ []),
            rw (c.1, si) refl,
            record { valido = c.2.valido; total = c.2.total; respuesta = inr (h, rw q refl, p) },
          )
    ]

-- How `almacenar_segmento` ends for a message of `n` bytes.
pub record Almacenado (u : Umv) (aux_men : MenComun) (id_proc : ℤ) (n : ℕ) (w : Umv) : Type 0 where
  pub valido : IsValid w
  pub total : w.tam_mem_total ≡ u.tam_mem_total
  pub lista : w.list_seg ≡ u.list_seg
  pub contenido :
      (s : Seg)
      → buscar_segmento_tipo_seg u id_proc aux_men.tipo ≡ some s
      → leer w.mem_prin (inicio s) (largo s) ≡ (
          if aux_men.tam_dato ==ℤ s.tam_seg
          then take n aux_men.dato
          else leer u.mem_prin (inicio s) (largo s))

-- Memory with a segment's bytes replaced.
segmento_escrito :
    (u : Umv) (aux_men : MenComun) (id_proc : ℤ) (s : Seg)
    → IsValid u
    → buscar_segmento_tipo_seg u id_proc aux_men.tipo ≡ some s
    → aux_men.tam_dato ≡ s.tam_seg
    → largo s ≤ length aux_men.dato
    → (w : Umv) × (almacenar_segmento u aux_men id_proc ≡ ok w)
      × Almacenado u aux_men id_proc (largo s) w
unfolding almacenar_segmento memcpy_hacia
segmento_escrito u aux_men id_proc s v e et h =
    let c = v.segs.caben s (buscar_segmento_tipo_seg-mem u id_proc aux_men.tipo s e) in
    let bs = take (largo s) aux_men.dato in
    let len : length bs ≡ largo s = omega (arith, length-take (largo s) aux_men.dato) in
    (
      record u { mem_prin = escribir u.mem_prin (inicio s) bs },
      ground (arith, c, v.reservada),
      record {
        valido = record {
          total_nonneg = v.total_nonneg;
          total_small = v.total_small;
          reservada = length-escribir u.mem_prin (inicio s) bs ∙ v.reservada;
          segs = v.segs;
        };
        total = refl;
        lista = refl;
        contenido = λ t f.
            let q : t ≡ s = cc in
            let si : (aux_men.tam_dato ==ℤ s.tam_seg) ≡ true = ground arith in
            let leido =
              leer-escribir u.mem_prin (inicio s) bs (omega (arith, len, c.dentro, v.reservada)) in
            rw (q, si) (rw len at leido);
      },
    )

-- `almacenar_segmento`, for a message that brings the bytes it says it has: it does not fault, and
-- memory stays valid with the same segments. If the process has a segment of the message's type, and
-- the message is as long as it, the segment then holds the bytes of the message; if it is not as
-- long, the segment is as before.
pub almacenar_segmento-Almacenado :
    (u : Umv) (aux_men : MenComun) (id_proc : ℤ) (n : ℕ)
    → IsValid u
    → aux_men.tam_dato ≡ pos n
    → n ≤ length aux_men.dato
    → (w : Umv) × (almacenar_segmento u aux_men id_proc ≡ ok w) × Almacenado u aux_men id_proc n w
almacenar_segmento-Almacenado u aux_men id_proc n v en h =
    elim (Option-cases (buscar_segmento_tipo_seg u id_proc aux_men.tipo)) [
      | inl e ↦ (
        u,
        unfold almacenar_segmento in ground arith,
        record { valido = v; total = refl; lista = refl; contenido = λ t f. absurd (ground arith) },
      )
      | inr (s, e) ↦ elim (Bool-cases (aux_men.tam_dato ==ℤ s.tam_seg)) [
        | inl si ↦
            let k : largo s ≡ n = ground arith in
            rw (sym k) (segmento_escrito u aux_men id_proc s v e (ground arith) (omega (arith, k)))
        | inr otro ↦ (
          u,
          unfold almacenar_segmento in ground arith,
          record {
            valido = v;
            total = refl;
            lista = refl;
            contenido = λ t f. let q : t ≡ s = cc in rw (q, otro) refl;
          },
        )
      ]
    ]

-- A round that does not fault and leaves a valid memory of the same size.
abbrev pub Conserva : Umv → Outcome (Umv × List MenComun) → Type 0
Conserva u o =
    (r : Umv × List MenComun) × (o ≡ ok r) × IsValid r.0 × (r.0.tam_mem_total ≡ u.tam_mem_total)

Conserva-if :
    (u : Umv) (b : Bool) (x y : Outcome (Umv × List MenComun))
    → Conserva u x
    → Conserva u y
    → Conserva u (if b then x else y)
Conserva-if u true x y hx hy = hx
Conserva-if u false x y hx hy = hy

-- A round of `admin_conec_kernel` on a valid memory: it does not fault, whatever the type of the
-- message, and memory stays valid.
pub atender_kernel-IsValid :
    (e : Entorno) (u : Umv) (men : MenSeg) (aux_men : MenComun) (azar : ℤ) (k n : ℕ)
    → IsValid u
    → PilaLarga e.pila u.list_seg
    → men.tam_seg ≡ pos k
    → aux_men.tam_dato ≡ pos n
    → n ≤ length aux_men.dato
    → neg_part azar ≡ 0
    → Conserva u (atender_kernel e u men aux_men azar)
unfolding atender_kernel gestionar_alm_seg
atender_kernel-IsValid e u men aux_men azar k n v larga em en h na =
    let pedido : (t : ℤ) → Conserva u (gestionar_ped_seg e u men t azar) = λ t.
      let p = gestionar_ped_seg-Pedido e u men t azar k v larga em na in
      (p.0, p.1, p.2.valido, p.2.total) in
    let a = almacenar_segmento-Almacenado u aux_men men.id_prog n v en h in
    let alm : Conserva u (gestionar_alm_seg e u aux_men men.id_prog) =
      ((a.0, aviso men_alm_ok ∷ []), rw a.1 refl, a.2.valido, a.2.total) in
    Conserva-if u _ _ _
      (
        _,
        refl,
        record {
          total_nonneg = v.total_nonneg;
          total_small = v.total_small;
          reservada = v.reservada;
          segs = v.segs;
        },
        refl,
      )
      (Conserva-if u _ _ _
        (
          _,
          refl,
          destruir_segmentos-IsValid u men.id_prog v,
          destruir_segmentos-total u men.id_prog,
        )
        (Conserva-if u (men.tipo ==ℤ ped_mem_seg_cod) _ _ (pedido resp_mem_seg_cod) (
          Conserva-if u (men.tipo ==ℤ ped_mem_ind_eti) _ _ (pedido resp_mem_ind_eti) (
            Conserva-if u (men.tipo ==ℤ ped_mem_ind_cod) _ _ (pedido resp_mem_ind_cod) (
              Conserva-if u (men.tipo ==ℤ ped_mem_seg_stack) _ _ (pedido resp_mem_seg_stack)
                (Conserva-if u (men.tipo ==ℤ escribir_seg) _ _ alm ((u, []), refl, v, refl)))))))
