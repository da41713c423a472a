-- ===== src/Umv/Sesion/Concesion.antt =====
-- Requests for memory that fit, one after the other, and the writes that follow them.
use mathlib.Core.List.{append_assoc, append-nil, mem-append, mem-append_right, exists_of_mem-map}
use mathlib.Core.List.Perm
use mathlib.Core.Logic.Or
use mathlib.Core.Logic.{∥∥₁_elim}
use tp_2014_1c_tp_so.Base.{
  ℕ, ◌+◌, ◌≤◌, ◌<◌, ◌^◌, ◌≡◌, refl, ◌∙◌, ap, ◌≢◌, true, leb, false, List, Option, none, [], ◌∷◌,
  ◌++◌, some, Mem, Perm, arith, length, take, length-take, inl, inr,
}
use tp_2014_1c_tp_so.Base.Int.{ℤ, pos, pos_part, neg_part, ◌==ℤ◌}
use tp_2014_1c_tp_so.Mensajes.{MenComun, MenSeg, aviso}
use tp_2014_1c_tp_so.Mensajes.Tipos.{mem_overload}
use tp_2014_1c_tp_so.Base.Outcome.{ok}
use tp_2014_1c_tp_so.Base.Memoria.{memcpy_hacia, leer, leer-escribir}
use tp_2014_1c_tp_so.Umv.Estado.{Seg, Umv, inicio, largo, Separados}
use tp_2014_1c_tp_so.Umv.Espacio.Validez.{IsValid}
use tp_2014_1c_tp_so.Umv.Segmentos.{buscar_segmento_tipo_seg, buscar_segmento_dir_logica}
use tp_2014_1c_tp_so.Umv.Segmentos.Compactacion.{suma}
use tp_2014_1c_tp_so.Umv.Segmentos.Fichas.{fichas, ficha_nueva, suma-fichas_append}
use tp_2014_1c_tp_so.Umv.Segmentos.Restauracion.{DeProceso, destruir_segmentos-Perm}
use tp_2014_1c_tp_so.Umv.Segmentos.Busqueda.{Propios}
use tp_2014_1c_tp_so.Umv.Bytes.{solicitar_bytes}
use tp_2014_1c_tp_so.Umv.Bytes.Acceso.{escrito, leer-escrito, solicitar_bytes_lem}
use tp_2014_1c_tp_so.Umv.Sesion.{Entorno, cadena, almacenar_segmento, gestionar_ped_seg}
use tp_2014_1c_tp_so.Umv.Sesion.Kernel.{gestionar_ped_seg-Pedido}
use tp_2014_1c_tp_so.Umv.Segmentos.Busqueda.{buscar_segmento_tipo_seg-mem}

-- The memory `u` with the segments `fs` more.
pub record Crecida (u : Umv) (fs : List Seg) (w : Umv) : Type 0 where
  pub valido : IsValid w
  pub total : w.tam_mem_total ≡ u.tam_mem_total
  pub segmentos : Perm (fichas w) (fichas u ++ fs)

pub Crecida-nil : (u : Umv) → IsValid u → Crecida u [] u
Crecida-nil u v = record {
  valido = v;
  total = refl;
  segmentos = rw (append-nil (fichas u)) (Perm.refl (fichas u));
}

module _ (e : Entorno) (larga : (s : Seg) → largo s ≤ length (e.pila s)) where
  -- One more request, for which there is room.
  pub gestionar_ped_seg-Crecida :
      (u : Umv) (fs : List Seg) (w : Umv) (men : MenSeg) (tipo_resp azar : ℤ) (k : ℕ)
      → Crecida u fs w
      → men.tam_seg ≡ pos k
      → neg_part azar ≡ 0
      → suma u.list_seg + suma fs + k ≤ pos_part u.tam_mem_total
      → (x : Umv) × (gestionar_ped_seg e w men tipo_resp azar
          ≡ ok (x, cadena e tipo_resp azar ∷ []))
        × Crecida u (fs ++ (ficha_nueva men azar ∷ [])) x
  gestionar_ped_seg-Crecida u fs w men tipo_resp azar k c em na cabe =
      let p = gestionar_ped_seg-Pedido e w men tipo_resp azar k c.valido (λ s m. larga s) em na in
      elim p.2.respuesta [
        | inl (lleno, _, _, _) ↦ absurd (
            omega (
              arith,
              lleno,
              cabe,
              ap pos_part c.total,
              suma-fichas_append w.list_seg u.list_seg fs c.segmentos,
            ))
        | inr (_, r, segs) ↦
            let nueva = ficha_nueva men azar ∷ [] in
            (
              p.0.0,
              p.1 ∙ ap (λ rs. ok (p.0.0, rs)) r,
              record {
                valido = p.2.valido;
                total = p.2.total ∙ c.total;
                segmentos =
                    rw (append_assoc (fichas u) fs nueva) at
                      (Perm.trans segs (Perm.append_right nueva c.segmentos));
              },
            )
      ]

  -- One more request, for which there is no room: what the process had asked for is gone.
  pub gestionar_ped_seg-lleno :
      (u : Umv) (fs : List Seg) (w : Umv) (men : MenSeg) (tipo_resp azar : ℤ) (k : ℕ)
      → Crecida u fs w
      → men.tam_seg ≡ pos k
      → neg_part azar ≡ 0
      → pos_part u.tam_mem_total < suma u.list_seg + suma fs + k
      → (men.id_prog ==ℤ pos 0) ≡ false
      → ((s : Seg) → Mem s u.list_seg → s.id_proc ≢ men.id_prog)
      → DeProceso men.id_prog fs
      → (x : Umv) × (gestionar_ped_seg e w men tipo_resp azar ≡ ok (x, aviso mem_overload ∷ []))
        × Crecida u [] x
  gestionar_ped_seg-lleno u fs w men tipo_resp azar k c em na lleno id sin de =
      let p = gestionar_ped_seg-Pedido e w men tipo_resp azar k c.valido (λ s m. larga s) em na in
      elim p.2.respuesta [
        | inl (_, r, segs, _) ↦ (
          p.0.0,
          p.1 ∙ ap (λ rs. ok (p.0.0, rs)) r,
          record {
            valido = p.2.valido;
            total = p.2.total ∙ c.total;
            segmentos = rw (append-nil (fichas u)) (
                Perm.trans segs (destruir_segmentos-Perm u w men.id_prog fs id sin de c.segmentos));
          },
        )
        | inr (cabe, _, _) ↦ absurd (
            omega (
              arith,
              lleno,
              cabe,
              ap pos_part c.total,
              suma-fichas_append w.list_seg u.list_seg fs c.segmentos,
            ))
      ]

-- A message as long as the segment of its type goes into that segment.
pub almacenar_segmento-escrito :
    (u : Umv) (aux_men : MenComun) (id_proc : ℤ) (s : Seg)
    → IsValid u
    → buscar_segmento_tipo_seg u id_proc aux_men.tipo ≡ some s
    → aux_men.tam_dato ≡ s.tam_seg
    → largo s ≤ length aux_men.dato
    → almacenar_segmento u aux_men id_proc ≡ ok (escrito u s 0 (largo s) aux_men.dato)
unfolding almacenar_segmento memcpy_hacia
almacenar_segmento-escrito u aux_men id_proc s v e et h =
    let c = v.segs.caben s (buscar_segmento_tipo_seg-mem u id_proc aux_men.tipo s e) in
    let cero : inicio s + 0 ≡ inicio s = omega arith in rw cero (ground (arith, c, v.reservada))

-- The segment holds these bytes.
abbrev pub Guarda : Umv → Seg → List ℕ → Type 0
Guarda u s bs = leer u.mem_prin (inicio s + 0) (largo s) ≡ bs

pub Guarda-escrito :
    (u : Umv) (s : Seg) (bs : List ℕ)
    → IsValid u
    → Mem s u.list_seg
    → largo s ≤ length bs
    → Guarda (escrito u s 0 (largo s) bs) s (take (largo s) bs)
Guarda-escrito u s bs v m h =
    let c = v.segs.caben s m in
    let len : length (take (largo s) bs) ≡ largo s = omega (arith, length-take (largo s) bs) in
    rw len at (
      leer-escribir u.mem_prin (inicio s + 0) (take (largo s) bs)
        (omega (arith, len, c.dentro, v.reservada)))

pub Guarda-apart :
    (u : Umv) (s t : Seg) (bs cs : List ℕ)
    → Separados s t
    → Guarda u t cs
    → Guarda (escrito u s 0 (largo s) bs) t cs
Guarda-apart u s t bs cs h g =
    leer-escrito u s t 0 (largo s) 0 (largo t) bs h (omega arith) (omega arith) ∙ g

-- A process that had no segments has those that were added for it.
pub Propios-Crecida :
    (u w : Umv) (id : ℤ) (fs : List Seg)
    → ((s : Seg) → Mem s u.list_seg → s.id_proc ≢ id)
    → Crecida u fs w
    → Propios id fs w
Propios-Crecida u w id fs sin c = record {
  estan = λ f m. Perm.subset (Perm.symm c.segmentos) f (mem-append_right (fichas u) m);
  solo = λ f m e.
      Or.elim (hlevel) (mem-append.0 (Perm.subset c.segmentos f m))
        (λ v.
          ∥∥₁_elim (exists_of_mem-map v) (hlevel)
            (λ r. absurd (sin r.0 r.1 (ap (λ (s : Seg). s.id_proc) r.2 ∙ e))))
        (λ n. n);
}

-- A segment that holds these bytes is read.
pub solicitar_bytes-Guarda :
    (malloc : ℤ → Option (List ℕ)) (w : Umv) (id : ℤ) (a : ℕ) (s : Seg) (bs : List ℕ)
    → ((n : ℤ) → malloc n ≢ none)
    → IsValid w
    → pos_part w.tam_mem_total < 2 ^ 30
    → buscar_segmento_dir_logica w id (pos a) ≡ some s
    → length bs ≡ largo s
    → Guarda w s bs
    → solicitar_bytes malloc w id (pos a) (pos 0) (pos (length bs)) ≡ ok (some bs)
solicitar_bytes-Guarda malloc w id a s bs hay v small e l g =
    let dentro : leb (0 + length bs) (largo s) ≡ true = ground arith in
    let leido : leer w.mem_prin (inicio s + 0) (length bs) ≡ bs = rw l g in
    solicitar_bytes_lem malloc w id (pos a) s 0 (length bs) v small refl (hay (pos (length bs))) e
    ∙ (rw (dentro, leido) refl)
