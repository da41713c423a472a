-- ===== src/Sistema/Salida.antt =====
-- A process that ends: kernel/kernel.c takes it out of EXIT, and UMV/UMV.c gives its memory back.

use tp_2014_1c_tp_so.Base.{
  ℕ, suc, ◌≡◌, refl, ◌∙◌, ◌≢◌, ap, Bool, false, not, ◌&&◌, List, [], ◌∷◌, Option, Mem, arith,
  Bool-cases, inl, inr, list_find, list_filter, if◌then◌else◌,
}
use tp_2014_1c_tp_so.Base.Int.{ℤ, pos, negsuc, ◌==ℤ◌}
use tp_2014_1c_tp_so.Base.Outcome.{ok}
use tp_2014_1c_tp_so.Mensajes.{aviso}
use tp_2014_1c_tp_so.Mensajes.Tipos.{sincro_ok, destr_segs}
use tp_2014_1c_tp_so.Umv.Estado.{Seg, Umv}
use tp_2014_1c_tp_so.Umv.Espacio.Validez.{IsValid}
use tp_2014_1c_tp_so.Umv.Segmentos.{destruir_segmentos, buscar_segmento_dir_logica}
use tp_2014_1c_tp_so.Umv.Segmentos.Destruccion.{
  destruir_segmentos_lem, destruir_segmentos-IsValid, destruir_segmentos-sin,
}
use tp_2014_1c_tp_so.Umv.Bytes.{solicitar_bytes}
use tp_2014_1c_tp_so.Umv.Sesion as Sesion
use tp_2014_1c_tp_so.Umv.Sesion.{atender_kernel}
use tp_2014_1c_tp_so.Kernel.Estado.{Kernel, PcbOtros, Envio, a_umv, avisar}
use tp_2014_1c_tp_so.Kernel.Planificador.{manejador_exit}
use tp_2014_1c_tp_so.Sistema.{para}
use tp_2014_1c_tp_so.Sistema.Servicio.{servir}

-- A search for a segment of one process does not see that those of another are gone.
list_find-list_filter :
    (p : Seg → Bool) (id id_otro : ℤ) (segs : List Seg)
    → id_otro ≢ id
    → list_find (λ s. p s && s.id_proc ==ℤ id_otro) (list_filter (λ s. not (s.id_proc ==ℤ id)) segs)
      ≡ list_find (λ s. p s && s.id_proc ==ℤ id_otro) segs
unfolding list_find list_filter
list_find-list_filter p id id_otro [] ne = refl
list_find-list_filter p id id_otro (s ∷ segs) ne =
    let resto = list_find-list_filter p id id_otro segs ne in ground (arith, resto)

destruir_segmentos-eq :
    (u : Umv) (id : ℤ)
    → (id ==ℤ pos 0) ≡ false
    → destruir_segmentos u id
      ≡ record u { list_seg = list_filter (λ s. not (s.id_proc ==ℤ id)) u.list_seg }
destruir_segmentos-eq u id h = destruir_segmentos_lem u id ∙ ground arith

buscar-destruir :
    (u : Umv) (id id_otro base : ℤ)
    → (id ==ℤ pos 0) ≡ false
    → id_otro ≢ id
    → buscar_segmento_dir_logica (destruir_segmentos u id) id_otro base
      ≡ buscar_segmento_dir_logica u id_otro base
unfolding buscar_segmento_dir_logica
buscar-destruir u id id_otro base h ne =
    rw (destruir_segmentos-eq u id h)
      (list_find-list_filter (λ s. s.dir_logica ==ℤ base) id id_otro u.list_seg ne)

-- A read looks at the list only to find its segment.
solicitar_bytes-lista :
    (malloc : ℤ → Option (List ℕ)) (u : Umv) (segs : List Seg) (id base offset tam : ℤ)
    → buscar_segmento_dir_logica (record u { list_seg = segs }) id base
      ≡ buscar_segmento_dir_logica u id base
    → solicitar_bytes malloc (record u { list_seg = segs }) id base offset tam
      ≡ solicitar_bytes malloc u id base offset tam
unfolding solicitar_bytes
solicitar_bytes-lista malloc u segs id base offset tam e = rw e refl

-- What another process reads is what it read.
solicitar_bytes-destruir :
    (malloc : ℤ → Option (List ℕ)) (u : Umv) (id id_otro base offset tam : ℤ)
    → (id ==ℤ pos 0) ≡ false
    → id_otro ≢ id
    → solicitar_bytes malloc (destruir_segmentos u id) id_otro base offset tam
      ≡ solicitar_bytes malloc u id_otro base offset tam
solicitar_bytes-destruir malloc u id id_otro base offset tam h ne =
    rw (destruir_segmentos-eq u id h) (
      solicitar_bytes-lista malloc u _ id_otro base offset tam
        (rw (destruir_segmentos-eq u id h) at (buscar-destruir u id id_otro base h ne)))

manejador_exit_lem :
    (k : Kernel) (n : ℕ) (x : PcbOtros) (resto : List PcbOtros)
    → k.cant_exit ≡ suc n
    → k.cola_exit ≡ x ∷ resto
    → let destruir = a_umv (record { tipo = destr_segs; id_prog = x.pcb.id; tam_seg = pos 0 }) in
      manejador_exit k
      ≡ ok (
        record k { cant_exit = n; cola_exit = resto },
        if x.tipo_fin_ejecucion ==ℤ negsuc 0
            then destruir ∷ []
            else avisar x.n_socket x.tipo_fin_ejecucion ∷ destruir ∷ [],
      )
unfolding manejador_exit
manejador_exit_lem k n x resto hn hx = simp (hn, hx)

-- The request to destroy the segments, served.
servir-destruir :
    (e : Sesion.Entorno) (u : Umv) (id azar : ℤ)
    → servir e u
        (a_umv (record { tipo = destr_segs; id_prog = id; tam_seg = pos 0 }) ∷ [])
        (azar ∷ [])
      ≡ ok (destruir_segmentos u id, aviso sincro_ok ∷ [])
unfolding servir atender_kernel
servir-destruir e u id azar = refl

-- The process at the head of EXIT leaves the kernel, and the UMV, which answers `SINCRO_OK`. The UMV's
-- memory stays valid, of the same size and with the same bytes; no segment of the process is left,
-- and the others stay, in their order; another process reads what it read, at any
-- address and of any size. The client is told why the process ended, if there is a reason. This is for
-- a process whose number is not 0, for which `destruirSegmentos` takes every segment.
pub manejador_exit-servir :
    (e : Sesion.Entorno) (u : Umv) (k : Kernel) (n : ℕ) (x : PcbOtros) (resto : List PcbOtros)
    (azar : ℤ)
    → IsValid u
    → k.cant_exit ≡ suc n
    → k.cola_exit ≡ x ∷ resto
    → (x.pcb.id ==ℤ pos 0) ≡ false
    → (es : List Envio) × (w : Umv) × (manejador_exit k
        ≡ ok (record k { cant_exit = n; cola_exit = resto }, es))
      × (servir e u es (azar ∷ []) ≡ ok (w, aviso sincro_ok ∷ []))
      × (para x.n_socket es
          ≡ (if x.tipo_fin_ejecucion ==ℤ negsuc 0 then [] else aviso x.tipo_fin_ejecucion ∷ []))
      × IsValid w
      × (w.mem_prin ≡ u.mem_prin)
      × ((s : Seg) → Mem s w.list_seg → s.id_proc ≢ x.pcb.id)
      × (w.list_seg ≡ list_filter (λ s. not (s.id_proc ==ℤ x.pcb.id)) u.list_seg)
      × ((malloc : ℤ → Option (List ℕ)) (id_otro base offset tam : ℤ)
          → id_otro ≢ x.pcb.id
          → solicitar_bytes malloc w id_otro base offset tam
            ≡ solicitar_bytes malloc u id_otro base offset tam)
unfolding para
manejador_exit-servir e u k n x resto azar v hn hx hid =
    let w = destruir_segmentos u x.pcb.id in
    let q = destruir_segmentos-eq u x.pcb.id hid in
    let fin = servir-destruir e u x.pcb.id azar in
    (
      _,
      w,
      manejador_exit_lem k n x resto hn hx,
      elim (Bool-cases (x.tipo_fin_ejecucion ==ℤ negsuc 0)) [
        | inl t ↦ rw t fin
        | inr f ↦ rw f (unfold servir in fin)
      ],
      elim (Bool-cases (x.tipo_fin_ejecucion ==ℤ negsuc 0)) [
        | inl t ↦ rw t refl
        | inr f ↦ rw f (ground arith)
      ],
      destruir_segmentos-IsValid u x.pcb.id v,
      ap (λ (z : Umv). z.mem_prin) q,
      destruir_segmentos-sin u x.pcb.id,
      ap (λ (z : Umv). z.list_seg) q,
      λ malloc id_otro base offset tam ne.
          solicitar_bytes-destruir malloc u x.pcb.id id_otro base offset tam hid ne,
    )
