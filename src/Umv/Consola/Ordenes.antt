-- ===== src/Umv/Consola/Ordenes.antt =====
-- The orders of the console keep the memory valid.
use tp_2014_1c_tp_so.Base.{ℕ, ◌^◌, ◌<◌, ◌≡◌, refl, List, Option, arith, Option-cases, inl, inr}
use tp_2014_1c_tp_so.Base.Int.{ℤ, pos, pos_part}
use tp_2014_1c_tp_so.Base.Outcome.{Logra, bien, Logra-bind, Logra-puro, Logra-of_eq}
use tp_2014_1c_tp_so.Umv.Estado.{Seg, Umv, ListSort}
use tp_2014_1c_tp_so.Umv.Espacio.{ordenar_lista_seg_por_dir_fisica}
use tp_2014_1c_tp_so.Umv.Espacio.Validez.{IsValid}
use tp_2014_1c_tp_so.Umv.Espacio.Busqueda.{ordenar-IsValid}
use tp_2014_1c_tp_so.Umv.Segmentos.{buscar_segmento_tipo_seg}
use tp_2014_1c_tp_so.Umv.Segmentos.Compactacion.{PilaLarga}
use tp_2014_1c_tp_so.Umv.Segmentos.Creacion.{crear_segmento-Creado, compactar_lem}
use tp_2014_1c_tp_so.Umv.Segmentos.Destruccion.{destruir_segmentos_lem, destruir_segmentos-IsValid}
use tp_2014_1c_tp_so.Umv.Bytes.Aislamiento.{almacenar_bytes_aislado, almacenar_bytes-lista}
use tp_2014_1c_tp_so.Umv.Consola.{
  Informe, Orden, tamanio, crear, destruir, solicitar, escribir, con_retardo, con_algoritmo,
  compacta, imprime_mem, imprime_contenido, salir, cambiar_algoritmo, cambiar_retardo,
  imp_cont_mem_prin, operacion_crear, operacion_solicitar, operacion_escribir, atender_consola,
}

-- What an order must satisfy: no change of the size of memory, and a segment of a size that is not
-- negative. `PilaLarga` is what the compaction takes from the stack.
abbrev pub OrdenValida : (Seg → List ℕ) → Umv → Orden → Type 0
OrdenValida pila u (tamanio n) = ⊥
OrdenValida pila u (crear id_proc tipo_seg tam azar) =
    PilaLarga pila u.list_seg × (k : ℕ) × (tam ≡ pos k)
OrdenValida pila u (destruir id_proc) = Unit {0}
OrdenValida pila u (solicitar id_proc tipo_seg offset tam) = Unit {0}
OrdenValida pila u (escribir id_proc tipo_seg offset tam buffer) = Unit {0}
OrdenValida pila u (con_retardo t) = Unit {0}
OrdenValida pila u con_algoritmo = Unit {0}
OrdenValida pila u compacta = PilaLarga pila u.list_seg
OrdenValida pila u imprime_mem = Unit {0}
OrdenValida pila u (imprime_contenido offset tam) = Unit {0}
OrdenValida pila u salir = Unit {0}

-- A valid memory of the same size.
abbrev pub ValidaIgual : Umv → Umv → Type 0
ValidaIgual u w = IsValid w × (w.tam_mem_total ≡ u.tam_mem_total)

ValidaIgual-of_eq :
    {u w : Umv}
    → w.mem_prin ≡ u.mem_prin
    → w.list_seg ≡ u.list_seg
    → w.tam_mem_total ≡ u.tam_mem_total
    → IsValid u
    → ValidaIgual u w
ValidaIgual-of_eq m s t v = (
  record {
    total_nonneg = rw t v.total_nonneg;
    total_small = rw t v.total_small;
    reservada = rw (m, t) v.reservada;
    segs = rw (s, t) v.segs;
  },
  t,
)

module _ (lib : ListSort) (pila : Seg → List ℕ) (malloc : ℤ → Option (List ℕ))
    (realloc : List ℕ → ℤ → List ℕ) where
  operacion_escribir-Logra :
      (u : Umv) (id_proc tipo_seg offset tam : ℤ) (buffer : List ℕ)
      → IsValid u
      → pos_part u.tam_mem_total < 2 ^ 30
      → Logra
          (λ (r : Umv × Informe). ValidaIgual u r.0)
          (operacion_escribir lib pila malloc realloc u id_proc tipo_seg offset tam buffer)
  unfolding operacion_escribir
  operacion_escribir-Logra u id_proc tipo_seg offset tam buffer v small =
      elim (Option-cases (buscar_segmento_tipo_seg u id_proc tipo_seg)) [
        | inl e ↦ rw (e, operacion_escribir) (bien _ (v, refl))
        | inr (s, e) ↦
            rw (e, operacion_escribir)
              (Logra-bind {P = λ (q : Umv × ℤ). ValidaIgual u q.0}
                (Logra-of_eq _ (λ r h. (
                  (almacenar_bytes_aislado u id_proc s.dir_logica offset tam buffer r.0 r.1 v small
                      h).0,
                  (almacenar_bytes-lista u v small id_proc s.dir_logica offset tam buffer r.0 r.1
                      h).1,
                )))
                (λ r q. bien _ q))
      ]

  -- An order of the console, with no change of the size, on a valid memory of less than 1 GiB: where it
  -- does not fault it leaves a valid memory of the same size.
  pub atender_consola-IsValid :
      (u : Umv) (o : Orden)
      → OrdenValida pila u o
      → IsValid u
      → pos_part u.tam_mem_total < 2 ^ 30
      → Logra
          (λ (r : Umv × Informe). ValidaIgual u r.0)
          (atender_consola lib pila malloc realloc u o)
  unfolding atender_consola operacion_crear cambiar_retardo cambiar_algoritmo
  atender_consola-IsValid u (tamanio n) h v small = absurd h
  atender_consola-IsValid u (crear id_proc tipo_seg tam azar) h v small =
      let r =
        crear_segmento-Creado lib pila u
          (record { tipo = tipo_seg; id_prog = id_proc; tam_seg = tam }) azar h.1 h.2 v h.0 in
      rw r.1 (bien _ (r.2.valido, r.2.total))
  atender_consola-IsValid u (destruir id_proc) h v small =
      bien _ (destruir_segmentos-IsValid u id_proc v, rw (destruir_segmentos_lem u id_proc) refl)
  atender_consola-IsValid u (solicitar id_proc tipo_seg offset tam) h v small =
      Logra-puro (operacion_solicitar lib pila malloc realloc u id_proc tipo_seg offset tam)
        (λ inf. bien _ (v, refl))
  atender_consola-IsValid u (escribir id_proc tipo_seg offset tam buffer) h v small =
      operacion_escribir-Logra u id_proc tipo_seg offset tam buffer v small
  atender_consola-IsValid u (con_retardo t) h v small =
      bien _ (ValidaIgual-of_eq (ground arith) (ground arith) (ground arith) v)
  atender_consola-IsValid u con_algoritmo h v small =
      bien _ (ValidaIgual-of_eq (ground arith) (ground arith) (ground arith) v)
  atender_consola-IsValid u compacta h v small =
      let r = compactar_lem lib pila u v h in rw r.1 (bien _ (r.2, refl))
  atender_consola-IsValid u imprime_mem h v small =
      unfold ordenar_lista_seg_por_dir_fisica in bien _ (ordenar-IsValid lib u v, refl)
  atender_consola-IsValid u (imprime_contenido offset tam) h v small =
      Logra-puro (imp_cont_mem_prin u offset tam) (λ inf. bien _ (v, refl))
  atender_consola-IsValid u salir h v small = bien _ (ValidaIgual-of_eq refl refl refl v)
