-- ===== src/Umv/Consola.antt =====
-- The console of UMV/UMV.c: what its orders do, once their numbers are read. That `operacion_memoria` looks
-- for its segment with no mutex has no place here: an order is one step.
pub mod Ordenes
use tp_2014_1c_tp_so.Base.{
  ℕ, ◌+◌, Bool, false, List, [], ◌∷◌, Option, none, some, take, if◌then◌else◌,
}
use tp_2014_1c_tp_so.Base.Int.{ℤ, pos, negsuc, pos_part, leb_ℤ, ltb_ℤ, ◌==ℤ◌}
use tp_2014_1c_tp_so.Base.Words.{add32}
use tp_2014_1c_tp_so.Base.Outcome.{Outcome, ok, ◌>>=◌}
use tp_2014_1c_tp_so.Base.Memoria.{memcpy_desde}
use tp_2014_1c_tp_so.Mensajes.{MenSeg}
use tp_2014_1c_tp_so.Mensajes.Tipos.{segmen_fault}
use tp_2014_1c_tp_so.Umv.Estado.{Seg, Umv, ListSort, first_fit, worst_fit}
use tp_2014_1c_tp_so.Umv.Espacio.{ordenar_lista_seg_por_dir_fisica}
use tp_2014_1c_tp_so.Umv.Segmentos.{
  buscar_segmento_tipo_seg, compactar, destruir_segmentos, crear_segmento,
}
use tp_2014_1c_tp_so.Umv.Bytes.{solicitar_bytes, almacenar_bytes}

-- What an order writes to the console's log.
pub data Informe : Type 0 where
  nada : Informe
  direccion : ℤ → Informe
  memory_overload : Informe
  sin_segmento : Informe
  segmentation_fault : Informe
  contenido : List ℕ → Informe
  escrito : Informe
  tiempo_no_valido : Informe

-- The entries of the menus that read or change the memory; `azar` is what `rand` gives, and `buffer`
-- the block of `tam+1` bytes after `fgets`.
pub data Orden : Type 0 where
  tamanio : (nuevo_tamanio : ℤ) → Orden
  crear : (id_proc tipo_seg tam azar : ℤ) → Orden
  destruir : (id_proc : ℤ) → Orden
  solicitar : (id_proc tipo_seg offset tam : ℤ) → Orden
  escribir : (id_proc tipo_seg offset tam : ℤ) (buffer : List ℕ) → Orden
  con_retardo : (t : ℤ) → Orden
  con_algoritmo : Orden
  compacta : Orden
  imprime_mem : Orden
  imprime_contenido : (offset tam : ℤ) → Orden
  salir : Orden

unfoldable pub cambiar_algoritmo : Umv → Umv
cambiar_algoritmo u =
    if u.alg_actual ==ℤ worst_fit
    then record u { alg_actual = first_fit }
    else record u { alg_actual = worst_fit }

unfoldable pub cambiar_retardo : Umv → ℤ → Umv × Informe
cambiar_retardo u t =
    if leb_ℤ (pos 0) t then (record u { retardo = t }, nada) else (u, tiempo_no_valido)

unfoldable pub imp_cont_mem_prin : Umv → ℤ → ℤ → Outcome Informe
imp_cont_mem_prin u offset tam =
    if ltb_ℤ u.tam_mem_total (add32 tam offset)
    then ok segmentation_fault
    else if ltb_ℤ (pos 0) tam
    then (memcpy_desde u.mem_prin offset tam >>= λ bs. ok (contenido bs))
    else ok (contenido [])

-- `realloc` answers the new block, with no bytes for a null pointer.
module _ (lib : ListSort) (pila : Seg → List ℕ) (malloc : ℤ → Option (List ℕ))
    (realloc : List ℕ → ℤ → List ℕ) where
  unfoldable pub cambiar_mem_total : Umv → ℤ → Umv
  cambiar_mem_total u nuevo_tamanio = record u {
    tam_mem_total = nuevo_tamanio;
    mem_prin = realloc u.mem_prin nuevo_tamanio;
  }

  unfoldable pub operacion_crear : Umv → ℤ → ℤ → ℤ → ℤ → Outcome (Umv × Informe)
  operacion_crear u id_proc tipo_seg tam azar =
      crear_segmento lib pila u (record { tipo = tipo_seg; id_prog = id_proc; tam_seg = tam }) azar
      >>= λ r. ok (r.0, if r.1 ==ℤ negsuc 0 then memory_overload else direccion r.1)

  unfoldable pub operacion_solicitar : Umv → ℤ → ℤ → ℤ → ℤ → Outcome Informe
  operacion_solicitar u id_proc tipo_seg offset tam =
      elim (buscar_segmento_tipo_seg u id_proc tipo_seg) [
        | none ↦ ok sin_segmento
        | some s ↦ solicitar_bytes malloc u id_proc s.dir_logica offset tam >>= elim [
          | none ↦ ok segmentation_fault
          | some buffer ↦ ok (contenido (take (pos_part tam) buffer))
        ]
      ]

  unfoldable pub operacion_escribir : Umv → ℤ → ℤ → ℤ → ℤ → List ℕ → Outcome (Umv × Informe)
  operacion_escribir u id_proc tipo_seg offset tam buffer =
      elim (buscar_segmento_tipo_seg u id_proc tipo_seg) [
        | none ↦ ok (u, sin_segmento)
        | some s ↦ almacenar_bytes u id_proc s.dir_logica offset tam buffer >>= λ r.
            ok (r.0, if r.1 ==ℤ segmen_fault then segmentation_fault else escrito)
      ]

  -- A round of `crearConsola`. `imp_mem_prin` sorts the list of segments before it draws them.
  unfoldable pub atender_consola : Umv → Orden → Outcome (Umv × Informe)
  unfolding operacion_crear operacion_solicitar operacion_escribir
  atender_consola u (tamanio nuevo_tamanio) = ok (cambiar_mem_total u nuevo_tamanio, nada)
  atender_consola u (crear id_proc tipo_seg tam azar) = operacion_crear u id_proc tipo_seg tam azar
  atender_consola u (destruir id_proc) = ok (destruir_segmentos u id_proc, nada)
  atender_consola u (solicitar id_proc tipo_seg offset tam) =
      operacion_solicitar u id_proc tipo_seg offset tam >>= λ inf. ok (u, inf)
  atender_consola u (escribir id_proc tipo_seg offset tam buffer) =
      operacion_escribir u id_proc tipo_seg offset tam buffer
  atender_consola u (con_retardo t) = ok (cambiar_retardo u t)
  atender_consola u con_algoritmo = ok (cambiar_algoritmo u, nada)
  atender_consola u compacta = compactar lib pila u >>= λ w. ok (w, nada)
  atender_consola u imprime_mem = ok (ordenar_lista_seg_por_dir_fisica lib u, nada)
  atender_consola u (imprime_contenido offset tam) =
      imp_cont_mem_prin u offset tam >>= λ inf. ok (u, inf)
  atender_consola u salir = ok (record u { quit_sistema = false }, nada)
