-- ===== src/Pruebas/Carga.antt =====
-- A script that the concrete memory has room for, and one that it has none for.
use mathlib.Core.List.{mem-cons, not-mem-nil}
use mathlib.Core.Logic.Or
use tp_2014_1c_tp_so.Base.{
  ℕ, ◌≡◌, ◌≢◌, refl, List, [], ◌∷◌, ◌++◌, Mem, arith, replicate, get_or, length-replicate,
}
use tp_2014_1c_tp_so.Base.Int.{pos}
use tp_2014_1c_tp_so.Base.Outcome.{ok}
use tp_2014_1c_tp_so.Base.Words.{mul32}
use tp_2014_1c_tp_so.Mensajes.{MenComun, aviso}
use tp_2014_1c_tp_so.Mensajes.Tipos.{codigo_script, men_alm_ok}
use tp_2014_1c_tp_so.Umv.Estado.{Seg, Umv, largo}
use tp_2014_1c_tp_so.Umv.Espacio.Validez.{IsValid}
use tp_2014_1c_tp_so.Umv.Sesion as Sesion
use tp_2014_1c_tp_so.Kernel.Estado.{PcbOtros}
use tp_2014_1c_tp_so.Kernel.Programas.{Metadata, Entorno, Respuestas, administrar_new_script}
use tp_2014_1c_tp_so.Sistema.Servicio.{servir}
use tp_2014_1c_tp_so.Sistema.Concedidas.{concedidas}
use tp_2014_1c_tp_so.Sistema.Carga.{Cargado, administrar_new_script-servir}
use tp_2014_1c_tp_so.Sistema.Rechazo.{Rechazado}
use tp_2014_1c_tp_so.Sistema.Rechazo.Pedidos.{administrar_new_script-Rechazado}
use tp_2014_1c_tp_so.Pruebas.{seg_uno, seg_dos, servidor, servidor-IsValid, SegsValidos-dos, bloque}
use tp_2014_1c_tp_so.Pruebas.Orden.{orden}
use tp_2014_1c_tp_so.Pruebas.Nucleo.{nucleo}

-- A number is written as one byte, and the stack has what is asked of it.
abbrev umv : Sesion.Entorno
umv = record {
  lib = orden;
  string_itoa = λ z. elim z [ pos n ↦ n ∷ [] | _ ↦ 0 ∷ [] ];
  pila = λ s. replicate (largo s) 0;
  malloc = bloque;
}

-- One instruction of eight bytes, and a label of three.
abbrev metadata : Metadata
metadata = record {
  instruccion_inicio = pos 0;
  instrucciones_size = pos 1;
  instrucciones_serializado = 1 ∷ 2 ∷ 3 ∷ 4 ∷ 5 ∷ 6 ∷ 7 ∷ 8 ∷ [];
  etiquetas_size = pos 3;
  etiquetas = 97 ∷ 0 ∷ 7 ∷ [];
  cantidad_de_funciones = pos 0;
  cantidad_de_etiquetas = pos 1;
}

abbrev pub entorno_plp : Entorno
entorno_plp = record {
  texto = record {
    atoi = λ bs. pos (get_or bs 0 0);
    string_itoa = λ z. elim z [ pos n ↦ n ∷ [] | _ ↦ 0 ∷ [] ];
  };
  metadata_desde_literal = λ bs. metadata;
  sin_escribir = pos 0;
}

-- The memory of 16 bytes, made longer.
abbrev amplia : Umv
amplia = record servidor { mem_prin = replicate 200 0; tam_mem_total = pos 200 }

amplia-IsValid : IsValid amplia
amplia-IsValid = record {
  total_nonneg = refl;
  total_small = omega arith;
  reservada = length-replicate {A = ℕ} 200 0;
  segs =
      SegsValidos-dos 200 seg_dos seg_uno
        (record { dir_nonneg = refl; tam_nonneg = refl; dentro = omega arith })
        (record { dir_nonneg = refl; tam_nonneg = refl; dentro = omega arith }) (omega arith);
}

abbrev fuente : MenComun
fuente = record { tam_dato = pos 4; tipo = codigo_script; dato = 97 ∷ 61 ∷ 49 ∷ 10 ∷ [] }

-- Neither segment is of process 7.
sin_siete : (s : Seg) → Mem s (seg_dos ∷ seg_uno ∷ []) → s.id_proc ≢ pos 7
sin_siete s m =
    Or.elim (hlevel) (mem-cons.0 m) (λ e. rw e (λ q. absurd (ground arith)))
      (λ k.
        Or.elim (hlevel) (mem-cons.0 k) (λ e. rw e (λ q. absurd (ground arith)))
          (λ z. absurd (not-mem-nil z)))

administrar_new_script-servir_example :
    let rs = concedidas umv 11 12 13 14 in
    let r = administrar_new_script entorno_plp nucleo (pos 30) fuente rs in
    (w : Umv) × (x : PcbOtros) × (servir umv amplia r.1
        (pos 11 ∷ pos 12 ∷ pos 13 ∷ pos 14 ∷ pos 5 ∷ pos 6 ∷ pos 7 ∷ [])
      ≡ ok (
        w,
        rs.seg_cod
            ∷ rs.ind_eti
            ∷ rs.indice_cod
            ∷ rs.seg_stack
            ∷ aviso men_alm_ok
            ∷ aviso men_alm_ok
            ∷ aviso men_alm_ok
            ∷ [],
      ))
    × IsValid w
    × (r.0.cola_new ≡ nucleo.cola_new ++ (x ∷ []))
    × (x.n_socket ≡ pos 30)
    × (x.pcb.id ≡ pos 7)
    × Cargado bloque metadata fuente.dato (pos 100) w x.pcb
unfolding mul32
administrar_new_script-servir_example =
    administrar_new_script-servir umv entorno_plp amplia nucleo (pos 30) fuente 6 100 11 12 13 14
      (pos 5) (pos 6) (pos 7) (λ s. omega (arith, length-replicate {A = ℕ} (largo s) 0)) (λ m e. cc)
      (λ a l. refl) amplia-IsValid (omega arith) refl (omega arith) sin_siete refl refl refl refl
      (omega arith) (omega arith, omega arith, omega arith, omega arith) (omega arith)

administrar_new_script-Rechazado_example :
    (rs : Respuestas) × (w : Umv) × (antes : List MenComun) × (despues : List MenComun) × Rechazado
      umv entorno_plp servidor nucleo
      (pos 30)
      fuente
      (pos 7)
      (pos 11 ∷ pos 12 ∷ pos 13 ∷ pos 14 ∷ [])
      rs
      w
      antes
      despues
unfolding mul32
administrar_new_script-Rechazado_example =
    administrar_new_script-Rechazado umv entorno_plp
      (λ s. omega (arith, length-replicate {A = ℕ} (largo s) 0)) (λ a l. refl) servidor
      servidor-IsValid nucleo (pos 30) fuente 6 4 3 8 100 11 12 13 14 [] refl (omega arith)
      (omega arith) (omega arith) (omega arith) refl refl refl refl sin_siete (omega arith)
