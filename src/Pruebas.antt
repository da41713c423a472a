-- ===== src/Pruebas.antt =====
-- Concrete data for the tests: a memory of sixteen bytes with two segments, and an insertion sort in
-- the place of the commons library's `list_sort`.
pub mod Orden
pub mod Servidor
pub mod Conexion
pub mod Nucleo
pub mod Planificacion
pub mod Procesador
pub mod Turnos
pub mod Conjunto
pub mod Despacho
pub mod Inicio
pub mod Carga
pub mod Enlace
use mathlib.Core.List.{mem-cons, not-mem-nil}
use mathlib.Core.Logic.Or
use native.Mathlib.Bridge.{le_prop}
use tp_2014_1c_tp_so.Base.{
  ℕ, ◌≡◌, refl, List, [], ◌∷◌, ◌++◌, Option, some, Mem, Pairwise, arith, replicate, true,
}
use tp_2014_1c_tp_so.Base.Int.{ℤ, pos, pos_part}
use tp_2014_1c_tp_so.Umv.Estado.{Seg, Umv, ListSort, Separados, first_fit, worst_fit}
use tp_2014_1c_tp_so.Umv.Segmentos.Compactacion.{PilaLarga}
use tp_2014_1c_tp_so.Umv.Espacio.Validez.{Cabe, Cabe-prop, SegsValidos, IsValid}

-- Process 1 has the bytes 2 to 5, process 2 the bytes 8 to 12.
abbrev pub seg_uno : Seg
seg_uno = record {
  id_proc = pos 1;
  dir_logica = pos 101;
  dir_fisica = pos 2;
  tam_seg = pos 4;
  tipo_seg = pos 1;
}

abbrev pub seg_dos : Seg
seg_dos = record {
  id_proc = pos 2;
  dir_logica = pos 202;
  dir_fisica = pos 8;
  tam_seg = pos 5;
  tipo_seg = pos 2;
}

abbrev pub servidor : Umv
servidor = record {
  mem_prin = 0 ∷ 1 ∷ 2 ∷ 3 ∷ 4 ∷ 5 ∷ 6 ∷ 7 ∷ 8 ∷ 9 ∷ 10 ∷ 11 ∷ 12 ∷ 13 ∷ 14 ∷ 15 ∷ [];
  list_seg = seg_dos ∷ seg_uno ∷ [];
  alg_actual = first_fit;
  tam_mem_total = pos 16;
  retardo = pos 0;
  quit_sistema = true;
}

pub SegsValidos-dos :
    (n : ℕ) (s t : Seg) → Cabe n s → Cabe n t → Separados s t → SegsValidos n (s ∷ t ∷ [])
SegsValidos-dos n s t hs ht sep = record {
  caben = λ x m.
      Or.elim Cabe-prop (mem-cons.0 m) (λ e. rw e hs)
        (λ k. Or.elim Cabe-prop (mem-cons.0 k) (λ e. rw e ht) (λ z. absurd (not-mem-nil z)));
  separados =
      Pairwise.cons
        (λ x m. Or.elim le_prop (mem-cons.0 m) (λ e. rw e sep) (λ z. absurd (not-mem-nil z)))
        (Pairwise.cons (λ x m. absurd (not-mem-nil m)) Pairwise.nil);
}

pub servidor-IsValid : IsValid servidor
servidor-IsValid = record {
  total_nonneg = refl;
  total_small = omega arith;
  reservada = refl;
  segs =
      SegsValidos-dos 16 seg_dos seg_uno
        (record { dir_nonneg = refl; tam_nonneg = refl; dentro = omega arith })
        (record { dir_nonneg = refl; tam_nonneg = refl; dentro = omega arith }) (omega arith);
}

-- The stack is full of zeros.
abbrev pub ceros : Seg → List ℕ
ceros s = replicate 16 0

pub ceros-PilaLarga : PilaLarga ceros servidor.list_seg
ceros-PilaLarga s m = omega (arith, (servidor-IsValid.segs.caben s m).dentro)

abbrev pub bloque : ℤ → Option (List ℕ)
bloque z = some (replicate (pos_part z) 0)
