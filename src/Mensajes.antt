-- ===== src/Mensajes.antt =====
-- The records of sockets_lib/sockets_lib.h: the four kinds of message and the process control block.
-- A pointer to `n` bytes is the list of those bytes; `NULL` is the empty list.
pub mod Tipos
use tp_2014_1c_tp_so.Base.{ℕ, List, [], take}
use tp_2014_1c_tp_so.Base.Int.{ℤ, pos, pos_part}

-- `t_men_comun`
pub record MenComun : Type 0 where
  pub tam_dato : ℤ
  pub tipo : ℤ
  pub dato : List ℕ

-- The caller's `dato` has `tam` bytes or more.
unfoldable pub crear_men_comun : ℤ → List ℕ → ℤ → MenComun
crear_men_comun tipo dato tam_dato = record {
  tam_dato = tam_dato;
  tipo = tipo;
  dato = take (pos_part tam_dato) dato;
}

-- A message of a type alone, as `enviar_men_comun_destruir(soc, tipo, NULL, 0)` makes it.
abbrev pub aviso : ℤ → MenComun
aviso tipo = record { tam_dato = pos 0; tipo = tipo; dato = [] }

-- `t_pcb`
pub record Pcb : Type 0 where
  pub cant_var_cont_actual : ℤ
  pub dir_cont_actual : ℤ
  pub dir_indice_codigo : ℤ
  pub dir_indice_etiquetas : ℤ
  pub dir_seg_codigo : ℤ
  pub dir_seg_stack : ℤ
  pub id : ℤ
  pub program_counter : ℤ
  pub tam_indice_etiquetas : ℤ
  pub cant_instrucciones : ℤ

-- `t_men_quantum_pcb`
pub record MenQuantumPcb : Type 0 where
  pub tipo : ℤ
  pub quantum : ℤ
  pub pcb : Pcb

-- `t_men_cpu_umv`
pub record MenCpuUmv : Type 0 where
  pub tipo : ℤ
  pub base : ℤ
  pub offset : ℤ
  pub tam : ℤ
  pub buffer : List ℕ

-- `t_men_seg`
pub record MenSeg : Type 0 where
  pub tipo : ℤ
  pub id_prog : ℤ
  pub tam_seg : ℤ
