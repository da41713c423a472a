-- ===== src/Cpu/Llamadas.antt =====
-- The primitives of AnSISOP for jumps and calls. A call writes, after the variables of its context, where
-- that context begins, the instruction to go back to and, if a value is returned, where to put it;
-- the context of the function called begins after them.
pub mod Ida
pub mod Vuelta
pub mod Palabras
pub mod IdaVuelta
use tp_2014_1c_tp_so.Base.{ℕ, Bool, true, List, [], ◌∷◌, Option, none, some, if◌then◌else◌}
use tp_2014_1c_tp_so.Base.Int.{ℤ, pos, negsuc, ◌==ℤ◌}
use tp_2014_1c_tp_so.Base.Words.{add32, sub32, mul32, div32}
use tp_2014_1c_tp_so.Base.Outcome.{Outcome, ok, fault, ◌>>=◌}
use tp_2014_1c_tp_so.Base.Memoria.{memcpy_desde}
use tp_2014_1c_tp_so.Mensajes.Tipos
use tp_2014_1c_tp_so.Mensajes.{Pcb}
use tp_2014_1c_tp_so.Sockets.{bytes_int32, int32_de}
use tp_2014_1c_tp_so.Cpu.Estado.{Maquina, Externo, sacar_caracteres_escape, pedir}
use tp_2014_1c_tp_so.Cpu.Contexto.{despues_de, regenerar_dicc_var, finalizar_contexto, fin_ok}

abbrev pub actualizar_pcb : Maquina → ℤ → ℤ → ℤ → Maquina
actualizar_pcb m cant_var program_counter dir_primer_byte_umv = record m {
  pcb = record m.pcb {
    cant_var_cont_actual = cant_var;
    program_counter = program_counter;
    dir_cont_actual = dir_primer_byte_umv;
  };
}

-- `memcpy(&n, bytes+i, sizeof(int32_t))`
abbrev pub entero_en : List ℕ → ℤ → Outcome ℤ
entero_en bytes i = memcpy_desde bytes i (pos 4) >>= int32_de

module _ (x : Externo) where
  -- An answer of neither type is read again after it was freed, if it is the second.
  unfoldable pub preservar_contexto : Maquina → Outcome Maquina
  preservar_contexto m =
      let base = m.pcb.dir_seg_stack in
      let offset = despues_de m.pcb m.pcb.cant_var_cont_actual in
      pedir x m Tipos.alm_bytes base offset (pos 4) (some (bytes_int32 m.pcb.dir_cont_actual))
      >>= λ r.
          if r.0.tipo ==ℤ Tipos.r_alm_bytes
          then (pedir x r.1 Tipos.alm_bytes base (add32 offset (pos 4)) (pos 4)
                (some (bytes_int32 m.pcb.program_counter))
              >>= λ t.
                  if t.0.tipo ==ℤ Tipos.r_alm_bytes
                  then ok t.1
                  else if t.0.tipo ==ℤ Tipos.segmen_fault
                  then finalizar_contexto x t.1 Tipos.segmen_fault
                  else fault)
          else if r.0.tipo ==ℤ Tipos.segmen_fault
          then finalizar_contexto x r.1 Tipos.segmen_fault
          else ok r.1

  unfoldable pub ir_al_label : Maquina → List ℕ → Maquina
  ir_al_label m nombre_etiqueta =
      let pos_etiqueta =
        x.metadata_buscar_etiqueta (sacar_caracteres_escape x nombre_etiqueta) m.etiquetas
          m.pcb.tam_indice_etiquetas in
      if pos_etiqueta ==ℤ negsuc 0
      then record m { fue_fin_ejecucion = true }
      else record m { pcb = record m.pcb { program_counter = pos_etiqueta } }

  -- `regenerar_dicc_var` for the new context, and the jump.
  unfoldable pub entrar : Maquina → List ℕ → ℤ → Outcome Maquina
  entrar m etiqueta dir_cont =
      regenerar_dicc_var x (record m {
        pcb = record m.pcb { dir_cont_actual = dir_cont; cant_var_cont_actual = pos 0 };
      })
      >>= λ m1. ok (record m1 {
        pcb = record m1.pcb {
          program_counter =
              x.metadata_buscar_etiqueta etiqueta m.etiquetas m.pcb.tam_indice_etiquetas;
        };
      })

  unfoldable pub llamar_sin_retorno : Maquina → List ℕ → Outcome Maquina
  llamar_sin_retorno m etiqueta = preservar_contexto m >>= λ m1.
      entrar m1 etiqueta
        (add32 (add32 m1.pcb.dir_cont_actual (mul32 (pos 5) m1.pcb.cant_var_cont_actual)) (pos 8))

  unfoldable pub llamar_con_retorno : Maquina → List ℕ → ℤ → Outcome Maquina
  llamar_con_retorno m etiqueta donde_retornar = preservar_contexto m >>= λ m1.
      let base = m1.pcb.dir_seg_stack in
      let offset = add32 (despues_de m1.pcb m1.pcb.cant_var_cont_actual) (pos 8) in
      pedir x m1 Tipos.alm_bytes base offset (pos 4) (some (bytes_int32 donde_retornar)) >>= λ r.
      if r.0.tipo ==ℤ Tipos.r_alm_bytes
      then entrar r.1 etiqueta (add32 (add32 base offset) (pos 4))
      else if r.0.tipo ==ℤ Tipos.segmen_fault
      then finalizar_contexto x r.1 Tipos.segmen_fault
      else ok r.1

  unfoldable pub finalizar : Maquina → Outcome Maquina
  finalizar m =
      if m.pcb.dir_cont_actual ==ℤ m.pcb.dir_seg_stack
      then finalizar_contexto x m fin_ok
      else let base = m.pcb.dir_seg_stack in
        let offset = sub32 (sub32 m.pcb.dir_cont_actual base) (pos 8) in
        pedir x m Tipos.sol_bytes base offset (pos 8) none >>= λ r.
        if r.0.tipo ==ℤ Tipos.r_sol_bytes
        then (entero_en r.0.dato (pos 0) >>= λ dir_context_ant.
            entero_en r.0.dato (pos 4) >>= λ prog_counter.
            let cant_var = div32 (sub32 (sub32 m.pcb.dir_cont_actual dir_context_ant) (pos 8)) 5 in
            regenerar_dicc_var x (actualizar_pcb r.1 cant_var prog_counter dir_context_ant))
        else finalizar_contexto x r.1 Tipos.segmen_fault

  unfoldable pub retornar : Maquina → ℤ → Outcome Maquina
  retornar m retorno =
      let base = m.pcb.dir_seg_stack in
      let offset = sub32 (sub32 m.pcb.dir_cont_actual base) (pos 12) in
      pedir x m Tipos.sol_bytes base offset (pos 12) none >>= λ r.
      if r.0.tipo ==ℤ Tipos.r_sol_bytes
      then (entero_en r.0.dato (pos 0) >>= λ dir_context_ant.
          entero_en r.0.dato (pos 4) >>= λ prog_counter.
          entero_en r.0.dato (pos 8) >>= λ dir_retorno.
          let cant_var = div32 (sub32 (sub32 m.pcb.dir_cont_actual dir_context_ant) (pos 12)) 5 in
          regenerar_dicc_var x (actualizar_pcb r.1 cant_var prog_counter dir_context_ant) >>= λ m1.
          pedir x m1 Tipos.alm_bytes base (add32 (sub32 dir_retorno base) (pos 1)) (pos 4)
            (some (bytes_int32 retorno))
          >>= λ t. ok t.1)
      else finalizar_contexto x r.1 Tipos.segmen_fault
