-- ===== src/Cpu/Variables.antt =====
-- The primitives of AnSISOP for variables, which live on the stack segment: five bytes each, the name and
-- the value.
pub mod Asignacion
pub mod Definicion
use tp_2014_1c_tp_so.Base.{ℕ, List, [], ◌∷◌, Option, none, some, if◌then◌else◌}
use tp_2014_1c_tp_so.Base.Int.{ℤ, pos, negsuc, ◌==ℤ◌}
use tp_2014_1c_tp_so.Base.Words.{add32, sub32}
use tp_2014_1c_tp_so.Base.Outcome.{Outcome, ok, fault, ◌>>=◌}
use tp_2014_1c_tp_so.Base.Memoria.{memcpy_hacia}
use tp_2014_1c_tp_so.Base.Diccionario.{dictionary_get, dictionary_put}
use tp_2014_1c_tp_so.Mensajes.Tipos
use tp_2014_1c_tp_so.Sockets.{bytes_int32, int32_de}
use tp_2014_1c_tp_so.Cpu.Estado.{Maquina, Externo, pedir}
use tp_2014_1c_tp_so.Cpu.Contexto.{es_numero_pasar_char, despues_de, finalizar_contexto}

-- The entry is read before it is tested.
unfoldable pub obtener_posicion_variable : Maquina → ℕ → Outcome ℤ
unfolding es_numero_pasar_char
obtener_posicion_variable m identificador_variable =
    elim (dictionary_get (es_numero_pasar_char identificador_variable ∷ []) m.dic_variables) [
      | none ↦ fault
      | some dir_mem ↦ ok dir_mem
    ]

module _ (x : Externo) where
  -- `key` is a block of two bytes, of which five are copied.
  unfoldable pub definir_variable : Maquina → ℕ → Outcome (ℤ × Maquina)
  unfolding es_numero_pasar_char
  definir_variable m id_var =
      let base = m.pcb.dir_seg_stack in
      let offset = despues_de m.pcb m.pcb.cant_var_cont_actual in
      let c = es_numero_pasar_char (es_numero_pasar_char id_var) in
      pedir x m Tipos.alm_bytes base offset (pos 5) (some (c ∷ 0 ∷ x.tras_clave m)) >>= λ r.
      if r.0.tipo ==ℤ Tipos.r_alm_bytes
      then ok (
        add32 base offset,
        record r.1 {
          dic_variables = dictionary_put (c ∷ []) (add32 base offset) r.1.dic_variables;
          pcb = record r.1.pcb {
            cant_var_cont_actual = add32 r.1.pcb.cant_var_cont_actual (pos 1);
          };
        },
      )
      else finalizar_contexto x r.1 Tipos.segmen_fault >>= λ m1. ok (negsuc 0, m1)

  unfoldable pub dereferenciar : Maquina → ℤ → Outcome (ℤ × Maquina)
  dereferenciar m direccion_variable =
      let base = m.pcb.dir_seg_stack in
      let offset = add32 (sub32 direccion_variable base) (pos 1) in
      pedir x m Tipos.sol_bytes base offset (pos 4) none >>= λ r.
      if r.0.tipo ==ℤ Tipos.r_sol_bytes
      then (memcpy_hacia (bytes_int32 (x.sin_valor m)) (pos 0) r.0.dato r.0.tam_dato >>= λ bs.
          int32_de bs >>= λ valor. ok (valor, r.1))
      else if r.0.tipo ==ℤ Tipos.segmen_fault
      then (finalizar_contexto x r.1 Tipos.segmen_fault >>= λ m1. ok (x.sin_valor m, m1))
      else ok (x.sin_valor m, r.1)

  unfoldable pub asignar : Maquina → ℤ → ℤ → Outcome Maquina
  asignar m direccion_variable valor =
      if m.hubo_seg_fault
      then ok m
      else let base = m.pcb.dir_seg_stack in
        let offset = add32 (sub32 direccion_variable base) (pos 1) in
        pedir x m Tipos.alm_bytes base offset (pos 4) (some (bytes_int32 valor)) >>= λ r.
        if r.0.tipo ==ℤ Tipos.segmen_fault
        then finalizar_contexto x r.1 Tipos.segmen_fault
        else ok r.1
