-- ===== src/Cpu/Contexto.antt =====
-- The end of a program, and the dictionary of the variables of its current context.
pub mod Marco
use tp_2014_1c_tp_so.Base.{
  ℕ, zero, suc, ◌+◌, Bool, true, List, [], ◌∷◌, ◌++◌, Option, none, some, length, leb,
  if◌then◌else◌,
}
use tp_2014_1c_tp_so.Base.Int.{ℤ, pos, pos_part, ◌==ℤ◌}
use tp_2014_1c_tp_so.Base.Words.{add32, sub32, mul32}
use tp_2014_1c_tp_so.Base.Outcome.{Outcome, ok, fault, ◌>>=◌}
use tp_2014_1c_tp_so.Base.Memoria.{memcpy_desde}
use tp_2014_1c_tp_so.Base.Diccionario.{clave, dictionary_put}
use tp_2014_1c_tp_so.Mensajes.{Pcb, crear_men_comun}
use tp_2014_1c_tp_so.Mensajes.Tipos
use tp_2014_1c_tp_so.Sockets.{int32_de}
use tp_2014_1c_tp_so.Cpu.Estado.{
  Maquina, Externo, limpiar_destruir_dic_var, al_kernel, con_cadena, recibir_resp_kernel, pedir,
}

unfoldable pub es_numero_pasar_char : ℕ → ℕ
es_numero_pasar_char un_char = if leb un_char 9 then un_char + 48 else un_char

-- The `enum tipo_fin`'s `OK`.
abbrev pub fin_ok : ℤ
fin_ok = pos 0

-- `pcb->dir_cont_actual - base + (n*5)`
abbrev pub despues_de : Pcb → ℤ → ℤ
despues_de pcb n = add32 (sub32 pcb.dir_cont_actual pcb.dir_seg_stack) (mul32 n (pos 5))

-- "\n----------Imprimo el estado final de las variable----------\n"
abbrev pub titulo : List ℕ
titulo =
    10 ∷ 45 ∷ 45 ∷ 45 ∷ 45 ∷ 45 ∷ 45 ∷ 45 ∷ 45 ∷ 45 ∷ 45 ∷ 73 ∷ 109 ∷ 112 ∷ 114 ∷ 105 ∷ 109 ∷ 111
    ∷ 32 ∷ 101 ∷ 108 ∷ 32 ∷ 101 ∷ 115 ∷ 116 ∷ 97 ∷ 100 ∷ 111 ∷ 32 ∷ 102 ∷ 105 ∷ 110 ∷ 97 ∷ 108 ∷ 32
    ∷ 100 ∷ 101 ∷ 32 ∷ 108 ∷ 97 ∷ 115 ∷ 32 ∷ 118 ∷ 97 ∷ 114 ∷ 105 ∷ 97 ∷ 98 ∷ 108 ∷ 101 ∷ 45 ∷ 45
    ∷ 45 ∷ 45 ∷ 45 ∷ 45 ∷ 45 ∷ 45 ∷ 45 ∷ 45 ∷ 10 ∷ []

module _ (x : Externo) where
  -- The loop of `regenerar_dicc_var`, from the variable `i` on. An answer with no bytes is read
  -- outside its block.
  unfoldable pub regenerar_desde : ℕ → ℕ → Maquina → Outcome Maquina
  unfolding es_numero_pasar_char
  regenerar_desde zero i m = ok m
  regenerar_desde (suc n) i m =
      let base = m.pcb.dir_seg_stack in
      let offset = despues_de m.pcb (pos i) in
      pedir x m Tipos.sol_bytes base offset (pos 1) none >>= λ r. elim r.0.dato [
        | [] ↦ fault
        | c ∷ _ ↦ regenerar_desde n (suc i) (record r.1 {
          dic_variables =
              dictionary_put (es_numero_pasar_char c ∷ []) (add32 base offset) r.1.dic_variables;
        })
      ]

  unfoldable pub regenerar_dicc_var : Maquina → Outcome Maquina
  unfolding regenerar_desde
  regenerar_dicc_var m =
      regenerar_desde (pos_part m.pcb.cant_var_cont_actual) 0 (limpiar_destruir_dic_var m)

  -- The loop of `finalizarContexto`: each variable's name and value are printed.
  unfoldable pub imprimir_desde : ℕ → ℕ → Maquina → Outcome Maquina
  unfolding al_kernel recibir_resp_kernel
  imprimir_desde zero i m = ok m
  imprimir_desde (suc n) i m =
      let base = m.pcb.dir_cont_actual in
      let offset = mul32 (pos 5) (pos i) in
      pedir x m Tipos.sol_bytes base offset (pos 1) none >>= λ r.
      pedir x r.1 Tipos.sol_bytes base (add32 offset (pos 1)) (pos 4) none >>= λ t.
      memcpy_desde t.0.dato (pos 0) (pos 4) >>= λ bs. int32_de bs >>= λ cont_var. elim r.0.dato [
        | [] ↦ fault
        | c ∷ _ ↦
            let s = c ∷ 61 ∷ x.texto.string_itoa cont_var in
            let men =
              crear_men_comun Tipos.imprimir_texto (s ++ (0 ∷ []))
                (pos (length (clave (s ++ (0 ∷ []))) + 1)) in
            imprimir_desde n (suc i) (recibir_resp_kernel (al_kernel t.1 men))
      ]

  unfoldable pub finalizar_contexto : Maquina → ℤ → Outcome Maquina
  unfolding al_kernel recibir_resp_kernel imprimir_desde
  finalizar_contexto m tipo_fin =
      let id = x.texto.string_itoa m.pcb.id in
      if tipo_fin ==ℤ Tipos.segmen_fault
      then ok (record (al_kernel m (con_cadena Tipos.segmen_fault id)) {
        fue_fin_ejecucion = true;
        hubo_seg_fault = true;
      })
      else if tipo_fin ==ℤ fin_ok
      then (imprimir_desde (pos_part m.pcb.cant_var_cont_actual) 0
            (recibir_resp_kernel (al_kernel m (con_cadena Tipos.imprimir_texto titulo)))
          >>= λ m1. ok (record (al_kernel m1 (con_cadena Tipos.fin_ejecucion id)) {
            fue_fin_ejecucion = true;
          }))
      else ok m
