-- ===== src/Cpu/Variables/Definicion.antt =====
-- `definirVariable` and `obtenerPosicionVariable`.
use tp_2014_1c_tp_so.Base.{
  ℕ, suc, ◌+◌, ◌*◌, ◌≤◌, ◌<◌, ◌≡◌, refl, ◌∙◌, ap, ◌≢◌, true, [], ◌∷◌, ◌++◌, none, some, arith,
  length,
}
use tp_2014_1c_tp_so.Base.Int.{ℤ, pos, negsuc}
use tp_2014_1c_tp_so.Base.Words.{add32, add32-pos}
use tp_2014_1c_tp_so.Base.Outcome.{ok}
use tp_2014_1c_tp_so.Base.Memoria.{leer}
use tp_2014_1c_tp_so.Base.Diccionario.{
  dictionary_get, dictionary_put, dictionary_get-dictionary_put,
}
use tp_2014_1c_tp_so.Mensajes.Tipos
use tp_2014_1c_tp_so.Umv.Estado.{Seg, largo}
use tp_2014_1c_tp_so.Cpu.Estado.{Maquina, Externo, comun, al_kernel, con_cadena}
use tp_2014_1c_tp_so.Cpu.Pila.{
  pila, con_pila, con_pila-EnPila, pila-con_pila, pila-con_pila_apart, pila-part, pedir-alm_bytes,
  pedir-alm_fuera,
}
use tp_2014_1c_tp_so.Cpu.Contexto.{es_numero_pasar_char, regenerar_dicc_var, finalizar_contexto}
use tp_2014_1c_tp_so.Cpu.Contexto.Marco.{
  EnContexto, offset_despues, variables_desde, variables_desde_snoc, variables_desde_local,
  regenerar_dicc_var_lem, al_dia,
}
use tp_2014_1c_tp_so.Cpu.Variables.{definir_variable, obtener_posicion_variable}

es_numero_dos_veces :
    (c : ℕ) → es_numero_pasar_char (es_numero_pasar_char c) ≡ es_numero_pasar_char c
unfolding es_numero_pasar_char
es_numero_dos_veces c = ground arith

obtener_posicion_variable_lem :
    (m : Maquina) (id_var : ℕ) (z : ℤ)
    → dictionary_get (es_numero_pasar_char id_var ∷ []) m.dic_variables ≡ some z
    → obtener_posicion_variable m id_var ≡ ok z
unfolding obtener_posicion_variable
obtener_posicion_variable_lem m id_var z h = rw (h, obtener_posicion_variable) refl

-- The machine after `definirVariable`, where the variable fits.
abbrev pub definida : Externo → Maquina → Seg → ℕ → ℕ → ℕ → ℕ → Maquina
definida x m s b c v id_var =
    let k = es_numero_pasar_char id_var in
    record (con_pila m s (c + v * 5) 5 (k ∷ 0 ∷ x.tras_clave m)) {
      dic_variables = dictionary_put (k ∷ []) (pos (b + (c + v * 5))) m.dic_variables;
      pcb = record m.pcb { cant_var_cont_actual = pos (v + 1) };
    }

pub definir_variable_lem :
    (x : Externo) (m : Maquina) (s : Seg) (b c v : ℕ) (id_var : ℕ)
    → EnContexto m s b c v
    → c + v * 5 + 5 ≤ largo s
    → 3 ≤ length (x.tras_clave m)
    → definir_variable x m id_var ≡ ok (pos (b + (c + v * 5)), definida x m s b c v id_var)
unfolding definir_variable
definir_variable_lem x m s b c v id_var e h l =
    let p = e.pila in
    let k = es_numero_pasar_char id_var in
    let o = offset_despues m s b c v p e.dir_cont e.cabe in
    let t = pedir-alm_bytes x m s b (c + v * 5) 5 (k ∷ 0 ∷ x.tras_clave m) p h (omega arith) in
    let a : add32 (pos b) (pos (c + v * 5)) ≡ pos (b + (c + v * 5)) =
      add32-pos b (c + v * 5) (omega (arith, p.alcance)) in
    let u : add32 (pos v) (pos 1) ≡ pos (v + 1) = add32-pos v 1 (omega (arith, p.alcance)) in
    simp (es_numero_dos_veces id_var, p.base, e.cant_var, o, t, a, u)

-- The context after it has one variable more.
definida-EnContexto :
    (x : Externo) (m : Maquina) (s : Seg) (b c v : ℕ) (id_var : ℕ)
    → EnContexto m s b c v
    → c + v * 5 + 5 ≤ largo s
    → EnContexto (definida x m s b c v id_var) s b c (v + 1)
definida-EnContexto x m s b c v id_var e h =
    let q =
      con_pila-EnPila m s b (c + v * 5) 5 (es_numero_pasar_char id_var ∷ 0 ∷ x.tras_clave m)
        e.pila in
    record {
      pila = record {
        valido = q.valido;
        chica = q.chica;
        base = q.base;
        segmento = q.segmento;
        alcance = q.alcance;
      };
      dir_cont = e.dir_cont;
      cant_var = refl;
      cabe = omega arith;
    }

module _ (x : Externo) (hay : (n : ℕ) → x.umv.malloc (pos n) ≢ none) where
  -- `definirVariable` where the segment has room for five bytes more, `malloc` does not fail, and at
  -- least three bytes stand after the block of two that it sends five of: it answers the place after the
  -- variables of the context, which has one variable more then; `obtenerPosicionVariable` answers
  -- that place for the name; and if the dictionary was what `regenerar_dicc_var` reads from the
  -- stack, it is so still.
  pub regenerar_dicc_var-definir_variable :
      (m : Maquina) (s : Seg) (b c v : ℕ) (id_var : ℕ)
      → EnContexto m s b c v
      → c + v * 5 + 5 ≤ largo s
      → 3 ≤ length (x.tras_clave m)
      → regenerar_dicc_var x m ≡ ok m
      → (m' : Maquina) × (definir_variable x m id_var ≡ ok (pos (b + (c + v * 5)), m'))
        × EnContexto m' s b c (v + 1)
        × (obtener_posicion_variable m' id_var ≡ ok (pos (b + (c + v * 5))))
        × (regenerar_dicc_var x m' ≡ ok m')
  regenerar_dicc_var-definir_variable m s b c v id_var e h l r =
      let m' = definida x m s b c v id_var in
      let e' = definida-EnContexto x m s b c v id_var e h in
      let k = es_numero_pasar_char id_var in
      let bs = k ∷ 0 ∷ x.tras_clave m in
      let antes : variables_desde m.umv.mem_prin s b v c [] ≡ m.dic_variables =
        al_dia x hay m s b c v e r in
      let escrita = pila-con_pila m s b (c + v * 5) 5 bs e.pila h (omega arith) in
      let nombre : pila m' s (c + v * 5) 1 ≡ k ∷ [] =
        let cero : c + v * 5 + 0 ≡ c + v * 5 = omega arith in
        rw cero at (pila-part m' s (c + v * 5) 5 0 1 (omega arith))
        ∙ rw escrita (unfold leer in refl) in
      let igual =
        variables_desde_local m.umv.mem_prin m'.umv.mem_prin s b v c []
          (λ j t. pila-con_pila_apart m s (c + v * 5) 5 bs j 1 (omega arith)) in
      let mas : v + 1 ≡ suc v = omega arith in
      (
        m',
        definir_variable_lem x m s b c v id_var e h l,
        e',
        obtener_posicion_variable_lem m' id_var (pos (b + (c + v * 5)))
            (dictionary_get-dictionary_put (k ∷ []) (pos (b + (c + v * 5))) m.dic_variables),
        regenerar_dicc_var_lem x hay m' s b c (v + 1) e'
            ∙ ap (λ dic. ok (record m' { dic_variables = dic }))
                (rw mas (
                  variables_desde_snoc m'.umv.mem_prin s b v c []
                  ∙ rw (nombre, igual, antes, es_numero_dos_veces id_var) refl)),
      )

-- Where the segment has no room for it, and at least three bytes stand after the block of two that is
-- sent too long, the kernel is told of a segmentation fault and the program
-- ends; memory, the dictionary and the process are as they were, and the answer is -1.
pub definir_variable-segmen_fault :
    (x : Externo) (m : Maquina) (s : Seg) (b c v : ℕ) (id_var : ℕ)
    → EnContexto m s b c v
    → largo s < c + v * 5 + 5
    → 3 ≤ length (x.tras_clave m)
    → definir_variable x m id_var
      ≡ ok (
        negsuc 0,
        record m {
          fue_fin_ejecucion = true;
          hubo_seg_fault = true;
          salida =
              m.salida
              ++ (comun (con_cadena Tipos.segmen_fault (x.texto.string_itoa m.pcb.id)) ∷ []);
        },
      )
unfolding definir_variable finalizar_contexto al_kernel
definir_variable-segmen_fault x m s b c v id_var e h l =
    let p = e.pila in
    let k = es_numero_pasar_char id_var in
    let o = offset_despues m s b c v p e.dir_cont e.cabe in
    let t = pedir-alm_fuera x m s b (c + v * 5) 5 (k ∷ 0 ∷ x.tras_clave m) p h (omega arith) in
    simp (es_numero_dos_veces id_var, p.base, e.cant_var, o, t)
