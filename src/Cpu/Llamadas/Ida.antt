-- ===== src/Cpu/Llamadas/Ida.antt =====
-- `llamarSinRetorno` and `llamarConRetorno`, where the stack segment has room for what they write.
use tp_2014_1c_tp_so.Base.{ℕ, ◌+◌, ◌*◌, ◌≤◌, ◌≡◌, ◌∙◌, ap, List, [], arith}
use tp_2014_1c_tp_so.Base.Int.{ℤ, pos}
use tp_2014_1c_tp_so.Base.Words.{add32, mul32, add32-pos, mul32-pos}
use tp_2014_1c_tp_so.Base.Outcome.{ok}
use tp_2014_1c_tp_so.Sockets.{bytes_int32}
use tp_2014_1c_tp_so.Umv.Estado.{Seg, largo}
use tp_2014_1c_tp_so.Cpu.Estado.{Maquina, Externo}
use tp_2014_1c_tp_so.Cpu.Pila.{con_pila, con_pila-EnPila, pedir-alm_bytes}
use tp_2014_1c_tp_so.Cpu.Contexto.{regenerar_dicc_var}
use tp_2014_1c_tp_so.Cpu.Contexto.Marco.{EnContexto, offset_despues}
use tp_2014_1c_tp_so.Cpu.Variables.Asignacion.{length-bytes_int32}
use tp_2014_1c_tp_so.Cpu.Llamadas.{
  preservar_contexto, entrar, llamar_sin_retorno, llamar_con_retorno,
}

-- The machine with the context kept: where it begins, and the instruction to go back to.
abbrev pub preservada : Maquina → Seg → ℕ → Maquina
preservada m s o =
    con_pila (con_pila m s o 4 (bytes_int32 m.pcb.dir_cont_actual)) s (o + 4) 4
      (bytes_int32 m.pcb.program_counter)

-- The machine in the new context, `c'` bytes into the segment.
abbrev pub en_funcion : Externo → Maquina → List ℕ → ℕ → ℕ → Maquina
en_funcion x m etiqueta b c' = record m {
  dic_variables = [];
  pcb = record m.pcb {
    dir_cont_actual = pos (b + c');
    cant_var_cont_actual = pos 0;
    program_counter = x.metadata_buscar_etiqueta etiqueta m.etiquetas m.pcb.tam_indice_etiquetas;
  };
}

module _ (x : Externo) where
  preservar_contexto_lem :
      (m : Maquina) (s : Seg) (b c v : ℕ)
      → EnContexto m s b c v
      → c + v * 5 + 8 ≤ largo s
      → preservar_contexto x m ≡ ok (preservada m s (c + v * 5))
  unfolding preservar_contexto
  preservar_contexto_lem m s b c v e h =
      let p = e.pila in
      let o = offset_despues m s b c v p e.dir_cont e.cabe in
      let b1 = bytes_int32 m.pcb.dir_cont_actual in
      let b2 = bytes_int32 m.pcb.program_counter in
      let t =
        pedir-alm_bytes x m s b (c + v * 5) 4 b1 p (omega arith)
          (omega (arith, length-bytes_int32 m.pcb.dir_cont_actual)) in
      let p1 = con_pila-EnPila m s b (c + v * 5) 4 b1 p in
      let a : add32 (pos (c + v * 5)) (pos 4) ≡ pos (c + v * 5 + 4) =
        add32-pos (c + v * 5) 4 (omega (arith, p.alcance)) in
      let t' =
        pedir-alm_bytes x (con_pila m s (c + v * 5) 4 b1) s b (c + v * 5 + 4) 4 b2 p1 (omega arith)
          (omega (arith, length-bytes_int32 m.pcb.program_counter)) in
      simp (p.base, e.cant_var, o, t, a, t')

  -- A call with no value to return.
  pub llamar_sin_retorno_lem :
      (m : Maquina) (etiqueta : List ℕ) (s : Seg) (b c v : ℕ)
      → EnContexto m s b c v
      → c + v * 5 + 8 ≤ largo s
      → llamar_sin_retorno x m etiqueta
        ≡ ok (en_funcion x (preservada m s (c + v * 5)) etiqueta b (c + v * 5 + 8))
  unfolding llamar_sin_retorno entrar regenerar_dicc_var
  llamar_sin_retorno_lem m etiqueta s b c v e h =
      let p = e.pila in
      let a : add32 (pos (b + c)) (mul32 (pos 5) (pos v)) ≡ pos (b + c + v * 5) =
        rw (mul32-pos 5 v (omega (arith, p.alcance)))
          (add32-pos (b + c) (5 * v) (omega (arith, p.alcance)) ∙ ap pos (omega arith)) in
      let a' : add32 (pos (b + c + v * 5)) (pos 8) ≡ pos (b + (c + v * 5 + 8)) =
        add32-pos (b + c + v * 5) 8 (omega (arith, p.alcance)) ∙ ap pos (omega arith) in
      simp (preservar_contexto_lem m s b c v e h, e.dir_cont, e.cant_var, a, a')

  -- A call whose value goes to the variable at `donde`.
  pub llamar_con_retorno_lem :
      (m : Maquina) (etiqueta : List ℕ) (donde : ℤ) (s : Seg) (b c v : ℕ)
      → EnContexto m s b c v
      → c + v * 5 + 12 ≤ largo s
      → llamar_con_retorno x m etiqueta donde
        ≡ ok (
            en_funcion x
              (con_pila (preservada m s (c + v * 5)) s (c + v * 5 + 8) 4 (bytes_int32 donde))
              etiqueta
              b
              (c + v * 5 + 12))
  unfolding llamar_con_retorno entrar regenerar_dicc_var
  llamar_con_retorno_lem m etiqueta donde s b c v e h =
      let p = e.pila in
      let o = offset_despues m s b c v p e.dir_cont e.cabe in
      let m1 = preservada m s (c + v * 5) in
      let p1 =
        con_pila-EnPila _ s b (c + v * 5 + 4) 4 (bytes_int32 m.pcb.program_counter)
          (con_pila-EnPila m s b (c + v * 5) 4 (bytes_int32 m.pcb.dir_cont_actual) p) in
      let a : add32 (pos (c + v * 5)) (pos 8) ≡ pos (c + v * 5 + 8) =
        add32-pos (c + v * 5) 8 (omega (arith, p.alcance)) in
      let t =
        pedir-alm_bytes x m1 s b (c + v * 5 + 8) 4 (bytes_int32 donde) p1 (omega arith)
          (omega (arith, length-bytes_int32 donde)) in
      let a' : add32 (pos b) (pos (c + v * 5 + 8)) ≡ pos (b + (c + v * 5 + 8)) =
        add32-pos b (c + v * 5 + 8) (omega (arith, p.alcance)) in
      let a'' : add32 (pos (b + (c + v * 5 + 8))) (pos 4) ≡ pos (b + (c + v * 5 + 12)) =
        add32-pos (b + (c + v * 5 + 8)) 4 (omega (arith, p.alcance)) ∙ ap pos (omega arith) in
      simp (preservar_contexto_lem m s b c v e (omega arith), p.base, e.cant_var, o, a, t, a', a'')
