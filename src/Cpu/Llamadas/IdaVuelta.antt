-- ===== src/Cpu/Llamadas/IdaVuelta.antt =====
-- A call and the return from it, whatever the function called does in between above its caller's part
-- of the stack.
use tp_2014_1c_tp_so.Base.{ℕ, ◌+◌, ◌*◌, ◌≤◌, ◌≡◌, refl, ◌∙◌, ap, ◌≢◌, List, [], none, arith}
use tp_2014_1c_tp_so.Base.Int.{ℤ, pos}
use tp_2014_1c_tp_so.Base.Words.{IsInt32}
use tp_2014_1c_tp_so.Base.Outcome.{ok}
use tp_2014_1c_tp_so.Mensajes.{Pcb}
use tp_2014_1c_tp_so.Sockets.{bytes_int32}
use tp_2014_1c_tp_so.Umv.Estado.{Seg, largo}
use tp_2014_1c_tp_so.Cpu.Estado.{Maquina, Externo}
use tp_2014_1c_tp_so.Cpu.Pila.{EnPila, con_pila, con_pila-EnPila, pila-con_pila_apart}
use tp_2014_1c_tp_so.Cpu.Contexto.{regenerar_dicc_var}
use tp_2014_1c_tp_so.Cpu.Contexto.Marco.{EnContexto, variables_desde_local, al_dia}
use tp_2014_1c_tp_so.Cpu.Variables.{dereferenciar}
use tp_2014_1c_tp_so.Cpu.Variables.Asignacion.{dereferenciar_escrito}
use tp_2014_1c_tp_so.Cpu.Llamadas.{llamar_sin_retorno, llamar_con_retorno, finalizar, retornar}
use tp_2014_1c_tp_so.Cpu.Llamadas.Ida.{
  preservada, en_funcion, llamar_sin_retorno_lem, llamar_con_retorno_lem,
}
use tp_2014_1c_tp_so.Cpu.Llamadas.Vuelta.{vuelta, finalizar_lem, retornar_lem}
use tp_2014_1c_tp_so.Cpu.Llamadas.Palabras.{
  Cuerpo, preservada-EnPila, en_funcion-EnContexto, vuelta-pcb, dos_palabras, tres_palabras,
  antes_de_palabras, debajo_part,
}

module _ (x : Externo) (hay : (n : ℕ) → x.umv.malloc (pos n) ≢ none) where
  -- A call of a function that returns nothing, where the segment has room for the two numbers that
  -- it writes, and the return from it. The function begins at its label, in a context with no
  -- variables. Whatever it has done since then above the caller's part of the stack, `finalizar`
  -- restores the caller: the process control block, with the instruction to go on at, and the
  -- dictionary of its variables are what they were before the call. This is for `malloc` not failing,
  -- and a dictionary that is what `regenerar_dicc_var` reads from the stack before the call.
  pub finalizar-llamar_sin_retorno :
      (m : Maquina) (etiqueta : List ℕ) (s : Seg) (b c v : ℕ)
      → EnContexto m s b c v
      → c + v * 5 + 8 ≤ largo s
      → IsInt32 m.pcb.program_counter
      → regenerar_dicc_var x m ≡ ok m
      → (m1 : Maquina) × (llamar_sin_retorno x m etiqueta ≡ ok m1)
        × (m1.pcb.program_counter
            ≡ x.metadata_buscar_etiqueta etiqueta m.etiquetas m.pcb.tam_indice_etiquetas)
        × EnContexto m1 s b (c + v * 5 + 8) 0
        × ((m' : Maquina)
            → Cuerpo m1 m' s b (c + v * 5 + 8)
            → (m2 : Maquina) × (finalizar x m' ≡ ok m2)
              × (m2.pcb ≡ m.pcb)
              × (m2.dic_variables ≡ m.dic_variables)
              × (m2.umv ≡ m'.umv))
  finalizar-llamar_sin_retorno m etiqueta s b c v e h i r =
      let c' = c + v * 5 + 8 in
      let pr = preservada m s (c + v * 5) in
      let m1 = en_funcion x pr etiqueta b c' in
      let p1 = preservada-EnPila m s b (c + v * 5) e.pila in
      (
        m1,
        llamar_sin_retorno_lem x m etiqueta s b c v e h,
        refl,
        en_funcion-EnContexto x pr etiqueta s b c' p1 h,
        λ m' k.
            let w =
              debajo_part m1 m' s b c' (c + v * 5) 8 k (omega arith)
              ∙ dos_palabras m s b (c + v * 5) e.pila h in
            (
              vuelta m' s b c v m.pcb.program_counter,
              finalizar_lem x hay m' s b c v m.pcb.program_counter k.pila h i
                  (ap (λ (q : Pcb). q.dir_cont_actual) k.pcb) (rw e.dir_cont at w),
              vuelta-pcb x m pr m' etiqueta s b c v c' e.cant_var e.dir_cont refl k,
              variables_desde_local m.umv.mem_prin m'.umv.mem_prin s b v c [] (λ j l.
                    debajo_part m1 m' s b c' j 1 k (omega arith)
                    ∙ antes_de_palabras m s (c + v * 5) j l)
                  ∙ al_dia x hay m s b c v e r,
              refl,
            ),
      )

  -- A call of a function that returns a value into a variable of the segment, where the segment has
  -- room for the three numbers that it writes, and the return from it. The function begins at its
  -- label, in a context with no variables. Whatever it has done since then above the caller's part
  -- of the stack, `retornar` restores the caller's process control block and dictionary, and the
  -- variable has the value. This is for `malloc` not failing, and a dictionary that is what
  -- `regenerar_dicc_var` reads from the stack before the call.
  pub retornar-llamar_con_retorno :
      (m : Maquina) (etiqueta : List ℕ) (s : Seg) (b c v d : ℕ) (retorno : ℤ)
      → EnContexto m s b c v
      → c + v * 5 + 12 ≤ largo s
      → d + 5 ≤ largo s
      → IsInt32 m.pcb.program_counter
      → IsInt32 retorno
      → regenerar_dicc_var x m ≡ ok m
      → (m1 : Maquina) × (llamar_con_retorno x m etiqueta (pos (b + d)) ≡ ok m1)
        × (m1.pcb.program_counter
            ≡ x.metadata_buscar_etiqueta etiqueta m.etiquetas m.pcb.tam_indice_etiquetas)
        × EnContexto m1 s b (c + v * 5 + 12) 0
        × ((m' : Maquina)
            → Cuerpo m1 m' s b (c + v * 5 + 12)
            → (m2 : Maquina) × (retornar x m' retorno ≡ ok m2)
              × (m2.pcb ≡ m.pcb)
              × (m2.dic_variables ≡ m.dic_variables)
              × (dereferenciar x m2 (pos (b + d)) ≡ ok (retorno, m2)))
  retornar-llamar_con_retorno m etiqueta s b c v d retorno e h hd i ir r =
      let c' = c + v * 5 + 12 in
      let pr =
        con_pila (preservada m s (c + v * 5)) s (c + v * 5 + 8) 4 (bytes_int32 (pos (b + d))) in
      let m1 = en_funcion x pr etiqueta b c' in
      let p1 =
        con_pila-EnPila _ s b (c + v * 5 + 8) 4 (bytes_int32 (pos (b + d)))
          (preservada-EnPila m s b (c + v * 5) e.pila) in
      (
        m1,
        llamar_con_retorno_lem x m etiqueta (pos (b + d)) s b c v e h,
        refl,
        en_funcion-EnContexto x pr etiqueta s b c' p1 h,
        λ m' k.
            let w =
              debajo_part m1 m' s b c' (c + v * 5) 12 k (omega arith)
              ∙ tres_palabras m s b (c + v * 5) (pos (b + d)) e.pila h in
            let mv = vuelta m' s b c v m.pcb.program_counter in
            let m2 = con_pila mv s (d + 1) 4 (bytes_int32 retorno) in
            let pv : EnPila mv s b = record {
              valido = k.pila.valido;
              chica = k.pila.chica;
              base = k.pila.base;
              segmento = k.pila.segmento;
              alcance = k.pila.alcance;
            } in
            (
              m2,
              retornar_lem x hay m' s b c v d m.pcb.program_counter retorno k.pila h hd i
                  (ap (λ (q : Pcb). q.dir_cont_actual) k.pcb) (rw e.dir_cont at w),
              vuelta-pcb x m pr m' etiqueta s b c v c' e.cant_var e.dir_cont refl k,
              variables_desde_local m.umv.mem_prin m'.umv.mem_prin s b v c [] (λ j l.
                    debajo_part m1 m' s b c' j 1 k (omega arith)
                    ∙ pila-con_pila_apart (preservada m s (c + v * 5)) s (c + v * 5 + 8) 4
                        (bytes_int32 (pos (b + d))) j 1 (omega arith)
                    ∙ antes_de_palabras m s (c + v * 5) j l)
                  ∙ al_dia x hay m s b c v e r,
              dereferenciar_escrito x hay mv s b d retorno pv hd ir,
            ),
      )
