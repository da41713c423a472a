-- ===== src/Cpu/Llamadas/Vuelta.antt =====
-- `retornar` and `finalizar`, where the words that the call wrote stand before the context.
use tp_2014_1c_tp_so.Base.{
  ℕ, ◌+◌, ◌-◌, ◌*◌, ◌^◌, ◌≤◌, ◌<◌, ◌≡◌, refl, ◌∙◌, sym, subst, ap, ◌≢◌, false, List, [], ◌++◌, none,
  arith, length,
}
use tp_2014_1c_tp_so.Base.Int.{ℤ, pos, ◌==ℤ◌}
use tp_2014_1c_tp_so.Base.Words.{add32, sub32, div32, sub32-pos, IsInt32}
use tp_2014_1c_tp_so.Base.Outcome.{ok}
use tp_2014_1c_tp_so.Base.Memoria.{leer, memcpy_desde}
use tp_2014_1c_tp_so.Sockets.{bytes_int32}
use tp_2014_1c_tp_so.Sockets.Enteros.{int32_de-bytes_int32, leer-nada}
use tp_2014_1c_tp_so.Umv.Estado.{Seg, largo}
use tp_2014_1c_tp_so.Cpu.Estado.{Maquina, Externo}
use tp_2014_1c_tp_so.Cpu.Pila.{EnPila, pila, con_pila, pedir-sol_pila, pedir-alm_pila}
use tp_2014_1c_tp_so.Cpu.Contexto.{regenerar_dicc_var}
use tp_2014_1c_tp_so.Cpu.Contexto.Marco.{variables_desde, regenerar_dicc_var_lem}
use tp_2014_1c_tp_so.Cpu.Variables.Asignacion.{length-bytes_int32, offset_valor}
use tp_2014_1c_tp_so.Cpu.Llamadas.{actualizar_pcb, entero_en, finalizar, retornar}

copia :
    (xs ys : List ℕ) (i : ℕ)
    → i + 4 ≤ length xs
    → leer xs i 4 ≡ ys
    → memcpy_desde xs (pos i) (pos 4) ≡ ok ys
unfolding memcpy_desde
copia xs ys i h e = rw (sym e) (ground arith)

-- The first number, the second and the third of twelve bytes.
entero_0 : (x : ℤ) (bs : List ℕ) → IsInt32 x → entero_en (bytes_int32 x ++ bs) (pos 0) ≡ ok x
entero_0 x bs h =
    rw
      (copia (bytes_int32 x ++ bs) (bytes_int32 x) 0 (unfold bytes_int32 in omega arith)
        (unfold leer bytes_int32 in rw (leer-nada bs) refl))
      (int32_de-bytes_int32 x h)

entero_4 : (x y : ℤ) → IsInt32 y → entero_en (bytes_int32 x ++ bytes_int32 y) (pos 4) ≡ ok y
entero_4 x y h =
    rw
      (copia (bytes_int32 x ++ bytes_int32 y) (bytes_int32 y) 4 (unfold bytes_int32 in omega arith)
        (unfold leer bytes_int32 in refl))
      (int32_de-bytes_int32 y h)

entero_4_de_12 :
    (x y : ℤ) (bs : List ℕ)
    → IsInt32 y
    → entero_en (bytes_int32 x ++ (bytes_int32 y ++ bs)) (pos 4) ≡ ok y
entero_4_de_12 x y bs h =
    rw
      (copia (bytes_int32 x ++ (bytes_int32 y ++ bs)) (bytes_int32 y) 4
        (unfold bytes_int32 in omega arith) (unfold leer bytes_int32 in rw (leer-nada bs) refl))
      (int32_de-bytes_int32 y h)

entero_8 :
    (x y z : ℤ)
    → IsInt32 z
    → entero_en (bytes_int32 x ++ (bytes_int32 y ++ bytes_int32 z)) (pos 8) ≡ ok z
entero_8 x y z h =
    rw
      (copia (bytes_int32 x ++ (bytes_int32 y ++ bytes_int32 z)) (bytes_int32 z) 8
        (unfold bytes_int32 in omega arith) (unfold leer bytes_int32 in refl))
      (int32_de-bytes_int32 z h)

-- The place of the words before a context, and the number of variables of the one that it was
-- called from.
lugar :
    (b c' k : ℕ)
    → k ≤ c'
    → b + c' < 2 ^ 31
    → sub32 (sub32 (pos (b + c')) (pos b)) (pos k) ≡ pos (c' - k)
lugar b c' k h l =
    let e : sub32 (pos (b + c')) (pos b) ≡ pos c' =
      sub32-pos (b + c') b (omega arith) (omega arith) ∙ ap pos (omega arith) in
    rw e (sub32-pos c' k h (omega arith))

cuantas :
    (b c v k : ℕ)
    → b + (c + v * 5 + k) < 2 ^ 31
    → div32 (sub32 (sub32 (pos (b + (c + v * 5 + k))) (pos (b + c))) (pos k)) 5 ≡ pos v
unfolding div32
cuantas b c v k l =
    let e : sub32 (pos (b + (c + v * 5 + k))) (pos (b + c)) ≡ pos (v * 5 + k) =
      sub32-pos (b + (c + v * 5 + k)) (b + c) (omega arith) l ∙ ap pos (omega arith) in
    let f : sub32 (pos (v * 5 + k)) (pos k) ≡ pos (v * 5) =
      sub32-pos (v * 5 + k) k (omega arith) (omega arith) ∙ ap pos (omega arith) in
    rw (e, f) (ap pos (omega arith))

-- The machine back in the context that called.
abbrev pub vuelta : Maquina → Seg → ℕ → ℕ → ℕ → ℤ → Maquina
vuelta m s b c v pc = record (actualizar_pcb m (pos v) pc (pos (b + c))) {
  dic_variables = variables_desde m.umv.mem_prin s b v c [];
}

module _ (x : Externo) (hay : (n : ℕ) → x.umv.malloc (pos n) ≢ none) where
  regenerar_vuelta :
      (m : Maquina) (s : Seg) (b c v : ℕ) (pc : ℤ)
      → EnPila m s b
      → c + v * 5 ≤ largo s
      → regenerar_dicc_var x (actualizar_pcb m (pos v) pc (pos (b + c))) ≡ ok (vuelta m s b c v pc)
  regenerar_vuelta m s b c v pc p h =
      regenerar_dicc_var_lem x hay (actualizar_pcb m (pos v) pc (pos (b + c))) s b c v (record {
        pila = record {
          valido = p.valido;
          chica = p.chica;
          base = p.base;
          segmento = p.segmento;
          alcance = p.alcance;
        };
        dir_cont = refl;
        cant_var = refl;
        cabe = h;
      })

  pub finalizar_lem :
      (m : Maquina) (s : Seg) (b c v : ℕ) (pc : ℤ)
      → EnPila m s b
      → c + v * 5 + 8 ≤ largo s
      → IsInt32 pc
      → m.pcb.dir_cont_actual ≡ pos (b + (c + v * 5 + 8))
      → pila m s (c + v * 5) 8 ≡ bytes_int32 (pos (b + c)) ++ bytes_int32 pc
      → finalizar x m ≡ ok (vuelta m s b c v pc)
  unfolding finalizar
  finalizar_lem m s b c v pc p h i dc w =
      let l = lugar b (c + v * 5 + 8) 8 (omega arith) (omega (arith, p.alcance)) in
      let o : pos (c + v * 5 + 8 - 8) ≡ pos (c + v * 5) = ap pos (omega arith) in
      let k = pedir-sol_pila x hay m s b (c + v * 5) 8 p h in
      let e0 = entero_0 (pos (b + c)) (bytes_int32 pc) (omega (arith, p.alcance)) in
      let e4 = entero_4 (pos (b + c)) pc i in
      let q = cuantas b c v 8 (omega (arith, p.alcance)) in
      let r = regenerar_vuelta m s b c v pc p (omega arith) in
      let distinto : (pos (b + (c + v * 5 + 8)) ==ℤ pos b) ≡ false = ground arith in
      let pb = sym p.base in
      simp (
        dc,
        subst (λ z. (pos (b + (c + v * 5 + 8)) ==ℤ z) ≡ false) pb distinto,
        subst (λ z. sub32 (sub32 (pos (b + (c + v * 5 + 8))) z) (pos 8) ≡ pos (c + v * 5 + 8 - 8))
            pb l,
        o,
        k,
        w,
        e0,
        e4,
        q,
        r,
      )

  pub retornar_lem :
      (m : Maquina) (s : Seg) (b c v d : ℕ) (pc retorno : ℤ)
      → EnPila m s b
      → c + v * 5 + 12 ≤ largo s
      → d + 5 ≤ largo s
      → IsInt32 pc
      → m.pcb.dir_cont_actual ≡ pos (b + (c + v * 5 + 12))
      → pila m s (c + v * 5) 12
        ≡ bytes_int32 (pos (b + c)) ++ (bytes_int32 pc ++ bytes_int32 (pos (b + d)))
      → retornar x m retorno ≡ ok (con_pila (vuelta m s b c v pc) s (d + 1) 4 (bytes_int32 retorno))
  unfolding retornar
  retornar_lem m s b c v d pc retorno p h hd i dc w =
      let l = lugar b (c + v * 5 + 12) 12 (omega arith) (omega (arith, p.alcance)) in
      let o : pos (c + v * 5 + 12 - 12) ≡ pos (c + v * 5) = ap pos (omega arith) in
      let k = pedir-sol_pila x hay m s b (c + v * 5) 12 p h in
      let e0 =
        entero_0 (pos (b + c)) (bytes_int32 pc ++ bytes_int32 (pos (b + d)))
          (omega (arith, p.alcance)) in
      let e4 = entero_4_de_12 (pos (b + c)) pc (bytes_int32 (pos (b + d))) i in
      let e8 = entero_8 (pos (b + c)) pc (pos (b + d)) (omega (arith, p.alcance)) in
      let q = cuantas b c v 12 (omega (arith, p.alcance)) in
      let r = regenerar_vuelta m s b c v pc p (omega arith) in
      let u = offset_valor b d (omega (arith, p.alcance)) in
      let t =
        pedir-alm_pila x (vuelta m s b c v pc) s b (d + 1) 4 (bytes_int32 retorno)
          (record {
            valido = p.valido;
            chica = p.chica;
            base = p.base;
            segmento = p.segmento;
            alcance = p.alcance;
          })
          (omega arith) (omega (arith, length-bytes_int32 retorno)) in
      let pb = sym p.base in
      simp (
        dc,
        subst
            (λ z. sub32 (sub32 (pos (b + (c + v * 5 + 12))) z) (pos 12) ≡ pos (c + v * 5 + 12 - 12))
            pb l,
        o,
        k,
        w,
        e0,
        e4,
        e8,
        q,
        r,
        subst (λ z. add32 (sub32 (pos (b + d)) z) (pos 1) ≡ pos (d + 1)) pb u,
        t,
      )
