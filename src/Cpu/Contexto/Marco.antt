-- ===== src/Cpu/Contexto/Marco.antt =====
-- The context of the function that runs, and the dictionary that `regenerar_dicc_var` reads from it.
use tp_2014_1c_tp_so.Base.{
  ℕ, zero, suc, ◌+◌, ◌*◌, ◌≤◌, ◌<◌, ◌≡◌, refl, ◌∙◌, ap, ◌≢◌, List, [], ◌∷◌, none, arith, length,
}
use tp_2014_1c_tp_so.Base.Int.{ℤ, pos}
use tp_2014_1c_tp_so.Base.Words.{add32, sub32, mul32, add32-pos, sub32-pos, mul32-pos}
use tp_2014_1c_tp_so.Base.Outcome.{ok}
use tp_2014_1c_tp_so.Base.Memoria.{leer}
use tp_2014_1c_tp_so.Base.Diccionario.{dictionary_put}
use tp_2014_1c_tp_so.Umv.Estado.{Seg, inicio, largo}
use tp_2014_1c_tp_so.Cpu.Estado.{Maquina, Externo}
use tp_2014_1c_tp_so.Cpu.Pila.{EnPila, pila, length-pila, pedir-sol_bytes}
use tp_2014_1c_tp_so.Cpu.Contexto.{es_numero_pasar_char, regenerar_desde, regenerar_dicc_var}

-- The current context begins `c` bytes into the segment and has `v` variables.
pub record EnContexto (m : Maquina) (s : Seg) (b c v : ℕ) : Type 0 where
  pub pila : EnPila m s b
  pub dir_cont : m.pcb.dir_cont_actual ≡ pos (b + c)
  pub cant_var : m.pcb.cant_var_cont_actual ≡ pos v
  pub cabe : c + v * 5 ≤ largo s

pub offset_despues :
    (m : Maquina) (s : Seg) (b c v : ℕ)
    → EnPila m s b
    → m.pcb.dir_cont_actual ≡ pos (b + c)
    → c + v * 5 ≤ largo s
    → add32 (sub32 m.pcb.dir_cont_actual (pos b)) (mul32 (pos v) (pos 5)) ≡ pos (c + v * 5)
offset_despues m s b c v p dc h =
    let e : sub32 (pos (b + c)) (pos b) ≡ pos c =
      sub32-pos (b + c) b (omega arith) (omega (arith, p.alcance)) ∙ ap pos (omega arith) in
    simp (
      dc,
      e,
      mul32-pos v 5 (omega (arith, p.alcance)),
      add32-pos c (v * 5) (omega (arith, p.alcance)),
    )

-- The key of a variable, from the byte that stands on the stack.
abbrev pub nombre_de : List ℕ → List ℕ
nombre_de [] = []
nombre_de (c ∷ _) = es_numero_pasar_char c ∷ []

-- The variables that stand in memory from `o` on, each at its address.
pub variables_desde : List ℕ → Seg → ℕ → ℕ → ℕ → List (List ℕ × ℤ) → List (List ℕ × ℤ)
variables_desde mem s b zero o dic = dic
variables_desde mem s b (suc n) o dic =
    variables_desde mem s b n (o + 5)
      (dictionary_put (nombre_de (leer mem (inicio s + o) 1)) (pos (b + o)) dic)

un_byte : (xs : List ℕ) → length xs ≡ 1 → (c : ℕ) × (xs ≡ c ∷ [])
un_byte (c ∷ []) h = (c, refl)
un_byte [] h = absurd (omega arith)
un_byte (c ∷ d ∷ xs) h = absurd (omega arith)

pub EnPila-dic :
    (m : Maquina) (s : Seg) (b : ℕ) (dic : List (List ℕ × ℤ))
    → EnPila m s b
    → EnPila (record m { dic_variables = dic }) s b
EnPila-dic m s b dic p = record {
  valido = p.valido;
  chica = p.chica;
  base = p.base;
  segmento = p.segmento;
  alcance = p.alcance;
}

module _ (x : Externo) (hay : (n : ℕ) → x.umv.malloc (pos n) ≢ none) where
  regenerar_desde_lem :
      (n i : ℕ) (m : Maquina) (s : Seg) (b c : ℕ)
      → EnPila m s b
      → m.pcb.dir_cont_actual ≡ pos (b + c)
      → c + (i + n) * 5 ≤ largo s
      → regenerar_desde x n i m
        ≡ ok (record m {
          dic_variables = variables_desde m.umv.mem_prin s b n (c + i * 5) m.dic_variables;
        })
  unfolding regenerar_desde variables_desde
  regenerar_desde_lem zero i m s b c p dc h = refl
  regenerar_desde_lem (suc n) i m s b c p dc h =
      let o = offset_despues m s b c i p dc (omega arith) in
      let k = pedir-sol_bytes x hay m s b (c + i * 5) 1 p (omega arith) in
      let q = un_byte (pila m s (c + i * 5) 1) (length-pila m s b (c + i * 5) 1 p (omega arith)) in
      let a : add32 (pos b) (pos (c + i * 5)) ≡ pos (b + (c + i * 5)) =
        add32-pos b (c + i * 5) (omega (arith, p.alcance)) in
      let dic =
        dictionary_put (es_numero_pasar_char q.0 ∷ []) (pos (b + (c + i * 5))) m.dic_variables in
      let ih =
        regenerar_desde_lem n (suc i) (record m { dic_variables = dic }) s b c
          (EnPila-dic m s b dic p) dc (omega arith) in
      let cinco : c + suc i * 5 ≡ c + i * 5 + 5 = omega arith in
      simp (p.base, o, k, q.1, a) (rw cinco at ih)

  -- `regenerar_dicc_var` reads the variables of the context.
  pub regenerar_dicc_var_lem :
      (m : Maquina) (s : Seg) (b c v : ℕ)
      → EnContexto m s b c v
      → regenerar_dicc_var x m
        ≡ ok (record m { dic_variables = variables_desde m.umv.mem_prin s b v c [] })
  unfolding regenerar_dicc_var
  regenerar_dicc_var_lem m s b c v e =
      let k =
        regenerar_desde_lem v 0 (record m { dic_variables = [] }) s b c (EnPila-dic m s b [] e.pila)
          e.dir_cont (omega (arith, e.cabe)) in
      let cero : c + 0 * 5 ≡ c = omega arith in simp (e.cant_var) (rw cero at k)

  -- If that is what the dictionary was, it says what stands on the stack.
  pub al_dia :
      (m : Maquina) (s : Seg) (b c v : ℕ)
      → EnContexto m s b c v
      → regenerar_dicc_var x m ≡ ok m
      → variables_desde m.umv.mem_prin s b v c [] ≡ m.dic_variables
  al_dia m s b c v e r = ground (arith, regenerar_dicc_var_lem m s b c v e)

pub variables_desde_snoc :
    (mem : List ℕ) (s : Seg) (b n o : ℕ) (dic : List (List ℕ × ℤ))
    → variables_desde mem s b (suc n) o dic
      ≡ dictionary_put
          (nombre_de (leer mem (inicio s + (o + n * 5)) 1))
          (pos (b + (o + n * 5)))
          (variables_desde mem s b n o dic)
unfolding variables_desde
variables_desde_snoc mem s b zero o dic = let e : o + 0 * 5 ≡ o = omega arith in rw e refl
variables_desde_snoc mem s b (suc n) o dic =
    let e : o + suc n * 5 ≡ o + 5 + n * 5 = omega arith in
    rw e (
      variables_desde_snoc mem s b n (o + 5)
        (dictionary_put (nombre_de (leer mem (inicio s + o) 1)) (pos (b + o)) dic))

-- It reads no byte from `o + n * 5` on.
pub variables_desde_local :
    (mem mem' : List ℕ) (s : Seg) (b n o : ℕ) (dic : List (List ℕ × ℤ))
    → ((j : ℕ) → j < o + n * 5 → leer mem' (inicio s + j) 1 ≡ leer mem (inicio s + j) 1)
    → variables_desde mem' s b n o dic ≡ variables_desde mem s b n o dic
unfolding variables_desde
variables_desde_local mem mem' s b zero o dic h = refl
variables_desde_local mem mem' s b (suc n) o dic h = rw (h o (omega arith)) (
    variables_desde_local mem mem' s b n (o + 5)
      (dictionary_put (nombre_de (leer mem (inicio s + o) 1)) (pos (b + o)) dic)
      (λ j l. h j (omega arith)))
