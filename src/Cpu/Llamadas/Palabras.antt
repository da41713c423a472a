-- ===== src/Cpu/Llamadas/Palabras.antt =====
-- What a call writes on the stack, and what a function called finds and leaves of it.
use mathlib.Core.List.{append_assoc}
use tp_2014_1c_tp_so.Base.{ℕ, ◌+◌, ◌≤◌, ◌<◌, ◌≡◌, refl, ◌∙◌, sym, ap, List, ◌++◌, arith}
use tp_2014_1c_tp_so.Base.Int.{ℤ, pos}
use tp_2014_1c_tp_so.Base.Memoria.{leer}
use tp_2014_1c_tp_so.Mensajes.{Pcb}
use tp_2014_1c_tp_so.Sockets.{bytes_int32}
use tp_2014_1c_tp_so.Umv.Estado.{Seg, inicio, largo}
use tp_2014_1c_tp_so.Cpu.Estado.{Maquina, Externo}
use tp_2014_1c_tp_so.Cpu.Pila.{
  EnPila, pila, con_pila, con_pila-EnPila, pila-con_pila, pila-con_pila_apart, pila-part, pila-add,
  take-all,
}
use tp_2014_1c_tp_so.Cpu.Contexto.Marco.{EnContexto}
use tp_2014_1c_tp_so.Cpu.Variables.Asignacion.{length-bytes_int32}
use tp_2014_1c_tp_so.Cpu.Llamadas.Ida.{preservada, en_funcion}
use tp_2014_1c_tp_so.Cpu.Llamadas.Vuelta.{vuelta}

-- `m'` is reached from `m1`, the start of a function whose context begins `c'` bytes into the
-- segment: the same process in the same context, with as many variables as it may have, and the
-- bytes before the context as they were.
pub record Cuerpo (m1 m' : Maquina) (s : Seg) (b c' : ℕ) : Type 0 where
  pub pila : EnPila m' s b
  pub cant_var : ℤ
  pub program_counter : ℤ
  pub pcb :
      m'.pcb ≡ record m1.pcb { cant_var_cont_actual = cant_var; program_counter = program_counter }
  pub debajo : leer m'.umv.mem_prin (inicio s + 0) c' ≡ leer m1.umv.mem_prin (inicio s + 0) c'

pcb_igual :
    (q : Pcb) (v d : ℤ)
    → q.cant_var_cont_actual ≡ v
    → q.dir_cont_actual ≡ d
    → record q { cant_var_cont_actual = v; dir_cont_actual = d } ≡ q
pcb_igual q v d h k = ground arith

pub preservada-EnPila :
    (m : Maquina) (s : Seg) (b o : ℕ) → EnPila m s b → EnPila (preservada m s o) s b
preservada-EnPila m s b o p =
    con_pila-EnPila _ s b (o + 4) 4 (bytes_int32 m.pcb.program_counter)
      (con_pila-EnPila m s b o 4 (bytes_int32 m.pcb.dir_cont_actual) p)

-- A function begins in a context with no variables.
pub en_funcion-EnContexto :
    (x : Externo) (m : Maquina) (etiqueta : List ℕ) (s : Seg) (b c' : ℕ)
    → EnPila m s b
    → c' ≤ largo s
    → EnContexto (en_funcion x m etiqueta b c') s b c' 0
en_funcion-EnContexto x m etiqueta s b c' p h = record {
  pila = record {
    valido = p.valido;
    chica = p.chica;
    base = p.base;
    segmento = p.segmento;
    alcance = p.alcance;
  };
  dir_cont = refl;
  cant_var = refl;
  cabe = omega arith;
}

-- The process control block of the machine that is back.
pub vuelta-pcb :
    (x : Externo) (m pr m' : Maquina) (etiqueta : List ℕ) (s : Seg) (b c v c' : ℕ)
    → m.pcb.cant_var_cont_actual ≡ pos v
    → m.pcb.dir_cont_actual ≡ pos (b + c)
    → pr.pcb ≡ m.pcb
    → Cuerpo (en_funcion x pr etiqueta b c') m' s b c'
    → (vuelta m' s b c v m.pcb.program_counter).pcb ≡ m.pcb
vuelta-pcb x m pr m' etiqueta s b c v c' hv hd hp k =
    let volver = λ (q : Pcb). record q {
      cant_var_cont_actual = pos v;
      program_counter = m.pcb.program_counter;
      dir_cont_actual = pos (b + c);
    } in
    ap volver k.pcb ∙ ap volver hp ∙ pcb_igual m.pcb (pos v) (pos (b + c)) hv hd

-- The words that a call writes after the variables.
pub dos_palabras :
    (m : Maquina) (s : Seg) (b o : ℕ)
    → EnPila m s b
    → o + 8 ≤ largo s
    → pila (preservada m s o) s o 8
      ≡ bytes_int32 m.pcb.dir_cont_actual ++ bytes_int32 m.pcb.program_counter
dos_palabras m s b o p h =
    let b1 = bytes_int32 m.pcb.dir_cont_actual in
    let b2 = bytes_int32 m.pcb.program_counter in
    let l1 = length-bytes_int32 m.pcb.dir_cont_actual in
    let l2 = length-bytes_int32 m.pcb.program_counter in
    let m1 = con_pila m s o 4 b1 in
    let w1 = pila-con_pila m s b o 4 b1 p (omega arith) (omega (arith, l1)) ∙ take-all 4 b1 l1 in
    let w2 =
      pila-con_pila m1 s b (o + 4) 4 b2 (con_pila-EnPila m s b o 4 b1 p) (omega arith)
        (omega (arith, l2))
      ∙ take-all 4 b2 l2 in
    let a = pila-con_pila_apart m1 s (o + 4) 4 b2 o 4 (omega arith) in
    pila-add (preservada m s o) s o 4 4 ∙ rw (a, w1, w2) refl

pub tres_palabras :
    (m : Maquina) (s : Seg) (b o : ℕ) (donde : ℤ)
    → EnPila m s b
    → o + 12 ≤ largo s
    → pila (con_pila (preservada m s o) s (o + 8) 4 (bytes_int32 donde)) s o 12
      ≡ bytes_int32 m.pcb.dir_cont_actual
        ++ (bytes_int32 m.pcb.program_counter ++ bytes_int32 donde)
tres_palabras m s b o donde p h =
    let b3 = bytes_int32 donde in
    let l3 = length-bytes_int32 donde in
    let pr = preservada m s o in
    let w3 =
      pila-con_pila pr s b (o + 8) 4 b3 (preservada-EnPila m s b o p) (omega arith)
        (omega (arith, l3))
      ∙ take-all 4 b3 l3 in
    let a = pila-con_pila_apart pr s (o + 8) 4 b3 o 8 (omega arith) in
    pila-add (con_pila pr s (o + 8) 4 b3) s o 8 4
    ∙ rw (a, dos_palabras m s b o p (omega arith), w3)
        (append_assoc (bytes_int32 m.pcb.dir_cont_actual) (bytes_int32 m.pcb.program_counter) b3)

-- What lies before them is as it was.
pub antes_de_palabras :
    (m : Maquina) (s : Seg) (o j : ℕ) → j < o → pila (preservada m s o) s j 1 ≡ pila m s j 1
antes_de_palabras m s o j h =
    let b1 = bytes_int32 m.pcb.dir_cont_actual in
    pila-con_pila_apart (con_pila m s o 4 b1) s (o + 4) 4 (bytes_int32 m.pcb.program_counter) j 1
      (omega arith)
    ∙ pila-con_pila_apart m s o 4 b1 j 1 (omega arith)

-- A part of the caller's stack, as it was when the function began.
pub debajo_part :
    (m1 m' : Maquina) (s : Seg) (b c' o n : ℕ)
    → Cuerpo m1 m' s b c'
    → o + n ≤ c'
    → pila m' s o n ≡ pila m1 s o n
debajo_part m1 m' s b c' o n k h =
    let cero : 0 + o ≡ o = omega arith in
    rw cero at (pila-part m' s 0 c' o n h)
    ∙ ap (λ bs. leer bs o n) k.debajo
    ∙ sym (rw cero at (pila-part m1 s 0 c' o n h))
