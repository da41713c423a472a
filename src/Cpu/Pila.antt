-- ===== src/Cpu/Pila.antt =====
-- What the UMV answers to the requests for the stack segment of the process that the CPU runs.
use tp_2014_1c_tp_so.Base.{
  ℕ, zero, suc, ◌+◌, ◌^◌, ◌≤◌, ◌<◌, ◌≡◌, refl, sym, subst, ◌∙◌, ap, ◌≢◌, List, [], ◌∷◌, ◌++◌, none,
  some, arith, length, take, length-take, leb, min, max, true, false,
}
use tp_2014_1c_tp_so.Base.Int.{pos, pos_part}
use tp_2014_1c_tp_so.Base.Outcome.{ok}
use tp_2014_1c_tp_so.Base.Memoria.{
  leer, memcpy_desde, length-leer, leer-leer, leer-add, leer-escribir, leer-escribir_apart,
}
use tp_2014_1c_tp_so.Mensajes.{crear_men_comun, aviso}
use tp_2014_1c_tp_so.Mensajes.Tipos
use tp_2014_1c_tp_so.Sockets.CpuUmv.{crear_men_cpu_umv}
use tp_2014_1c_tp_so.Umv.Estado.{Seg, inicio, largo}
use tp_2014_1c_tp_so.Umv.Espacio.Validez.{IsValid}
use tp_2014_1c_tp_so.Umv.Segmentos.{buscar_segmento_dir_logica}
use tp_2014_1c_tp_so.Umv.Bytes.Acceso.{
  buscar_segmento_dir_logica_lem, solicitar_bytes_lem, almacenar_bytes_lem, escrito,
  escrito-IsValid, buscar-escrito,
}
use tp_2014_1c_tp_so.Umv.Sesion.{
  gestionar_solicitud_bytes, gestionar_almacenamiento_bytes, atender_cpu,
}
use tp_2014_1c_tp_so.Cpu.Estado.{Maquina, Externo, pedir}

-- The process has the stack segment `s`, with the logical address `b`, and its addresses are
-- `int32_t`s.
pub record EnPila (m : Maquina) (s : Seg) (b : ℕ) : Type 0 where
  pub valido : IsValid m.umv
  pub chica : pos_part m.umv.tam_mem_total < 2 ^ 30
  pub base : m.pcb.dir_seg_stack ≡ pos b
  pub segmento : buscar_segmento_dir_logica m.umv m.sesion.proc_activo (pos b) ≡ some s
  pub alcance : b + largo s < 2 ^ 31

-- The bytes of the segment from `o` on.
abbrev pub pila : Maquina → Seg → ℕ → ℕ → List ℕ
pila m s o n = leer m.umv.mem_prin (inicio s + o) n

-- The machine with `bs` written at `o`.
abbrev pub con_pila : Maquina → Seg → ℕ → ℕ → List ℕ → Maquina
con_pila m s o n bs = record m { umv = escrito m.umv s o n bs }

pub dentro_de_memoria :
    (m : Maquina) (s : Seg) (b o n : ℕ)
    → EnPila m s b
    → o + n ≤ largo s
    → inicio s + o + n ≤ length m.umv.mem_prin
dentro_de_memoria m s b o n p h =
    let c =
      p.valido.segs.caben s
        (buscar_segmento_dir_logica_lem m.umv m.sesion.proc_activo (pos b) s p.segmento).0 in
    omega (arith, c.dentro, p.valido.reservada)

pub length-pila :
    (m : Maquina) (s : Seg) (b o n : ℕ) → EnPila m s b → o + n ≤ largo s → length (pila m s o n) ≡ n
length-pila m s b o n p h =
    length-leer m.umv.mem_prin (inicio s + o) n (dentro_de_memoria m s b o n p h)

pub con_pila-EnPila :
    (m : Maquina) (s : Seg) (b o n : ℕ) (bs : List ℕ)
    → EnPila m s b
    → EnPila (con_pila m s o n bs) s b
con_pila-EnPila m s b o n bs p = record {
  valido = escrito-IsValid m.umv s o n bs p.valido;
  chica = p.chica;
  base = p.base;
  segmento = buscar-escrito m.umv _ m.sesion.proc_activo (pos b) ∙ p.segmento;
  alcance = p.alcance;
}

pub take-all : (n : ℕ) (xs : List ℕ) → length xs ≡ n → take n xs ≡ xs
take-all zero [] h = refl
take-all zero (y ∷ xs) h = absurd (omega arith)
take-all (suc n) [] h = absurd (omega arith)
take-all (suc n) (y ∷ xs) h = ap (◌∷◌ y) (take-all n xs (omega arith))

take-leer : (n : ℕ) (xs : List ℕ) → take n (leer xs 0 n) ≡ take n xs
unfolding leer
take-leer zero [] = refl
take-leer (suc n) [] = refl
take-leer zero (y ∷ xs) = refl
take-leer (suc n) (y ∷ xs) = ap (◌∷◌ y) (take-leer n xs)

pub leer-pref : (n : ℕ) (xs : List ℕ) → n ≤ length xs → length (leer xs 0 n) ≡ n
leer-pref n xs h = length-leer xs 0 n (omega arith)

-- What was written is read back, and what lies apart is read as before.
pub pila-con_pila :
    (m : Maquina) (s : Seg) (b o n : ℕ) (bs : List ℕ)
    → EnPila m s b
    → o + n ≤ largo s
    → n ≤ length bs
    → pila (con_pila m s o n bs) s o n ≡ take n bs
pila-con_pila m s b o n bs p h l =
    let j = dentro_de_memoria m s b o n p h in
    let lt : length (take n bs) ≡ n = omega (arith, length-take n bs) in
    let e = leer-escribir m.umv.mem_prin (inicio s + o) (take n bs) (omega (arith, lt, j)) in
    rw lt at e

pub pila-con_pila_apart :
    (m : Maquina) (s : Seg) (o n : ℕ) (bs : List ℕ) (o' n' : ℕ)
    → min (o + n) (o' + n') ≤ max o o'
    → pila (con_pila m s o n bs) s o' n' ≡ pila m s o' n'
pila-con_pila_apart m s o n bs o' n' h =
    leer-escribir_apart m.umv.mem_prin (inicio s + o) (take n bs) (inicio s + o') n'
      (omega (arith, length-take n bs))

-- A part of the bytes from `o` on.
pub pila-part :
    (m : Maquina) (s : Seg) (o t q n : ℕ) → q + n ≤ t → pila m s (o + q) n ≡ leer (pila m s o t) q n
pila-part m s o t q n h =
    let e : inicio s + (o + q) ≡ inicio s + o + q = omega arith in
    rw e (sym (leer-leer m.umv.mem_prin (inicio s + o) t q n h))

pub pila-add :
    (m : Maquina) (s : Seg) (o a n : ℕ) → pila m s o (a + n) ≡ pila m s o a ++ pila m s (o + a) n
pila-add m s o a n =
    let e : inicio s + (o + a) ≡ inicio s + o + a = omega arith in
    rw e (leer-add m.umv.mem_prin (inicio s + o) a n)

module _ (x : Externo) (hay : (n : ℕ) → x.umv.malloc (pos n) ≢ none) where
  pub pedir-sol_bytes :
      (m : Maquina) (s : Seg) (b o n : ℕ)
      → EnPila m s b
      → o + n ≤ largo s
      → pedir x m Tipos.sol_bytes (pos b) (pos o) (pos n) none
        ≡ ok (record { tam_dato = pos n; tipo = Tipos.r_sol_bytes; dato = pila m s o n }, m)
  unfolding pedir crear_men_cpu_umv atender_cpu gestionar_solicitud_bytes crear_men_comun
  pedir-sol_bytes m s b o n p h =
      let k =
        solicitar_bytes_lem x.umv.malloc m.umv m.sesion.proc_activo (pos b) s o n p.valido p.chica
          refl (hay n) p.segmento in
      let d : leb (o + n) (largo s) ≡ true = ground arith in
      rw (rw d at k, take-all n _ (length-pila m s b o n p h)) refl

  -- The same, at the address that the process control block has.
  pub pedir-sol_pila :
      (m : Maquina) (s : Seg) (b o n : ℕ)
      → EnPila m s b
      → o + n ≤ largo s
      → pedir x m Tipos.sol_bytes m.pcb.dir_seg_stack (pos o) (pos n) none
        ≡ ok (record { tam_dato = pos n; tipo = Tipos.r_sol_bytes; dato = pila m s o n }, m)
  pedir-sol_pila m s b o n p h =
      subst
        (λ z.
          pedir x m Tipos.sol_bytes z (pos o) (pos n) none
          ≡ ok (record { tam_dato = pos n; tipo = Tipos.r_sol_bytes; dato = pila m s o n }, m))
        (sym p.base) (pedir-sol_bytes m s b o n p h)

  pub pedir-sol_fuera :
      (m : Maquina) (s : Seg) (b o n : ℕ)
      → EnPila m s b
      → largo s < o + n
      → pedir x m Tipos.sol_bytes (pos b) (pos o) (pos n) none ≡ ok (aviso Tipos.segmen_fault, m)
  unfolding pedir crear_men_cpu_umv atender_cpu gestionar_solicitud_bytes
  pedir-sol_fuera m s b o n p h =
      let k =
        solicitar_bytes_lem x.umv.malloc m.umv m.sesion.proc_activo (pos b) s o n p.valido p.chica
          refl (hay n) p.segmento in
      let d : leb (o + n) (largo s) ≡ false = ground arith in rw (rw d at k) refl

module _ (x : Externo) where
  copiado :
      (n : ℕ) (bs : List ℕ) → n ≤ length bs → memcpy_desde bs (pos 0) (pos n) ≡ ok (leer bs 0 n)
  unfolding memcpy_desde
  copiado n bs h = ground arith

  pub pedir-alm_bytes :
      (m : Maquina) (s : Seg) (b o n : ℕ) (bs : List ℕ)
      → EnPila m s b
      → o + n ≤ largo s
      → n ≤ length bs
      → pedir x m Tipos.alm_bytes (pos b) (pos o) (pos n) (some bs)
        ≡ ok (aviso Tipos.r_alm_bytes, con_pila m s o n bs)
  unfolding pedir crear_men_cpu_umv atender_cpu gestionar_almacenamiento_bytes
  pedir-alm_bytes m s b o n bs p h hl =
      let k =
        almacenar_bytes_lem m.umv m.sesion.proc_activo (pos b) s o n (leer bs 0 n) p.valido p.chica
          refl (omega (arith, leer-pref n bs hl)) p.segmento in
      let d : leb (o + n) (largo s) ≡ true = ground arith in
      rw (copiado n bs hl, rw d at k, take-leer n bs) refl

  pub pedir-alm_pila :
      (m : Maquina) (s : Seg) (b o n : ℕ) (bs : List ℕ)
      → EnPila m s b
      → o + n ≤ largo s
      → n ≤ length bs
      → pedir x m Tipos.alm_bytes m.pcb.dir_seg_stack (pos o) (pos n) (some bs)
        ≡ ok (aviso Tipos.r_alm_bytes, con_pila m s o n bs)
  pedir-alm_pila m s b o n bs p h hl =
      subst
        (λ z.
          pedir x m Tipos.alm_bytes z (pos o) (pos n) (some bs)
          ≡ ok (aviso Tipos.r_alm_bytes, con_pila m s o n bs))
        (sym p.base) (pedir-alm_bytes m s b o n bs p h hl)

  pub pedir-alm_fuera :
      (m : Maquina) (s : Seg) (b o n : ℕ) (bs : List ℕ)
      → EnPila m s b
      → largo s < o + n
      → n ≤ length bs
      → pedir x m Tipos.alm_bytes (pos b) (pos o) (pos n) (some bs)
        ≡ ok (aviso Tipos.segmen_fault, m)
  unfolding pedir crear_men_cpu_umv atender_cpu gestionar_almacenamiento_bytes
  pedir-alm_fuera m s b o n bs p h hl =
      let k =
        almacenar_bytes_lem m.umv m.sesion.proc_activo (pos b) s o n (leer bs 0 n) p.valido p.chica
          refl (omega (arith, leer-pref n bs hl)) p.segmento in
      let d : leb (o + n) (largo s) ≡ false = ground arith in rw (copiado n bs hl, rw d at k) refl
