-- ===== src/Cpu/Variables/Asignacion.antt =====
-- `asignar` and `dereferenciar`, where the variable lies in the stack segment.
use tp_2014_1c_tp_so.Base.{
  ℕ, ◌+◌, ◌^◌, ◌≤◌, ◌<◌, ◌≡◌, refl, ◌∙◌, sym, ap, ◌≢◌, min, max, false, List, [], ◌∷◌, none, arith,
  length,
}
use tp_2014_1c_tp_so.Base.Int.{ℤ, pos}
use tp_2014_1c_tp_so.Base.Words.{add32, sub32, add32-pos, sub32-pos, IsInt32}
use tp_2014_1c_tp_so.Base.Outcome.{Outcome, ok, fault, espera, ◌>>=◌}
use tp_2014_1c_tp_so.Base.Memoria.{escribir, memcpy_hacia}
use tp_2014_1c_tp_so.Sockets.{bytes_int32, int32_de}
use tp_2014_1c_tp_so.Sockets.Enteros.{int32_de-bytes_int32}
use tp_2014_1c_tp_so.Umv.Estado.{Seg, largo}
use tp_2014_1c_tp_so.Cpu.Estado.{Maquina, Externo}
use tp_2014_1c_tp_so.Cpu.Pila.{
  EnPila, pila, con_pila, con_pila-EnPila, length-pila, pila-con_pila, pila-con_pila_apart,
  take-all, pedir-sol_bytes, pedir-alm_bytes,
}
use tp_2014_1c_tp_so.Cpu.Variables.{dereferenciar, asignar}

-- `direccion_variable-base+1`
pub offset_valor :
    (b d : ℕ) → b + d + 1 < 2 ^ 31 → add32 (sub32 (pos (b + d)) (pos b)) (pos 1) ≡ pos (d + 1)
offset_valor b d h =
    let e : sub32 (pos (b + d)) (pos b) ≡ pos d =
      sub32-pos (b + d) b (omega arith) (omega arith) ∙ ap pos (omega arith) in
    rw e (add32-pos d 1 (omega arith))

-- Four bytes are a whole number, so that nothing of the old one is left.
pisar_entero :
    (z : ℤ) (bs : List ℕ) → length bs ≡ 4 → memcpy_hacia (bytes_int32 z) (pos 0) bs (pos 4) ≡ ok bs
unfolding memcpy_hacia bytes_int32 escribir
pisar_entero z (a ∷ b ∷ c ∷ d ∷ []) h = refl
pisar_entero z [] h = absurd (omega arith)
pisar_entero z (a ∷ []) h = absurd (omega arith)
pisar_entero z (a ∷ b ∷ []) h = absurd (omega arith)
pisar_entero z (a ∷ b ∷ c ∷ []) h = absurd (omega arith)
pisar_entero z (a ∷ b ∷ c ∷ d ∷ f ∷ xs) h = absurd (omega arith)

pub length-bytes_int32 : (z : ℤ) → length (bytes_int32 z) ≡ 4
unfolding bytes_int32
length-bytes_int32 z = refl

numero_de :
    (o : Outcome ℤ) (m : Maquina) (v : ℤ)
    → ◌>>=◌ {B = ℤ × Maquina} o (λ w. ok (w, m)) ≡ ok (v, m)
    → o ≡ ok v
numero_de (ok w) m v h = cc
numero_de fault m v h = cc
numero_de espera m v h = cc

pub asignar_lem :
    (x : Externo) (m : Maquina) (s : Seg) (b d : ℕ) (valor : ℤ)
    → EnPila m s b
    → d + 5 ≤ largo s
    → m.hubo_seg_fault ≡ false
    → asignar x m (pos (b + d)) valor ≡ ok (con_pila m s (d + 1) 4 (bytes_int32 valor))
unfolding asignar
asignar_lem x m s b d valor p h f =
    let o = offset_valor b d (omega (arith, p.alcance)) in
    let k =
      pedir-alm_bytes x m s b (d + 1) 4 (bytes_int32 valor) p (omega arith)
        (unfold bytes_int32 in omega arith) in
    simp (f, p.base, o, k)

module _ (x : Externo) (hay : (n : ℕ) → x.umv.malloc (pos n) ≢ none) where
  -- What `dereferenciar` answers is the number that stands there.
  pub dereferenciar_lem :
      (m : Maquina) (s : Seg) (b d : ℕ)
      → EnPila m s b
      → d + 5 ≤ largo s
      → dereferenciar x m (pos (b + d)) ≡ (int32_de (pila m s (d + 1) 4) >>= λ valor. ok (valor, m))
  unfolding dereferenciar
  dereferenciar_lem m s b d p h =
      let o = offset_valor b d (omega (arith, p.alcance)) in
      let k = pedir-sol_bytes x hay m s b (d + 1) 4 p (omega arith) in
      let l = length-pila m s b (d + 1) 4 p (omega arith) in
      simp (p.base, o, k, pisar_entero (x.sin_valor m) (pila m s (d + 1) 4) l)

  -- A number that was written there is what it answers.
  pub dereferenciar_escrito :
      (m : Maquina) (s : Seg) (b d : ℕ) (valor : ℤ)
      → EnPila m s b
      → d + 5 ≤ largo s
      → IsInt32 valor
      → dereferenciar x (con_pila m s (d + 1) 4 (bytes_int32 valor)) (pos (b + d))
        ≡ ok (valor, con_pila m s (d + 1) 4 (bytes_int32 valor))
  dereferenciar_escrito m s b d valor p h i =
      let bs = bytes_int32 valor in
      let e =
        pila-con_pila m s b (d + 1) 4 bs p (omega arith) (omega (arith, length-bytes_int32 valor))
        ∙ take-all 4 bs (length-bytes_int32 valor) in
      dereferenciar_lem (con_pila m s (d + 1) 4 bs) s b d (con_pila-EnPila m s b (d + 1) 4 bs p) h
      ∙ rw (e, int32_de-bytes_int32 valor i) refl

  -- A value assigned to a variable of the stack is what is read of it then, and the variables that
  -- share no byte with it are read as before. This is for a valid memory of less than 1 GiB
  -- whose stack segment holds the variable, a value that is an `int32_t`, `malloc` not failing, and a turn in which no segmentation
  -- fault came before (after one `asignar` does nothing).
  pub dereferenciar-asignar :
      (m : Maquina) (s : Seg) (b d : ℕ) (valor : ℤ)
      → EnPila m s b
      → d + 5 ≤ largo s
      → m.hubo_seg_fault ≡ false
      → IsInt32 valor
      → (m' : Maquina) × (asignar x m (pos (b + d)) valor ≡ ok m')
        × (dereferenciar x m' (pos (b + d)) ≡ ok (valor, m'))
        × ((d' : ℕ) (v' : ℤ)
            → d' + 5 ≤ largo s
            → min (d + 5) (d' + 5) ≤ max d d'
            → dereferenciar x m (pos (b + d')) ≡ ok (v', m)
            → dereferenciar x m' (pos (b + d')) ≡ ok (v', m'))
  dereferenciar-asignar m s b d valor p h f i =
      let bs = bytes_int32 valor in
      let m' = con_pila m s (d + 1) 4 bs in
      let p' = con_pila-EnPila m s b (d + 1) 4 bs p in
      (
        m',
        asignar_lem x m s b d valor p h f,
        dereferenciar_escrito m s b d valor p h i,
        λ d' v' h' a k.
            let q = pila-con_pila_apart m s (d + 1) 4 bs (d' + 1) 4 (omega arith) in
            let n =
              numero_de (int32_de (pila m s (d' + 1) 4)) m v'
                (sym (dereferenciar_lem m s b d' p h') ∙ k) in
            dereferenciar_lem m' s b d' p' h' ∙ rw (q, n) refl,
      )
