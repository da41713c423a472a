-- ===== src/Base/Memoria.antt =====
-- Arrays of bytes: `memcpy` out of and into them, and what one says of the other.
use tp_2014_1c_tp_so.Base.{
  ℕ, zero, suc, ◌+◌, ◌≤◌, min, max, Bool, ◌≡◌, refl, ap, List, [], ◌∷◌, ◌++◌, ◌&&◌, arith, length,
  leb, take, if◌then◌else◌,
}
use tp_2014_1c_tp_so.Base.Int.{ℤ, pos, pos_part, leb_ℤ}
use tp_2014_1c_tp_so.Base.Outcome.{Outcome, ok, fault}

-- The `n` bytes from `p` on.
unfoldable pub leer : List ℕ → ℕ → ℕ → List ℕ
leer [] p n = []
leer (x ∷ m) zero zero = []
leer (x ∷ m) zero (suc n) = x ∷ leer m zero n
leer (x ∷ m) (suc p) n = leer m p n

-- The memory with `bs` written from `p` on.
unfoldable pub escribir : List ℕ → ℕ → List ℕ → List ℕ
escribir [] p bs = []
escribir (x ∷ m) zero [] = x ∷ m
escribir (x ∷ m) zero (b ∷ bs) = b ∷ escribir m zero bs
escribir (x ∷ m) (suc p) bs = x ∷ escribir m p bs

abbrev pub en_rango : List ℕ → ℤ → ℤ → Bool
en_rango m p n = leb_ℤ (pos 0) p && leb_ℤ (pos 0) n && leb (pos_part p + pos_part n) (length m)

-- `memcpy(ret, &mem_prin[pos], tam)`
unfoldable pub memcpy_desde : List ℕ → ℤ → ℤ → Outcome (List ℕ)
memcpy_desde m p n = if en_rango m p n then ok (leer m (pos_part p) (pos_part n)) else fault

-- `memcpy(&mem_prin[pos], buffer, tam)`
unfoldable pub memcpy_hacia : List ℕ → ℤ → List ℕ → ℤ → Outcome (List ℕ)
memcpy_hacia m p buffer n =
    if en_rango m p n && leb (pos_part n) (length buffer)
    then ok (escribir m (pos_part p) (take (pos_part n) buffer))
    else fault

pub length-escribir : (m : List ℕ) (p : ℕ) (bs : List ℕ) → length (escribir m p bs) ≡ length m
unfolding escribir
length-escribir [] p bs = refl
length-escribir (x ∷ m) zero [] = refl
length-escribir (x ∷ m) zero (b ∷ bs) = ap suc (length-escribir m zero bs)
length-escribir (x ∷ m) (suc p) bs = ap suc (length-escribir m p bs)

pub length-leer : (m : List ℕ) (p n : ℕ) → p + n ≤ length m → length (leer m p n) ≡ n
unfolding leer
length-leer [] p n h = omega arith
length-leer (x ∷ m) zero zero h = refl
length-leer (x ∷ m) zero (suc n) h = ap suc (length-leer m zero n (omega arith))
length-leer (x ∷ m) (suc p) n h = length-leer m p n (omega arith)

-- What was written is read back.
pub leer-escribir :
    (m : List ℕ) (p : ℕ) (bs : List ℕ)
    → p + length bs ≤ length m
    → leer (escribir m p bs) p (length bs) ≡ bs
unfolding leer escribir
leer-escribir [] p [] h = refl
leer-escribir [] p (b ∷ bs) h = absurd (omega arith)
leer-escribir (x ∷ m) zero [] h = refl
leer-escribir (x ∷ m) zero (b ∷ bs) h = ap (◌∷◌ b) (leer-escribir m zero bs (omega arith))
leer-escribir (x ∷ m) (suc p) bs h = leer-escribir m p bs (omega arith)

-- A range that shares no byte with what was written is read as before.
pub leer-escribir_apart :
    (m : List ℕ) (p : ℕ) (bs : List ℕ) (q n : ℕ)
    → min (p + length bs) (q + n) ≤ max p q
    → leer (escribir m p bs) q n ≡ leer m q n
unfolding leer escribir
leer-escribir_apart [] p bs q n h = refl
leer-escribir_apart (x ∷ m) zero [] q n h = refl
leer-escribir_apart (x ∷ m) zero (b ∷ bs) zero zero h = refl
leer-escribir_apart (x ∷ m) zero (b ∷ bs) zero (suc n) h = absurd (omega arith)
leer-escribir_apart (x ∷ m) zero (b ∷ bs) (suc q) n h =
    leer-escribir_apart m zero bs q n (omega arith)
leer-escribir_apart (x ∷ m) (suc p) bs zero zero h = refl
leer-escribir_apart (x ∷ m) (suc p) bs zero (suc n) h =
    ap (◌∷◌ x) (leer-escribir_apart m p bs zero n (omega arith))
leer-escribir_apart (x ∷ m) (suc p) bs (suc q) n h = leer-escribir_apart m p bs q n (omega arith)

-- A part of what was read is what stands there.
pub leer-leer : (m : List ℕ) (p t q n : ℕ) → q + n ≤ t → leer (leer m p t) q n ≡ leer m (p + q) n
unfolding leer
leer-leer [] p t q n h = refl
leer-leer (x ∷ m) (suc p) t q n h =
    let e : suc p + q ≡ suc (p + q) = omega arith in rw e (leer-leer m p t q n h)
leer-leer (x ∷ m) zero zero zero zero h = let e : 0 + 0 ≡ 0 = omega arith in refl
leer-leer (x ∷ m) zero zero zero (suc n) h = absurd (omega arith)
leer-leer (x ∷ m) zero zero (suc q) n h = absurd (omega arith)
leer-leer (x ∷ m) zero (suc t) zero zero h = refl
leer-leer (x ∷ m) zero (suc t) zero (suc n) h = ap (◌∷◌ x) (leer-leer m zero t zero n (omega arith))
leer-leer (x ∷ m) zero (suc t) (suc q) n h =
    let e : 0 + suc q ≡ suc (0 + q) = omega arith in rw e (leer-leer m zero t q n (omega arith))

-- One read is two that follow one another.
pub leer-add : (m : List ℕ) (p a n : ℕ) → leer m p (a + n) ≡ leer m p a ++ leer m (p + a) n
unfolding leer
leer-add [] p a n = refl
leer-add (x ∷ m) zero zero n =
    let e : 0 + n ≡ n = omega arith in let f : 0 + 0 ≡ 0 = omega arith in rw e refl
leer-add (x ∷ m) zero (suc a) n =
    let e : suc a + n ≡ suc (a + n) = omega arith in
    let f : 0 + suc a ≡ suc (0 + a) = omega arith in rw (e, f) (ap (◌∷◌ x) (leer-add m zero a n))
leer-add (x ∷ m) (suc p) a n =
    let e : suc p + a ≡ suc (p + a) = omega arith in rw e (leer-add m p a n)
