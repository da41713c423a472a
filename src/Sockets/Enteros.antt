-- ===== src/Sockets/Enteros.antt =====
-- What is written of a number, and what is sent of a message, is read back.
use tp_2014_1c_tp_so.Base.{
  ℕ, zero, suc, ◌+◌, ◌*◌, ◌/◌, ◌%◌, ◌^◌, ◌<◌, ◌≡◌, refl, sym, ◌∙◌, ap, List, [], ◌∷◌, ◌++◌, arith,
  length, length-append, take, drop, get_elem?, some,
}
use tp_2014_1c_tp_so.Base.Int.{ℤ, pos, negsuc}
use tp_2014_1c_tp_so.Base.Words.{pattern32, signed32, IsInt32}
use tp_2014_1c_tp_so.Base.Outcome.{Outcome, ok}
use tp_2014_1c_tp_so.Base.Memoria.{leer, memcpy_desde}
use tp_2014_1c_tp_so.Sockets.{bytes_int32, int32_de, leer_int32, campos, enviar, recibir}

signed32-pattern32 : (z : ℤ) → IsInt32 z → signed32 (pattern32 z) ≡ z
unfolding signed32 pattern32
signed32-pattern32 (pos n) h = ground arith
signed32-pattern32 (negsuc n) h = ground arith

pattern32-lt : (z : ℤ) → pattern32 z < 2 ^ 32
unfolding pattern32
pattern32-lt (pos n) = ground arith
pattern32-lt (negsuc n) = ground arith

cuatro_bytes :
    (w : ℕ)
    → w < 2 ^ 32
    → w % 256 + w / 256 % 256 * 256 + w / 65536 % 256 * 65536 + w / 16777216 % 256 * 16777216 ≡ w
cuatro_bytes w h = omega arith

pub int32_de-bytes_int32 : (z : ℤ) → IsInt32 z → int32_de (bytes_int32 z) ≡ ok z
unfolding int32_de bytes_int32
int32_de-bytes_int32 z h =
    rw (cuatro_bytes (pattern32 z) (pattern32-lt z), signed32-pattern32 z h) refl

pub leer-all : (xs : List ℕ) → leer xs 0 (length xs) ≡ xs
unfolding leer
leer-all [] = refl
leer-all (x ∷ xs) = ap (◌∷◌ x) (leer-all xs)

take-append : (xs ys : List ℕ) → take (length xs) (xs ++ ys) ≡ xs
take-append [] ys = refl
take-append (x ∷ xs) ys = ap (◌∷◌ x) (take-append xs ys)

drop-append : (xs ys : List ℕ) → drop (length xs) (xs ++ ys) ≡ ys
drop-append [] ys = refl
drop-append (x ∷ xs) ys = drop-append xs ys

-- A stream that begins with its own length is sent whole.
pub enviar_lem :
    (stream : List ℕ) → leer_int32 stream 0 ≡ ok (pos (length stream)) → enviar stream ≡ ok stream
unfolding enviar memcpy_desde
enviar_lem stream h = ground (arith, leer-all stream)

pub leer-nada : (xs : List ℕ) → leer xs 0 0 ≡ []
unfolding leer
leer-nada [] = refl
leer-nada (x ∷ xs) = refl

pub leer_int32-cuatro :
    (a b c d : ℕ) (xs : List ℕ) → leer_int32 (a ∷ b ∷ c ∷ d ∷ xs) 0 ≡ int32_de (a ∷ b ∷ c ∷ d ∷ [])
unfolding leer
leer_int32-cuatro a b c d xs = rw (leer-nada xs) refl

leer_int32-append :
    (xs ys : List ℕ) (z : ℤ) → leer_int32 xs 0 ≡ ok z → leer_int32 (xs ++ ys) 0 ≡ ok z
unfolding int32_de leer
leer_int32-append [] ys z h = absurd (ground arith)
leer_int32-append (a ∷ []) ys z h = absurd (ground arith)
leer_int32-append (a ∷ b ∷ []) ys z h = absurd (ground arith)
leer_int32-append (a ∷ b ∷ c ∷ []) ys z h = absurd (ground arith)
leer_int32-append (a ∷ b ∷ c ∷ d ∷ xs) ys z h =
    leer_int32-cuatro a b c d (xs ++ ys) ∙ sym (leer_int32-cuatro a b c d xs) ∙ h

-- What `socket_recv_*` makes of such a stream and the bytes of later messages.
pub recibir_lem {ℓ} :
    {A : Type ℓ} (cerrada : Outcome A) (deserealizer : List ℕ → Outcome A) (stream soc : List ℕ)
    (m : A)
    → leer_int32 stream 0 ≡ ok (pos (length stream))
    → deserealizer stream ≡ ok m
    → recibir cerrada deserealizer (stream ++ soc) ≡ ok (m, soc)
unfolding recibir
recibir_lem cerrada deserealizer [] soc m h hd = absurd (unfold leer int32_de in ground arith)
recibir_lem cerrada deserealizer (b ∷ stream) soc m h hd =
    rw (leer_int32-append (b ∷ stream) soc _ h, take-append stream soc, drop-append stream soc, hd)
      (ground arith)

-- Every number of a list is one that an `int32_t` holds.
abbrev pub SonInt32 : List ℤ → Type 0
SonInt32 [] = Unit {0}
SonInt32 (z ∷ zs) = IsInt32 z × SonInt32 zs

-- Where the number `i` begins.
abbrev pub cuatro : ℕ → ℕ
cuatro zero = 0
cuatro (suc n) = suc (suc (suc (suc (cuatro n))))

pub length-campos : (zs : List ℤ) → length (campos zs) ≡ cuatro (length zs)
unfolding campos bytes_int32
length-campos [] = refl
length-campos (z ∷ zs) = omega (arith, length-campos zs)

pub leer-campos :
    (zs : List ℤ) (xs : List ℕ) (n : ℕ)
    → leer (campos zs ++ xs) (cuatro (length zs)) n ≡ leer xs 0 n
unfolding campos bytes_int32 leer
leer-campos [] xs n = refl
leer-campos (z ∷ zs) xs n = leer-campos zs xs n

-- The number `i` is read back from its place.
pub campo :
    (zs : List ℤ) (xs : List ℕ) (i : ℕ) (z : ℤ)
    → SonInt32 zs
    → get_elem? zs i ≡ some z
    → leer_int32 (campos zs ++ xs) (cuatro i) ≡ ok z
unfolding campos bytes_int32 leer
campo [] xs i z h e = absurd (ground arith)
campo (y ∷ zs) xs zero z h e =
    leer_int32-cuatro _ _ _ _ (campos zs ++ xs) ∙ int32_de-bytes_int32 y h.0 ∙ ground arith
campo (y ∷ zs) xs (suc i) z h e = campo zs xs i z h.1 e

campos-primero :
    (n : ℕ) (zs : List ℤ) (xs : List ℕ)
    → n < 2 ^ 31
    → 4 + cuatro (length zs) + length xs ≡ n
    → leer_int32 (campos (pos n ∷ zs) ++ xs) 0 ≡ ok (pos (length (campos (pos n ∷ zs) ++ xs)))
unfolding campos bytes_int32
campos-primero n zs xs h e =
    leer_int32-cuatro _ _ _ _ (campos zs ++ xs)
    ∙ int32_de-bytes_int32 (pos n) (h, omega arith)
    ∙ ap (λ k. ok (pos k)) (omega (arith, length-append (campos zs) xs, length-campos zs))

-- A stream whose first number is its length is read up to its end, and sent whole.
pub campos-enviar :
    (n : ℕ) (zs : List ℤ) (xs : List ℕ)
    → n < 2 ^ 31
    → 4 + cuatro (length zs) + length xs ≡ n
    → enviar (campos (pos n ∷ zs) ++ xs) ≡ ok (campos (pos n ∷ zs) ++ xs)
campos-enviar n zs xs h e = enviar_lem (campos (pos n ∷ zs) ++ xs) (campos-primero n zs xs h e)

pub campos-recibir {ℓ} :
    {A : Type ℓ} (cerrada : Outcome A) (deserealizer : List ℕ → Outcome A) (n : ℕ) (zs : List ℤ)
    (xs soc : List ℕ) (m : A)
    → n < 2 ^ 31
    → 4 + cuatro (length zs) + length xs ≡ n
    → deserealizer (campos (pos n ∷ zs) ++ xs) ≡ ok m
    → recibir cerrada deserealizer ((campos (pos n ∷ zs) ++ xs) ++ soc) ≡ ok (m, soc)
campos-recibir cerrada deserealizer n zs xs soc m h e hd =
    recibir_lem cerrada deserealizer (campos (pos n ∷ zs) ++ xs) soc m (campos-primero n zs xs h e)
      hd

-- The data after the numbers, read back.
pub memcpy-campos :
    (zs : List ℤ) (xs : List ℕ)
    → memcpy_desde (campos zs ++ xs) (pos (cuatro (length zs))) (pos (length xs)) ≡ ok xs
unfolding memcpy_desde
memcpy-campos zs xs = ground (
  arith,
  length-append (campos zs) xs,
  length-campos zs,
  leer-campos zs xs (length xs),
  leer-all xs,
)
