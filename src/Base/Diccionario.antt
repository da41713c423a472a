-- ===== src/Base/Diccionario.antt =====
-- `t_dictionary` of the commons library, with strings for keys: `dictionary_get`, and a write through
-- the pointer that it returns, or `dictionary_put`.
use mathlib.Core.Logic.{◌≢◌}
use tp_2014_1c_tp_so.Base.Outcome.{Outcome, ok, fault}
use tp_2014_1c_tp_so.Base.{
  ℕ, ◌≡◌, refl, Bool, true, false, ◌&&◌, List, [], ◌∷◌, Option, none, some, arith, ◌==◌,
  if◌then◌else◌, Bool-cases, inl, inr,
}

-- The string that begins at a `char *`: the bytes before the first 0.
unfoldable pub clave : List ℕ → List ℕ
clave [] = []
clave (b ∷ ys) = if b == 0 then [] else b ∷ clave ys

-- The same where the pointer is followed: that of a message with no data is null.
unfoldable pub clave_de : List ℕ → Outcome (List ℕ)
unfolding clave
clave_de [] = fault
clave_de (b ∷ ys) = ok (clave (b ∷ ys))

pub clave_de-ok : (dato : List ℕ) → dato ≢ [] → clave_de dato ≡ ok (clave dato)
unfolding clave_de
clave_de-ok [] h = absurd (h refl)
clave_de-ok (b ∷ ys) h = refl

abbrev pub misma_clave : List ℕ → List ℕ → Bool
misma_clave [] [] = true
misma_clave [] (b ∷ ys) = false
misma_clave (a ∷ xs) [] = false
misma_clave (a ∷ xs) (b ∷ ys) = a == b && misma_clave xs ys

module _ {A : Type 0} where
  unfoldable pub dictionary_get : List ℕ → List (List ℕ × A) → Option A
  dictionary_get k [] = none
  dictionary_get k ((j, a) ∷ dicc) = if misma_clave j k then some a else dictionary_get k dicc

  unfoldable pub dictionary_put : List ℕ → A → List (List ℕ × A) → List (List ℕ × A)
  dictionary_put k a [] = (k, a) ∷ []
  dictionary_put k a ((j, b) ∷ dicc) =
      if misma_clave j k then (j, a) ∷ dicc else (j, b) ∷ dictionary_put k a dicc

misma_clave_refl : (k : List ℕ) → misma_clave k k ≡ true
misma_clave_refl [] = refl
misma_clave_refl (a ∷ xs) = ground (arith, misma_clave_refl xs)

misma_clave-eq : (j k : List ℕ) → misma_clave j k ≡ true → j ≡ k
misma_clave-eq [] [] h = refl
misma_clave-eq [] (b ∷ ys) h = absurd (ground arith)
misma_clave-eq (a ∷ xs) [] h = absurd (ground arith)
misma_clave-eq (a ∷ xs) (b ∷ ys) h = ground (arith, misma_clave-eq xs ys)

module _ {A : Type 0} where
  pub dictionary_get-dictionary_put :
      (k : List ℕ) (a : A) (dicc : List (List ℕ × A))
      → dictionary_get k (dictionary_put k a dicc) ≡ some a
  unfolding dictionary_get dictionary_put
  dictionary_get-dictionary_put k a [] = rw (misma_clave_refl k) refl
  dictionary_get-dictionary_put k a ((j, b) ∷ dicc) = elim (Bool-cases (misma_clave j k)) [
    | inl e ↦ rw (e, dictionary_get) (rw e refl)
    | inr e ↦ rw (e, dictionary_get) (rw e (dictionary_get-dictionary_put k a dicc))
  ]

  pub dictionary_get-dictionary_put_ne :
      (k l : List ℕ) (a : A) (dicc : List (List ℕ × A))
      → k ≢ l
      → dictionary_get l (dictionary_put k a dicc) ≡ dictionary_get l dicc
  unfolding dictionary_get dictionary_put
  dictionary_get-dictionary_put_ne k l a [] ne = ground (arith, misma_clave-eq k l)
  dictionary_get-dictionary_put_ne k l a ((j, b) ∷ dicc) ne = elim (Bool-cases (misma_clave j k)) [
    | inl e ↦ let q : j ≡ k = misma_clave-eq j k e in ground (arith, misma_clave-eq j l)
    | inr e ↦ ground (arith, dictionary_get-dictionary_put_ne k l a dicc ne)
  ]
