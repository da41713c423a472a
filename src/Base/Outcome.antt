-- ===== src/Base/Outcome.antt =====
-- The result of code that may fail to go on.
use tp_2014_1c_tp_so.Base.{◌≡◌, refl, subst, Bool, true, false, if◌then◌else◌}

-- A call that the C standard gives no meaning (a null pointer, an access outside an object) faults;
-- a `sem_wait` on a semaphore that is at 0 waits.
pub data Outcome {ℓ} (A : Type ℓ) : Type ℓ where
  ok : A → Outcome A
  fault : Outcome A
  espera : Outcome A

infixl 5 ◌>>=◌
abbrev pub ◌>>=◌ {ℓ κ} : {A : Type ℓ} {B : Type κ} → Outcome A → (A → Outcome B) → Outcome B
ok a >>= f = f a
fault >>= f = fault
espera >>= f = espera

-- `P` holds of the result, if there is one.
pub data Logra {ℓ} {A : Type ℓ} (P : A → Type 0) : Outcome A → Type ℓ where
  bien : (a : A) → P a → Logra P (ok a)
  falla : Logra P fault
  bloquea : Logra P espera

pub Logra-bind {ℓ κ} :
    {A : Type ℓ} {B : Type κ} {P : A → Type 0} {Q : B → Type 0} {o : Outcome A} {f : A → Outcome B}
    → Logra P o
    → ((a : A) → P a → Logra Q (f a))
    → Logra Q (o >>= f)
Logra-bind (bien a p) k = k a p
Logra-bind falla k = falla
Logra-bind bloquea k = bloquea

pub Logra-of_eq {ℓ} :
    {A : Type ℓ} {P : A → Type 0} (o : Outcome A) → ((a : A) → o ≡ ok a → P a) → Logra P o
Logra-of_eq (ok a) h = bien a (h a refl)
Logra-of_eq fault h = falla
Logra-of_eq espera h = bloquea

pub ok_inj {ℓ} : {A : Type ℓ} {a b : A} → ok a ≡ ok b → a ≡ b
ok_inj h = cc

pub Logra-eq {ℓ} :
    {A : Type ℓ} {P : A → Type 0} {o : Outcome A} {a : A} → Logra P o → o ≡ ok a → P a
Logra-eq {P = P} (bien b p) h = subst P (ok_inj h) p
Logra-eq falla h = cc
Logra-eq bloquea h = cc

pub Logra-mono {ℓ} :
    {A : Type ℓ} {P Q : A → Type 0} {o : Outcome A} → ((a : A) → P a → Q a) → Logra P o → Logra Q o
Logra-mono h (bien a p) = bien a (h a p)
Logra-mono h falla = falla
Logra-mono h bloquea = bloquea

pub Logra-puro {ℓ κ} :
    {A : Type ℓ} {B : Type κ} {Q : B → Type 0} (o : Outcome A) {f : A → Outcome B}
    → ((a : A) → Logra Q (f a))
    → Logra Q (o >>= f)
Logra-puro (ok a) k = k a
Logra-puro fault k = falla
Logra-puro espera k = bloquea

pub Logra-if {ℓ} :
    {A : Type ℓ} {P : A → Type 0} (b : Bool) {o o' : Outcome A}
    → (b ≡ true → Logra P o)
    → (b ≡ false → Logra P o')
    → Logra P (if b then o else o')
Logra-if true h h' = h refl
Logra-if false h h' = h' refl

pub >>=-ap {ℓ κ} :
    {A : Type ℓ} {B : Type κ} (o : Outcome A) (f g : A → Outcome B)
    → ((a : A) → o ≡ ok a → f a ≡ g a)
    → (o >>= f) ≡ (o >>= g)
>>=-ap (ok a) f g h = h a refl
>>=-ap fault f g h = refl
>>=-ap espera f g h = refl

pub >>=-ok {ℓ} : {A : Type ℓ} (o : Outcome A) → (o >>= λ a. ok a) ≡ o
>>=-ok (ok a) = refl
>>=-ok fault = refl
>>=-ok espera = refl
