-- ===== src/Kernel/Colas/Cuentas.antt =====
-- How often a process, or an idle CPU, stands in a list: what the searches take out, counted.
use tp_2014_1c_tp_so.Base.{
  ℕ, suc, ◌+◌, ◌≡◌, refl, sym, ◌⊎◌, inl, inr, Bool, true, List, [], ◌∷◌, ◌++◌, none, some, length,
  length-append, arith, if◌then◌else◌, Bool-cases, Option-cases, list_remove,
}
use tp_2014_1c_tp_so.Base.Int.{ℤ, pos, ◌==ℤ◌}
use tp_2014_1c_tp_so.Kernel.Estado.{Cpu, PcbOtros}
use tp_2014_1c_tp_so.Kernel.Colas.{rotar_hasta}
use tp_2014_1c_tp_so.Kernel.Colas.Rotacion.{Ninguno, Primero, rotar_hasta_lem}

abbrev pub uno : ℤ → ℤ → ℕ
uno a b = if a ==ℤ b then 1 else 0

-- How many process control blocks of the process `id` are in a queue.
abbrev pub veces : ℤ → List PcbOtros → ℕ
veces id [] = 0
veces id (x ∷ cola) = uno x.pcb.id id + veces id cola

-- How many CPUs execute the process `id`; 0 is none.
abbrev pub en_cpus : ℤ → List Cpu → ℕ
en_cpus id [] = 0
en_cpus id (c ∷ cpus) = uno c.id_prog_exec id + en_cpus id cpus

pub veces-append :
    (id : ℤ) (xs ys : List PcbOtros) → veces id (xs ++ ys) ≡ veces id xs + veces id ys
veces-append id [] ys = omega arith
veces-append id (x ∷ xs) ys = omega (arith, veces-append id xs ys)

pub en_cpus-append :
    (id : ℤ) (xs ys : List Cpu) → en_cpus id (xs ++ ys) ≡ en_cpus id xs + en_cpus id ys
en_cpus-append id [] ys = omega arith
en_cpus-append id (x ∷ xs) ys = omega (arith, en_cpus-append id xs ys)

-- One element more at the end.
pub veces-push :
    (id : ℤ) (xs : List PcbOtros) (x : PcbOtros)
    → veces id (xs ++ (x ∷ [])) ≡ veces id xs + uno x.pcb.id id
veces-push id xs x = omega (arith, veces-append id xs (x ∷ []))

pub en_cpus-push :
    (id : ℤ) (xs : List Cpu) (c : Cpu)
    → en_cpus id (xs ++ (c ∷ [])) ≡ en_cpus id xs + uno c.id_prog_exec id
en_cpus-push id xs c = omega (arith, en_cpus-append id xs (c ∷ []))

pub length-push {ℓ} : {A : Type ℓ} (xs : List A) (x : A) → length (xs ++ (x ∷ [])) ≡ suc (length xs)
length-push xs x = omega (arith, length-append xs (x ∷ []))

-- `resto` is the queue without `x`, in some order.
pub record Sacado (cola : List PcbOtros) (x : PcbOtros) (resto : List PcbOtros) : Type 0 where
  pub largo : length cola ≡ suc (length resto)
  pub cuenta : (id : ℤ) → veces id cola ≡ uno x.pcb.id id + veces id resto

Primero-Sacado :
    {p : PcbOtros → Bool} {cola : List PcbOtros} (f : Primero p cola)
    → Sacado cola f.elemento (f.despues ++ f.antes)
Primero-Sacado f = rw f.cola_eq (record {
  largo =
      omega
        (arith, length-append f.antes (f.elemento ∷ f.despues), length-append f.despues f.antes);
  cuenta = λ id.
      omega (
        arith,
        veces-append id f.antes (f.elemento ∷ f.despues),
        veces-append id f.despues f.antes,
      );
})

pub rotar_hasta-Sacado :
    (p : PcbOtros → Bool) (cola : List PcbOtros)
    → (Ninguno p cola × (rotar_hasta (length cola) p cola ≡ (none, cola)))
      ⊎ ((x : PcbOtros) × (resto : List PcbOtros) × (rotar_hasta (length cola) p cola
            ≡ (some x, resto))
          × (p x ≡ true)
          × Sacado cola x resto)
rotar_hasta-Sacado p cola = elim (rotar_hasta_lem p cola) [
  | inl h ↦ inl h
  | inr (f, r) ↦ inr (f.elemento, f.despues ++ f.antes, r, f.pasa, Primero-Sacado f)
]

-- A queue that holds the process has an element that the search takes.
pub Ninguno-veces :
    (id : ℤ) (cola : List PcbOtros) → Ninguno (λ x. id ==ℤ x.pcb.id) cola → veces id cola ≡ 0
Ninguno-veces id [] n = refl
Ninguno-veces id (x ∷ cola) n = ground (arith, Ninguno-veces id cola n.1)

-- The CPU that `list_remove_by_condition` takes out, and the others.
pub list_remove-en_cpus :
    (p : Cpu → Bool) (cpus : List Cpu) (c : Cpu) (resto : List Cpu)
    → list_remove p cpus ≡ some (c, resto)
    → (p c ≡ true) × ((id : ℤ) → en_cpus id cpus ≡ uno c.id_prog_exec id + en_cpus id resto)
unfolding list_remove
list_remove-en_cpus p [] c resto e = absurd (ground arith)
list_remove-en_cpus p (d ∷ cpus) c resto e = elim (Bool-cases (p d)) [
  | inl h ↦
      let q : d ≡ c = ground arith in
      let s : cpus ≡ resto = ground arith in (rw q at h, λ id. rw (q, s) refl)
  | inr h ↦ elim (Option-cases (list_remove p cpus)) [
    | inl n ↦ absurd (ground arith)
    | inr ((y, ys), r) ↦
        let k = list_remove-en_cpus p cpus y ys r in
        let q : y ≡ c = ground arith in
        let s : d ∷ ys ≡ resto = ground arith in
        (rw q at k.0, λ id. rw (sym s, sym q) (omega (arith, k.1 id)))
  ]
]

pub list_remove-libre :
    (cpus : List Cpu)
    → list_remove (λ c. c.id_prog_exec ==ℤ pos 0) cpus ≡ none
    → en_cpus (pos 0) cpus ≡ 0
unfolding list_remove
list_remove-libre [] e = refl
list_remove-libre (d ∷ cpus) e = ground (arith, list_remove-libre cpus)
