-- ===== src/Kernel/Colas/Rotacion.antt =====
-- What `rotar_hasta` finds, and how it leaves the queue.
use mathlib.Core.List.{mem-append, mem-cons_self, append_assoc, append-nil}
use mathlib.Core.Logic.Or
use tp_2014_1c_tp_so.Base.{
  ◌≡◌, refl, ap, ◌⊎◌, inl, inr, Bool, true, false, List, [], ◌∷◌, ◌++◌, none, some, Mem, length,
  Bool-cases,
}
use tp_2014_1c_tp_so.Kernel.Estado.{PcbOtros}
use tp_2014_1c_tp_so.Kernel.Colas.{rotar_hasta}

-- No element of a queue passes.
abbrev pub Ninguno : (PcbOtros → Bool) → List PcbOtros → Type 0
Ninguno p [] = Unit {0}
Ninguno p (x ∷ xs) = (p x ≡ false) × Ninguno p xs

-- The queue as the first element that passes divides it.
pub record Primero (p : PcbOtros → Bool) (cola : List PcbOtros) : Type 0 where
  pub antes : List PcbOtros
  pub elemento : PcbOtros
  pub despues : List PcbOtros
  pub cola_eq : cola ≡ antes ++ (elemento ∷ despues)
  pub ninguno_antes : Ninguno p antes
  pub pasa : p elemento ≡ true

pub Primero-mem :
    {p : PcbOtros → Bool} {cola : List PcbOtros} (f : Primero p cola) → Mem f.elemento cola
Primero-mem f = rw f.cola_eq (mem-append.1 (Or.inr mem-cons_self))

module _ (p : PcbOtros → Bool) where
  -- `vistos` are the elements that were pushed back already.
  rotar_hasta-vistos :
      (xs vistos : List PcbOtros)
      → (Ninguno p xs × (rotar_hasta (length xs) p (xs ++ vistos) ≡ (none, vistos ++ xs)))
        ⊎ ((f : Primero p xs) × (rotar_hasta (length xs) p (xs ++ vistos)
              ≡ (some f.elemento, f.despues ++ (vistos ++ f.antes))))
  unfolding rotar_hasta
  rotar_hasta-vistos [] vistos = inl (tt, rw (append-nil vistos) refl)
  rotar_hasta-vistos (x ∷ xs) vistos = elim (Bool-cases (p x)) [
    | inl e ↦ inr (
      record {
        antes = [];
        elemento = x;
        despues = xs;
        cola_eq = refl;
        ninguno_antes = tt;
        pasa = e;
      },
      rw (e, append-nil vistos) refl,
    )
    | inr e ↦
        let asocia = append_assoc xs vistos (x ∷ []) in
        elim (rotar_hasta-vistos xs (vistos ++ (x ∷ []))) [
          | inl (n, r) ↦ inl ((e, n), rw (e, asocia, r, append_assoc vistos (x ∷ []) xs) refl)
          | inr (f, r) ↦ inr (
            record {
              antes = x ∷ f.antes;
              elemento = f.elemento;
              despues = f.despues;
              cola_eq = ap (λ ys. x ∷ ys) f.cola_eq;
              ninguno_antes = (e, f.ninguno_antes);
              pasa = f.pasa;
            },
            rw (e, asocia, r, append_assoc vistos (x ∷ []) f.antes) refl,
          )
        ]
  ]

  -- If no element passes, the queue goes round once and is as it was. Else the first that passes is
  -- taken out, and those before it, which were pushed back, stand behind those after it.
  pub rotar_hasta_lem :
      (cola : List PcbOtros)
      → (Ninguno p cola × (rotar_hasta (length cola) p cola ≡ (none, cola)))
        ⊎ ((f : Primero p cola) × (rotar_hasta (length cola) p cola
              ≡ (some f.elemento, f.despues ++ f.antes)))
  rotar_hasta_lem cola = rw (append-nil cola) at (rotar_hasta-vistos cola [])
