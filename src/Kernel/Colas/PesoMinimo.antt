-- ===== src/Kernel/Colas/PesoMinimo.antt =====
-- The process that `get_peso_min` chooses.
use mathlib.Core.List.{
  mem-cons, mem-cons_self, mem-cons_of_mem, not-mem-nil, append_assoc, append-nil,
}
use mathlib.Core.Logic.Or
use native.Mathlib.Bridge.{le_prop}
use tp_2014_1c_tp_so.Base.{
  ◌≡◌, refl, ◌∙◌, ◌⊎◌, ◌≢◌, inl, inr, Bool, true, List, [], ◌∷◌, ◌++◌, none, some, Mem, length,
  arith, if◌then◌else◌, Bool-cases,
}
use tp_2014_1c_tp_so.Base.Int.{ℤ, pos, ltb_ℤ, ◌≤ℤ◌, ◌==ℤ◌}
use tp_2014_1c_tp_so.Kernel.Estado.{PcbOtros, Kernel}
use tp_2014_1c_tp_so.Kernel.Colas.{rotar_hasta, peso_minimo, get_peso_min}
use tp_2014_1c_tp_so.Kernel.Colas.Rotacion.{Ninguno, Primero-mem, rotar_hasta_lem}

abbrev menor_peso : ℤ → List PcbOtros → ℤ
menor_peso m [] = m
menor_peso m (x ∷ xs) = menor_peso (if ltb_ℤ x.peso m then x.peso else m) xs

peso_minimo-vistos :
    (m : ℤ) (xs vistos : List PcbOtros)
    → peso_minimo (length xs) m (xs ++ vistos) ≡ (menor_peso m xs, vistos ++ xs)
unfolding peso_minimo
peso_minimo-vistos m [] vistos = rw (append-nil vistos) refl
peso_minimo-vistos m (x ∷ xs) vistos =
    rw
      (
        append_assoc xs vistos (x ∷ []),
        peso_minimo-vistos (if ltb_ℤ x.peso m then x.peso else m) xs (vistos ++ (x ∷ [])),
        append_assoc vistos (x ∷ []) xs,
      )
      refl

menor_peso-le : (m : ℤ) (xs : List PcbOtros) → menor_peso m xs ≤ℤ m
menor_peso-le m [] = omega arith
menor_peso-le m (x ∷ xs) = ground (arith, menor_peso-le (if ltb_ℤ x.peso m then x.peso else m) xs)

menor_peso-mem : (m : ℤ) (xs : List PcbOtros) (y : PcbOtros) → Mem y xs → menor_peso m xs ≤ℤ y.peso
menor_peso-mem m [] y h = absurd (not-mem-nil h)
menor_peso-mem m (x ∷ xs) y h =
    let m' = if ltb_ℤ x.peso m then x.peso else m in
    Or.elim le_prop (mem-cons.0 h) (λ e. rw e (ground (arith, menor_peso-le m' xs)))
      (λ k. menor_peso-mem m' xs y k)

-- The minimum is `m`, or the weight of an element.
menor_peso-cases :
    (m : ℤ) (xs : List PcbOtros)
    → (menor_peso m xs ≡ m) ⊎ ((y : PcbOtros) × Mem y xs × (menor_peso m xs ≡ y.peso))
menor_peso-cases m [] = inl refl
menor_peso-cases m (x ∷ xs) = elim (Bool-cases (ltb_ℤ x.peso m)) [
  | inl e ↦ elim (menor_peso-cases x.peso xs) [
    | inl q ↦ inr (x, mem-cons_self, rw e q)
    | inr (y, h, q) ↦ inr (y, mem-cons_of_mem x h, rw e q)
  ]
  | inr e ↦ elim (menor_peso-cases m xs) [
    | inl q ↦ inl (rw e q)
    | inr (y, h, q) ↦ inr (y, mem-cons_of_mem x h, rw e q)
  ]
]

Ninguno-mem :
    (p : PcbOtros → Bool) (xs : List PcbOtros) (y : PcbOtros) → Ninguno p xs → Mem y xs → p y ≢ true
Ninguno-mem p [] y n h = absurd (not-mem-nil h)
Ninguno-mem p (x ∷ xs) y n h =
    Or.elim (hlevel) (mem-cons.0 h) (λ e. rw e (λ q. absurd (ground arith)))
      (λ k. Ninguno-mem p xs y n.1 k)

-- The process is as light as any, lighter than any before it, and the queue is left turned.
pub record Elegido (cola : List PcbOtros) (x : PcbOtros) (resto : List PcbOtros) : Type 0 where
  pub antes : List PcbOtros
  pub despues : List PcbOtros
  pub cola_eq : cola ≡ antes ++ (x ∷ despues)
  pub resto_eq : resto ≡ despues ++ antes
  pub minimo : (y : PcbOtros) → Mem y cola → x.peso ≤ℤ y.peso
  pub primero : (y : PcbOtros) → Mem y antes → y.peso ≢ x.peso

get_peso_min-eq :
    (k : Kernel)
    → let r =
        rotar_hasta
          (length k.cola_new)
          (λ x. menor_peso (pos 1000000) k.cola_new ==ℤ x.peso)
          k.cola_new in
      get_peso_min k ≡ (r.0, record k { cola_new = r.1 })
unfolding get_peso_min
get_peso_min-eq k =
    let e = peso_minimo-vistos (pos 1000000) k.cola_new [] in
    rw (rw (append-nil k.cola_new) at e) refl

-- Where some process of the queue weighs at most 1000000, `get_peso_min` takes out the first of the
-- lightest ones, and those before it go behind those after it.
pub get_peso_min-Elegido :
    (k : Kernel) (z : PcbOtros)
    → Mem z k.cola_new
    → z.peso ≤ℤ pos 1000000
    → (x : PcbOtros) × (resto : List PcbOtros) × (get_peso_min k
        ≡ (some x, record k { cola_new = resto }))
      × Elegido k.cola_new x resto
get_peso_min-Elegido k z hz le =
    let m = menor_peso (pos 1000000) k.cola_new in
    elim (rotar_hasta_lem (λ x. m ==ℤ x.peso) k.cola_new) [
      | inl (n, r) ↦ absurd (elim (menor_peso-cases (pos 1000000) k.cola_new) [
        | inl q ↦
            Ninguno-mem (λ x. m ==ℤ x.peso) k.cola_new z n hz
              (ground (arith, menor_peso-mem (pos 1000000) k.cola_new z hz))
        | inr (y, hy, q) ↦ Ninguno-mem (λ x. m ==ℤ x.peso) k.cola_new y n hy (ground arith)
      ])
      | inr (f, r) ↦ (
        f.elemento,
        f.despues ++ f.antes,
        get_peso_min-eq k ∙ rw r refl,
        record {
          antes = f.antes;
          despues = f.despues;
          cola_eq = f.cola_eq;
          resto_eq = refl;
          minimo = λ y h. ground (arith, menor_peso-mem (pos 1000000) k.cola_new y h, f.pasa);
          primero = λ y h q.
              Ninguno-mem (λ x. m ==ℤ x.peso) f.antes y f.ninguno_antes h (ground (arith, f.pasa));
        },
      )
    ]

-- Where every process of the queue weighs more, it finds none, and the queue is as it was.
pub get_peso_min-pesados :
    (k : Kernel)
    → ((y : PcbOtros) → Mem y k.cola_new → ltb_ℤ (pos 1000000) y.peso ≡ true)
    → get_peso_min k ≡ (none, k)
get_peso_min-pesados k h =
    let m = menor_peso (pos 1000000) k.cola_new in
    elim (rotar_hasta_lem (λ x. m ==ℤ x.peso) k.cola_new) [
      | inl (n, r) ↦ get_peso_min-eq k ∙ rw r refl
      | inr (f, r) ↦ absurd (
          ground
            (arith, h f.elemento (Primero-mem f), f.pasa, menor_peso-le (pos 1000000) k.cola_new))
    ]
