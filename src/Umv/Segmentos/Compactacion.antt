-- ===== src/Umv/Segmentos/Compactacion.antt =====
-- What `compactar` leaves: the segments one after the other from address 0.
use mathlib.Core.List.{mem-cons_self, mem-cons_of_mem}
use tp_2014_1c_tp_so.Base.{
  ℕ, ◌+◌, ◌^◌, ◌≤◌, ◌<◌, ◌≡◌, refl, ◌∙◌, List, [], ◌∷◌, Mem, max, arith, length, Bool-cases, inl,
  inr, true, false, take, if◌then◌else◌, length-take,
}
use tp_2014_1c_tp_so.Base.Int.{pos, neg_part, ◌==ℤ◌, pos_of_neg_part}
use tp_2014_1c_tp_so.Base.Words.{add32-pos}
use tp_2014_1c_tp_so.Base.Outcome.{ok}
use tp_2014_1c_tp_so.Umv.Estado.{Seg, inicio, largo}
use tp_2014_1c_tp_so.Base.Memoria.{
  memcpy_hacia, leer, escribir, length-escribir, leer-escribir, leer-escribir_apart,
}
use tp_2014_1c_tp_so.Umv.Espacio.Validez.{Cadena, Cadena-next}
use tp_2014_1c_tp_so.Umv.Segmentos.{compactar_desde}

-- The segments placed one after the other from `b` on.
abbrev pub ubicar : ℕ → List Seg → List Seg
ubicar b [] = []
ubicar b (s ∷ segs) = record s { dir_fisica = pos b } ∷ ubicar (b + largo s) segs

abbrev pub suma : List Seg → ℕ
suma [] = 0
suma (s ∷ segs) = largo s + suma segs

-- The stack holds as many bytes from `&aux_seg` on as each segment is long. `compactar` copies them from
-- there, past the pointer, which is the access that the C standard gives no meaning and the machine
-- carries out if they are there.
abbrev pub PilaLarga : (Seg → List ℕ) → List Seg → Type 0
PilaLarga pila segs = (s : Seg) → Mem s segs → largo s ≤ length (pila s)

pub memcpy_hacia-ok :
    (m : List ℕ) (b : ℕ) (bs : List ℕ) (n : ℕ)
    → b + n ≤ length m
    → n ≤ length bs
    → memcpy_hacia m (pos b) bs (pos n) ≡ ok (escribir m b (take n bs))
unfolding memcpy_hacia
memcpy_hacia-ok m b bs n h k = ground arith

same_dir : (s : Seg) (b : ℕ) → (pos b ==ℤ s.dir_fisica) ≡ true → s ≡ record s { dir_fisica = pos b }
same_dir s b e = ground arith

-- What stands in the place of each segment afterwards: its bytes, if it did not move, and bytes of
-- the stack if it did.
abbrev pub Contenidos : (Seg → List ℕ) → List ℕ → List ℕ → ℕ → List Seg → Type 0
Contenidos pila m m' b [] = Unit {0}
Contenidos pila m m' b (s ∷ segs) =
    (leer m' b (largo s)
      ≡ (if pos b ==ℤ s.dir_fisica then leer m b (largo s) else take (largo s) (pila s)))
    × Contenidos pila m m' (b + largo s) segs

Contenidos-ap :
    (pila : Seg → List ℕ) (m m₁ m' : List ℕ) (b : ℕ) (segs : List Seg)
    → ((q n : ℕ) → b ≤ q → leer m₁ q n ≡ leer m q n)
    → Contenidos pila m₁ m' b segs
    → Contenidos pila m m' b segs
Contenidos-ap pila m m₁ m' b [] h c = tt
Contenidos-ap pila m m₁ m' b (s ∷ segs) h (e, c) = (
  ground (arith, e, h b (largo s)),
  Contenidos-ap pila m m₁ m' (b + largo s) segs (λ q n l. h q n (omega arith)) c,
)

-- The loop from `ind_mem ≡ b` does not fault, and leaves the list placed from there on.
pub record Compactado (pila : Seg → List ℕ) (m : List ℕ) (b : ℕ) (segs : List Seg) (m' : List ℕ)
    : Type 0 where
  pub termina : compactar_desde pila m (pos b) segs ≡ ok (m', ubicar b segs)
  pub medida : length m' ≡ length m
  pub anterior : (p n : ℕ) → p + n ≤ b → leer m' p n ≡ leer m p n
  pub contenidos : Contenidos pila m m' b segs

-- A segment that stands where the loop puts it.
Compactado-keep :
    (pila : Seg → List ℕ) (m m' : List ℕ) (b : ℕ) (s : Seg) (segs : List Seg)
    → neg_part s.tam_seg ≡ 0
    → b + largo s < 2 ^ 31
    → (pos b ==ℤ s.dir_fisica) ≡ true
    → Compactado pila m (b + largo s) segs m'
    → Compactado pila m b (s ∷ segs) m'
unfolding compactar_desde
Compactado-keep pila m m' b s segs nt small t c = record {
  termina =
      ground
        (arith, c.termina, pos_of_neg_part s.tam_seg nt, add32-pos b (largo s), same_dir s b t);
  medida = c.medida;
  anterior = λ p n h. c.anterior p n (omega arith);
  contenidos = (rw t (c.anterior b (largo s) (omega arith)), c.contenidos);
}

-- A segment that moves down to `b`.
Compactado-move :
    (pila : Seg → List ℕ) (m m' : List ℕ) (b : ℕ) (s : Seg) (segs : List Seg)
    → neg_part s.tam_seg ≡ 0
    → b + largo s < 2 ^ 31
    → b + largo s ≤ length m
    → largo s ≤ length (pila s)
    → (pos b ==ℤ s.dir_fisica) ≡ false
    → Compactado pila (escribir m b (take (largo s) (pila s))) (b + largo s) segs m'
    → Compactado pila m b (s ∷ segs) m'
unfolding compactar_desde
Compactado-move pila m m' b s segs nt small cabe larga f c = record {
  termina = ground (
    arith,
    f,
    c.termina,
    pos_of_neg_part s.tam_seg nt,
    add32-pos b (largo s),
    memcpy_hacia-ok m b (pila s) (largo s),
  );
  medida = c.medida ∙ length-escribir m b bs;
  anterior =
      λ p n h. c.anterior p n (omega arith) ∙ leer-escribir_apart m b bs p n (omega (arith, len));
  contenidos = (
    rw f (c.anterior b (largo s) (omega arith) ∙ leido),
    Contenidos-ap pila m (escribir m b bs) m' (b + largo s) segs
        (λ q n h. leer-escribir_apart m b bs q n (omega (arith, len))) c.contenidos,
  );
}
  where
    bs : List ℕ
    bs = take (largo s) (pila s)

    len : length bs ≡ largo s
    len = omega (arith, length-take (largo s) (pila s))

    leido : leer (escribir m b bs) b (largo s) ≡ bs
    leido = rw len at (leer-escribir m b bs (omega (arith, len)))

pub compactar_desde-Compactado :
    (pila : Seg → List ℕ) (total b c : ℕ) (m : List ℕ) (segs : List Seg)
    → Cadena total c segs
    → b ≤ c
    → c ≤ total
    → total < 2 ^ 31
    → length m ≡ total
    → PilaLarga pila segs
    → (m' : List ℕ) × Compactado pila m b segs m'
compactar_desde-Compactado pila total b c m [] ch bc le small em h = (
  m,
  unfold compactar_desde in
      record { termina = refl; medida = refl; anterior = λ p n l. refl; contenidos = tt },
)
compactar_desde-Compactado pila total b c m (s ∷ segs) (cs, hs, ch) bc le small em h =
    let c' = max c (inicio s) + largo s in
    let next = Cadena-next total c s cs hs le in
    let m₁ = escribir m b (take (largo s) (pila s)) in
    let rec = λ (m₀ : List ℕ) (e : length m₀ ≡ total).
      compactar_desde-Compactado pila total (b + largo s) c' m₀ segs ch (omega arith) next small e
        (λ u k. h u (mem-cons_of_mem s k)) in
    elim (Bool-cases (pos b ==ℤ s.dir_fisica)) [
      | inl t ↦
          let r = rec m em in
          (r.0, Compactado-keep pila m r.0 b s segs cs.tam_nonneg (omega arith) t r.1)
      | inr f ↦
          let r = rec m₁ (length-escribir m b (take (largo s) (pila s)) ∙ em) in
          (
            r.0,
            Compactado-move pila m r.0 b s segs cs.tam_nonneg (omega arith) (omega arith)
                (h s mem-cons_self) f r.1,
          )
    ]
