-- ===== src/Umv/Bytes/Acceso.antt =====
-- Accesses on a valid memory of less than 1 GiB, where `offset+tam` does not overflow.
use mathlib.Core.List.{Pairwise-cons, mem-cons, mem-cons_self, mem-cons_of_mem, not-mem-nil}
use mathlib.Core.Logic.Or
use native.Mathlib.Bridge.{le_prop}
use tp_2014_1c_tp_so.Base.{
  ℕ, ◌+◌, ◌^◌, ◌≤◌, ◌<◌, ◌≡◌, refl, ◌∙◌, sym, ap, ◌≢◌, Bool, true, List, [], ◌∷◌, Option, none,
  some, Mem, Pairwise, arith, length, take, length-take, leb, list_find, if◌then◌else◌, Bool-cases,
  inl, inr,
}
use tp_2014_1c_tp_so.Base.Int.{ℤ, pos, pos_part, neg_part, pos_of_neg_part}
use tp_2014_1c_tp_so.Base.Words.{add32-pos}
use tp_2014_1c_tp_so.Mensajes.Tipos.{segmen_fault, r_alm_bytes}
use tp_2014_1c_tp_so.Base.Outcome.{ok}
use tp_2014_1c_tp_so.Umv.Estado.{Umv, Seg, inicio, largo, Separados}
use tp_2014_1c_tp_so.Base.Memoria.{
  leer, escribir, memcpy_desde, memcpy_hacia, length-escribir, leer-escribir, leer-escribir_apart,
}
use tp_2014_1c_tp_so.Umv.Espacio.Validez.{IsValid}
use tp_2014_1c_tp_so.Umv.Segmentos.{buscar_segmento_dir_logica}
use tp_2014_1c_tp_so.Umv.Bytes.{solicitar_bytes, almacenar_bytes}

pub list_find-mem :
    (p : Seg → Bool) (segs : List Seg) (s : Seg)
    → list_find p segs ≡ some s
    → Mem s segs × (p s ≡ true)
unfolding list_find
list_find-mem p [] s e = cc
list_find-mem p (t ∷ segs) s e = elim (Bool-cases (p t)) [
  | inl h ↦ let q : t ≡ s = ground arith in (rw q mem-cons_self, rw q at h)
  | inr h ↦ let r = list_find-mem p segs s (ground arith) in (mem-cons_of_mem t r.0, r.1)
]

pub buscar_segmento_dir_logica_lem :
    (u : Umv) (id_proc base : ℤ) (s : Seg)
    → buscar_segmento_dir_logica u id_proc base ≡ some s
    → Mem s u.list_seg × (s.id_proc ≡ id_proc) × (s.dir_logica ≡ base)
unfolding buscar_segmento_dir_logica
buscar_segmento_dir_logica_lem u id_proc base s e =
    let r = list_find-mem _ u.list_seg s e in (r.0, ground (arith, r.1), ground (arith, r.1))

-- The answer of `solicitar_bytes` for a segment of its process: the bytes asked for, if they end
-- inside the segment, and `NULL` if they do not. No access is outside memory.
pub solicitar_bytes_lem :
    (malloc : ℤ → Option (List ℕ)) (u : Umv) (id_proc base : ℤ) (s : Seg) (o n : ℕ)
    → IsValid u
    → pos_part u.tam_mem_total < 2 ^ 30
    → neg_part base ≡ 0
    → malloc (pos n) ≢ none
    → buscar_segmento_dir_logica u id_proc base ≡ some s
    → solicitar_bytes malloc u id_proc base (pos o) (pos n)
      ≡ ok (if leb (o + n) (largo s) then some (leer u.mem_prin (inicio s + o) n) else none)
unfolding solicitar_bytes memcpy_desde
solicitar_bytes_lem malloc u id_proc base s o n v small nb hm e =
    let c = v.segs.caben s (buscar_segmento_dir_logica_lem u id_proc base s e).0 in
    ground (
      arith,
      c,
      add32-pos o n,
      add32-pos (inicio s) o,
      pos_of_neg_part s.dir_fisica c.dir_nonneg,
      pos_of_neg_part s.tam_seg c.tam_nonneg,
    )

-- The state that a write leaves, and its answer.
abbrev pub escrito : Umv → Seg → ℕ → ℕ → List ℕ → Umv
escrito u s o n buffer = record u { mem_prin = escribir u.mem_prin (inicio s + o) (take n buffer) }

-- `almacenar_bytes` for a segment of its process: it writes the bytes, if they end inside the
-- segment, and changes nothing if they do not. No access is outside memory.
pub almacenar_bytes_lem :
    (u : Umv) (id_proc base : ℤ) (s : Seg) (o n : ℕ) (buffer : List ℕ)
    → IsValid u
    → pos_part u.tam_mem_total < 2 ^ 30
    → neg_part base ≡ 0
    → n ≤ length buffer
    → buscar_segmento_dir_logica u id_proc base ≡ some s
    → almacenar_bytes u id_proc base (pos o) (pos n) buffer
      ≡ ok (
          if leb (o + n) (largo s)
          then (escrito u s o n buffer, r_alm_bytes)
          else (u, segmen_fault))
unfolding almacenar_bytes memcpy_hacia
almacenar_bytes_lem u id_proc base s o n buffer v small nb hm e =
    let c = v.segs.caben s (buscar_segmento_dir_logica_lem u id_proc base s e).0 in
    ground (
      arith,
      c,
      add32-pos o n,
      add32-pos (inicio s) o,
      pos_of_neg_part s.dir_fisica c.dir_nonneg,
      pos_of_neg_part s.tam_seg c.tam_nonneg,
    )

pub escrito-IsValid :
    (u : Umv) (s : Seg) (o n : ℕ) (buffer : List ℕ) → IsValid u → IsValid (escrito u s o n buffer)
escrito-IsValid u s o n buffer v = record {
  total_nonneg = v.total_nonneg;
  total_small = v.total_small;
  reservada = length-escribir u.mem_prin (inicio s + o) (take n buffer) ∙ v.reservada;
  segs = v.segs;
}

-- The search does not look at the bytes.
pub buscar-escrito :
    (u : Umv) (m : List ℕ) (id_proc base : ℤ)
    → buscar_segmento_dir_logica (record u { mem_prin = m }) id_proc base
      ≡ buscar_segmento_dir_logica u id_proc base
unfolding buscar_segmento_dir_logica
buscar-escrito u m id_proc base = refl

-- On a valid memory of less than 1 GiB, what a process has written into its segment it reads back, if the
-- segment's address is not negative, the buffer has the bytes, and `malloc` gives a block for them; memory stays valid.
pub solicitar_bytes-almacenar_bytes :
    (malloc : ℤ → Option (List ℕ)) (u : Umv) (id_proc base : ℤ) (s : Seg) (o n : ℕ)
    (buffer : List ℕ)
    → IsValid u
    → pos_part u.tam_mem_total < 2 ^ 30
    → neg_part base ≡ 0
    → malloc (pos n) ≢ none
    → n ≤ length buffer
    → o + n ≤ largo s
    → buscar_segmento_dir_logica u id_proc base ≡ some s
    → (w : Umv) × (almacenar_bytes u id_proc base (pos o) (pos n) buffer ≡ ok (w, r_alm_bytes))
      × IsValid w
      × (solicitar_bytes malloc w id_proc base (pos o) (pos n) ≡ ok (some (take n buffer)))
solicitar_bytes-almacenar_bytes malloc u id_proc base s o n buffer v small nb hm hl cabe e =
    let w = escrito u s o n buffer in
    let vw = escrito-IsValid u s o n buffer v in
    let c = v.segs.caben s (buscar_segmento_dir_logica_lem u id_proc base s e).0 in
    let len : length (take n buffer) ≡ n = omega (arith, length-take n buffer) in
    let dentro : leb (o + n) (largo s) ≡ true = ground arith in
    let leido =
      leer-escribir u.mem_prin (inicio s + o) (take n buffer) (omega (arith, len, v.reservada)) in
    (
      w,
      rw dentro at (almacenar_bytes_lem u id_proc base s o n buffer v small nb hl e),
      vw,
      solicitar_bytes_lem malloc w id_proc base s o n vw small nb hm
            (buscar-escrito u _ id_proc base ∙ e)
          ∙ rw dentro (ap (λ bs. ok (some bs)) (rw len at leido)),
    )

-- Two segments of a list are one or share no byte.
pub Separados-mem :
    (segs : List Seg) (s t : Seg)
    → Pairwise Separados segs
    → Mem s segs
    → Mem t segs
    → s ≢ t
    → Separados s t
Separados-mem [] s t h ms mt ne = absurd (not-mem-nil ms)
Separados-mem (x ∷ segs) s t h ms mt ne =
    Or.elim le_prop (mem-cons.0 ms)
      (λ es.
        Or.elim le_prop (mem-cons.0 mt) (λ et. absurd (ne (es ∙ sym et)))
          (λ kt. rw es ((Pairwise-cons.0 h).0 t kt)))
      (λ ks.
        Or.elim le_prop (mem-cons.0 mt) (λ et. rw et (omega (arith, (Pairwise-cons.0 h).0 s ks)))
          (λ kt. Separados-mem segs s t (Pairwise-cons.0 h).1 ks kt ne))

-- A read in the segment `t` after a write in the segment `s` of another process.
pub leer-escrito :
    (u : Umv) (s t : Seg) (o n o' n' : ℕ) (buffer : List ℕ)
    → Separados s t
    → o + n ≤ largo s
    → o' + n' ≤ largo t
    → leer (escrito u s o n buffer).mem_prin (inicio t + o') n' ≡ leer u.mem_prin (inicio t + o') n'
leer-escrito u s t o n o' n' buffer h hs ht =
    leer-escribir_apart u.mem_prin (inicio s + o) (take n buffer) (inicio t + o') n'
      (omega (arith, length-take n buffer))
