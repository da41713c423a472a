-- ===== src/Kernel/Invariante/Multiprogramacion.antt =====
-- `cambiar_multiprog` on a valid state.
use tp_2014_1c_tp_so.Base.{
  ℕ, suc, ◌+◌, ◌-◌, ◌^◌, ◌<◌, ◌≡◌, true, inl, inr, length, arith, leb, ltb, if◌then◌else◌,
  Bool-cases,
}
use tp_2014_1c_tp_so.Base.Int.{pos, negsuc}
use tp_2014_1c_tp_so.Base.Words.{mul32, sub32-pos, sub32-negative, mul32-opposite}
use tp_2014_1c_tp_so.Kernel.Estado.{Kernel}
use tp_2014_1c_tp_so.Kernel.Planificador.{cambiar_multiprog}
use tp_2014_1c_tp_so.Kernel.Invariante.{Valido}

abbrev cant_progs : Kernel → ℕ
cant_progs k = length k.cola_ready + length k.cola_block + length k.cola_exec

-- More processes may come in.
cambiar_multiprog-sube :
    (k : Kernel) (n : ℕ)
    → cant_progs k + k.cant_multiprog < n
    → n < 2 ^ 31
    → cambiar_multiprog k (pos n) ≡ record k { cant_multiprog = n - cant_progs k }
unfolding cambiar_multiprog
cambiar_multiprog-sube k n h hn =
    rw (sub32-pos n (cant_progs k + k.cant_multiprog) (omega arith) hn) (ground arith)

-- The same number, or fewer.
cambiar_multiprog-baja :
    (k : Kernel) (n : ℕ)
    → n < cant_progs k + k.cant_multiprog
    → cant_progs k + k.cant_multiprog < 2 ^ 31
    → cambiar_multiprog k (pos n)
      ≡ (if leb (cant_progs k) n then record k { cant_multiprog = n - cant_progs k } else k)
unfolding cambiar_multiprog
cambiar_multiprog-baja k n h hg =
    let g = cant_progs k + k.cant_multiprog in
    let opuesto : mul32 (negsuc (g - n - 1)) (negsuc 0) ≡ pos (suc (g - n - 1)) =
      mul32-opposite (g - n - 1) (omega arith) in
    rw (sub32-negative n g h (omega arith), opuesto) (ground arith)

cambiar_multiprog-igual :
    (k : Kernel) (n : ℕ)
    → n ≡ cant_progs k + k.cant_multiprog
    → n < 2 ^ 31
    → cambiar_multiprog k (pos n) ≡ record k { cant_multiprog = n - cant_progs k }
unfolding cambiar_multiprog mul32
cambiar_multiprog-igual k n h hn =
    rw (sub32-pos n (cant_progs k + k.cant_multiprog) (omega arith) hn) (ground arith)

cambiar_multiprog_lem :
    (k : Kernel) (n : ℕ)
    → cant_progs k + k.cant_multiprog < 2 ^ 31
    → n < 2 ^ 31
    → cambiar_multiprog k (pos n)
      ≡ (if leb (cant_progs k) n then record k { cant_multiprog = n - cant_progs k } else k)
cambiar_multiprog_lem k n hg hn =
    let g = cant_progs k + k.cant_multiprog in
    elim (Bool-cases (ltb n g)) [
      | inl b ↦ cambiar_multiprog-baja k n (ground arith) hg
      | inr b ↦
          let cabe : leb (cant_progs k) n ≡ true = ground arith in
          rw cabe (elim (Bool-cases (ltb g n)) [
            | inl s ↦ cambiar_multiprog-sube k n (ground arith) hn
            | inr s ↦ cambiar_multiprog-igual k n (ground arith) hn
          ])
    ]

-- A new degree of multiprogramming: it holds from then on if the processes in READY, EXEC and BLOCK are
-- not more already, and otherwise nothing changes.
pub cambiar_multiprog-Valido :
    (grado n : ℕ) (k : Kernel)
    → Valido grado k
    → grado < 2 ^ 31
    → n < 2 ^ 31
    → let progs = length k.cola_ready + length k.cola_block + length k.cola_exec in
      if leb progs n
      then Valido n (cambiar_multiprog k (pos n))
      else cambiar_multiprog k (pos n) ≡ k
cambiar_multiprog-Valido grado n k v hg hn =
    let e = cambiar_multiprog_lem k n (omega (arith, v.multiprog)) hn in
    elim (Bool-cases (leb (cant_progs k) n)) [
      | inl s ↦
          let q : cambiar_multiprog k (pos n) ≡ record k { cant_multiprog = n - cant_progs k } =
            rw s at e in
          rw (s, q)
            (record {
              nuevos = v.nuevos;
              listos = v.listos;
              salidos = v.salidos;
              libres = v.libres;
              ocupadas = v.ocupadas;
              numerados = v.numerados;
              multiprog = ground (arith, s);
            })
      | inr s ↦ let q : cambiar_multiprog k (pos n) ≡ k = rw s at e in rw s q
    ]
