-- ===== src/Kernel/Invariante/Semaforos.antt =====
-- `wait` and `signal` on a valid state.
use tp_2014_1c_tp_so.Base.{
  ℕ, ◌+◌, ◌-◌, ◌^◌, ◌≤◌, ◌<◌, ◌≡◌, refl, ◌∙◌, ◌≢◌, ◌⊎◌, true, false, inl, inr, List, [], ◌∷◌, ◌++◌,
  some, length, arith, if◌then◌else◌, Bool-cases, List-cases,
}
use tp_2014_1c_tp_so.Base.Int.{ℤ, pos, pos_part, neg_part, ltb_ℤ}
use tp_2014_1c_tp_so.Base.Words.{add32, sub32}
use tp_2014_1c_tp_so.Base.Outcome.{ok}
use tp_2014_1c_tp_so.Mensajes.{MenComun}
use tp_2014_1c_tp_so.Mensajes.Tipos.{sem_ok, sem_bloqueado}
use tp_2014_1c_tp_so.Kernel.Estado.{Semaforo, Kernel, avisar, Siguientes, llegan}
use tp_2014_1c_tp_so.Base.Diccionario.{
  clave_de, dictionary_get, dictionary_put, dictionary_get-dictionary_put,
  dictionary_get-dictionary_put_ne,
}
use tp_2014_1c_tp_so.Kernel.Colas.{pasar_pcb_block_ready}
use tp_2014_1c_tp_so.Kernel.Colas.Cuentas.{length-push}
use tp_2014_1c_tp_so.Kernel.Servicios.{wait, signal}
use tp_2014_1c_tp_so.Kernel.Invariante.{Valido, Bien, Ocupada}
use tp_2014_1c_tp_so.Kernel.Invariante.Pedidos.{
  Valido-dicc_sem, Despertado, pasar_pcb_block_ready-Bien, pasar_pcb_block_ready-Despertado,
}
use tp_2014_1c_tp_so.Kernel.Invariante.Turnos.{Bloqueado, Bloqueado-dicc, bloquear-Bien}

-- A semaphore below 0 has as many processes waiting as it is below, and otherwise none waits.
abbrev pub SemValido : Semaforo → Type 0
SemValido s = length s.procesos ≡ neg_part s.valor

-- How `wait` and `signal` end on the semaphore `nombre`, which was `s`: what is sent to the CPU, and what
-- the semaphore is now. No other semaphore changes.
pub record SemHecho (grado : ℕ) (k : Kernel) (nombre : List ℕ) (k' : Kernel) (s' : Semaforo)
    : Type 0 where
  pub bien : Bien grado k k'
  pub ahora : dictionary_get nombre k'.dicc_sem ≡ some s'
  pub otros : (m : List ℕ) → nombre ≢ m → dictionary_get m k'.dicc_sem ≡ dictionary_get m k.dicc_sem

-- Where the process of `wait` is, and the queue of the semaphore: if it was above 0, nothing but the
-- semaphore's value changes; else the process that the CPU executes is blocked, and stands at the
-- end of the semaphore's queue.
abbrev pub Espera : Kernel → ℤ → Siguientes → Semaforo → Kernel → Semaforo → Type 0
Espera k soc_cpu sig s k' s' =
    ((ltb_ℤ (pos 0) s.valor ≡ true)
      × (k' ≡ record k { dicc_sem = k'.dicc_sem })
      × (s'.procesos ≡ s.procesos))
    ⊎ ((ltb_ℤ (pos 0) s.valor ≡ false)
        × (b : Bloqueado k soc_cpu sig.pcb k') × (s'.procesos
            ≡ s.procesos ++ (b.cpu.id_prog_exec ∷ [])))

-- Whom `signal` wakes: the process that has waited for the semaphore longest, if there is one.
abbrev pub Despierta : Kernel → Semaforo → Kernel → Semaforo → Type 0
Despierta k s k' s' =
    ((s.procesos ≡ []) × (s'.procesos ≡ []) × (k' ≡ record k { dicc_sem = k'.dicc_sem }))
    ⊎ ((id : ℤ) × (s.procesos ≡ id ∷ s'.procesos) × Despertado k id k')

sub32-uno :
    (z : ℤ)
    → neg_part z < 2 ^ 31
    → pos_part z < 2 ^ 31
    → pos_part z + neg_part (sub32 z (pos 1)) ≡ pos_part (sub32 z (pos 1)) + neg_part z + 1
unfolding sub32
sub32-uno z h p = ground arith

add32-uno :
    (z : ℤ)
    → neg_part z ≤ 2 ^ 31
    → pos_part z + 1 < 2 ^ 31
    → pos_part z + neg_part (add32 z (pos 1)) + 1 ≡ pos_part (add32 z (pos 1)) + neg_part z
unfolding add32
add32-uno z h p = ground arith

pub wait_efecto :
    (grado : ℕ) (k : Kernel) (soc_cpu : ℤ) (men_cpu : MenComun) (sig : Siguientes) (s : Semaforo)
    (nombre : List ℕ)
    → clave_de men_cpu.dato ≡ ok nombre
    → Valido grado k
    → Ocupada k soc_cpu
    → dictionary_get nombre k.dicc_sem ≡ some s
    → (k' : Kernel) × (s' : Semaforo) × (wait k soc_cpu men_cpu (llegan sig)
        ≡ ok (k', avisar soc_cpu (if ltb_ℤ (pos 0) s.valor then sem_ok else sem_bloqueado) ∷ []))
      × SemHecho grado k nombre k' s'
      × (s'.valor ≡ sub32 s.valor (pos 1))
      × (length s'.procesos ≡ length s.procesos + (if ltb_ℤ (pos 0) s.valor then 0 else 1))
      × Espera k soc_cpu sig s k' s'
unfolding wait
wait_efecto grado k soc_cpu men_cpu sig s nombre c v o e =
    let s1 : Semaforo = record s { valor = sub32 s.valor (pos 1) } in
    let d1 = dictionary_put nombre s1 k.dicc_sem in
    let k1 : Kernel = record k { dicc_sem = d1 } in
    elim (Bool-cases (ltb_ℤ (pos 0) s.valor)) [
      | inl t ↦ (
        k1,
        s1,
        ground (arith, c, e, t),
        record {
          bien = record { valido = Valido-dicc_sem grado k d1 v; mismos = λ id. refl };
          ahora = dictionary_get-dictionary_put nombre s1 k.dicc_sem;
          otros = λ m ne. dictionary_get-dictionary_put_ne nombre m s1 k.dicc_sem ne;
        },
        refl,
        rw t (omega arith),
        inl (t, refl, refl),
      )
      | inr t ↦
          let v1 = Valido-dicc_sem grado k d1 v in
          let o1 : Ocupada k1 soc_cpu = record {
            cpu = o.cpu;
            resto = o.resto;
            esta = o.esta;
            activa = o.activa;
          } in
          let b = bloquear-Bien grado k1 soc_cpu sig v1 o1 in
          let s2 : Semaforo = record s1 { procesos = s1.procesos ++ (b.0.id_prog_exec ∷ []) } in
          (
            record b.2 { dicc_sem = dictionary_put nombre s2 b.2.dicc_sem },
            s2,
            ground (arith, c, e, t, b.3, b.4),
            record {
              bien = record {
                valido = Valido-dicc_sem grado b.2 _ b.5.valido;
                mismos = b.5.mismos;
              };
              ahora = dictionary_get-dictionary_put nombre s2 b.2.dicc_sem;
              otros = λ m ne.
                  dictionary_get-dictionary_put_ne nombre m s2 b.2.dicc_sem ne
                  ∙ rw b.6 (dictionary_get-dictionary_put_ne nombre m s1 k.dicc_sem ne);
            },
            refl,
            rw t (omega (arith, length-push s.procesos b.0.id_prog_exec)),
            inr (t, Bloqueado-dicc k.dicc_sem _ b.2.dicc_disp_io b.9, rw b.10 refl),
          )
    ]

-- `wait` on a semaphore that exists, is valid and has an `int32_t` for its value, for a CPU that executes
-- a process in a valid state, when the name is there and the
-- messages that the kernel waits for come whole: the semaphore goes down by one.
-- If it was above 0 the CPU is told to go on, and nothing else changes; else the CPU's process leaves
-- EXEC, goes to the end of BLOCK with the place that the CPU sends, and to the end of the
-- semaphore's queue, and the CPU is told so. No other semaphore changes; the state and the semaphore
-- stay valid.
pub wait-SemHecho :
    (grado : ℕ) (k : Kernel) (soc_cpu : ℤ) (men_cpu : MenComun) (sig : Siguientes) (s : Semaforo)
    (nombre : List ℕ)
    → clave_de men_cpu.dato ≡ ok nombre
    → Valido grado k
    → Ocupada k soc_cpu
    → dictionary_get nombre k.dicc_sem ≡ some s
    → SemValido s
    → pos_part s.valor < 2 ^ 31
    → neg_part s.valor < 2 ^ 31
    → (k' : Kernel) × (s' : Semaforo) × (wait k soc_cpu men_cpu (llegan sig)
        ≡ ok (k', avisar soc_cpu (if ltb_ℤ (pos 0) s.valor then sem_ok else sem_bloqueado) ∷ []))
      × SemHecho grado k nombre k' s'
      × (s'.valor ≡ sub32 s.valor (pos 1))
      × SemValido s'
      × Espera k soc_cpu sig s k' s'
wait-SemHecho grado k soc_cpu men_cpu sig s nombre c v o e sv hp hn =
    let w = wait_efecto grado k soc_cpu men_cpu sig s nombre c v o e in
    (w.0, w.1, w.2, w.3, w.4, ground (arith, sub32-uno s.valor hn hp, w.4, w.5), w.6)

pasar_pcb_block_ready-dicc_sem :
    (k : Kernel) (id : ℤ) → (pasar_pcb_block_ready k id).dicc_sem ≡ k.dicc_sem
unfolding pasar_pcb_block_ready
pasar_pcb_block_ready-dicc_sem k id = ground arith

pub signal_efecto :
    (grado : ℕ) (k : Kernel) (soc_cpu : ℤ) (men_cpu : MenComun) (s : Semaforo) (nombre : List ℕ)
    → clave_de men_cpu.dato ≡ ok nombre
    → Valido grado k
    → dictionary_get nombre k.dicc_sem ≡ some s
    → (k' : Kernel) × (s' : Semaforo) × (signal k soc_cpu men_cpu
        ≡ ok (k', avisar soc_cpu sem_ok ∷ []))
      × SemHecho grado k nombre k' s'
      × (s'.valor ≡ add32 s.valor (pos 1))
      × (length s'.procesos ≡ length s.procesos - 1)
      × Despierta k s k' s'
signal_efecto grado k soc_cpu men_cpu s nombre c v e =
    let s1 : Semaforo = record s { valor = add32 s.valor (pos 1) } in
    elim (List-cases s.procesos) [
      | inl q ↦
          let d1 = dictionary_put nombre s1 k.dicc_sem in
          (
            record k { dicc_sem = d1 },
            s1,
            unfold signal in ground (arith, c, e, q),
            record {
              bien = record { valido = Valido-dicc_sem grado k d1 v; mismos = λ id. refl };
              ahora = dictionary_get-dictionary_put nombre s1 k.dicc_sem;
              otros = λ m ne. dictionary_get-dictionary_put_ne nombre m s1 k.dicc_sem ne;
            },
            refl,
            rw q (omega arith),
            inl (q, q, refl),
          )
      | inr (id, ids, q) ↦
          let s2 : Semaforo = record s1 { procesos = ids } in
          let k1 : Kernel = record k { dicc_sem = dictionary_put nombre s2 k.dicc_sem } in
          let mismo = pasar_pcb_block_ready-dicc_sem k1 id in
          let b = pasar_pcb_block_ready-Bien grado k1 id (Valido-dicc_sem grado k _ v) in
          (
            pasar_pcb_block_ready k1 id,
            s2,
            unfold signal in ground (arith, c, e, q),
            record {
              bien = record { valido = b.valido; mismos = b.mismos };
              ahora = rw mismo (dictionary_get-dictionary_put nombre s2 k.dicc_sem);
              otros = λ m ne. rw mismo (dictionary_get-dictionary_put_ne nombre m s2 k.dicc_sem ne);
            },
            refl,
            rw q (omega arith),
            inr (id, q, pasar_pcb_block_ready-Despertado k1 id),
          )
    ]

-- `signal`, in a valid state, on a semaphore that exists, is valid and is below the greatest `int32_t`:
-- it goes up by one, and the CPU is told to go on. The process that
-- has waited for it longest, if there is one, leaves the semaphore's queue, and goes from BLOCK to the
-- end of READY if it is still in BLOCK; the processes before it in BLOCK then stand behind the
-- others. No other semaphore changes; the state and the semaphore stay valid.
pub signal-SemHecho :
    (grado : ℕ) (k : Kernel) (soc_cpu : ℤ) (men_cpu : MenComun) (s : Semaforo) (nombre : List ℕ)
    → clave_de men_cpu.dato ≡ ok nombre
    → Valido grado k
    → dictionary_get nombre k.dicc_sem ≡ some s
    → SemValido s
    → pos_part s.valor + 1 < 2 ^ 31
    → neg_part s.valor ≤ 2 ^ 31
    → (k' : Kernel) × (s' : Semaforo) × (signal k soc_cpu men_cpu
        ≡ ok (k', avisar soc_cpu sem_ok ∷ []))
      × SemHecho grado k nombre k' s'
      × (s'.valor ≡ add32 s.valor (pos 1))
      × SemValido s'
      × Despierta k s k' s'
signal-SemHecho grado k soc_cpu men_cpu s nombre c v e sv hp hn =
    let w = signal_efecto grado k soc_cpu men_cpu s nombre c v e in
    (w.0, w.1, w.2, w.3, w.4, ground (arith, add32-uno s.valor hn hp, w.4, w.5), w.6)
