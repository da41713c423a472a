-- ===== src/Kernel/Invariante/Inicio.antt =====
-- The kernel from its configuration on.
use tp_2014_1c_tp_so.Base.{
  ℕ, ◌+◌, ◌≤◌, ◌≡◌, refl, subst, List, [], ◌∷◌, some, length, arith, Bool-cases, inl, inr,
}
use tp_2014_1c_tp_so.Base.Outcome.{ok}
use tp_2014_1c_tp_so.Base.Diccionario.{misma_clave, dictionary_get, dictionary_put}
use tp_2014_1c_tp_so.Kernel.Estado.{Io, Semaforo, Kernel}
use tp_2014_1c_tp_so.Kernel.Servicios.{Texto}
use tp_2014_1c_tp_so.Kernel.Planificador.{crear_inicializar_estructuras}
use tp_2014_1c_tp_so.Kernel.Configuracion.{
  Config, crear_disp_io, crear_sem, crear_var, levantar_config,
}
use tp_2014_1c_tp_so.Kernel.Programas.{Entorno}
use tp_2014_1c_tp_so.Kernel.Invariante.{Valido}
use tp_2014_1c_tp_so.Kernel.Invariante.Pasos.{Corre, Corre-crear_inicializar_estructuras}

-- All the entries of a dictionary.
abbrev pub Todos : {A : Type 0} → (A → Type 0) → List (List ℕ × A) → Type 0
Todos P [] = Unit {0}
Todos P ((k, a) ∷ dicc) = P a × Todos P dicc

dictionary_put-Todos :
    {A : Type 0} (P : A → Type 0) (k : List ℕ) (a : A) (dicc : List (List ℕ × A))
    → P a
    → Todos P dicc
    → Todos P (dictionary_put k a dicc)
unfolding dictionary_put
dictionary_put-Todos P k a [] p h = (p, tt)
dictionary_put-Todos P k a ((j, b) ∷ dicc) p h = elim (Bool-cases (misma_clave j k)) [
  | inl e ↦ rw e (p, h.1)
  | inr e ↦ rw e (h.0, dictionary_put-Todos P k a dicc p h.1)
]

some_inj : {A : Type 0} {a b : A} → some a ≡ some b → a ≡ b
some_inj h = cc

-- An entry that is found is one of them.
dictionary_get-Todos :
    {A : Type 0} (P : A → Type 0) (k : List ℕ) (a : A) (dicc : List (List ℕ × A))
    → Todos P dicc
    → dictionary_get k dicc ≡ some a
    → P a
unfolding dictionary_get
dictionary_get-Todos P k a [] h q = cc
dictionary_get-Todos P k a ((j, b) ∷ dicc) h q = elim (Bool-cases (misma_clave j k)) [
  | inl e ↦ subst P (some_inj (rw e at q)) h.0
  | inr e ↦ dictionary_get-Todos P k a dicc h.1 (rw e at q)
]

abbrev pub SinEspera : Semaforo → Type 0
SinEspera s = s.procesos ≡ []

abbrev pub SinPedidos : Io → Type 0
SinPedidos io = (io.procesos ≡ []) × (io.cont_cant_proc ≡ 0)

module _ (t : Texto) where
  crear_sem-Todos :
      (ids valores : List (List ℕ)) (dicc : List (List ℕ × Semaforo))
      → length ids ≤ length valores
      → Todos SinEspera dicc
      → (d : List (List ℕ × Semaforo)) × (crear_sem t ids valores dicc ≡ ok d) × Todos SinEspera d
  unfolding crear_sem
  crear_sem-Todos [] valores dicc h p = (dicc, refl, p)
  crear_sem-Todos (id ∷ ids) [] dicc h p = absurd (omega arith)
  crear_sem-Todos (id ∷ ids) (v ∷ valores) dicc h p =
      crear_sem-Todos ids valores _ (omega arith)
        (dictionary_put-Todos SinEspera id (record { valor = t.atoi v; procesos = [] }) dicc refl p)

  crear_disp_io-Todos :
      (ids sleeps : List (List ℕ)) (dicc : List (List ℕ × Io))
      → length ids ≤ length sleeps
      → Todos SinPedidos dicc
      → (d : List (List ℕ × Io)) × (crear_disp_io t ids sleeps dicc ≡ ok d) × Todos SinPedidos d
  unfolding crear_disp_io
  crear_disp_io-Todos [] sleeps dicc h p = (dicc, refl, p)
  crear_disp_io-Todos (id ∷ ids) [] dicc h p = absurd (omega arith)
  crear_disp_io-Todos (id ∷ ids) (s ∷ sleeps) dicc h p =
      crear_disp_io-Todos ids sleeps _ (omega arith) (
        dictionary_put-Todos SinPedidos id
          (record { io_sleep = t.atoi s; procesos = []; cont_cant_proc = 0 }) dicc (refl, refl) p)

  -- The kernel starts, if its configuration has a number for each device and each semaphore: no
  -- process waits for a semaphore or a device then. After any rounds of `Ronda` from there, in
  -- whatever order, READY, EXEC and BLOCK hold at
  -- most as many processes as the configured degree of multiprogramming; each CPU executes a
  -- process of EXEC, and each process of EXEC is executed by exactly as many CPUs as it is there
  -- times; the semaphores count the queues and the free CPUs. Those rounds are the ones in which no
  -- program closes its connection and the degree is not changed by the menu; in which a CPU that
  -- executes no process only closes its connection, and one that does sends messages that `Atendible`
  -- allows and that come whole; in which the number of a new program is an `int32_t`, and the UMV
  -- answers its script; and in which
  -- `manejador_new_ready`, when it is let in, finds a process in NEW of weight 1000000 at most.
  pub Corre-levantar_config :
      (e : Entorno) (c : Config)
      → length c.id_hio ≤ length c.hio
      → length c.semaforos ≤ length c.valor_semaforo
      → (k : Kernel) × (levantar_config t c ≡ ok k)
        × ((nombre : List ℕ) (s : Semaforo)
            → dictionary_get nombre k.dicc_sem ≡ some s
            → SinEspera s)
        × ((nombre : List ℕ) (io : Io)
            → dictionary_get nombre k.dicc_disp_io ≡ some io
            → SinPedidos io)
        × ((k' : Kernel)
            → Corre e k k'
            → Valido c.multiprogramacion k'
              × (length k'.cola_ready + length k'.cola_exec + length k'.cola_block
                  ≤ c.multiprogramacion))
  unfolding levantar_config crear_inicializar_estructuras
  Corre-levantar_config e c hi hs =
      let io = crear_disp_io-Todos c.id_hio c.hio [] hi tt in
      let sem = crear_sem-Todos c.semaforos c.valor_semaforo [] hs tt in
      let var = crear_var t c.variables_globales [] in
      (
        crear_inicializar_estructuras c.multiprogramacion c.quantum c.tamanio_stack io.0 var sem.0,
        rw (io.1, sem.1) refl,
        λ nombre s q. dictionary_get-Todos SinEspera nombre s sem.0 sem.2 q,
        λ nombre d q. dictionary_get-Todos SinPedidos nombre d io.0 io.2 q,
        λ k' r.
            Corre-crear_inicializar_estructuras e c.multiprogramacion c.quantum c.tamanio_stack io.0
              var sem.0 r,
      )
