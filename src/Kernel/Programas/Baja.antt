-- ===== src/Kernel/Programas/Baja.antt =====
-- A program that closes its connection: `mover_pcb_exit`.
use mathlib.Core.List.{append-nil}
use tp_2014_1c_tp_so.Base.{
  ℕ, suc, ◌+◌, ◌≡◌, refl, ◌≢◌, inl, inr, List, [], ◌∷◌, ◌++◌, Option, none, some, length,
  length-append, arith, list_remove, Option-cases,
}
use tp_2014_1c_tp_so.Base.Int.{ℤ, pos, ◌==ℤ◌}
use tp_2014_1c_tp_so.Base.Outcome.{ok}
use tp_2014_1c_tp_so.Kernel.Estado.{PcbOtros, Kernel}
use tp_2014_1c_tp_so.Kernel.Colas.{buscar_pcb, pasar_pcb_exit, mover_pcb_exit}
use tp_2014_1c_tp_so.Kernel.Colas.Cuentas.{
  veces, en_cpus, veces-append, rotar_hasta-Sacado, list_remove-en_cpus, list_remove-libre,
}
use tp_2014_1c_tp_so.Kernel.Planificador.{manejador_ready_exec, get_cpu_libre_remove}
use tp_2014_1c_tp_so.Kernel.Invariante.{total, Valido}

-- The process that a search found, as a list.
abbrev pub hallados : Option PcbOtros → List PcbOtros
hallados none = []
hallados (some x) = x ∷ []

buscar_pcb-cuenta :
    (cola : List PcbOtros) (soc_prog : ℤ)
    → let r = buscar_pcb cola soc_prog in
      (length cola ≡ length (hallados r.0) + length r.1)
      × ((id : ℤ) → veces id cola ≡ veces id (hallados r.0) + veces id r.1)
unfolding buscar_pcb
buscar_pcb-cuenta cola soc_prog = elim (rotar_hasta-Sacado (λ x. x.n_socket ==ℤ soc_prog) cola) [
  | inl (n, r) ↦ rw r (omega arith, λ id. omega arith)
  | inr (x, resto, r, p, s) ↦ rw r (omega (arith, s.largo), λ id. omega (arith, s.cuenta id))
]

pasar_pcb_exit-eq :
    (k : Kernel) (o : Option PcbOtros)
    → pasar_pcb_exit k o ≡ record k {
      cola_exit = k.cola_exit ++ hallados o;
      cant_exit = k.cant_exit + length (hallados o);
      cant_multiprog = k.cant_multiprog + length (hallados o);
    }
unfolding pasar_pcb_exit
pasar_pcb_exit-eq k none = rw (append-nil k.cola_exit) (ground arith)
pasar_pcb_exit-eq k (some x) = refl

-- The state after the four searches.
pub mover_pcb_exit-eq :
    (k : Kernel) (soc_prog : ℤ)
    → let a = buscar_pcb k.cola_new soc_prog in
      let b = buscar_pcb k.cola_ready soc_prog in
      let c = buscar_pcb k.cola_block soc_prog in
      let d = buscar_pcb k.cola_exec soc_prog in
      mover_pcb_exit k soc_prog ≡ record k {
        cola_new = a.1;
        cola_ready = b.1;
        cola_block = c.1;
        cola_exec = d.1;
        cola_exit = k.cola_exit ++ hallados a.0 ++ hallados b.0 ++ hallados c.0 ++ hallados d.0;
        cant_exit =
            k.cant_exit
            + length (hallados a.0)
            + length (hallados b.0)
            + length (hallados c.0)
            + length (hallados d.0);
        cant_multiprog =
            k.cant_multiprog
            + length (hallados a.0)
            + length (hallados b.0)
            + length (hallados c.0)
            + length (hallados d.0);
      }
unfolding mover_pcb_exit
mover_pcb_exit-eq k soc_prog = simp pasar_pcb_exit-eq refl

-- `mover_pcb_exit` on a valid state loses no process, and EXIT is counted right; but nothing lowers the
-- semaphores of NEW and READY for the processes that it takes out of them: they are above the
-- lengths of the queues by as many.
pub mover_pcb_exit_lem :
    (grado : ℕ) (k : Kernel) (soc_prog : ℤ)
    → Valido grado k
    → let k' = mover_pcb_exit k soc_prog in
      ((id : ℤ) → total id k' ≡ total id k)
      × (k'.cant_exit ≡ length k'.cola_exit)
      × (k'.cant_new ≡ length k'.cola_new + length (hallados (buscar_pcb k.cola_new soc_prog).0))
      × (k'.cant_ready
          ≡ length k'.cola_ready + length (hallados (buscar_pcb k.cola_ready soc_prog).0))
mover_pcb_exit_lem grado k soc_prog v =
    let a = buscar_pcb k.cola_new soc_prog in
    let b = buscar_pcb k.cola_ready soc_prog in
    let c = buscar_pcb k.cola_block soc_prog in
    let d = buscar_pcb k.cola_exec soc_prog in
    let ca = buscar_pcb-cuenta k.cola_new soc_prog in
    let cb = buscar_pcb-cuenta k.cola_ready soc_prog in
    let cc' = buscar_pcb-cuenta k.cola_block soc_prog in
    let cd = buscar_pcb-cuenta k.cola_exec soc_prog in
    let e1 = k.cola_exit ++ hallados a.0 in
    let e2 = e1 ++ hallados b.0 in
    let e3 = e2 ++ hallados c.0 in
    rw (mover_pcb_exit-eq k soc_prog) (
      λ id. omega (
        arith,
        ca.1 id,
        cb.1 id,
        cc'.1 id,
        cd.1 id,
        veces-append id k.cola_exit (hallados a.0),
        veces-append id e1 (hallados b.0),
        veces-append id e2 (hallados c.0),
        veces-append id e3 (hallados d.0),
      ),
      omega (
        arith,
        v.salidos,
        length-append k.cola_exit (hallados a.0),
        length-append e1 (hallados b.0),
        length-append e2 (hallados c.0),
        length-append e3 (hallados d.0),
      ),
      omega (arith, v.nuevos, ca.0),
      omega (arith, v.listos, cb.0),
    )

-- A round of `manejador_ready_exec` that the semaphore lets in while READY is empty takes a free CPU out of the
-- list and does not put it back: there is one CPU less, which no process uses.
pub manejador_ready_exec-vacia :
    (k : Kernel) (n m : ℕ)
    → k.cola_ready ≡ []
    → k.cant_ready ≡ suc n
    → k.cant_cpu_libres ≡ suc m
    → en_cpus (pos 0) k.lista_cpu ≡ suc m
    → (k' : Kernel) × (manejador_ready_exec k ≡ ok (k', []))
      × (en_cpus (pos 0) k'.lista_cpu ≡ m)
      × ((id : ℤ) → id ≢ pos 0 → en_cpus id k'.lista_cpu ≡ en_cpus id k.lista_cpu)
      × (k'.cola_exec ≡ k.cola_exec)
manejador_ready_exec-vacia k n m er en em el =
    elim (Option-cases (list_remove (λ c. c.id_prog_exec ==ℤ pos 0) k.lista_cpu)) [
      | inl e ↦ absurd (omega (arith, el, list_remove-libre k.lista_cpu e))
      | inr ((c, cpus), e) ↦
          let q = list_remove-en_cpus (λ c. c.id_prog_exec ==ℤ pos 0) k.lista_cpu c cpus e in
          let ocioso : c.id_prog_exec ≡ pos 0 = ground (arith, q.0) in
          (
            record k { cant_ready = n; cant_cpu_libres = m; lista_cpu = cpus },
            unfold manejador_ready_exec get_cpu_libre_remove in ground (arith, e),
            ground (arith, q.1 (pos 0), el),
            λ id ne. ground (arith, q.1 id, ocioso, ne),
            refl,
          )
    ]
