-- ===== src/Kernel/Invariante/Rondas.antt =====
-- The rounds of the threads that move processes between the queues keep the state valid.
use tp_2014_1c_tp_so.Base.{
  ℕ, suc, ◌+◌, ◌-◌, ◌<◌, ◌≡◌, refl, ap, inl, inr, List, [], ◌∷◌, ◌++◌, some, Mem, length,
  length-append, arith, list_remove, if◌then◌else◌, Option-cases,
}
use tp_2014_1c_tp_so.Base.Int.{ℤ, pos, negsuc, ◌≤ℤ◌, ◌==ℤ◌}
use tp_2014_1c_tp_so.Base.Outcome.{ok}
use tp_2014_1c_tp_so.Mensajes.Tipos.{pcb_y_quantum, destr_segs}
use tp_2014_1c_tp_so.Kernel.Estado.{Cpu, PcbOtros, Kernel, a_cpu, a_umv, avisar}
use tp_2014_1c_tp_so.Kernel.Colas.{get_peso_min, pasar_ready}
use tp_2014_1c_tp_so.Kernel.Colas.PesoMinimo.{Elegido, get_peso_min-Elegido}
use tp_2014_1c_tp_so.Kernel.Colas.Cuentas.{
  uno, veces, en_cpus, veces-append, veces-push, en_cpus-push, length-push, list_remove-en_cpus,
  list_remove-libre,
}
use tp_2014_1c_tp_so.Kernel.Planificador.{
  manejador_new_ready, get_cpu_libre_remove, ejecutar, manejador_ready_exec, manejador_exit,
}
use tp_2014_1c_tp_so.Kernel.Invariante.{total, Valido, Bien}
use tp_2014_1c_tp_so.Kernel.Invariante.Parcial.{Parcial, Parcial-ready}

Elegido-cuenta :
    (cola : List PcbOtros) (x : PcbOtros) (resto : List PcbOtros)
    → Elegido cola x resto
    → (length cola ≡ suc (length resto))
      × ((id : ℤ) → veces id cola ≡ uno x.pcb.id id + veces id resto)
Elegido-cuenta cola x resto e =
    rw (e.cola_eq, e.resto_eq)
      (
        omega (arith, length-append e.antes (x ∷ e.despues), length-append e.despues e.antes),
        λ id.
            omega
              (arith, veces-append id e.antes (x ∷ e.despues), veces-append id e.despues e.antes),
      )

manejador_new_ready-eq :
    (k : Kernel) (n m : ℕ) (x : PcbOtros) (j : Kernel)
    → k.cant_new ≡ suc n
    → k.cant_multiprog ≡ suc m
    → get_peso_min (record k { cant_new = n; cant_multiprog = m }) ≡ (some x, j)
    → manejador_new_ready k ≡ ok (pasar_ready j x)
unfolding manejador_new_ready
manejador_new_ready-eq k n m x j en em g = ground (arith, g)

-- A round of `manejador_new_ready` on a valid state, where a process waits in NEW that weighs at most 1000000 and one more
-- may come in: the first of the lightest goes to the end of READY. The state stays valid, so that
-- READY, EXEC and BLOCK never hold more processes than the degree of multiprogramming.
pub manejador_new_ready-Bien :
    (grado : ℕ) (k : Kernel) (z : PcbOtros)
    → Valido grado k
    → Mem z k.cola_new
    → z.peso ≤ℤ pos 1000000
    → 0 < k.cant_multiprog
    → (k' : Kernel) × (x : PcbOtros) × (manejador_new_ready k ≡ ok k')
      × Bien grado k k'
      × Elegido k.cola_new x k'.cola_new
      × (k'.cola_ready ≡ k.cola_ready ++ (x ∷ []))
unfolding manejador_new_ready
manejador_new_ready-Bien grado k z v hz le hm =
    let n = k.cant_new - 1 in
    let m = k.cant_multiprog - 1 in
    let k0 : Kernel = record k { cant_new = n; cant_multiprog = m } in
    let g = get_peso_min-Elegido k0 z hz le in
    let c = Elegido-cuenta k.cola_new g.0 g.1 g.3 in
    let j : Kernel = record k0 { cola_new = g.1 } in
    let h : Parcial grado k g.0 j = record {
      nuevos = omega (arith, v.nuevos, c.0);
      listos = v.listos;
      salidos = v.salidos;
      libres = v.libres;
      ocupadas = v.ocupadas;
      numerados = omega (arith, v.numerados, c.1 (pos 0));
      numerado = omega (arith, v.numerados, c.1 (pos 0));
      mismos = λ id. omega (arith, c.1 id);
      multiprog = omega (arith, v.multiprog);
    } in
    let en : k.cant_new ≡ suc n = omega (arith, v.nuevos, c.0) in
    let em : k.cant_multiprog ≡ suc m = omega arith in
    (
      pasar_ready j g.0,
      g.0,
      manejador_new_ready-eq k n m g.0 j en em g.2,
      Parcial-ready grado k g.0 j h g.0 refl,
      g.3,
      refl,
    )

manejador_ready_exec-eq :
    (k : Kernel) (n m : ℕ) (c : Cpu) (cpus : List Cpu) (x : PcbOtros) (resto : List PcbOtros)
    → k.cant_ready ≡ suc n
    → k.cant_cpu_libres ≡ suc m
    → list_remove (λ c. c.id_prog_exec ==ℤ pos 0) k.lista_cpu ≡ some (c, cpus)
    → k.cola_ready ≡ x ∷ resto
    → manejador_ready_exec k
      ≡ ok (
          ejecutar
            (record k { cant_ready = n; cant_cpu_libres = m; lista_cpu = cpus; cola_ready = resto })
            c
            x)
unfolding manejador_ready_exec get_cpu_libre_remove
manejador_ready_exec-eq k n m c cpus x resto en em e er = ground (arith, e)

-- `c` is the first free CPU of `k`, and in `k'` it stands last with the process `x`.
abbrev pub Asignada : Kernel → Cpu → PcbOtros → Kernel → Type 0
Asignada k c x k' =
    (cpus : List Cpu) × (list_remove (λ d. d.id_prog_exec ==ℤ pos 0) k.lista_cpu ≡ some (c, cpus))
    × (k'.lista_cpu ≡ cpus ++ (record c { id_prog_exec = x.pcb.id; soc_prog = x.n_socket } ∷ []))

-- A round of `manejador_ready_exec` on a valid state, where a process waits in READY and a CPU is free: the process that
-- stands first goes to the end of EXEC, and the first free CPU gets it with the quantum, and goes to the
-- end of the list of CPUs. The state stays valid.
pub manejador_ready_exec-Bien :
    (grado : ℕ) (k : Kernel) (x : PcbOtros) (resto : List PcbOtros)
    → Valido grado k
    → k.cola_ready ≡ x ∷ resto
    → 0 < k.cant_cpu_libres
    → (k' : Kernel) × (c : Cpu) × (manejador_ready_exec k
        ≡ ok (
          k',
          a_cpu c.soc_cpu (record { tipo = pcb_y_quantum; quantum = k.quantum_max; pcb = x.pcb })
              ∷ [],
        ))
      × Bien grado k k'
      × (k'.cola_ready ≡ resto)
      × (k'.cola_exec ≡ k.cola_exec ++ (x ∷ []))
      × Asignada k c x k'
unfolding ejecutar
manejador_ready_exec-Bien grado k x resto v er hl =
    elim (Option-cases (list_remove (λ c. c.id_prog_exec ==ℤ pos 0) k.lista_cpu)) [
      | inl e ↦ absurd (omega (arith, v.libres, list_remove-libre k.lista_cpu e))
      | inr ((c, cpus), e) ↦
          let q = list_remove-en_cpus (λ c. c.id_prog_exec ==ℤ pos 0) k.lista_cpu c cpus e in
          let ocioso : c.id_prog_exec ≡ pos 0 = ground (arith, q.0) in
          let n = length resto in
          let m = en_cpus (pos 0) cpus in
          let en : k.cant_ready ≡ suc n = ground (arith, v.listos) in
          let em : k.cant_cpu_libres ≡ suc m = ground (arith, v.libres, q.1 (pos 0)) in
          let d : Cpu = record c { id_prog_exec = x.pcb.id; soc_prog = x.n_socket } in
          let numerado : uno x.pcb.id (pos 0) ≡ 0 = ground (arith, rw er at v.numerados) in
          (
            record k {
              cola_ready = resto;
              cant_ready = n;
              cant_cpu_libres = m;
              lista_cpu = cpus ++ (d ∷ []);
              cola_exec = k.cola_exec ++ (x ∷ []);
            },
            c,
            manejador_ready_exec-eq k n m c cpus x resto en em e er,
            record {
              valido = record {
                nuevos = v.nuevos;
                listos = refl;
                salidos = v.salidos;
                libres = omega (arith, en_cpus-push (pos 0) cpus d, numerado);
                ocupadas = λ id ne.
                    let z : uno c.id_prog_exec id ≡ 0 = ground (arith, ocioso, ne) in
                    omega (
                      arith,
                      z,
                      v.ocupadas id ne,
                      q.1 id,
                      en_cpus-push id cpus d,
                      veces-push id k.cola_exec x,
                    );
                numerados = omega (
                  arith,
                  v.numerados,
                  ap (veces (pos 0)) er,
                  veces-push (pos 0) k.cola_exec x,
                  numerado,
                );
                multiprog = omega (arith, v.multiprog, ap length er, length-push k.cola_exec x);
              };
              mismos = λ id. omega (arith, ap (veces id) er, veces-push id k.cola_exec x);
            },
            refl,
            refl,
            (cpus, e, refl),
          )
    ]

-- A round of `manejador_exit`: the process that left first is told how it ended, unless it closed, the
-- UMV is asked to destroy its segments, and it is in no queue any more. The state stays valid.
pub manejador_exit-Valido :
    (grado : ℕ) (k : Kernel) (x : PcbOtros) (resto : List PcbOtros)
    → Valido grado k
    → k.cola_exit ≡ x ∷ resto
    → (k' : Kernel) × (manejador_exit k
        ≡ ok (
          k',
          (if x.tipo_fin_ejecucion ==ℤ negsuc 0
                then []
                else avisar x.n_socket x.tipo_fin_ejecucion ∷ [])
              ++ (a_umv (record { tipo = destr_segs; id_prog = x.pcb.id; tam_seg = pos 0 }) ∷ []),
        ))
      × Valido grado k'
      × ((id : ℤ) → total id k ≡ uno x.pcb.id id + total id k')
unfolding manejador_exit
manejador_exit-Valido grado k x resto v er =
    let n = length resto in
    let en : k.cant_exit ≡ suc n = ground (arith, v.salidos) in
    (
      record k { cant_exit = n; cola_exit = resto },
      ground (arith, en),
      record {
        nuevos = v.nuevos;
        listos = v.listos;
        salidos = refl;
        libres = v.libres;
        ocupadas = v.ocupadas;
        numerados = ground (arith, rw er at v.numerados);
        multiprog = v.multiprog;
      },
      λ id. omega (arith, ap (veces id) er),
    )
