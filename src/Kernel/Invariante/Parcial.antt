-- ===== src/Kernel/Invariante/Parcial.antt =====
-- The kernel's state in the middle of a step, while a process stands in no queue.
use tp_2014_1c_tp_so.Base.{
  ℕ, suc, ◌+◌, ◌≡◌, sym, ap, ◌≢◌, inl, inr, List, [], ◌∷◌, ◌++◌, some, length, arith, list_remove,
}
use tp_2014_1c_tp_so.Base.Int.{ℤ, pos, ◌==ℤ◌}
use tp_2014_1c_tp_so.Base.Outcome.{ok}
use tp_2014_1c_tp_so.Kernel.Estado.{Cpu, PcbOtros, Kernel}
use tp_2014_1c_tp_so.Kernel.Colas.{rotar_hasta, get_pcb_otros_exec, pasar_pcb_exit, pasar_ready}
use tp_2014_1c_tp_so.Kernel.Colas.Cuentas.{
  uno, veces, en_cpus, veces-push, en_cpus-push, length-push, Sacado, rotar_hasta-Sacado,
  Ninguno-veces, list_remove-en_cpus,
}
use tp_2014_1c_tp_so.Kernel.Cpus.{
  sacar_cpu, get_cpu_soc_cpu_remove, sacar_exec, liberar_cpu, quitar_soc_cpu,
}
use tp_2014_1c_tp_so.Kernel.Invariante.{total, Valido, Bien, Ocupada}

pub sacar_exec_lem :
    (cola : List PcbOtros) (id : ℤ)
    → veces id cola ≢ 0
    → (x : PcbOtros) × (resto : List PcbOtros) × ((j : Kernel)
        → j.cola_exec ≡ cola
        → sacar_exec j id ≡ ok (x, record j { cola_exec = resto }))
      × (x.pcb.id ≡ id)
      × Sacado cola x resto
      × (rotar_hasta (length cola) (λ y. id ==ℤ y.pcb.id) cola ≡ (some x, resto))
unfolding sacar_exec get_pcb_otros_exec
sacar_exec_lem cola id h = elim (rotar_hasta-Sacado (λ x. id ==ℤ x.pcb.id) cola) [
  | inl (n, r) ↦ absurd (h (Ninguno-veces id cola n))
  | inr (x, resto, r, p, s) ↦
      (x, resto, λ j e. let q = rw (sym e) at r in ground (arith, q), ground arith, s, r)
]

-- In the middle of a step: `j` is a valid state of the kernel but for the process `x`, which stands in
-- no queue and was in `k`.
pub record Parcial (grado : ℕ) (k : Kernel) (x : PcbOtros) (j : Kernel) : Type 0 where
  pub nuevos : j.cant_new ≡ length j.cola_new
  pub listos : j.cant_ready ≡ length j.cola_ready
  pub salidos : j.cant_exit ≡ length j.cola_exit
  pub libres : j.cant_cpu_libres ≡ en_cpus (pos 0) j.lista_cpu
  pub ocupadas : (id : ℤ) → id ≢ pos 0 → en_cpus id j.lista_cpu ≡ veces id j.cola_exec
  pub numerados : total (pos 0) j ≡ 0
  pub numerado : uno x.pcb.id (pos 0) ≡ 0
  pub mismos : (id : ℤ) → total id j + uno x.pcb.id id ≡ total id k
  pub multiprog :
      j.cant_multiprog + length j.cola_ready + length j.cola_exec + length j.cola_block + 1 ≡ grado

module _ (grado : ℕ) (k : Kernel) (x : PcbOtros) (j : Kernel) (h : Parcial grado k x j) where
  pub Parcial-ready : (y : PcbOtros) → y.pcb.id ≡ x.pcb.id → Bien grado k (pasar_ready j y)
  Parcial-ready y e = record {
    valido = record {
      nuevos = h.nuevos;
      listos = omega (arith, h.listos, length-push j.cola_ready y);
      salidos = h.salidos;
      libres = h.libres;
      ocupadas = h.ocupadas;
      numerados = omega (
        arith,
        h.numerados,
        h.numerado,
        veces-push (pos 0) j.cola_ready y,
        ap (λ z. uno z (pos 0)) e,
      );
      multiprog = omega (arith, h.multiprog, length-push j.cola_ready y);
    };
    mismos = λ id. omega (arith, h.mismos id, veces-push id j.cola_ready y, ap (λ z. uno z id) e);
  }

  pub Parcial-block :
      (y : PcbOtros)
      → y.pcb.id ≡ x.pcb.id
      → Bien grado k (record j { cola_block = j.cola_block ++ (y ∷ []) })
  Parcial-block y e = record {
    valido = record {
      nuevos = h.nuevos;
      listos = h.listos;
      salidos = h.salidos;
      libres = h.libres;
      ocupadas = h.ocupadas;
      numerados = omega (
        arith,
        h.numerados,
        h.numerado,
        veces-push (pos 0) j.cola_block y,
        ap (λ z. uno z (pos 0)) e,
      );
      multiprog = omega (arith, h.multiprog, length-push j.cola_block y);
    };
    mismos = λ id. omega (arith, h.mismos id, veces-push id j.cola_block y, ap (λ z. uno z id) e);
  }

  pub Parcial-exit : (y : PcbOtros) → y.pcb.id ≡ x.pcb.id → Bien grado k (pasar_pcb_exit j (some y))
  unfolding pasar_pcb_exit
  Parcial-exit y e = record {
    valido = record {
      nuevos = h.nuevos;
      listos = h.listos;
      salidos = omega (arith, h.salidos, length-push j.cola_exit y);
      libres = h.libres;
      ocupadas = h.ocupadas;
      numerados = omega (
        arith,
        h.numerados,
        h.numerado,
        veces-push (pos 0) j.cola_exit y,
        ap (λ z. uno z (pos 0)) e,
      );
      multiprog = omega (arith, h.multiprog);
    };
    mismos = λ id. omega (arith, h.mismos id, veces-push id j.cola_exit y, ap (λ z. uno z id) e);
  }

  pub Parcial-libera : (c : Cpu) → Parcial grado k x (liberar_cpu j c)
  Parcial-libera c =
      let d : Cpu = record c { id_prog_exec = pos 0; soc_prog = pos 0 } in
      record {
        nuevos = h.nuevos;
        listos = h.listos;
        salidos = h.salidos;
        libres = omega (arith, h.libres, en_cpus-push (pos 0) j.lista_cpu d);
        ocupadas = λ id ne. ground (arith, h.ocupadas id ne, en_cpus-push id j.lista_cpu d);
        numerados = h.numerados;
        numerado = h.numerado;
        mismos = h.mismos;
        multiprog = h.multiprog;
      }

  pub Parcial-soc : (soc_cpu : ℤ) → Parcial grado k x (quitar_soc_cpu j soc_cpu)
  Parcial-soc soc_cpu = record {
    nuevos = h.nuevos;
    listos = h.listos;
    salidos = h.salidos;
    libres = h.libres;
    ocupadas = h.ocupadas;
    numerados = h.numerados;
    numerado = h.numerado;
    mismos = h.mismos;
    multiprog = h.multiprog;
  }

-- The turn of the CPU: the CPU, its process, and what is left of the list and of EXEC.
pub record Turno (k : Kernel) (soc_cpu : ℤ) : Type 0 where
  pub cpu : Cpu
  pub cpus : List Cpu
  pub elegido : PcbOtros
  pub exec : List PcbOtros
  pub activa : cpu.id_prog_exec ≢ pos 0
  pub es_suyo : elegido.pcb.id ≡ cpu.id_prog_exec
  pub esta : list_remove (λ c. c.soc_cpu ==ℤ soc_cpu) k.lista_cpu ≡ some (cpu, cpus)
  pub ejecuta :
      rotar_hasta (length k.cola_exec) (λ y. cpu.id_prog_exec ==ℤ y.pcb.id) k.cola_exec
      ≡ (some elegido, exec)
  pub saca : get_cpu_soc_cpu_remove k soc_cpu ≡ ok (cpu, record k { lista_cpu = cpus })
  pub toma :
      (j : Kernel)
      → j.cola_exec ≡ k.cola_exec
      → sacar_exec j cpu.id_prog_exec ≡ ok (elegido, record j { cola_exec = exec })
  pub largo : length k.cola_exec ≡ suc (length exec)
  pub cuenta : (id : ℤ) → veces id k.cola_exec ≡ uno elegido.pcb.id id + veces id exec
  pub cuenta_cpus : (id : ℤ) → en_cpus id k.lista_cpu ≡ uno cpu.id_prog_exec id + en_cpus id cpus

pub turno_lem :
    (grado : ℕ) (k : Kernel) (soc_cpu : ℤ) → Valido grado k → Ocupada k soc_cpu → Turno k soc_cpu
unfolding get_cpu_soc_cpu_remove sacar_cpu
turno_lem grado k soc_cpu v o =
    let c = list_remove-en_cpus (λ c. c.soc_cpu ==ℤ soc_cpu) k.lista_cpu o.cpu o.resto o.esta in
    let id = o.cpu.id_prog_exec in
    let hay : veces id k.cola_exec ≢ 0 =
      λ e. absurd (ground (arith, c.1 id, v.ocupadas id o.activa)) in
    let x = sacar_exec_lem k.cola_exec id hay in
    record {
      cpu = o.cpu;
      cpus = o.resto;
      elegido = x.0;
      exec = x.1;
      activa = o.activa;
      es_suyo = x.3;
      esta = o.esta;
      ejecuta = x.5;
      saca = ground (arith, o.esta);
      toma = x.2;
      largo = x.4.largo;
      cuenta = x.4.cuenta;
      cuenta_cpus = c.1;
    }

-- The state without the CPU and its process.
pub Turno-Parcial :
    (grado : ℕ) (k : Kernel) (soc_cpu : ℤ) (t : Turno k soc_cpu)
    → Valido grado k
    → Parcial grado k t.elegido (record k { lista_cpu = t.cpus; cola_exec = t.exec })
Turno-Parcial grado k soc_cpu t v = record {
  nuevos = v.nuevos;
  listos = v.listos;
  salidos = v.salidos;
  libres = ground (arith, v.libres, t.cuenta_cpus (pos 0), t.activa);
  ocupadas = λ id ne.
      ground (arith, v.ocupadas id ne, t.cuenta_cpus id, t.cuenta id, ap (λ z. uno z id) t.es_suyo);
  numerados = omega (arith, v.numerados, t.cuenta (pos 0));
  numerado = omega (arith, v.numerados, t.cuenta (pos 0));
  mismos = λ id. omega (arith, t.cuenta id);
  multiprog = omega (arith, v.multiprog, t.largo);
}
