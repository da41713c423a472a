-- ===== src/Sistema/Turno.antt =====
-- The end of a quantum, from the CPU to the kernel's queue READY.
use tp_2014_1c_tp_so.Base.{
  ℕ, ◌≡◌, refl, ◌∙◌, sym, subst, Bool-cases, inl, inr, [], ◌∷◌, ◌++◌, if◌then◌else◌,
}
use tp_2014_1c_tp_so.Base.Int.{ℤ}
use tp_2014_1c_tp_so.Base.Outcome.{ok, ok_inj}
use tp_2014_1c_tp_so.Mensajes.{Pcb, MenComun, MenQuantumPcb}
use tp_2014_1c_tp_so.Mensajes.Tipos
use tp_2014_1c_tp_so.Sistema.{lugar_de, cierre_de}
use tp_2014_1c_tp_so.Kernel.Estado.{Kernel, Cpu, PcbOtros, Siguientes, llegan}
use tp_2014_1c_tp_so.Kernel.Colas.{pasar_ready}
use tp_2014_1c_tp_so.Kernel.Cpus.{
  get_cpu_soc_cpu_remove, sacar_exec, liberar_cpu, quitar_soc_cpu, recv_actualizar_pcb, fin_quantum,
}
use tp_2014_1c_tp_so.Kernel.Invariante.{Valido, Bien, Ocupada}
use tp_2014_1c_tp_so.Kernel.Invariante.Parcial.{turno_lem}
use tp_2014_1c_tp_so.Kernel.Invariante.Turnos.{fin_quantum-Bien}
use tp_2014_1c_tp_so.Cpu.Estado.{Maquina, comun, quantum_pcb}
use tp_2014_1c_tp_so.Cpu.Turno.{salir_por_quantum}
use tp_2014_1c_tp_so.Cpu.Turno.Cuenta.{salir_por_quantum-salida}

-- The process with the place where it stands now.
abbrev pub con_lugar : PcbOtros → Pcb → PcbOtros
con_lugar x pcb = record x {
  pcb = record x.pcb {
    cant_var_cont_actual = pcb.cant_var_cont_actual;
    dir_cont_actual = pcb.dir_cont_actual;
    program_counter = pcb.program_counter;
  };
}

-- `salirPorQuantum` and `fin_quantum` together. The kernel reads the two messages of a CPU that
-- executes a process, its state stays valid, and the process goes to the end of READY: with the
-- place where the CPU has left it, if no signal came to the CPU, and otherwise with the place where
-- it was before its turn.
pub fin_quantum-salir_por_quantum :
    (grado : ℕ) (k : Kernel) (soc_cpu : ℤ) (sig : Siguientes) (m : Maquina)
    → Valido grado k
    → Ocupada k soc_cpu
    → (men : MenComun) × (q : MenQuantumPcb) × (c : Cpu) × (j i k' : Kernel) × (x : PcbOtros)
      × ((salir_por_quantum m).salida ≡ m.salida ++ (comun men ∷ quantum_pcb q ∷ []))
      × (get_cpu_soc_cpu_remove k soc_cpu ≡ ok (c, j))
      × (sacar_exec k c.id_prog_exec ≡ ok (x, i))
      × (fin_quantum k soc_cpu men (llegan (record sig { pcb = q })) ≡ ok k')
      × Bien grado k k'
      × (k'.cola_ready ≡ k.cola_ready ++ ((if m.quit_sistema then con_lugar x m.pcb else x) ∷ []))
unfolding fin_quantum recv_actualizar_pcb
fin_quantum-salir_por_quantum grado k soc_cpu sig m v o =
    let t = turno_lem grado k soc_cpu v o in
    let j : Kernel = record k { lista_cpu = t.cpus; cola_exec = t.exec } in
    let s = record sig { pcb = lugar_de m } in
    let b = fin_quantum-Bien grado k soc_cpu (cierre_de Tipos.fin_quantum m) s v o in
    let k' : Kernel =
      if m.quit_sistema
      then pasar_ready (liberar_cpu j t.cpu) (con_lugar t.elegido m.pcb)
      else pasar_ready (quitar_soc_cpu j soc_cpu) t.elegido in
    let e : fin_quantum k soc_cpu (cierre_de Tipos.fin_quantum m) (llegan s) ≡ ok k' =
      elim (Bool-cases m.quit_sistema) [
        | inl h ↦ rw (h, t.saca, t.toma) refl
        | inr h ↦ rw (h, t.saca, t.toma) refl
      ] in
    (
      cierre_de Tipos.fin_quantum m,
      lugar_de m,
      t.cpu,
      record k { lista_cpu = t.cpus },
      record k { cola_exec = t.exec },
      k',
      t.elegido,
      salir_por_quantum-salida m,
      t.saca,
      t.toma k refl,
      e,
      subst (Bien grado k) (ok_inj (sym b.1 ∙ e)) b.2,
      elim (Bool-cases m.quit_sistema) [ inl h ↦ rw h refl | inr h ↦ rw h refl ],
    )
