-- ===== src/Kernel/Cpus.antt =====
-- The CPUs of kernel/kernel.c, and the messages that end a process's turn on one. A null pointer that is
-- followed, or pushed into a queue, is a fault.
use tp_2014_1c_tp_so.Base.{
  ◌+◌, Bool, List, [], ◌∷◌, ◌++◌, Option, none, some, if◌then◌else◌, not, list_find, list_remove,
}
use tp_2014_1c_tp_so.Base.Int.{ℤ, pos, ◌==ℤ◌}
use tp_2014_1c_tp_so.Base.Outcome.{Outcome, ok, fault, ◌>>=◌}
use tp_2014_1c_tp_so.Mensajes.{MenComun, MenQuantumPcb}
use tp_2014_1c_tp_so.Mensajes.Tipos.{hs_kernel}
use tp_2014_1c_tp_so.Kernel.Estado.{
  Cpu, PcbOtros, Kernel, Envio, avisar, sem_decre, fd_clr, Recepcion,
}
use tp_2014_1c_tp_so.Kernel.Colas.{get_pcb_otros_exec, pasar_pcb_exit, pasar_ready}

unfoldable pub get_cpu : Kernel → ℤ → Option Cpu
unfolding list_find
get_cpu k soc_cpu = list_find (λ c. c.soc_cpu ==ℤ soc_cpu) k.lista_cpu

-- The first CPU that passes, taken out of the list.
unfoldable pub sacar_cpu : Kernel → (Cpu → Bool) → Outcome (Cpu × Kernel)
unfolding list_remove
sacar_cpu k p = elim (list_remove p k.lista_cpu) [
  | none ↦ fault
  | some (c, resto) ↦ ok (c, record k { lista_cpu = resto })
]

unfoldable pub get_cpu_soc_cpu_remove : Kernel → ℤ → Outcome (Cpu × Kernel)
unfolding sacar_cpu
get_cpu_soc_cpu_remove k soc_cpu = sacar_cpu k (λ c. c.soc_cpu ==ℤ soc_cpu)

-- `get_pcb_otros_exec`, where its result is followed.
unfoldable pub sacar_exec : Kernel → ℤ → Outcome (PcbOtros × Kernel)
unfolding get_pcb_otros_exec
sacar_exec k id_proc =
    let r = get_pcb_otros_exec k id_proc in elim r.0 [ none ↦ fault | some x ↦ ok (x, r.1) ]

-- `id_prog_exec = 0; soc_prog = 0; list_add(lista_cpu, aux_cpu); sem_incre(&cant_cpu_libres);`
abbrev pub liberar_cpu : Kernel → Cpu → Kernel
liberar_cpu k c = record k {
  lista_cpu = k.lista_cpu ++ (record c { id_prog_exec = pos 0; soc_prog = pos 0 } ∷ []);
  cant_cpu_libres = k.cant_cpu_libres + 1;
}

-- `FD_CLR(soc_cpu, &conj_soc_cpus)`
abbrev pub quitar_soc_cpu : Kernel → ℤ → Kernel
quitar_soc_cpu k soc_cpu = record k { conj_soc_cpus = fd_clr soc_cpu k.conj_soc_cpus }

unfoldable pub recv_actualizar_pcb : MenQuantumPcb → PcbOtros → PcbOtros
recv_actualizar_pcb men x = record x {
  pcb = record x.pcb {
    cant_var_cont_actual = men.pcb.cant_var_cont_actual;
    dir_cont_actual = men.pcb.dir_cont_actual;
    program_counter = men.pcb.program_counter;
  };
}

unfoldable pub ingresar_new_cpu : Kernel → ℤ → Kernel × List Envio
ingresar_new_cpu k new_soc_cpu = (
  record k {
    conj_soc_cpus = new_soc_cpu ∷ k.conj_soc_cpus;
    lista_cpu =
        k.lista_cpu
        ++ (record { soc_cpu = new_soc_cpu; soc_prog = pos 0; id_prog_exec = pos 0 } ∷ []);
    cant_cpu_libres = k.cant_cpu_libres + 1;
  },
  avisar new_soc_cpu hs_kernel ∷ [],
)

unfoldable pub conec_cerrada_cpu : Kernel → ℤ → Outcome Kernel
conec_cerrada_cpu k soc_cpu = get_cpu_soc_cpu_remove k soc_cpu >>= λ r.
    let k1 = quitar_soc_cpu r.1 soc_cpu in
    if not (r.0.id_prog_exec ==ℤ pos 0)
    then (sacar_exec k1 r.0.id_prog_exec >>= λ x. ok (pasar_ready x.1 x.0))
    else (sem_decre k1.cant_cpu_libres >>= λ n. ok (record k1 { cant_cpu_libres = n }))

-- A message with one byte says that the CPU was killed, and no process control block follows it.
unfoldable pub fin_quantum : Kernel → ℤ → MenComun → Recepcion → Outcome Kernel
unfolding recv_actualizar_pcb
fin_quantum k soc_cpu men_cpu sig =
    if men_cpu.tam_dato ==ℤ pos 1
    then get_cpu_soc_cpu_remove k soc_cpu >>= (λ r.
      sacar_exec (quitar_soc_cpu r.1 soc_cpu) r.0.id_prog_exec >>= λ x. ok (pasar_ready x.1 x.0))
    else get_cpu_soc_cpu_remove k soc_cpu >>= λ r. sacar_exec r.1 r.0.id_prog_exec >>= λ x.
        sig.pcb >>= λ p. ok (liberar_cpu (pasar_ready x.1 (recv_actualizar_pcb p x.0)) r.0)

unfoldable pub llamada_erronea : Kernel → ℤ → ℤ → Outcome (Kernel × List Envio)
unfolding pasar_pcb_exit
llamada_erronea k soc_cpu tipo_error = get_cpu_soc_cpu_remove k soc_cpu >>= λ r.
    sacar_exec r.1 r.0.id_prog_exec >>= λ x. ok (
      liberar_cpu (pasar_pcb_exit x.1 (some (record x.0 { tipo_fin_ejecucion = tipo_error }))) r.0,
      avisar soc_cpu tipo_error ∷ [],
    )

unfoldable pub fin_ejecucion : Kernel → ℤ → ℤ → Outcome Kernel
unfolding pasar_pcb_exit
fin_ejecucion k tipo soc_cpu = get_cpu_soc_cpu_remove k soc_cpu >>= λ r.
    sacar_exec r.1 r.0.id_prog_exec >>= λ x.
    ok (liberar_cpu (pasar_pcb_exit x.1 (some (record x.0 { tipo_fin_ejecucion = tipo }))) r.0)

-- The state, and the id of the process that is blocked now.
unfoldable pub actualizar_pcb_y_bloq : Kernel → Cpu → Recepcion → Outcome (Kernel × ℤ)
unfolding recv_actualizar_pcb
actualizar_pcb_y_bloq k aux_cpu sig = sacar_exec k aux_cpu.id_prog_exec >>= λ x. sig.pcb >>= λ p.
    sig.cerrar >>= λ men_cerrar.
    let k1 =
      if men_cerrar.tam_dato ==ℤ pos 0
      then liberar_cpu x.1 aux_cpu
      else quitar_soc_cpu x.1 aux_cpu.soc_cpu in
    ok (record k1 { cola_block = k1.cola_block ++ (recv_actualizar_pcb p x.0 ∷ []) }, x.0.pcb.id)
