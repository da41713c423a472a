-- ===== src/Cpu/Turno.antt =====
-- `main` of CPU/cpu.c: the turns of the CPU, each with a process that the kernel sends.
pub mod Cuenta
use tp_2014_1c_tp_so.Base.{
  ℕ, zero, suc, ◌+◌, ◌*◌, Bool, true, false, not, List, [], ◌∷◌, ◌++◌, Option, none, some, take,
  leb, if◌then◌else◌,
}
use tp_2014_1c_tp_so.Base.Int.{ℤ, pos, pos_part, ltb_ℤ, ◌==ℤ◌}
use tp_2014_1c_tp_so.Base.Words.{add32, mul32}
use tp_2014_1c_tp_so.Base.Outcome.{Outcome, ok, fault, ◌>>=◌}
use tp_2014_1c_tp_so.Base.Memoria.{memcpy_desde}
use tp_2014_1c_tp_so.Base.Diccionario.{clave}
use tp_2014_1c_tp_so.Mensajes.{MenQuantumPcb}
use tp_2014_1c_tp_so.Mensajes.Tipos
use tp_2014_1c_tp_so.Cpu.Estado.{
  Maquina, Externo, sacar_caracteres_escape, pedir, cambio_pa, enviar_pcb,
}
use tp_2014_1c_tp_so.Cpu.Contexto.{regenerar_dicc_var, finalizar_contexto}
use tp_2014_1c_tp_so.Cpu.Llamadas.{entero_en}
use tp_2014_1c_tp_so.Cpu.Servicios.{enviar_cierre}

-- `recibirUnPcb`: `none` where the kernel has closed the connection. A message of another type leaves
-- `pcb` with the address of a block that was freed, which `main` reads at once.
unfoldable pub recibir_un_pcb : Maquina → Option MenQuantumPcb → Outcome (Option Maquina)
recibir_un_pcb m none = ok none
recibir_un_pcb m (some men) =
    if men.tipo ==ℤ Tipos.pcb_y_quantum
    then ok (some (record m { pcb = men.pcb; quantum_max = men.quantum }))
    else fault

unfoldable pub salir_por_quantum : Maquina → Maquina
unfolding enviar_cierre enviar_pcb
salir_por_quantum m = enviar_pcb (enviar_cierre m Tipos.fin_quantum)

module _ (x : Externo) where
  unfoldable pub traer_indice_etiquetas : Maquina → Outcome Maquina
  traer_indice_etiquetas m =
      pedir x m Tipos.sol_bytes m.pcb.dir_indice_etiquetas (pos 0) m.pcb.tam_indice_etiquetas none
      >>= λ r.
          (if r.0.tipo ==ℤ Tipos.r_sol_bytes
            then (memcpy_desde r.0.dato (pos 0) r.0.tam_dato >>= λ bs.
                ok (record r.1 { etiquetas = bs }))
            else ok r.1)
          >>= λ m1.
              if r.0.tipo ==ℤ Tipos.segmen_fault
              then finalizar_contexto x m1 Tipos.segmen_fault
              else ok m1

  -- The instruction, or `none` for a null pointer. The first answer is read whatever its type, and an
  -- array of `tam+1` bytes is made of it.
  unfoldable pub solicitar_prox_sentencia_a_umv : Maquina → Outcome (Option (List ℕ) × Maquina)
  solicitar_prox_sentencia_a_umv m =
      pedir x m Tipos.sol_bytes m.pcb.dir_indice_codigo (mul32 m.pcb.program_counter (pos 8))
        (pos 8) none
      >>= λ r. entero_en r.0.dato (pos 0) >>= λ offset. entero_en r.0.dato (pos 4) >>= λ tam.
          pedir x r.1 Tipos.sol_bytes m.pcb.dir_seg_codigo offset tam none >>= λ t.
          if ltb_ℤ tam (pos 0)
          then fault
          else if t.0.tipo ==ℤ Tipos.r_sol_bytes
          then (memcpy_desde t.0.dato (pos 0) tam >>= λ prox_inst. ok (
            some (sacar_caracteres_escape x (clave prox_inst)),
            record t.1 {
              pcb = record t.1.pcb { program_counter = add32 t.1.pcb.program_counter (pos 1) };
            },
          ))
          else if t.0.tipo ==ℤ Tipos.segmen_fault
          then (finalizar_contexto x t.1 Tipos.segmen_fault >>= λ m1. ok (none, m1))
          else ok (none, t.1)

  -- `analizadorLinea` of the course's parser runs the primitives that an instruction asks for.
  module _ (analizador_linea : Option (List ℕ) → Maquina → Outcome Maquina) where
    -- The loop over `quantum_actual`, with the rounds left and how many were done.
    unfoldable pub correr_quantum : ℕ → Maquina → Outcome (ℕ × Maquina)
    unfolding solicitar_prox_sentencia_a_umv
    correr_quantum zero m = ok (0, m)
    correr_quantum (suc n) m =
        let rest = solicitar_prox_sentencia_a_umv m >>= λ r.
        analizador_linea r.0 r.1 >>= λ m1. correr_quantum n m1 >>= λ t. ok (suc t.0, t.1) in
        if m.fue_fin_ejecucion then ok (0, m) else rest

    -- What `main` does with a process that has come; the blocks that it frees are left where they are.
    unfoldable pub turno : Maquina → Outcome Maquina
    unfolding traer_indice_etiquetas correr_quantum salir_por_quantum
    turno m = cambio_pa x m m.pcb.id >>= λ m1. traer_indice_etiquetas m1 >>= λ m2.
        regenerar_dicc_var x m2 >>= λ m3. correr_quantum (pos_part m3.quantum_max) m3 >>= λ t.
        cambio_pa x (if t.1.fue_fin_ejecucion then t.1 else salir_por_quantum t.1) (pos 0) >>= λ m5.
        ok (record m5 { fue_fin_ejecucion = false; hubo_seg_fault = false })

    -- `while(quit_sistema)`, with what comes from the kernel in each round.
    unfoldable pub main : List (Option MenQuantumPcb) → Maquina → Outcome Maquina
    unfolding recibir_un_pcb turno
    main [] m = ok m
    main (o ∷ os) m =
        let rest =
          recibir_un_pcb m o >>= λ r. elim r [ none ↦ ok m | some m1 ↦ turno m1 >>= main os ] in
        if m.quit_sistema then rest else ok m
