-- ===== src/Cpu/Servicios.antt =====
-- The primitives of AnSISOP that ask the kernel: shared variables, printing, devices and semaphores.
use tp_2014_1c_tp_so.Base.{ℕ, true, List, [], ◌∷◌, if◌then◌else◌}
use tp_2014_1c_tp_so.Base.Int.{ℤ, pos, negsuc, ◌==ℤ◌}
use tp_2014_1c_tp_so.Base.Outcome.{Outcome, ok, fault}
use tp_2014_1c_tp_so.Mensajes.{aviso}
use tp_2014_1c_tp_so.Mensajes.Tipos
use tp_2014_1c_tp_so.Cpu.Estado.{
  Maquina, Externo, sacar_caracteres_escape, al_kernel, con_cadena, del_kernel, recibir_resp_kernel,
  enviar_pcb,
}
use tp_2014_1c_tp_so.Cpu.Contexto.{finalizar_contexto}

-- The message that says whether the CPU closes: with one byte, if a signal came.
unfoldable pub enviar_cierre : Maquina → ℤ → Maquina
unfolding al_kernel
enviar_cierre m tipo =
    if m.quit_sistema
    then al_kernel m (aviso tipo)
    else al_kernel m (record { tam_dato = pos 1; tipo = tipo; dato = 0 ∷ [] })

module _ (x : Externo) where
  -- `atoi` of a message with no data reads a null pointer.
  unfoldable pub obtener_valor_compartida : Maquina → List ℕ → Outcome (ℤ × Maquina)
  unfolding al_kernel del_kernel
  obtener_valor_compartida m variable =
      let r = del_kernel (al_kernel m (con_cadena Tipos.obtener_valor variable)) in
      if r.0.tipo ==ℤ Tipos.var_inex
      then ok (pos 0, record r.1 { fue_fin_ejecucion = true })
      else elim r.0.dato [ [] ↦ fault | _ ∷ _ ↦ ok (x.texto.atoi r.0.dato, r.1) ]

  unfoldable pub asignar_valor_compartida : Maquina → List ℕ → ℤ → ℤ × Maquina
  unfolding al_kernel del_kernel
  asignar_valor_compartida m variable valor =
      let r = del_kernel (al_kernel m (con_cadena Tipos.grabar_valor variable)) in
      if r.0.tipo ==ℤ Tipos.var_inex
      then (negsuc 0, record r.1 { fue_fin_ejecucion = true })
      else if r.0.tipo ==ℤ Tipos.r_grabar_valor
      then (
        valor,
        (del_kernel
            (al_kernel r.1 (con_cadena Tipos.valor_asignado (x.texto.string_itoa valor)))).1,
      )
      else (negsuc 0, r.1)

  unfoldable pub imprimir : Maquina → ℤ → Maquina
  unfolding al_kernel recibir_resp_kernel
  imprimir m valor_mostrar =
      if m.hubo_seg_fault
      then m
      else recibir_resp_kernel
          (al_kernel m (con_cadena Tipos.imprimir_valor (x.texto.string_itoa valor_mostrar)))

  unfoldable pub imprimir_texto : Maquina → List ℕ → Maquina
  unfolding al_kernel recibir_resp_kernel
  imprimir_texto m texto =
      recibir_resp_kernel
        (al_kernel m (con_cadena Tipos.imprimir_texto (sacar_caracteres_escape x texto)))

  unfoldable pub entrada_salida : Maquina → List ℕ → ℤ → Maquina
  unfolding al_kernel enviar_pcb enviar_cierre
  entrada_salida m dispositivo tiempo =
      let m1 = al_kernel m (con_cadena Tipos.io_id dispositivo) in
      let m2 = al_kernel m1 (con_cadena Tipos.io_cant_unidades (x.texto.string_itoa tiempo)) in
      record (enviar_cierre (enviar_pcb m2) Tipos.wait) { fue_fin_ejecucion = true }

  unfoldable pub mi_signal : Maquina → List ℕ → Outcome Maquina
  unfolding al_kernel del_kernel
  mi_signal m identificador_semaforo =
      let r = del_kernel (al_kernel m (con_cadena Tipos.signal identificador_semaforo)) in
      if r.0.tipo ==ℤ Tipos.sem_inex then finalizar_contexto x r.1 Tipos.sem_inex else ok r.1

unfoldable pub wait : Maquina → List ℕ → Maquina
unfolding al_kernel del_kernel enviar_pcb enviar_cierre
wait m identificador_semaforo =
    let r = del_kernel (al_kernel m (con_cadena Tipos.wait identificador_semaforo)) in
    if r.0.tipo ==ℤ Tipos.sem_ok
    then r.1
    else if r.0.tipo ==ℤ Tipos.sem_bloqueado
    then enviar_cierre (enviar_pcb (record r.1 { fue_fin_ejecucion = true })) Tipos.wait
    else if r.0.tipo ==ℤ Tipos.sem_inex
    then record r.1 { fue_fin_ejecucion = true }
    else r.1
