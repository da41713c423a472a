-- ===== src/Pruebas/Turnos.antt =====
-- Calls and a turn of CPU/cpu.c on the memory of forty bytes.
use tp_2014_1c_tp_so.Base.{ℕ, ◌≡◌, refl, subst, ap, true, List, [], ◌∷◌, Option, some, arith}
use tp_2014_1c_tp_so.Base.Int.{pos}
use tp_2014_1c_tp_so.Base.Outcome.{Outcome, ok, fault, espera}
use tp_2014_1c_tp_so.Base.Words.{add32, sub32, mul32}
use tp_2014_1c_tp_so.Base.Memoria.{leer, memcpy_desde}
use tp_2014_1c_tp_so.Base.Diccionario.{clave, dictionary_put}
use tp_2014_1c_tp_so.Sockets.{int32_de}
use tp_2014_1c_tp_so.Mensajes.{crear_men_comun, aviso}
use tp_2014_1c_tp_so.Mensajes.Tipos
use tp_2014_1c_tp_so.Sockets.CpuUmv.{crear_men_cpu_umv}
use tp_2014_1c_tp_so.Umv.Bytes.{solicitar_bytes}
use tp_2014_1c_tp_so.Umv.Segmentos.{buscar_segmento_dir_logica}
use tp_2014_1c_tp_so.Umv.Sesion.{atender_cpu}
use tp_2014_1c_tp_so.Cpu.Estado.{
  Maquina, pedir, cambio_pa, enviar_men_cpu_umv, comun, quantum_pcb, con_cadena,
}
use tp_2014_1c_tp_so.Cpu.Servicios.{imprimir}
use tp_2014_1c_tp_so.Cpu.Turno.{
  salir_por_quantum, traer_indice_etiquetas, solicitar_prox_sentencia_a_umv, correr_quantum, turno,
}
use tp_2014_1c_tp_so.Cpu.Segura.Turnos.{SoloPrimitivas, Turnado, turno-Turnado}
use tp_2014_1c_tp_so.Cpu.Contexto.{regenerar_dicc_var}
use tp_2014_1c_tp_so.Cpu.Contexto.Marco.{EnContexto}
use tp_2014_1c_tp_so.Cpu.Variables.{dereferenciar}
use tp_2014_1c_tp_so.Cpu.Llamadas.{llamar_sin_retorno, llamar_con_retorno, finalizar, retornar}
use tp_2014_1c_tp_so.Cpu.Llamadas.Palabras.{Cuerpo}
use tp_2014_1c_tp_so.Cpu.Llamadas.IdaVuelta.{
  finalizar-llamar_sin_retorno, retornar-llamar_con_retorno,
}
use tp_2014_1c_tp_so.Cpu.Primitiva.{Corrida, parada, sigue, imprime}
use tp_2014_1c_tp_so.Pruebas.Nucleo.{texto}
use tp_2014_1c_tp_so.Pruebas.Procesador.{
  seg_pila, memoria-IsValid, externo, con_a, hay, en_contexto,
}

a_al_dia : regenerar_dicc_var externo con_a ≡ ok con_a
unfolding regenerar_dicc_var pedir crear_men_cpu_umv atender_cpu solicitar_bytes add32 sub32 mul32
    buscar_segmento_dir_logica memcpy_desde crear_men_comun leer dictionary_put
a_al_dia = refl

-- The function is called with one variable in the context.
finalizar-llamar_sin_retorno_example :
    (m1 : Maquina) × (llamar_sin_retorno externo con_a (102 ∷ []) ≡ ok m1)
    × (m1.pcb.program_counter ≡ pos 0)
    × EnContexto m1 seg_pila 101 13 0
    × ((m' : Maquina)
        → Cuerpo m1 m' seg_pila 101 13
        → (m2 : Maquina) × (finalizar externo m' ≡ ok m2)
          × (m2.pcb ≡ con_a.pcb)
          × (m2.dic_variables ≡ con_a.dic_variables)
          × (m2.umv ≡ m'.umv))
finalizar-llamar_sin_retorno_example =
    finalizar-llamar_sin_retorno externo hay con_a (102 ∷ []) seg_pila 101 0 1
      (en_contexto 0 1 ((97 ∷ [], pos 101) ∷ []) (omega arith)) (omega arith)
      (omega arith, omega arith) a_al_dia

-- The function called returns 7 into the variable `a`.
retornar-llamar_con_retorno_example :
    (m1 : Maquina) × (llamar_con_retorno externo con_a (102 ∷ []) (pos 101) ≡ ok m1)
    × (m1.pcb.program_counter ≡ pos 0)
    × EnContexto m1 seg_pila 101 17 0
    × ((m' : Maquina)
        → Cuerpo m1 m' seg_pila 101 17
        → (m2 : Maquina) × (retornar externo m' (pos 7) ≡ ok m2)
          × (m2.pcb ≡ con_a.pcb)
          × (m2.dic_variables ≡ con_a.dic_variables)
          × (dereferenciar externo m2 (pos 101) ≡ ok (pos 7, m2)))
retornar-llamar_con_retorno_example =
    retornar-llamar_con_retorno externo hay con_a (102 ∷ []) seg_pila 101 0 1 0 (pos 7)
      (en_contexto 0 1 ((97 ∷ [], pos 101) ∷ []) (omega arith)) (omega arith) (omega arith)
      (omega arith, omega arith) (omega arith, omega arith) a_al_dia

-- A parser whose only instruction prints 7.
abbrev analizador : Option (List ℕ) → Maquina → Outcome Maquina
analizador l m = ok (imprimir externo m (pos 7))

abbrev maquina_de : Outcome Maquina → Maquina
maquina_de (ok m) = m
maquina_de fault = con_a
maquina_de espera = con_a

analizador-SoloPrimitivas : SoloPrimitivas externo analizador
analizador-SoloPrimitivas l m m' h =
    subst (λ w. Corrida externo m w) (ap maquina_de h) (sigue parada (imprime (pos 7)))

-- The machine after its turn.
abbrev con_turno : Maquina
con_turno = record con_a {
  pcb = record con_a.pcb { program_counter = pos 1 };
  sesion = record { proc_activo = pos 0; este_conectada = true };
  salida =
      comun (con_cadena Tipos.imprimir_valor (texto.string_itoa (pos 7)))
      ∷ comun (aviso Tipos.fin_quantum)
      ∷ quantum_pcb (record {
        tipo = Tipos.pcb_y_quantum;
        quantum = pos 0;
        pcb = record con_a.pcb { program_counter = pos 1 };
      })
      ∷ [];
}

-- The machine with the instruction read.
abbrev con_instruccion : Maquina
con_instruccion = record con_a { pcb = record con_a.pcb { program_counter = pos 1 } }

etiquetas_traidas : traer_indice_etiquetas externo con_a ≡ ok con_a
unfolding traer_indice_etiquetas pedir crear_men_cpu_umv atender_cpu solicitar_bytes
    buscar_segmento_dir_logica add32 memcpy_desde crear_men_comun leer
etiquetas_traidas = refl

instruccion_leida :
    solicitar_prox_sentencia_a_umv externo con_a ≡ ok (some (97 ∷ 98 ∷ []), con_instruccion)
unfolding solicitar_prox_sentencia_a_umv pedir crear_men_cpu_umv atender_cpu solicitar_bytes mul32
    buscar_segmento_dir_logica add32 memcpy_desde crear_men_comun leer int32_de clave
instruccion_leida = refl

quantum_corrido :
    correr_quantum externo analizador 1 con_a ≡ ok (1, imprimir externo con_instruccion (pos 7))
unfolding correr_quantum
quantum_corrido = rw instruccion_leida refl

turno_hecho : turno externo analizador con_a ≡ ok con_turno
unfolding turno cambio_pa enviar_men_cpu_umv crear_men_cpu_umv atender_cpu salir_por_quantum
    imprimir
turno_hecho = rw (etiquetas_traidas, a_al_dia, quantum_corrido) refl

turno-Turnado_example : Turnado con_a con_turno
turno-Turnado_example =
    turno-Turnado externo analizador analizador-SoloPrimitivas con_a con_turno
      (memoria-IsValid, omega arith) turno_hecho
