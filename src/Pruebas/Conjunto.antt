-- ===== src/Pruebas/Conjunto.antt =====
-- The client's loop, and the kernel between a CPU and a client.
use tp_2014_1c_tp_so.Base.{
  ℕ, ◌≡◌, ◌≢◌, refl, false, List, [], ◌∷◌, ◌++◌, Option, none, some, length, arith,
}
use tp_2014_1c_tp_so.Base.Int.{pos, negsuc}
use tp_2014_1c_tp_so.Base.Words.{sub32}
use tp_2014_1c_tp_so.Base.Outcome.{ok, Logra}
use tp_2014_1c_tp_so.Base.Diccionario.{dictionary_get}
use tp_2014_1c_tp_so.Mensajes.{MenComun, MenQuantumPcb, aviso}
use tp_2014_1c_tp_so.Mensajes.Tipos
use tp_2014_1c_tp_so.Sockets.Comun.{socket_send_comun, socket_recv_comun}
use tp_2014_1c_tp_so.Sockets.Secuencia.{enviar_todos}
use tp_2014_1c_tp_so.Kernel.Estado.{
  Kernel, Cpu, PcbOtros, Semaforo, Envio, a_comun, Recepcion, llegan,
}
use tp_2014_1c_tp_so.Kernel.Cpus.{get_cpu, get_cpu_soc_cpu_remove, sacar_exec, fin_quantum}
use tp_2014_1c_tp_so.Kernel.Servicios as Atencion
use tp_2014_1c_tp_so.Kernel.Invariante.{Bien}
use tp_2014_1c_tp_so.Kernel.Invariante.Semaforos.{SemHecho}
use tp_2014_1c_tp_so.Cpu.Estado as Procesador
use tp_2014_1c_tp_so.Cpu.Estado.{Maquina, con_cadena}
use tp_2014_1c_tp_so.Cpu.Servicios.{wait}
use tp_2014_1c_tp_so.Cpu.Turno.{salir_por_quantum}
use tp_2014_1c_tp_so.Programa.{Fin, leer_script, enviar_script, se_imprime, cierre, esperar}
use tp_2014_1c_tp_so.Programa.Lectura.{socket_recv_comun-enviar_script}
use tp_2014_1c_tp_so.Programa.Espera.{esperar_termina}
use tp_2014_1c_tp_so.Sistema.{lugar_de, cierre_de, para, atender_mensajes}
use tp_2014_1c_tp_so.Sistema.Impresion.{
  cadena_nil, cadena_cons, Impresiones, nada, de_valor, de_texto, esperar-atender_mensajes,
}
use tp_2014_1c_tp_so.Sistema.Turno.{con_lugar, fin_quantum-salir_por_quantum}
use tp_2014_1c_tp_so.Sistema.Espera.{tras_wait, wait-wait}
use tp_2014_1c_tp_so.Pruebas.Nucleo.{nucleo, nucleo-Valido, cpu_cinco, texto, siguientes, semaforo}
use tp_2014_1c_tp_so.Pruebas.Procesador.{con_a}

abbrev script : List ℕ
script = 97 ∷ 98 ∷ 10 ∷ []

socket_recv_comun-enviar_script_example :
    (length (leer_script script) ≡ 4)
    × (bytes : List ℕ) × (enviar_script script ≡ ok bytes)
    × (socket_recv_comun (bytes ++ (7 ∷ []))
        ≡ ok (record { tam_dato = pos 3; tipo = Tipos.codigo_script; dato = script }, 7 ∷ []))
socket_recv_comun-enviar_script_example =
    socket_recv_comun-enviar_script script (7 ∷ []) (omega arith)

-- A connection with a message to print and the end.
abbrev recibido : List ℕ
recibido =
    14 ∷ 0 ∷ 0 ∷ 0 ∷ 23 ∷ 0 ∷ 0 ∷ 0 ∷ 2 ∷ 0 ∷ 0 ∷ 0 ∷ 97 ∷ 0 ∷ 12 ∷ 0 ∷ 0 ∷ 0 ∷ 24 ∷ 0 ∷ 0 ∷ 0 ∷ 0
    ∷ 0 ∷ 0 ∷ 0 ∷ []

esperar_termina_example : Logra (λ (f : Option Fin). f ≢ none) (esperar 27 recibido)
esperar_termina_example = esperar_termina 27 recibido (omega arith)

-- The value 7 and the text `ab`.
abbrev dos_mensajes : List (MenComun × Recepcion)
dos_mensajes =
    (con_cadena Tipos.imprimir_valor (55 ∷ []), llegan siguientes)
    ∷ (con_cadena Tipos.imprimir_texto (97 ∷ 98 ∷ []), llegan siguientes)
    ∷ []

dos_mensajes-Impresiones : Impresiones dos_mensajes ((55 ∷ []) ∷ (97 ∷ 98 ∷ []) ∷ [])
dos_mensajes-Impresiones =
    de_valor (55 ∷ []) (llegan siguientes) (cadena_cons 54 cadena_nil) (omega arith) (
      de_texto (97 ∷ 98 ∷ []) (llegan siguientes) (cadena_cons 96 (cadena_cons 97 cadena_nil))
        (omega arith) nada)

abbrev cinco : Cpu
cinco = record { soc_cpu = pos 5; soc_prog = pos 21; id_prog_exec = pos 1 }

suya : get_cpu nucleo (pos 5) ≡ some cinco
unfolding get_cpu
suya = refl

esperar-atender_mensajes_example :
    (envios : List Envio) × (bytes ultimos : List ℕ) × (atender_mensajes texto nucleo
        (pos 5)
        dos_mensajes
      ≡ ok (nucleo, envios))
    × (enviar_todos (para (pos 21) envios) ≡ ok bytes)
    × (socket_send_comun (aviso Tipos.fin_ejecucion) ≡ ok ultimos)
    × (esperar 3 (bytes ++ (ultimos ++ []))
        ≡ ok (
            some (record {
              impreso = (55 ∷ []) ∷ (97 ∷ 98 ∷ []) ∷ [];
              cierre = cierre Tipos.fin_ejecucion;
              soc = [];
            })))
esperar-atender_mensajes_example =
    esperar-atender_mensajes texto nucleo (pos 5) cinco suya refl Tipos.fin_ejecucion [] 3
      dos_mensajes-Impresiones (omega arith, omega arith) (unfold se_imprime in refl) (omega arith)

fin_quantum-salir_por_quantum_example :
    (men : MenComun) × (q : MenQuantumPcb) × (c : Cpu) × (j i k' : Kernel) × (x : PcbOtros)
    × ((salir_por_quantum con_a).salida ≡ Procesador.comun men ∷ Procesador.quantum_pcb q ∷ [])
    × (get_cpu_soc_cpu_remove nucleo (pos 5) ≡ ok (c, j))
    × (sacar_exec nucleo c.id_prog_exec ≡ ok (x, i))
    × (fin_quantum nucleo (pos 5) men (llegan (record siguientes { pcb = q })) ≡ ok k')
    × Bien 5 nucleo k'
    × (k'.cola_ready ≡ nucleo.cola_ready ++ (con_lugar x con_a.pcb ∷ []))
fin_quantum-salir_por_quantum_example =
    fin_quantum-salir_por_quantum 5 nucleo (pos 5) siguientes con_a nucleo-Valido cpu_cinco

semaforo_s : dictionary_get (115 ∷ []) nucleo.dicc_sem ≡ some semaforo
unfolding dictionary_get
semaforo_s = refl

-- The semaphore is at -1, so that the process is blocked.
wait-wait_example :
    (k' : Kernel) × (s' : Semaforo) × (respuesta : MenComun) × (Atencion.wait nucleo
        (pos 5)
        (con_cadena Tipos.wait (115 ∷ []))
        (llegan (record siguientes { pcb = lugar_de con_a; cerrar = cierre_de Tipos.wait con_a }))
      ≡ ok (k', a_comun (pos 5) respuesta ∷ []))
    × SemHecho 5 nucleo (115 ∷ []) k' s'
    × (s'.valor ≡ sub32 (negsuc 0) (pos 1))
    × (wait (record con_a { entrada = respuesta ∷ [] }) (115 ∷ [])
        ≡ tras_wait false con_a (115 ∷ []) [])
wait-wait_example =
    wait-wait 5 nucleo (pos 5) siguientes semaforo con_a (115 ∷ []) [] nucleo-Valido cpu_cinco
      (cadena_cons 114 cadena_nil) semaforo_s
