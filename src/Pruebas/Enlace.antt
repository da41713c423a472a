-- ===== src/Pruebas/Enlace.antt =====
-- Connections, a round of `plp`, a shared variable between two CPUs, and the end of a process.
use mathlib.Core.Logic.Or
use tp_2014_1c_tp_so.Base.{
  ℕ, ◌≡◌, ◌≢◌, refl, true, not, List, [], ◌∷◌, ◌++◌, Option, Mem, list_filter, if◌then◌else◌,
}
use tp_2014_1c_tp_so.Base.Int.{ℤ, pos, ◌==ℤ◌}
use tp_2014_1c_tp_so.Base.Outcome.{ok}
use tp_2014_1c_tp_so.Base.Diccionario.{dictionary_get}
use tp_2014_1c_tp_so.Mensajes.{MenComun, aviso}
use tp_2014_1c_tp_so.Mensajes.Tipos
use tp_2014_1c_tp_so.Umv.Estado.{Seg, Umv}
use tp_2014_1c_tp_so.Umv.Espacio.Validez.{IsValid}
use tp_2014_1c_tp_so.Umv.Bytes.{solicitar_bytes}
use tp_2014_1c_tp_so.Umv.Conexion.{Conecciones, admin_conec_kernel, admin_conec_cpu}
use tp_2014_1c_tp_so.Kernel.Estado.{Kernel, Envio, a_comun, llegan}
use tp_2014_1c_tp_so.Kernel.Conexion as Nucleo
use tp_2014_1c_tp_so.Kernel.Planificador.{manejador_exit}
use tp_2014_1c_tp_so.Kernel.Programas.{Respuestas}
use tp_2014_1c_tp_so.Kernel.Seleccion.{Seleccion}
use tp_2014_1c_tp_so.Kernel.Seleccion.Clientes.{Vigilados}
use tp_2014_1c_tp_so.Kernel.Servicios as Atencion
use tp_2014_1c_tp_so.Cpu.Conexion as Procesador
use tp_2014_1c_tp_so.Cpu.Estado.{Externo, comun, con_cadena}
use tp_2014_1c_tp_so.Cpu.Servicios.{obtener_valor_compartida, asignar_valor_compartida}
use tp_2014_1c_tp_so.Programa as Cliente
use tp_2014_1c_tp_so.Sistema.{para}
use tp_2014_1c_tp_so.Sistema.Impresion.{cadena_nil, cadena_cons}
use tp_2014_1c_tp_so.Sistema.Servicio.{servir}
use tp_2014_1c_tp_so.Sistema.Conexion.{Saludan, Admite, handshake_umv-admin_conecciones}
use tp_2014_1c_tp_so.Sistema.Salida.{manejador_exit-servir}
use tp_2014_1c_tp_so.Sistema.Compartida.{
  tras_obtener, obtener_valor_compartida-asignar_valor_compartida,
}
use tp_2014_1c_tp_so.Pruebas.{servidor, servidor-IsValid}
use tp_2014_1c_tp_so.Pruebas.Servidor.{entorno}
use tp_2014_1c_tp_so.Pruebas.Nucleo.{nucleo, proceso, siguientes, pide}
use tp_2014_1c_tp_so.Pruebas.Procesador.{externo, con_a}
use tp_2014_1c_tp_so.Pruebas.Carga.{entorno_plp}

abbrev sin_nadie : Conecciones
sin_nadie = record { soc_kernel = pos 0; hilos = [] }

handshake_umv-admin_conecciones_example :
    Saludan Procesador.handshake_kernel Nucleo.handshake_cpu
    × Saludan Cliente.handshake_kernel Nucleo.handshake_prog
    × Admite Procesador.handshake_umv sin_nadie
        (pos 4)
        (record { soc_kernel = pos 0; hilos = admin_conec_cpu (pos 4) ∷ [] })
    × Admite Nucleo.handshake_umv sin_nadie
        (pos 4)
        (record { soc_kernel = pos 4; hilos = admin_conec_kernel ∷ [] })
handshake_umv-admin_conecciones_example = handshake_umv-admin_conecciones sin_nadie (pos 4)

-- A number is one byte.
abbrev con_numeros : Externo
con_numeros = record externo { texto = entorno_plp.texto }

obtener_valor_compartida-asignar_valor_compartida_example :
    let numero = con_cadena Tipos.valor_asignado (9 ∷ []) in
    (k' : Kernel) × (r1 : MenComun) × (r2 : MenComun) × (r3 : MenComun)
    × (Atencion.grabar_valor_compartida entorno_plp.texto nucleo
          (pos 5)
          (con_cadena Tipos.grabar_valor (118 ∷ []))
          (llegan (record siguientes { dato = numero }))
        ≡ ok (k', a_comun (pos 5) r1 ∷ a_comun (pos 5) r2 ∷ []))
    × (asignar_valor_compartida con_numeros
          (record con_a { entrada = r1 ∷ r2 ∷ [] })
          (118 ∷ [])
          (pos 9)
        ≡ (
          pos 9,
          record con_a {
            entrada = [];
            salida =
                con_a.salida
                ++ (comun (con_cadena Tipos.grabar_valor (118 ∷ [])) ∷ comun numero ∷ []);
          },
        ))
    × (Atencion.obtener_valor_compartida entorno_plp.texto k'
          (pos 6)
          (con_cadena Tipos.obtener_valor (118 ∷ []))
        ≡ ok (k', a_comun (pos 6) r3 ∷ []))
    × (obtener_valor_compartida con_numeros (record con_a { entrada = r3 ∷ [] }) (118 ∷ [])
        ≡ ok (pos 9, tras_obtener con_numeros con_a (118 ∷ []) []))
    × ((otro : List ℕ)
        → 118 ∷ [] ≢ otro
        → dictionary_get otro k'.dicc_var ≡ dictionary_get otro nucleo.dicc_var)
unfolding dictionary_get
obtener_valor_compartida-asignar_valor_compartida_example =
    obtener_valor_compartida-asignar_valor_compartida con_numeros nucleo (pos 5) (pos 6) siguientes
      con_a con_a (118 ∷ []) (pos 9) (pos 3) [] [] (cadena_cons 117 cadena_nil) refl refl

manejador_exit-servir_example :
    (es : List Envio) × (w : Umv) × (manejador_exit nucleo
      ≡ ok (record nucleo { cant_exit = 0; cola_exit = [] }, es))
    × (servir entorno servidor es (pos 8 ∷ []) ≡ ok (w, aviso Tipos.sincro_ok ∷ []))
    × (para (pos 26) es ≡ [])
    × IsValid w
    × (w.mem_prin ≡ servidor.mem_prin)
    × ((s : Seg) → Mem s w.list_seg → s.id_proc ≢ pos 6)
    × (w.list_seg ≡ list_filter (λ s. not (s.id_proc ==ℤ pos 6)) servidor.list_seg)
    × ((malloc : ℤ → Option (List ℕ)) (id_otro base offset tam : ℤ)
        → id_otro ≢ pos 6
        → solicitar_bytes malloc w id_otro base offset tam
          ≡ solicitar_bytes malloc servidor id_otro base offset tam)
manejador_exit-servir_example =
    manejador_exit-servir entorno servidor nucleo 0 (proceso 6 1) [] (pos 8) servidor-IsValid refl
      refl refl

-- The listener is 3; a client comes in, and the client at 7 closes.
abbrev dos_listos : Seleccion
dos_listos = record {
  listos = λ fd. if fd ==ℤ pos 3 then true else fd ==ℤ pos 7;
  listener = pos 3;
  new_soc = pos 9;
  llega = λ fd. [];
}

abbrev con_clientes : Kernel
con_clientes = record nucleo { conj_soc_progs = pos 3 ∷ pos 7 ∷ [] }

abbrev sin_respuestas : Respuestas
sin_respuestas =
    let r = pide (pos 0) 0 in record { seg_cod = r; ind_eti = r; indice_cod = r; seg_stack = r }
