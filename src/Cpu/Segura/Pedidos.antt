-- ===== src/Cpu/Segura/Pedidos.antt =====
-- The primitives that ask the kernel, and any number of primitives.
use tp_2014_1c_tp_so.Base.{ℕ, refl, List, arith}
use tp_2014_1c_tp_so.Base.Int.{ℤ, ◌==ℤ◌}
use tp_2014_1c_tp_so.Base.Outcome.{Logra-eq}
use tp_2014_1c_tp_so.Mensajes.Tipos
use tp_2014_1c_tp_so.Cpu.Estado.{Maquina, Externo, al_kernel, con_cadena, del_kernel}
use tp_2014_1c_tp_so.Cpu.Servicios.{
  obtener_valor_compartida, asignar_valor_compartida, imprimir, imprimir_texto, entrada_salida,
  mi_signal, wait,
}
use tp_2014_1c_tp_so.Cpu.Primitiva.{
  Primitiva, define, dereferencia, asigna, obtiene_compartida, asigna_compartida, va_al_label,
  llama_sin_retorno, llama_con_retorno, finaliza, retorna, imprime, imprime_texto, sale_a_io,
  espera_semaforo, da_senal, senal, Corrida, parada, sigue,
}
use tp_2014_1c_tp_so.Cpu.Segura.{
  Firme, Sigue, Sigue-Firme, Sigue-trans, Sigue-of_eq, Segura, sola, con_valor, Segura-ok,
  Segura-fault, Segura-lista, Segura-if, Segura-mover, al_kernel-Sigue, del_kernel-Sigue,
}
use tp_2014_1c_tp_so.Cpu.Segura.Primitivas.{
  definir_variable-Segura, dereferenciar-Segura, asignar-Segura, ir_al_label-Sigue,
  llamar_sin_retorno-Segura, llamar_con_retorno-Segura, finalizar-Segura, retornar-Segura,
  finalizar_contexto-Segura,
}

module _ (x : Externo) where
  obtener_valor_compartida-Segura :
      (m : Maquina) (variable : List ℕ) → Segura con_valor m (obtener_valor_compartida x m variable)
  unfolding obtener_valor_compartida
  obtener_valor_compartida-Segura m variable =
      let m0 = al_kernel m (con_cadena Tipos.obtener_valor variable) in
      Segura-mover {m0 = (del_kernel m0).1}
        (λ f.
          let s = al_kernel-Sigue m (con_cadena Tipos.obtener_valor variable) f in
          Sigue-trans s (del_kernel-Sigue m0 (Sigue-Firme f s)))
        (Segura-if ((del_kernel m0).0.tipo ==ℤ Tipos.var_inex)
          (Segura-ok con_valor _ (λ f. Sigue-of_eq f refl refl refl refl))
          (Segura-lista (del_kernel m0).0.dato (Segura-fault con_valor)
            (λ a ys. Segura-ok con_valor _ (λ f. Sigue-of_eq f refl refl refl refl))))

  asignar_valor_compartida-Sigue :
      (m : Maquina) (variable : List ℕ) (valor : ℤ)
      → Firme m
      → Sigue m (asignar_valor_compartida x m variable valor).1
  unfolding asignar_valor_compartida
  asignar_valor_compartida-Sigue m variable valor f =
      Sigue-of_eq f (ground arith) (ground arith) (ground arith) (ground arith)

  imprimir-Sigue : (m : Maquina) (valor : ℤ) → Firme m → Sigue m (imprimir x m valor)
  unfolding imprimir
  imprimir-Sigue m valor f =
      Sigue-of_eq f (ground arith) (ground arith) (ground arith) (ground arith)

  imprimir_texto-Sigue :
      (m : Maquina) (texto : List ℕ) → Firme m → Sigue m (imprimir_texto x m texto)
  unfolding imprimir_texto
  imprimir_texto-Sigue m texto f =
      Sigue-of_eq f (ground arith) (ground arith) (ground arith) (ground arith)

  entrada_salida-Sigue :
      (m : Maquina) (dispositivo : List ℕ) (tiempo : ℤ)
      → Firme m
      → Sigue m (entrada_salida x m dispositivo tiempo)
  unfolding entrada_salida
  entrada_salida-Sigue m dispositivo tiempo f =
      Sigue-of_eq f (ground arith) (ground arith) (ground arith) (ground arith)

  wait-Sigue : (m : Maquina) (id : List ℕ) → Firme m → Sigue m (wait m id)
  unfolding wait
  wait-Sigue m id f = Sigue-of_eq f (ground arith) (ground arith) (ground arith) (ground arith)

  mi_signal-Segura : (m : Maquina) (id : List ℕ) → Segura sola m (mi_signal x m id)
  unfolding mi_signal
  mi_signal-Segura m id =
      let m0 = al_kernel m (con_cadena Tipos.signal id) in
      Segura-mover {m0 = (del_kernel m0).1}
        (λ f.
          let s = al_kernel-Sigue m (con_cadena Tipos.signal id) f in
          Sigue-trans s (del_kernel-Sigue m0 (Sigue-Firme f s)))
        (Segura-if ((del_kernel m0).0.tipo ==ℤ Tipos.sem_inex)
          (finalizar_contexto-Segura x (del_kernel m0).1 Tipos.sem_inex)
          (Segura-ok sola _ (λ f. Sigue-of_eq f refl refl refl refl)))

  Primitiva-Sigue : {m m' : Maquina} → Primitiva x m m' → Firme m → Sigue m m'
  Primitiva-Sigue {m} (define id_var h) f =
      Logra-eq ((definir_variable-Segura x m id_var).logra f) h
  Primitiva-Sigue {m} (dereferencia dir h) f = Logra-eq ((dereferenciar-Segura x m dir).logra f) h
  Primitiva-Sigue {m} (asigna dir valor h) f = Logra-eq ((asignar-Segura x m dir valor).logra f) h
  Primitiva-Sigue {m} (obtiene_compartida variable h) f =
      Logra-eq ((obtener_valor_compartida-Segura m variable).logra f) h
  Primitiva-Sigue {m} (asigna_compartida variable valor) f =
      asignar_valor_compartida-Sigue m variable valor f
  Primitiva-Sigue {m} (va_al_label etiqueta) f = ir_al_label-Sigue x m etiqueta f
  Primitiva-Sigue {m} (llama_sin_retorno etiqueta h) f =
      Logra-eq ((llamar_sin_retorno-Segura x m etiqueta).logra f) h
  Primitiva-Sigue {m} (llama_con_retorno etiqueta donde h) f =
      Logra-eq ((llamar_con_retorno-Segura x m etiqueta donde).logra f) h
  Primitiva-Sigue {m} (finaliza h) f = Logra-eq ((finalizar-Segura x m).logra f) h
  Primitiva-Sigue {m} (retorna valor h) f = Logra-eq ((retornar-Segura x m valor).logra f) h
  Primitiva-Sigue {m} (imprime valor) f = imprimir-Sigue m valor f
  Primitiva-Sigue {m} (imprime_texto texto) f = imprimir_texto-Sigue m texto f
  Primitiva-Sigue {m} (sale_a_io dispositivo tiempo) f = entrada_salida-Sigue m dispositivo tiempo f
  Primitiva-Sigue {m} (espera_semaforo id) f = wait-Sigue m id f
  Primitiva-Sigue {m} (da_senal id h) f = Logra-eq ((mi_signal-Segura m id).logra f) h
  Primitiva-Sigue {m} senal f = Sigue-of_eq f refl refl refl refl

  -- Whatever primitives a program calls, with whatever arguments and answers of the kernel, on a
  -- valid memory of less than 1 GiB: memory stays valid, with the same segments; the process keeps
  -- its identity and the addresses of its segments; and no byte changes that another process than
  -- the active one can read.
  pub Corrida-Sigue : {m m' : Maquina} → Corrida x m m' → Firme m → Sigue m m'
  Corrida-Sigue parada f = Sigue-of_eq f refl refl refl refl
  Corrida-Sigue (sigue c p) f =
      let s = Corrida-Sigue c f in Sigue-trans s (Primitiva-Sigue p (Sigue-Firme f s))
