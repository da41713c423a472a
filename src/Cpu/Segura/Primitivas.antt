-- ===== src/Cpu/Segura/Primitivas.antt =====
-- The primitives of AnSISOP, one by one.
use tp_2014_1c_tp_so.Base.{ℕ, zero, suc, refl, List, none, arith}
use tp_2014_1c_tp_so.Base.Int.{ℤ, pos, ◌==ℤ◌}
use tp_2014_1c_tp_so.Base.Outcome.{ok, ◌>>=◌}
use tp_2014_1c_tp_so.Base.Memoria.{memcpy_desde, memcpy_hacia}
use tp_2014_1c_tp_so.Mensajes.{MenComun}
use tp_2014_1c_tp_so.Mensajes.Tipos
use tp_2014_1c_tp_so.Sockets.{bytes_int32, int32_de}
use tp_2014_1c_tp_so.Cpu.Estado.{Maquina, Externo, al_kernel, recibir_resp_kernel}
use tp_2014_1c_tp_so.Cpu.Contexto.{
  regenerar_desde, regenerar_dicc_var, imprimir_desde, finalizar_contexto, fin_ok,
}
use tp_2014_1c_tp_so.Cpu.Variables.{definir_variable, dereferenciar, asignar}
use tp_2014_1c_tp_so.Cpu.Llamadas.{
  entero_en, actualizar_pcb, preservar_contexto, ir_al_label, entrar, llamar_sin_retorno,
  llamar_con_retorno, finalizar, retornar,
}
use tp_2014_1c_tp_so.Cpu.Segura.{
  Firme, Sigue, Sigue-Firme, Sigue-trans, Sigue-of_eq, Segura, sola, con_valor, Segura-ok,
  Segura-fault, Segura-if, Segura-bind, Segura-puro, Segura-mover, Segura-lista, al_kernel-Sigue,
  recibir_resp_kernel-Sigue, pedir-Segura,
}

-- A number kept, the rest of the machine left alone.
quieta : (m : Maquina) → Segura sola m (ok m)
quieta m = Segura-ok sola m (λ f. Sigue-of_eq f refl refl refl refl)

module _ (x : Externo) where
  regenerar_desde-Segura : (n i : ℕ) (m : Maquina) → Segura sola m (regenerar_desde x n i m)
  unfolding regenerar_desde
  regenerar_desde-Segura zero i m = quieta m
  regenerar_desde-Segura (suc n) i m =
      Segura-bind (pedir-Segura x m Tipos.sol_bytes _ _ _ none refl) (λ r.
        Segura-lista r.0.dato (Segura-fault sola) (λ c ys.
          Segura-mover (λ f. Sigue-of_eq f refl refl refl refl)
            (regenerar_desde-Segura n (suc i) _)))

  pub regenerar_dicc_var-Segura : (m : Maquina) → Segura sola m (regenerar_dicc_var x m)
  unfolding regenerar_dicc_var
  regenerar_dicc_var-Segura m =
      Segura-mover (λ f. Sigue-of_eq f refl refl refl refl) (regenerar_desde-Segura _ 0 _)

  -- A message to the kernel, and the answer that is only waited for.
  preguntar-Sigue :
      (m : Maquina) (men : MenComun) → Firme m → Sigue m (recibir_resp_kernel (al_kernel m men))
  preguntar-Sigue m men f =
      let s = al_kernel-Sigue m men f in
      Sigue-trans s (recibir_resp_kernel-Sigue (al_kernel m men) (Sigue-Firme f s))

  imprimir_desde-Segura : (n i : ℕ) (m : Maquina) → Segura sola m (imprimir_desde x n i m)
  unfolding imprimir_desde
  imprimir_desde-Segura zero i m = quieta m
  imprimir_desde-Segura (suc n) i m =
      Segura-bind (pedir-Segura x m Tipos.sol_bytes _ _ _ none refl) (λ r.
        Segura-bind (pedir-Segura x r.1 Tipos.sol_bytes _ _ _ none refl) (λ t.
          Segura-puro (memcpy_desde t.0.dato (pos 0) (pos 4)) (λ bs.
            Segura-puro (int32_de bs) (λ cont_var.
              Segura-lista r.0.dato (Segura-fault sola) (λ c ys.
                Segura-mover (preguntar-Sigue t.1 _) (imprimir_desde-Segura n (suc i) _))))))

  pub finalizar_contexto-Segura :
      (m : Maquina) (tipo_fin : ℤ) → Segura sola m (finalizar_contexto x m tipo_fin)
  unfolding finalizar_contexto
  finalizar_contexto-Segura m tipo_fin =
      Segura-if (tipo_fin ==ℤ Tipos.segmen_fault)
        (Segura-ok sola _ (λ f. Sigue-of_eq f refl refl refl refl))
        (Segura-if (tipo_fin ==ℤ fin_ok)
          (Segura-mover (preguntar-Sigue m _) (
            Segura-bind (imprimir_desde-Segura _ 0 _)
              (λ m1. Segura-ok sola _ (λ f. Sigue-of_eq f refl refl refl refl))))
          (quieta m))

  -- The same with an answer.
  finalizar_con-Segura :
      {A : Type 0} (m : Maquina) (tipo_fin : ℤ) (a : A)
      → Segura con_valor m (finalizar_contexto x m tipo_fin >>= λ m1. ok (a, m1))
  finalizar_con-Segura m tipo_fin a =
      Segura-bind (finalizar_contexto-Segura m tipo_fin)
        (λ m1. Segura-ok con_valor (a, m1) (λ f. Sigue-of_eq f refl refl refl refl))

  pub definir_variable-Segura :
      (m : Maquina) (id_var : ℕ) → Segura con_valor m (definir_variable x m id_var)
  unfolding definir_variable
  definir_variable-Segura m id_var =
      Segura-bind (pedir-Segura x m Tipos.alm_bytes _ _ _ _ refl) (λ r.
        Segura-if (r.0.tipo ==ℤ Tipos.r_alm_bytes)
          (Segura-ok con_valor _ (λ f. Sigue-of_eq f refl refl refl refl))
          (finalizar_con-Segura r.1 Tipos.segmen_fault _))

  pub dereferenciar-Segura :
      (m : Maquina) (direccion : ℤ) → Segura con_valor m (dereferenciar x m direccion)
  unfolding dereferenciar
  dereferenciar-Segura m direccion =
      Segura-bind (pedir-Segura x m Tipos.sol_bytes _ _ _ none refl) (λ r.
        Segura-if (r.0.tipo ==ℤ Tipos.r_sol_bytes)
          (Segura-puro (memcpy_hacia (bytes_int32 (x.sin_valor m)) (pos 0) r.0.dato r.0.tam_dato)
            (λ bs.
              Segura-puro (int32_de bs) (λ valor.
                Segura-ok con_valor (valor, r.1) (λ f. Sigue-of_eq f refl refl refl refl))))
          (Segura-if (r.0.tipo ==ℤ Tipos.segmen_fault)
            (finalizar_con-Segura r.1 Tipos.segmen_fault (x.sin_valor m))
            (Segura-ok con_valor (x.sin_valor m, r.1) (λ f. Sigue-of_eq f refl refl refl refl))))

  pub asignar-Segura :
      (m : Maquina) (direccion valor : ℤ) → Segura sola m (asignar x m direccion valor)
  unfolding asignar
  asignar-Segura m direccion valor = Segura-if m.hubo_seg_fault (quieta m) (
      Segura-bind (pedir-Segura x m Tipos.alm_bytes _ _ _ _ refl) (λ r.
        Segura-if (r.0.tipo ==ℤ Tipos.segmen_fault)
          (finalizar_contexto-Segura r.1 Tipos.segmen_fault) (quieta r.1)))

  pub preservar_contexto-Segura : (m : Maquina) → Segura sola m (preservar_contexto x m)
  unfolding preservar_contexto
  preservar_contexto-Segura m = Segura-bind (pedir-Segura x m Tipos.alm_bytes _ _ _ _ refl) (λ r.
      Segura-if (r.0.tipo ==ℤ Tipos.r_alm_bytes)
        (Segura-bind (pedir-Segura x r.1 Tipos.alm_bytes _ _ _ _ refl) (λ t.
          Segura-if (t.0.tipo ==ℤ Tipos.r_alm_bytes) (quieta t.1) (
            Segura-if (t.0.tipo ==ℤ Tipos.segmen_fault)
              (finalizar_contexto-Segura t.1 Tipos.segmen_fault) (Segura-fault sola))))
        (Segura-if (r.0.tipo ==ℤ Tipos.segmen_fault)
          (finalizar_contexto-Segura r.1 Tipos.segmen_fault) (quieta r.1)))

  pub ir_al_label-Sigue :
      (m : Maquina) (etiqueta : List ℕ) → Firme m → Sigue m (ir_al_label x m etiqueta)
  unfolding ir_al_label
  ir_al_label-Sigue m etiqueta f =
      Sigue-of_eq f (ground arith) (ground arith) (ground arith) (ground arith)

  entrar-Segura :
      (m : Maquina) (etiqueta : List ℕ) (dir_cont : ℤ)
      → Segura sola m (entrar x m etiqueta dir_cont)
  unfolding entrar
  entrar-Segura m etiqueta dir_cont =
      Segura-mover (λ f. Sigue-of_eq f refl refl refl refl)
        (Segura-bind (regenerar_dicc_var-Segura _)
          (λ m1. Segura-ok sola _ (λ f. Sigue-of_eq f refl refl refl refl)))

  pub llamar_sin_retorno-Segura :
      (m : Maquina) (etiqueta : List ℕ) → Segura sola m (llamar_sin_retorno x m etiqueta)
  unfolding llamar_sin_retorno
  llamar_sin_retorno-Segura m etiqueta =
      Segura-bind (preservar_contexto-Segura m) (λ m1. entrar-Segura m1 etiqueta _)

  pub llamar_con_retorno-Segura :
      (m : Maquina) (etiqueta : List ℕ) (donde : ℤ)
      → Segura sola m (llamar_con_retorno x m etiqueta donde)
  unfolding llamar_con_retorno
  llamar_con_retorno-Segura m etiqueta donde = Segura-bind (preservar_contexto-Segura m) (λ m1.
      Segura-bind (pedir-Segura x m1 Tipos.alm_bytes _ _ _ _ refl) (λ r.
        Segura-if (r.0.tipo ==ℤ Tipos.r_alm_bytes) (entrar-Segura r.1 etiqueta _) (
          Segura-if (r.0.tipo ==ℤ Tipos.segmen_fault)
            (finalizar_contexto-Segura r.1 Tipos.segmen_fault) (quieta r.1))))

  -- The process control block of the context that called, and its variables.
  actualizar_pcb-Segura :
      (m : Maquina) (cant_var pc dir : ℤ)
      → Segura sola m (regenerar_dicc_var x (actualizar_pcb m cant_var pc dir))
  actualizar_pcb-Segura m cant_var pc dir =
      Segura-mover (λ f. Sigue-of_eq f refl refl refl refl) (regenerar_dicc_var-Segura _)

  pub finalizar-Segura : (m : Maquina) → Segura sola m (finalizar x m)
  unfolding finalizar
  finalizar-Segura m =
      Segura-if (m.pcb.dir_cont_actual ==ℤ m.pcb.dir_seg_stack) (finalizar_contexto-Segura m fin_ok)
        (Segura-bind (pedir-Segura x m Tipos.sol_bytes _ _ _ none refl) (λ r.
          Segura-if (r.0.tipo ==ℤ Tipos.r_sol_bytes)
            (Segura-puro (entero_en r.0.dato (pos 0)) (λ dir.
              Segura-puro (entero_en r.0.dato (pos 4)) (λ pc. actualizar_pcb-Segura r.1 _ pc dir)))
            (finalizar_contexto-Segura r.1 Tipos.segmen_fault)))

  pub retornar-Segura : (m : Maquina) (retorno : ℤ) → Segura sola m (retornar x m retorno)
  unfolding retornar
  retornar-Segura m retorno = Segura-bind (pedir-Segura x m Tipos.sol_bytes _ _ _ none refl) (λ r.
      Segura-if (r.0.tipo ==ℤ Tipos.r_sol_bytes)
        (Segura-puro (entero_en r.0.dato (pos 0)) (λ dir.
          Segura-puro (entero_en r.0.dato (pos 4)) (λ pc.
            Segura-puro (entero_en r.0.dato (pos 8)) (λ donde.
              Segura-bind (actualizar_pcb-Segura r.1 _ pc dir) (λ m1.
                Segura-bind (pedir-Segura x m1 Tipos.alm_bytes _ _ _ _ refl) (λ t. quieta t.1))))))
        (finalizar_contexto-Segura r.1 Tipos.segmen_fault))
