-- ===== src/Kernel/Servicios.antt =====
-- What a process asks of the kernel, through its CPU: semaphores, shared variables, devices and
-- printing; and the dispatch of the CPUs' messages.
use tp_2014_1c_tp_so.Base.{
  ℕ, ◌+◌, ◌≡◌, ◌≢◌, refl, List, [], ◌∷◌, ◌++◌, none, some, length, if◌then◌else◌,
}
use tp_2014_1c_tp_so.Base.Int.{ℤ, pos, ltb_ℤ, ◌==ℤ◌}
use tp_2014_1c_tp_so.Base.Words.{add32, sub32}
use tp_2014_1c_tp_so.Base.Outcome.{Outcome, ok, fault, ◌>>=◌}
use tp_2014_1c_tp_so.Mensajes.{MenComun, crear_men_comun}
use tp_2014_1c_tp_so.Mensajes.Tipos
use tp_2014_1c_tp_so.Kernel.Estado.{IoEspera, Kernel, Envio, a_comun, avisar, Recepcion}
use tp_2014_1c_tp_so.Base.Diccionario.{clave_de, dictionary_get, dictionary_put}
use tp_2014_1c_tp_so.Kernel.Colas.{pasar_pcb_block_ready}
use tp_2014_1c_tp_so.Kernel.Cpus.{
  get_cpu, get_cpu_soc_cpu_remove, conec_cerrada_cpu, fin_quantum, llamada_erronea, fin_ejecucion,
  actualizar_pcb_y_bloq,
}

-- `atoi` and the commons library's `string_itoa`.
pub record Texto : Type 0 where
  pub atoi : List ℕ → ℤ
  pub string_itoa : ℤ → List ℕ

-- `atoi`, of a pointer that is followed.
unfoldable pub numero : Texto → List ℕ → Outcome ℤ
numero t [] = fault
numero t (b ∷ bs) = ok (t.atoi (b ∷ bs))

pub numero-ok : (t : Texto) (dato : List ℕ) → dato ≢ [] → numero t dato ≡ ok (t.atoi dato)
unfolding numero
numero-ok t [] h = absurd (h refl)
numero-ok t (b ∷ bs) h = refl

unfoldable pub wait : Kernel → ℤ → MenComun → Recepcion → Outcome (Kernel × List Envio)
wait k soc_cpu men_cpu sig = clave_de men_cpu.dato >>= λ nombre.
    elim (dictionary_get nombre k.dicc_sem) [
      | none ↦ llamada_erronea k soc_cpu Tipos.sem_inex
      | some s ↦
          let s1 = record s { valor = sub32 s.valor (pos 1) } in
          let k1 = record k { dicc_sem = dictionary_put nombre s1 k.dicc_sem } in
          if ltb_ℤ (pos 0) s.valor
          then ok (k1, avisar soc_cpu Tipos.sem_ok ∷ [])
          else get_cpu_soc_cpu_remove k1 soc_cpu >>= λ r. actualizar_pcb_y_bloq r.1 r.0 sig >>= λ b.
              let s2 = record s1 { procesos = s1.procesos ++ (b.1 ∷ []) } in
              ok (
                record b.0 { dicc_sem = dictionary_put nombre s2 b.0.dicc_sem },
                avisar soc_cpu Tipos.sem_bloqueado ∷ [],
              )
    ]

unfoldable pub signal : Kernel → ℤ → MenComun → Outcome (Kernel × List Envio)
signal k soc_cpu men_cpu = clave_de men_cpu.dato >>= λ nombre.
    elim (dictionary_get nombre k.dicc_sem) [
      | none ↦ llamada_erronea k soc_cpu Tipos.sem_inex
      | some s ↦
          let s1 = record s { valor = add32 s.valor (pos 1) } in
          let k1 : Kernel = elim s.procesos [
            | [] ↦ record k { dicc_sem = dictionary_put nombre s1 k.dicc_sem }
            | id ∷ ids ↦
                pasar_pcb_block_ready
                  (record k {
                    dicc_sem = dictionary_put nombre (record s1 { procesos = ids }) k.dicc_sem;
                  })
                  id
          ] in
          ok (k1, avisar soc_cpu Tipos.sem_ok ∷ [])
    ]

module _ (t : Texto) where
  unfoldable pub obtener_valor_compartida : Kernel → ℤ → MenComun → Outcome (Kernel × List Envio)
  obtener_valor_compartida k soc_cpu men_obt_valor = clave_de men_obt_valor.dato >>= λ key.
      elim (dictionary_get key k.dicc_var) [
        | none ↦ llamada_erronea k soc_cpu Tipos.var_inex
        | some valor ↦
            let s = t.string_itoa valor in
            ok (
              k,
              a_comun soc_cpu
                    (crear_men_comun Tipos.r_obtener_valor (s ++ (0 ∷ [])) (pos (length s + 1)))
                  ∷ [],
            )
      ]

  unfoldable pub grabar_valor_compartida :
      Kernel → ℤ → MenComun → Recepcion → Outcome (Kernel × List Envio)
  grabar_valor_compartida k soc_cpu men_gra_valor sig = clave_de men_gra_valor.dato >>= λ key.
      elim (dictionary_get key k.dicc_var) [
        | none ↦ llamada_erronea k soc_cpu Tipos.var_inex
        | some _ ↦ sig.dato >>= λ men. numero t men.dato >>= λ valor. ok (
          record k { dicc_var = dictionary_put key valor k.dicc_var },
          avisar soc_cpu Tipos.r_grabar_valor ∷ avisar soc_cpu Tipos.r_grabar_valor ∷ [],
        )
      ]

  unfoldable pub enviar_io : Kernel → ℤ → MenComun → Recepcion → Outcome Kernel
  enviar_io k soc_cpu men_cpu sig = get_cpu_soc_cpu_remove k soc_cpu >>= λ r. sig.dato >>= λ men.
      numero t men.dato >>= λ cant_unidades. clave_de men_cpu.dato >>= λ nombre.
      elim (dictionary_get nombre r.1.dicc_disp_io) [
        | none ↦ fault
        | some io ↦
            let en_espera : IoEspera = record {
              id_prog = r.0.id_prog_exec;
              unidades = cant_unidades;
            } in
            let io1 = record io { procesos = io.procesos ++ (en_espera ∷ []) } in
            actualizar_pcb_y_bloq r.1 r.0 sig >>= λ b. ok (record b.0 {
              dicc_disp_io =
                  dictionary_put nombre (record io1 { cont_cant_proc = io1.cont_cant_proc + 1 })
                    b.0.dicc_disp_io;
            })
      ]

-- `imprimir_texto`: the message goes on to the program.
unfoldable pub imprimir : Kernel → ℤ → MenComun → Outcome (Kernel × List Envio)
imprimir k soc_cpu men = elim (get_cpu k soc_cpu) [
  | none ↦ fault
  | some c ↦ ok (k, a_comun c.soc_prog men ∷ avisar soc_cpu Tipos.r_imprimir ∷ [])
]

-- The same, and then the number is read for the log.
unfoldable pub imprimir_valor : Texto → Kernel → ℤ → MenComun → Outcome (Kernel × List Envio)
unfolding imprimir numero
imprimir_valor t k soc_cpu men = imprimir k soc_cpu men >>= λ r. numero t men.dato >>= λ v. ok r

-- A handler that sends nothing.
abbrev pub callado : Outcome Kernel → Outcome (Kernel × List Envio)
callado o = o >>= λ k. ok (k, [])

module _ (t : Texto) where
  unfoldable pub administrar_men_cpus :
      Kernel → ℤ → MenComun → Recepcion → Outcome (Kernel × List Envio)
  administrar_men_cpus k soc_cpu men sig =
      if men.tipo ==ℤ Tipos.conec_cerrada
      then callado (conec_cerrada_cpu k soc_cpu)
      else if men.tipo ==ℤ Tipos.fin_quantum
      then callado (fin_quantum k soc_cpu men sig)
      else if men.tipo ==ℤ Tipos.fin_ejecucion
      then callado (fin_ejecucion k Tipos.fin_ejecucion soc_cpu)
      else if men.tipo ==ℤ Tipos.segmen_fault
      then callado (fin_ejecucion k Tipos.segmen_fault soc_cpu)
      else if men.tipo ==ℤ Tipos.imprimir_texto
      then imprimir k soc_cpu men
      else if men.tipo ==ℤ Tipos.imprimir_valor
      then imprimir_valor t k soc_cpu men
      else if men.tipo ==ℤ Tipos.obtener_valor
      then obtener_valor_compartida t k soc_cpu men
      else if men.tipo ==ℤ Tipos.grabar_valor
      then grabar_valor_compartida t k soc_cpu men sig
      else if men.tipo ==ℤ Tipos.wait
      then wait k soc_cpu men sig
      else if men.tipo ==ℤ Tipos.signal
      then signal k soc_cpu men
      else if men.tipo ==ℤ Tipos.io_id
      then callado (enviar_io t k soc_cpu men sig)
      else ok (k, [])
