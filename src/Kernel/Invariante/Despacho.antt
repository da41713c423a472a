-- ===== src/Kernel/Invariante/Despacho.antt =====
-- `administrar_men_cpus`: every message of a CPU keeps the state valid.
use tp_2014_1c_tp_so.Base.{
  ℕ, ◌+◌, ◌++◌, length, ◌≡◌, refl, ◌≢◌, inl, inr, Bool, true, false, List, [], ◌∷◌, none, some,
  arith, list_find, list_remove, if◌then◌else◌, Bool-cases, Option-cases,
}
use tp_2014_1c_tp_so.Base.Int.{ℤ, pos, ltb_ℤ, ◌==ℤ◌}
use tp_2014_1c_tp_so.Base.Outcome.{Outcome, ok}
use tp_2014_1c_tp_so.Mensajes.{MenComun, crear_men_comun}
use tp_2014_1c_tp_so.Mensajes.Tipos
use tp_2014_1c_tp_so.Kernel.Estado.{Cpu, Kernel, Envio, a_comun, avisar, Siguientes, llegan}
use tp_2014_1c_tp_so.Base.Diccionario.{clave, clave_de-ok, dictionary_get, dictionary_put}
use tp_2014_1c_tp_so.Kernel.Cpus.{get_cpu, llamada_erronea, fin_ejecucion}
use tp_2014_1c_tp_so.Kernel.Servicios.{
  Texto, numero-ok, imprimir_valor, wait, signal, obtener_valor_compartida, grabar_valor_compartida,
  enviar_io, imprimir, callado, administrar_men_cpus,
}
use tp_2014_1c_tp_so.Kernel.Invariante.{Valido, Bien, Ocupada}
use tp_2014_1c_tp_so.Kernel.Invariante.Turnos.{
  fin_quantum-Bien, fin_ejecucion-Bien, llamada_erronea-Bien, conec_cerrada_cpu-Bien,
}
use tp_2014_1c_tp_so.Kernel.Invariante.Pedidos.{Bien-refl, enviar_io-Bien}
use tp_2014_1c_tp_so.Kernel.Invariante.Semaforos.{wait_efecto, signal_efecto}

-- The answer with a value, as text.
abbrev respuesta_valor : Texto → ℤ → ℤ → Envio
respuesta_valor t soc_cpu valor =
    let s = t.string_itoa valor in
    a_comun soc_cpu (crear_men_comun Tipos.r_obtener_valor (s ++ (0 ∷ [])) (pos (length s + 1)))

-- The messages whose data `pcp` reads, and those that have a number after them.
abbrev pub con_dato : ℤ → Bool
con_dato tipo =
    if tipo ==ℤ Tipos.imprimir_valor
    then true
    else if tipo ==ℤ Tipos.obtener_valor
    then true
    else if tipo ==ℤ Tipos.grabar_valor
    then true
    else if tipo ==ℤ Tipos.wait
    then true
    else if tipo ==ℤ Tipos.signal
    then true
    else tipo ==ℤ Tipos.io_id

abbrev pub con_numero : ℤ → Bool
con_numero tipo = if tipo ==ℤ Tipos.grabar_valor then true else tipo ==ℤ Tipos.io_id

-- No text that `pcp` reads of the message, or of the one after it, is missing, and a device that is
-- asked for exists.
pub record Atendible (k : Kernel) (men : MenComun) (sig : Siguientes) : Type 0 where
  pub dato : con_dato men.tipo ≡ true → men.dato ≢ []
  pub numero : con_numero men.tipo ≡ true → sig.dato.dato ≢ []
  pub existe : men.tipo ≡ Tipos.io_id → dictionary_get (clave men.dato) k.dicc_disp_io ≢ none

-- A message that is answered, with the state valid and the same processes.
abbrev pub Atendido : ℕ → Kernel → Outcome (Kernel × List Envio) → Type 0
Atendido grado k o = (r : Kernel × List Envio) × (o ≡ ok r) × Bien grado k r.0

Atendido-if :
    (grado : ℕ) (k : Kernel) (b : Bool) (x y : Outcome (Kernel × List Envio))
    → (b ≡ true → Atendido grado k x)
    → Atendido grado k y
    → Atendido grado k (if b then x else y)
Atendido-if grado k true x y hx hy = hx refl
Atendido-if grado k false x y hx hy = hy

Atendido-callado :
    (grado : ℕ) (k : Kernel) (o : Outcome Kernel) (k' : Kernel)
    → o ≡ ok k'
    → Bien grado k k'
    → Atendido grado k (callado o)
Atendido-callado grado k o k' e b = ((k', []), rw e refl, b)

list_find-list_remove :
    (p : Cpu → Bool) (cpus : List Cpu) (c : Cpu) (resto : List Cpu)
    → list_remove p cpus ≡ some (c, resto)
    → list_find p cpus ≡ some c
unfolding list_find list_remove
list_find-list_remove p [] c resto e = absurd (ground arith)
list_find-list_remove p (d ∷ cpus) c resto e = elim (Bool-cases (p d)) [
  | inl h ↦ ground arith
  | inr h ↦ elim (Option-cases (list_remove p cpus)) [
    | inl n ↦ absurd (ground arith)
    | inr ((y, ys), r) ↦ ground (arith, list_find-list_remove p cpus y ys r)
  ]
]

module _ (t : Texto) (grado : ℕ) (k : Kernel) (soc_cpu : ℤ) (v : Valido grado k)
    (o : Ocupada k soc_cpu) where
  imprimir-Atendido : (men : MenComun) → Atendido grado k (imprimir k soc_cpu men)
  unfolding imprimir get_cpu
  imprimir-Atendido men =
      let e = list_find-list_remove _ k.lista_cpu o.cpu o.resto o.esta in
      (
        (k, a_comun o.cpu.soc_prog men ∷ avisar soc_cpu Tipos.r_imprimir ∷ []),
        ground (arith, e),
        Bien-refl grado k v,
      )

  erronea-Atendido : (tipo_error : ℤ) → Atendido grado k (llamada_erronea k soc_cpu tipo_error)
  erronea-Atendido tipo_error =
      let r = llamada_erronea-Bien grado k soc_cpu tipo_error v o in
      ((r.0, avisar soc_cpu tipo_error ∷ []), r.1, r.2)

  valor-Atendido :
      (men : MenComun) → men.dato ≢ [] → Atendido grado k (imprimir_valor t k soc_cpu men)
  unfolding imprimir_valor
  valor-Atendido men h =
      let r = imprimir-Atendido men in (r.0, rw (r.1, numero-ok t men.dato h) refl, r.2)

  obtener-Atendido :
      (men : MenComun) → men.dato ≢ [] → Atendido grado k (obtener_valor_compartida t k soc_cpu men)
  unfolding obtener_valor_compartida
  obtener-Atendido men d =
      let c = clave_de-ok men.dato d in
      elim (Option-cases (dictionary_get (clave men.dato) k.dicc_var)) [
        | inl e ↦
            let q : obtener_valor_compartida t k soc_cpu men
                ≡ llamada_erronea k soc_cpu Tipos.var_inex =
              ground (arith, c, e) in
            rw q (erronea-Atendido Tipos.var_inex)
        | inr (valor, e) ↦
            ((k, respuesta_valor t soc_cpu valor ∷ []), ground (arith, c, e), Bien-refl grado k v)
      ]

  grabar-Atendido :
      (men : MenComun) (sig : Siguientes)
      → men.dato ≢ []
      → sig.dato.dato ≢ []
      → Atendido grado k (grabar_valor_compartida t k soc_cpu men (llegan sig))
  grabar-Atendido men sig d n =
      let c = clave_de-ok men.dato d in
      let u = numero-ok t sig.dato.dato n in
      elim (Option-cases (dictionary_get (clave men.dato) k.dicc_var)) [
        | inl e ↦
            let q : grabar_valor_compartida t k soc_cpu men (llegan sig)
                ≡ llamada_erronea k soc_cpu Tipos.var_inex =
              unfold grabar_valor_compartida in ground (arith, c, e) in
            rw q (erronea-Atendido Tipos.var_inex)
        | inr (valor, e) ↦ (
          (
            record k {
              dicc_var = dictionary_put (clave men.dato) (t.atoi sig.dato.dato) k.dicc_var;
            },
            avisar soc_cpu Tipos.r_grabar_valor ∷ avisar soc_cpu Tipos.r_grabar_valor ∷ [],
          ),
          unfold grabar_valor_compartida in ground (arith, c, e, u),
          record {
            valido = record {
              nuevos = v.nuevos;
              listos = v.listos;
              salidos = v.salidos;
              libres = v.libres;
              ocupadas = v.ocupadas;
              numerados = v.numerados;
              multiprog = v.multiprog;
            };
            mismos = λ id. refl;
          },
        )
      ]

  wait-Atendido :
      (men : MenComun) (sig : Siguientes)
      → men.dato ≢ []
      → Atendido grado k (wait k soc_cpu men (llegan sig))
  wait-Atendido men sig d =
      let c = clave_de-ok men.dato d in
      elim (Option-cases (dictionary_get (clave men.dato) k.dicc_sem)) [
        | inl e ↦
            let q : wait k soc_cpu men (llegan sig) ≡ llamada_erronea k soc_cpu Tipos.sem_inex =
              unfold wait in ground (arith, c, e) in
            rw q (erronea-Atendido Tipos.sem_inex)
        | inr (s, e) ↦
            let w = wait_efecto grado k soc_cpu men sig s (clave men.dato) c v o e in
            (
              (
                w.0,
                avisar soc_cpu (if ltb_ℤ (pos 0) s.valor then Tipos.sem_ok else Tipos.sem_bloqueado)
                    ∷ [],
              ),
              w.2,
              w.3.bien,
            )
      ]

  signal-Atendido : (men : MenComun) → men.dato ≢ [] → Atendido grado k (signal k soc_cpu men)
  signal-Atendido men d =
      let c = clave_de-ok men.dato d in
      elim (Option-cases (dictionary_get (clave men.dato) k.dicc_sem)) [
        | inl e ↦
            let q : signal k soc_cpu men ≡ llamada_erronea k soc_cpu Tipos.sem_inex =
              unfold signal in ground (arith, c, e) in
            rw q (erronea-Atendido Tipos.sem_inex)
        | inr (s, e) ↦
            let w = signal_efecto grado k soc_cpu men s (clave men.dato) c v e in
            ((w.0, avisar soc_cpu Tipos.sem_ok ∷ []), w.2, w.3.bien)
      ]

  io-Atendido :
      (men : MenComun) (sig : Siguientes)
      → men.dato ≢ []
      → sig.dato.dato ≢ []
      → dictionary_get (clave men.dato) k.dicc_disp_io ≢ none
      → Atendido grado k (callado (enviar_io t k soc_cpu men (llegan sig)))
  io-Atendido men sig d n h = elim (Option-cases (dictionary_get (clave men.dato) k.dicc_disp_io)) [
    | inl e ↦ absurd (h e)
    | inr (io, e) ↦
        let r =
          enviar_io-Bien t grado k soc_cpu men sig io (clave men.dato) (t.atoi sig.dato.dato)
            (clave_de-ok men.dato d) (numero-ok t sig.dato.dato n) v o e in
        Atendido-callado grado k (enviar_io t k soc_cpu men (llegan sig)) r.0 r.2 r.3
  ]

  pub administrar_men_cpus-Bien :
      (men : MenComun) (sig : Siguientes)
      → Atendible k men sig
      → Atendido grado k (administrar_men_cpus t k soc_cpu men (llegan sig))
  unfolding administrar_men_cpus
  administrar_men_cpus-Bien men sig h =
      let cerrada = conec_cerrada_cpu-Bien grado k soc_cpu o.cpu o.resto v o.esta in
      let quantum = fin_quantum-Bien grado k soc_cpu men sig v o in
      let fin : (tipo : ℤ) → Atendido grado k (callado (fin_ejecucion k tipo soc_cpu)) = λ tipo.
        let r = fin_ejecucion-Bien grado k tipo soc_cpu v o in
        Atendido-callado grado k (fin_ejecucion k tipo soc_cpu) r.0 r.1 r.2 in
      Atendido-if grado k (men.tipo ==ℤ Tipos.conec_cerrada) _ _
        (λ e. Atendido-callado grado k _ cerrada.0 cerrada.1 cerrada.2)
        (Atendido-if grado k (men.tipo ==ℤ Tipos.fin_quantum) _ _
          (λ e. Atendido-callado grado k _ quantum.0 quantum.1 quantum.2)
          (Atendido-if grado k (men.tipo ==ℤ Tipos.fin_ejecucion) _ _ (λ e. fin Tipos.fin_ejecucion)
            (Atendido-if grado k (men.tipo ==ℤ Tipos.segmen_fault) _ _ (λ e. fin Tipos.segmen_fault)
              (Atendido-if grado k (men.tipo ==ℤ Tipos.imprimir_texto) _ _
                (λ e. imprimir-Atendido men)
                (Atendido-if grado k (men.tipo ==ℤ Tipos.imprimir_valor) _ _
                  (λ e. valor-Atendido men (h.dato (ground (arith, e))))
                  (Atendido-if grado k (men.tipo ==ℤ Tipos.obtener_valor) _ _
                    (λ e. obtener-Atendido men (h.dato (ground (arith, e))))
                    (Atendido-if grado k (men.tipo ==ℤ Tipos.grabar_valor) _ _
                      (λ e.
                        grabar-Atendido men sig (h.dato (ground (arith, e)))
                          (h.numero (ground (arith, e))))
                      (Atendido-if grado k (men.tipo ==ℤ Tipos.wait) _ _
                        (λ e. wait-Atendido men sig (h.dato (ground (arith, e))))
                        (Atendido-if grado k (men.tipo ==ℤ Tipos.signal) _ _
                          (λ e. signal-Atendido men (h.dato (ground (arith, e))))
                          (Atendido-if grado k (men.tipo ==ℤ Tipos.io_id) _ _
                            (λ e.
                              io-Atendido men sig (h.dato (ground (arith, e)))
                                (h.numero (ground (arith, e))) (h.existe (ground arith)))
                            ((k, []), refl, Bien-refl grado k v)))))))))))
