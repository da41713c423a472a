-- ===== src/Sistema/Impresion.antt =====
-- What a program prints, from its CPU to its client.
use tp_2014_1c_tp_so.Base.{
  ℕ, suc, ◌+◌, ◌^◌, ◌<◌, ◌≡◌, ◌≢◌, refl, ◌∙◌, sym, ap, true, false, List, [], ◌∷◌, ◌++◌, some,
  arith, length, length-append,
}
use tp_2014_1c_tp_so.Base.Int.{ℤ, pos, ◌==ℤ◌}
use tp_2014_1c_tp_so.Base.Words.{IsInt32}
use tp_2014_1c_tp_so.Base.Outcome.{ok}
use tp_2014_1c_tp_so.Mensajes.{MenComun, crear_men_comun, aviso}
use tp_2014_1c_tp_so.Mensajes.Tipos
use tp_2014_1c_tp_so.Sockets.Comun.{EsComun, socket_send_comun}
use tp_2014_1c_tp_so.Sockets.Secuencia.{Enviables, enviar_todos}
use tp_2014_1c_tp_so.Kernel.Estado.{Kernel, Cpu, Envio, a_comun, avisar, Recepcion}
use tp_2014_1c_tp_so.Kernel.Cpus.{get_cpu}
use tp_2014_1c_tp_so.Kernel.Servicios.{
  Texto, numero-ok, imprimir, imprimir_valor, administrar_men_cpus,
}
use tp_2014_1c_tp_so.Cpu.Estado.{con_cadena}
use tp_2014_1c_tp_so.Cpu.Pila.{take-all}
use tp_2014_1c_tp_so.Programa.{se_imprime, cierre, linea_de, esperar}
use tp_2014_1c_tp_so.Programa.Espera.{Impresas, ninguna, una, esperar_lem}
use tp_2014_1c_tp_so.Sistema.{para, atender_mensajes}

-- A string with no 0 in it, which fits a message with its end.
pub data EsCadena : List ℕ → Type 0 where
  cadena_nil : EsCadena []
  cadena_cons : (b : ℕ) {s : List ℕ} → EsCadena s → EsCadena (suc b ∷ s)

linea_de-cadena : {s : List ℕ} → EsCadena s → linea_de (s ++ (0 ∷ [])) ≡ ok s
unfolding linea_de
linea_de-cadena cadena_nil = refl
linea_de-cadena (cadena_cons b h) = rw (linea_de-cadena h) refl

-- What a CPU sends for the values and the texts that a program prints, and their lines.
pub data Impresiones : List (MenComun × Recepcion) → List (List ℕ) → Type 0 where
  nada : Impresiones [] []
  de_valor :
      (s : List ℕ) (sig : Recepcion) {mens : List (MenComun × Recepcion)} {lineas : List (List ℕ)}
      → EsCadena s
      → 13 + length s < 2 ^ 31
      → Impresiones mens lineas
      → Impresiones ((con_cadena Tipos.imprimir_valor s, sig) ∷ mens) (s ∷ lineas)
  de_texto :
      (s : List ℕ) (sig : Recepcion) {mens : List (MenComun × Recepcion)} {lineas : List (List ℕ)}
      → EsCadena s
      → 13 + length s < 2 ^ 31
      → Impresiones mens lineas
      → Impresiones ((con_cadena Tipos.imprimir_texto s, sig) ∷ mens) (s ∷ lineas)

-- The message of a string, with its end.
pub con_cadena_lem :
    (tipo : ℤ) (s : List ℕ)
    → con_cadena tipo s
      ≡ record { tam_dato = pos (length s + 1); tipo = tipo; dato = s ++ (0 ∷ []) }
unfolding crear_men_comun
con_cadena_lem tipo s = rw (take-all (length s + 1) (s ++ (0 ∷ [])) (length-append s (0 ∷ []))) refl

con_cadena-EsComun :
    (tipo : ℤ) (s : List ℕ) → IsInt32 tipo → 13 + length s < 2 ^ 31 → EsComun (con_cadena tipo s)
con_cadena-EsComun tipo s i h =
    let l = length-append s (0 ∷ []) in
    rw (con_cadena_lem tipo s)
      (record { tam = ap pos (sym l); tipo_int = i; corto = omega (arith, l) })

con_cadena-linea : (tipo : ℤ) (s : List ℕ) → EsCadena s → linea_de (con_cadena tipo s).dato ≡ ok s
con_cadena-linea tipo s h = rw (con_cadena_lem tipo s) (linea_de-cadena h)

eq_ℤ_refl : (z : ℤ) → (z ==ℤ z) ≡ true
eq_ℤ_refl z = ground arith

abbrev mensajes : List (MenComun × Recepcion) → List MenComun
mensajes [] = []
mensajes ((men, sig) ∷ mens) = men ∷ mensajes mens

mensajes-Impresas :
    {mens : List (MenComun × Recepcion)} {lineas : List (List ℕ)}
    → Impresiones mens lineas
    → Impresas (mensajes mens) lineas
      × Enviables (mensajes mens)
      × (length (mensajes mens) ≡ length lineas)
unfolding se_imprime crear_men_comun
mensajes-Impresas nada = (ninguna, tt, refl)
mensajes-Impresas (de_valor s sig h c p) =
    let r = mensajes-Impresas p in
    (
      una (con_cadena Tipos.imprimir_valor s) s refl (con_cadena-linea Tipos.imprimir_valor s h)
          r.0,
      (con_cadena-EsComun Tipos.imprimir_valor s (omega arith, omega arith) c, r.1),
      omega (arith, r.2),
    )
mensajes-Impresas (de_texto s sig h c p) =
    let r = mensajes-Impresas p in
    (
      una (con_cadena Tipos.imprimir_texto s) s refl (con_cadena-linea Tipos.imprimir_texto s h)
          r.0,
      (con_cadena-EsComun Tipos.imprimir_texto s (omega arith, omega arith) c, r.1),
      omega (arith, r.2),
    )

pub llena : (s : List ℕ) → s ++ (0 ∷ []) ≢ []
llena [] h = cc
llena (b ∷ s) h = cc

module _ (t : Texto) (k : Kernel) (soc_cpu : ℤ) (c : Cpu) (h : get_cpu k soc_cpu ≡ some c)
    (otro : (soc_cpu ==ℤ c.soc_prog) ≡ false) where
  reenvia : MenComun → List Envio
  reenvia men = a_comun c.soc_prog men ∷ avisar soc_cpu Tipos.r_imprimir ∷ []

  imprimir_lem : (men : MenComun) → imprimir k soc_cpu men ≡ ok (k, reenvia men)
  unfolding imprimir reenvia
  imprimir_lem men = rw (h, imprimir) refl

  imprime_valor :
      (s : List ℕ) (sig : Recepcion)
      → administrar_men_cpus t k soc_cpu (con_cadena Tipos.imprimir_valor s) sig
        ≡ ok (k, reenvia (con_cadena Tipos.imprimir_valor s))
  unfolding administrar_men_cpus imprimir_valor crear_men_comun
  imprime_valor s sig =
      let dato : (con_cadena Tipos.imprimir_valor s).dato ≡ s ++ (0 ∷ []) =
        ap (λ (w : MenComun). w.dato) (con_cadena_lem Tipos.imprimir_valor s) in
      rw
        (
          imprimir_lem (con_cadena Tipos.imprimir_valor s),
          numero-ok t (con_cadena Tipos.imprimir_valor s).dato (rw dato (llena s)),
        )
        refl

  imprime_texto :
      (s : List ℕ) (sig : Recepcion)
      → administrar_men_cpus t k soc_cpu (con_cadena Tipos.imprimir_texto s) sig
        ≡ ok (k, reenvia (con_cadena Tipos.imprimir_texto s))
  unfolding administrar_men_cpus crear_men_comun
  imprime_texto s sig = imprimir_lem _

  para-reenvia :
      (men : MenComun) (es : List Envio)
      → para c.soc_prog (reenvia men ++ es) ≡ men ∷ para c.soc_prog es
  unfolding para reenvia
  para-reenvia men es = rw (eq_ℤ_refl c.soc_prog, otro) refl

  -- The kernel passes them on, and its state is as it was.
  atender_mensajes-Impresiones :
      {mens : List (MenComun × Recepcion)} {lineas : List (List ℕ)}
      → Impresiones mens lineas
      → (envios : List Envio) × (atender_mensajes t k soc_cpu mens ≡ ok (k, envios))
        × (para c.soc_prog envios ≡ mensajes mens)
  unfolding atender_mensajes para
  atender_mensajes-Impresiones nada = ([], refl, refl)
  atender_mensajes-Impresiones (de_valor s sig d l p) =
      let r = atender_mensajes-Impresiones p in
      let men = con_cadena Tipos.imprimir_valor s in
      (
        reenvia men ++ r.0,
        rw (imprime_valor s sig, r.1) refl,
        para-reenvia men r.0 ∙ ap (◌∷◌ men) r.2,
      )
  atender_mensajes-Impresiones (de_texto s sig d l p) =
      let r = atender_mensajes-Impresiones p in
      let men = con_cadena Tipos.imprimir_texto s in
      (
        reenvia men ++ r.0,
        rw (imprime_texto s sig, r.1) refl,
        para-reenvia men r.0 ∙ ap (◌∷◌ men) r.2,
      )

  -- What a program prints in a turn reaches its client. The CPU's messages go through the kernel, whose
  -- state they do not change; the client prints their texts in the same order, and then a notice
  -- that ends the program closes it, as its type says. The CPU's socket is another than the
  -- client's, and the texts are strings that fit a message.
  pub esperar-atender_mensajes :
      {mens : List (MenComun × Recepcion)} {lineas : List (List ℕ)} (fin : ℤ) (soc : List ℕ) (n : ℕ)
      → Impresiones mens lineas
      → IsInt32 fin
      → se_imprime fin ≡ false
      → length lineas < n
      → (envios : List Envio) × (bytes ultimos : List ℕ) × (atender_mensajes t k soc_cpu mens
          ≡ ok (k, envios))
        × (enviar_todos (para c.soc_prog envios) ≡ ok bytes)
        × (socket_send_comun (aviso fin) ≡ ok ultimos)
        × (esperar n (bytes ++ (ultimos ++ soc))
            ≡ ok (some (record { impreso = lineas; cierre = cierre fin; soc = soc })))
  esperar-atender_mensajes {mens} {lineas} fin soc n p i otra l =
      let a = atender_mensajes-Impresiones p in
      let m = mensajes-Impresas p in
      let e =
        esperar_lem (aviso fin) soc n m.0 m.1
          (record { tam = refl; tipo_int = i; corto = omega arith }) otra (omega (arith, m.2)) in
      (a.0, e.0, e.1, a.1, rw a.2 e.2, e.3, e.4)
