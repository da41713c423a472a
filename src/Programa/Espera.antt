-- ===== src/Programa/Espera.antt =====
-- The loop over the kernel's messages.
use mathlib.Core.List.{append_assoc, append-nil}
use tp_2014_1c_tp_so.Base.{
  ℕ, zero, suc, ◌+◌, ◌-◌, ◌<◌, ◌≤◌, ◌≡◌, ◌≢◌, refl, true, false, List, [], ◌∷◌, ◌++◌, Option, none,
  some, arith, length, take, length-drop,
}
use tp_2014_1c_tp_so.Base.Int.{pos, pos_part, ltb_ℤ}
use tp_2014_1c_tp_so.Base.Outcome.{ok, Logra, bien, falla, Logra-bind, Logra-puro, Logra-if}
use tp_2014_1c_tp_so.Mensajes.{MenComun}
use tp_2014_1c_tp_so.Sockets.{leer_int32, recibir}
use tp_2014_1c_tp_so.Sockets.Comun.{
  EsComun, men_deserealizer_comun, socket_send_comun, socket_recv_comun,
  socket_recv_comun-socket_send_comun,
}
use tp_2014_1c_tp_so.Sockets.Secuencia.{Enviables, enviar_todos}
use tp_2014_1c_tp_so.Programa.{Fin, linea_de, se_imprime, cierre, con_linea, esperar}

-- A message that is received takes bytes off the connection.
socket_recv_comun-acorta :
    (b : ℕ) (soc : List ℕ)
    → Logra (λ (r : MenComun × List ℕ). length r.1 ≤ length soc) (socket_recv_comun (b ∷ soc))
unfolding socket_recv_comun recibir
socket_recv_comun-acorta b soc = Logra-puro (leer_int32 (b ∷ soc) 0) (λ n.
    Logra-if (ltb_ℤ (pos 0) n)
      (λ h.
        Logra-puro (men_deserealizer_comun (take (pos_part n) (b ∷ soc)))
          (λ m. bien _ (ground (arith, length-drop (pos_part n) (b ∷ soc)))))
      (λ h. falla))

some-none : {f : Fin} → some f ≢ none
some-none e = cc

con_linea-some : (linea : List ℕ) (f : Option Fin) → f ≢ none → con_linea linea f ≢ none
con_linea-some linea none h = absurd (h refl)
con_linea-some linea (some f) h = some-none

-- Where the loop does not read outside a message, it ends: one round more than there are bytes on
-- the connection is enough, since each message takes some of them and the closed connection ends it.
pub esperar_termina :
    (n : ℕ) (soc : List ℕ) → length soc < n → Logra (λ f. f ≢ none) (esperar n soc)
unfolding esperar
esperar_termina zero soc h = absurd (omega arith)
esperar_termina (suc n) [] h = unfold socket_recv_comun recibir se_imprime in bien _ some-none
esperar_termina (suc n) (b ∷ soc) h = Logra-bind (socket_recv_comun-acorta b soc) (λ r l.
    Logra-if (se_imprime r.0.tipo)
      (λ e. Logra-puro (linea_de r.0.dato) (λ linea.
        Logra-bind (esperar_termina n r.1 (omega arith))
          (λ f k. bien _ (con_linea-some linea f k))))
      (λ e. bien _ some-none))

-- Messages to print, and their lines.
pub data Impresas : List MenComun → List (List ℕ) → Type 0 where
  ninguna : Impresas [] []
  una :
      (m : MenComun) {ms : List MenComun} (linea : List ℕ) {lineas : List (List ℕ)}
      → se_imprime m.tipo ≡ true
      → linea_de m.dato ≡ ok linea
      → Impresas ms lineas
      → Impresas (m ∷ ms) (linea ∷ lineas)

-- A round that prints.
esperar_una :
    (n : ℕ) (soc resto : List ℕ) (m : MenComun) (linea : List ℕ) (f : Fin)
    → socket_recv_comun soc ≡ ok (m, resto)
    → se_imprime m.tipo ≡ true
    → linea_de m.dato ≡ ok linea
    → esperar n resto ≡ ok (some f)
    → esperar (suc n) soc ≡ ok (some (record f { impreso = linea ∷ f.impreso }))
unfolding esperar
esperar_una n soc resto m linea f r si dice k = rw (r, si, dice, k) refl

-- They are printed, and then the loop goes on with what follows.
pub esperar-enviar_todos :
    {ms : List MenComun} {lineas : List (List ℕ)}
    → Impresas ms lineas
    → (soc : List ℕ) → Enviables ms
    → (bytes : List ℕ) × (enviar_todos ms ≡ ok bytes)
      × ((n : ℕ) (f : Fin)
          → esperar n soc ≡ ok (some f)
          → esperar (length ms + n) (bytes ++ soc)
            ≡ ok (some (record f { impreso = lineas ++ f.impreso })))
unfolding enviar_todos
esperar-enviar_todos ninguna soc h =
    ([], refl, λ n f e. let cero : 0 + n ≡ n = omega arith in rw cero e)
esperar-enviar_todos (una m {ms} linea {lineas} si dice p) soc h =
    let resto = esperar-enviar_todos p soc h.1 in
    let uno = socket_recv_comun-socket_send_comun m (resto.0 ++ soc) h.0 in
    (
      uno.0 ++ resto.0,
      rw (uno.1, resto.1) refl,
      λ n f e.
          let mas : length (m ∷ ms) + n ≡ suc (length ms + n) = omega arith in
          rw (mas, append_assoc uno.0)
            (esperar_una (length ms + n) _ (resto.0 ++ soc) m linea _ uno.2 si dice
              (resto.2 n f e)),
    )

-- Any number of messages to print, and one of another type. The client prints the lines of the first in
-- their order, ends as the type of the last says, and leaves what follows it on the connection, if
-- the loop may do one round more than there are messages to print.
pub esperar_lem :
    {ms : List MenComun} {lineas : List (List ℕ)} (fin : MenComun) (soc : List ℕ) (n : ℕ)
    → Impresas ms lineas
    → Enviables ms
    → EsComun fin
    → se_imprime fin.tipo ≡ false
    → length ms < n
    → (bytes ultimos : List ℕ) × (enviar_todos ms ≡ ok bytes)
      × (socket_send_comun fin ≡ ok ultimos)
      × (esperar n (bytes ++ (ultimos ++ soc))
          ≡ ok (some (record { impreso = lineas; cierre = cierre fin.tipo; soc = soc })))
unfolding esperar
esperar_lem {ms} {lineas} fin soc n p h e otro l =
    let u = socket_recv_comun-socket_send_comun fin soc e in
    let t = esperar-enviar_todos p (u.0 ++ soc) h in
    let f : Fin = record { impreso = []; cierre = cierre fin.tipo; soc = soc } in
    let q = n - length ms - 1 in
    let k : esperar (suc q) (u.0 ++ soc) ≡ ok (some f) = rw (u.2, otro) refl in
    let rondas : length ms + suc q ≡ n = omega arith in
    (t.0, u.0, t.1, u.1, rw (append-nil lineas) at (rw rondas at (t.2 (suc q) f k)))
