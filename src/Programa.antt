-- ===== src/Programa.antt =====
-- programa/programa.c: the client that sends a script to the kernel and prints what comes back. The file of
-- the script is its bytes; `soc` is what the kernel sends before it closes the connection.
pub mod Lectura
pub mod Espera
use tp_2014_1c_tp_so.Base.{
  ℕ, zero, suc, Bool, ◌||◌, List, [], ◌∷◌, ◌++◌, Option, none, some, length, if◌then◌else◌,
}
use tp_2014_1c_tp_so.Base.Int.{ℤ, pos, ◌==ℤ◌}
use tp_2014_1c_tp_so.Base.Outcome.{Outcome, ok, fault, ◌>>=◌}
use tp_2014_1c_tp_so.Mensajes.{MenComun, crear_men_comun}
use tp_2014_1c_tp_so.Mensajes.Tipos
use tp_2014_1c_tp_so.Sockets.Comun.{socket_send_comun, socket_recv_comun}

-- `fseek` to the end and `ftell`.
abbrev pub tamanio_archivo : List ℕ → ℤ
tamanio_archivo archivo = pos (length archivo)

-- What the loop writes to `script[0]`, `script[1]` and so on. The end of the file is known only when
-- `fgetc` has answered -1 for it, which is written too.
unfoldable pub leer_script : List ℕ → List ℕ
leer_script [] = 255 ∷ []
leer_script (b ∷ archivo) = b ∷ leer_script archivo

-- The bytes that `main` sends for the script.
unfoldable pub enviar_script : List ℕ → Outcome (List ℕ)
unfolding leer_script
enviar_script archivo =
    socket_send_comun
      (crear_men_comun Tipos.codigo_script (leer_script archivo) (tamanio_archivo archivo))

-- What it sends first, whether the answer was the expected one, which is only printed, and what is left
-- on the connection.
unfoldable pub handshake_kernel : List ℕ → Outcome (List ℕ × Bool × List ℕ)
handshake_kernel soc =
    socket_send_comun (crear_men_comun Tipos.hs_prog (0 ∷ []) (pos 1)) >>= λ bytes.
    socket_recv_comun soc >>= λ r. ok (bytes, r.0.tipo ==ℤ Tipos.hs_kernel, r.1)

-- `printf("%s\n", dato)` reads up to a 0, and outside the block if there is none.
unfoldable pub linea_de : List ℕ → Outcome (List ℕ)
linea_de [] = fault
linea_de (zero ∷ dato) = ok []
linea_de (suc b ∷ dato) = linea_de dato >>= λ linea. ok (suc b ∷ linea)

-- The ways in which the loop ends, each with a line of its own.
pub data Cierre : Type 0 where
  cpu_desconectada : Cierre
  sin_conexion : Cierre
  ejecucion_finalizada : Cierre
  segmentation_fault : Cierre
  memory_overload : Cierre
  variable_inexistente : Cierre
  semaforo_inexistente : Cierre
  tipo_erroneo : ℤ → Cierre

unfoldable pub se_imprime : ℤ → Bool
se_imprime tipo = tipo ==ℤ Tipos.imprimir_valor || tipo ==ℤ Tipos.imprimir_texto

-- The other cases of the `switch`.
unfoldable pub cierre : ℤ → Cierre
cierre tipo =
    if tipo ==ℤ Tipos.cpu_desconec
    then cpu_desconectada
    else if tipo ==ℤ Tipos.conec_cerrada
    then sin_conexion
    else if tipo ==ℤ Tipos.fin_ejecucion
    then ejecucion_finalizada
    else if tipo ==ℤ Tipos.segmen_fault
    then segmentation_fault
    else if tipo ==ℤ Tipos.mem_overload
    then memory_overload
    else if tipo ==ℤ Tipos.var_inex
    then variable_inexistente
    else if tipo ==ℤ Tipos.sem_inex
    then semaforo_inexistente
    else tipo_erroneo tipo

-- The lines printed for the messages, how the loop ended, and the bytes that it left.
pub record Fin : Type 0 where
  pub impreso : List (List ℕ)
  pub cierre : Cierre
  pub soc : List ℕ

abbrev pub con_linea : List ℕ → Option Fin → Option Fin
con_linea linea none = none
con_linea linea (some f) = some (record f { impreso = linea ∷ f.impreso })

-- `while (fin_ejecucion != 1)`, with the rounds left: `none` where they were too few.
unfoldable pub esperar : ℕ → List ℕ → Outcome (Option Fin)
unfolding se_imprime cierre linea_de
esperar zero soc = ok none
esperar (suc n) soc = socket_recv_comun soc >>= λ r.
    let rest = linea_de r.0.dato >>= λ linea. esperar n r.1 >>= λ f. ok (con_linea linea f) in
    if se_imprime r.0.tipo
    then rest
    else ok (some (record { impreso = []; cierre = cierre r.0.tipo; soc = r.1 }))
