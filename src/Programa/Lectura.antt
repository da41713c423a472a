-- ===== src/Programa/Lectura.antt =====
-- The script as it is read, and as the kernel receives it.
use tp_2014_1c_tp_so.Base.{
  ℕ, ◌+◌, ◌^◌, ◌<◌, ◌≡◌, refl, ap, List, [], ◌∷◌, ◌++◌, arith, length, take,
}
use tp_2014_1c_tp_so.Base.Int.{pos}
use tp_2014_1c_tp_so.Base.Outcome.{ok}
use tp_2014_1c_tp_so.Mensajes.{crear_men_comun}
use tp_2014_1c_tp_so.Mensajes.Tipos
use tp_2014_1c_tp_so.Sockets.Comun.{socket_recv_comun, socket_recv_comun-socket_send_comun}
use tp_2014_1c_tp_so.Programa.{leer_script, enviar_script}

leer_script-snoc : (archivo : List ℕ) → leer_script archivo ≡ archivo ++ (255 ∷ [])
unfolding leer_script
leer_script-snoc [] = refl
leer_script-snoc (b ∷ archivo) = ap (◌∷◌ b) (leer_script-snoc archivo)

length-leer_script : (archivo : List ℕ) → length (leer_script archivo) ≡ length archivo + 1
unfolding leer_script
length-leer_script [] = refl
length-leer_script (b ∷ archivo) = omega (arith, length-leer_script archivo)

take-leer_script : (archivo : List ℕ) → take (length archivo) (leer_script archivo) ≡ archivo
unfolding leer_script
take-leer_script [] = refl
take-leer_script (b ∷ archivo) = ap (◌∷◌ b) (take-leer_script archivo)

-- The loop that reads the script writes one byte more than the array `script` has, and the kernel
-- receives the file as it is, under CODIGO_SCRIPT, with what follows left on the connection, if the
-- stream's length does not overflow.
pub socket_recv_comun-enviar_script :
    (archivo soc : List ℕ)
    → 12 + length archivo < 2 ^ 31
    → (length (leer_script archivo) ≡ length archivo + 1)
      × (bytes : List ℕ) × (enviar_script archivo ≡ ok bytes)
      × (socket_recv_comun (bytes ++ soc)
          ≡ ok (
            record { tam_dato = pos (length archivo); tipo = Tipos.codigo_script; dato = archivo },
            soc,
          ))
unfolding enviar_script crear_men_comun
socket_recv_comun-enviar_script archivo soc h =
    let e : take (length archivo) (leer_script archivo) ≡ archivo = take-leer_script archivo in
    let r =
      socket_recv_comun-socket_send_comun
        (record { tam_dato = pos (length archivo); tipo = Tipos.codigo_script; dato = archivo }) soc
        (record { tam = refl; tipo_int = (omega arith, omega arith); corto = h }) in
    (length-leer_script archivo, r.0, rw e r.1, r.2)
