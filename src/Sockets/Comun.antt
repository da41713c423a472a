-- ===== src/Sockets/Comun.antt =====
-- `t_men_comun` on the connection.
use tp_2014_1c_tp_so.Base.{
  ℕ, ◌+◌, ◌^◌, ◌<◌, ◌≡◌, refl, List, [], ◌∷◌, ◌++◌, arith, length, if◌then◌else◌,
}
use tp_2014_1c_tp_so.Base.Int.{ℤ, pos, ltb_ℤ, ◌==ℤ◌}
use tp_2014_1c_tp_so.Base.Words.{add32, add32-pos, IsInt32}
use tp_2014_1c_tp_so.Base.Outcome.{Outcome, ok, fault, ◌>>=◌}
use tp_2014_1c_tp_so.Base.Memoria.{memcpy_desde}
use tp_2014_1c_tp_so.Mensajes.{MenComun, aviso}
use tp_2014_1c_tp_so.Mensajes.Tipos.{conec_cerrada}
use tp_2014_1c_tp_so.Sockets.{campos, leer_int32, enviar, recibir}
use tp_2014_1c_tp_so.Sockets.Enteros.{
  SonInt32, campo, leer-all, campos-enviar, campos-recibir, memcpy-campos,
}

-- A block of `length` bytes that is too short for the three numbers, as it is when `length`
-- overflows, is written past its end.
unfoldable pub men_serealizer_comun : MenComun → Outcome (List ℕ)
men_serealizer_comun self =
    let length = add32 (pos 12) self.tam_dato in
    if ltb_ℤ length (pos 12)
    then fault
    else memcpy_desde self.dato (pos 0) self.tam_dato >>= λ dato.
        ok (campos (length ∷ self.tipo ∷ self.tam_dato ∷ []) ++ dato)

unfoldable pub men_deserealizer_comun : List ℕ → Outcome MenComun
men_deserealizer_comun stream = leer_int32 stream 4 >>= λ tipo. leer_int32 stream 8 >>= λ tam_dato.
    if tam_dato ==ℤ pos 0
    then ok (record { tam_dato = tam_dato; tipo = tipo; dato = [] })
    else memcpy_desde stream (pos 12) tam_dato >>= λ dato.
        ok (record { tam_dato = tam_dato; tipo = tipo; dato = dato })

unfoldable pub socket_send_comun : MenComun → Outcome (List ℕ)
unfolding men_serealizer_comun
socket_send_comun men = men_serealizer_comun men >>= enviar

unfoldable pub socket_recv_comun : List ℕ → Outcome (MenComun × List ℕ)
unfolding men_deserealizer_comun
socket_recv_comun soc = recibir (ok (aviso conec_cerrada)) men_deserealizer_comun soc

-- A message that says how long its data are, and fits a block.
pub record EsComun (m : MenComun) : Type 0 where
  pub tam : m.tam_dato ≡ pos (length m.dato)
  pub tipo_int : IsInt32 m.tipo
  pub corto : 12 + length m.dato < 2 ^ 31

campos_comun : MenComun → List ℤ
campos_comun m = m.tipo ∷ m.tam_dato ∷ []

-- The first fourteen bytes of a stream, and the data.
men_serealizer_comun_lem :
    (m : MenComun)
    → EsComun m
    → men_serealizer_comun m ≡ ok (campos (pos (12 + length m.dato) ∷ campos_comun m) ++ m.dato)
unfolding men_serealizer_comun memcpy_desde campos_comun
men_serealizer_comun_lem m h =
    simp h.tam (ground (arith, add32-pos 12 (length m.dato), leer-all m.dato))

men_deserealizer_comun_lem :
    (m : MenComun)
    → EsComun m
    → men_deserealizer_comun (campos (pos (12 + length m.dato) ∷ campos_comun m) ++ m.dato) ≡ ok m
unfolding men_deserealizer_comun campos_comun
men_deserealizer_comun_lem m h =
    let n = 12 + length m.dato in
    let zs = pos n ∷ campos_comun m in
    let son : SonInt32 zs = ((h.corto, omega arith), (h.tipo_int, (ground (arith, h.tam), tt))) in
    let tipo : leer_int32 (campos zs ++ m.dato) 4 ≡ ok m.tipo = campo zs m.dato 1 _ son refl in
    let tam : leer_int32 (campos zs ++ m.dato) 8 ≡ ok m.tam_dato = campo zs m.dato 2 _ son refl in
    let dato : memcpy_desde (campos zs ++ m.dato) (pos 12) (pos (length m.dato)) ≡ ok m.dato =
      memcpy-campos zs m.dato in
    rw (tipo, tam) (simp h.tam (ground (arith, dato)))

-- A message sent is read back, and the bytes that follow it are left on the connection. It may be of
-- any type, and its data of any bytes, if it says how many they are and the stream's length does not
-- overflow.
pub socket_recv_comun-socket_send_comun :
    (m : MenComun) (soc : List ℕ)
    → EsComun m
    → (bytes : List ℕ) × (socket_send_comun m ≡ ok bytes)
      × (socket_recv_comun (bytes ++ soc) ≡ ok (m, soc))
unfolding socket_send_comun socket_recv_comun
socket_recv_comun-socket_send_comun m soc h =
    let n = 12 + length m.dato in
    (
      campos (pos n ∷ campos_comun m) ++ m.dato,
      rw (men_serealizer_comun_lem m h)
          (campos-enviar n (campos_comun m) m.dato h.corto (unfold campos_comun in omega arith)),
      campos-recibir (ok (aviso conec_cerrada)) men_deserealizer_comun n (campos_comun m) m.dato soc
          m h.corto (unfold campos_comun in omega arith) (men_deserealizer_comun_lem m h),
    )
