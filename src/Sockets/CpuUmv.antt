-- ===== src/Sockets/CpuUmv.antt =====
-- `t_men_cpu_umv` on the connection.
use tp_2014_1c_tp_so.Base.{
  ℕ, ◌+◌, ◌^◌, ◌<◌, ◌≡◌, refl, List, [], ◌∷◌, ◌++◌, Option, none, some, arith, length,
  if◌then◌else◌,
}
use tp_2014_1c_tp_so.Base.Int.{ℤ, pos, ltb_ℤ, ◌==ℤ◌}
use tp_2014_1c_tp_so.Base.Words.{add32, add32-pos, IsInt32}
use tp_2014_1c_tp_so.Base.Outcome.{Outcome, ok, fault, ◌>>=◌}
use tp_2014_1c_tp_so.Base.Memoria.{memcpy_desde}
use tp_2014_1c_tp_so.Mensajes.{MenCpuUmv}
use tp_2014_1c_tp_so.Mensajes.Tipos.{conec_cerrada, sol_bytes}
use tp_2014_1c_tp_so.Sockets.{campos, leer_int32, enviar, recibir}
use tp_2014_1c_tp_so.Sockets.Enteros.{
  SonInt32, campo, leer-all, campos-enviar, campos-recibir, memcpy-campos,
}

-- `none` is a null `buffer`, for which the message has a block of no bytes.
unfoldable pub crear_men_cpu_umv : ℤ → ℤ → ℤ → ℤ → Option (List ℕ) → Outcome MenCpuUmv
crear_men_cpu_umv tipo base offset tam none =
    ok (record { tipo = tipo; base = base; offset = offset; tam = tam; buffer = [] })
crear_men_cpu_umv tipo base offset tam (some buffer) = memcpy_desde buffer (pos 0) tam >>= λ b.
    ok (record { tipo = tipo; base = base; offset = offset; tam = tam; buffer = b })

-- A block of `length` bytes that is too short for the five numbers is written past its end.
unfoldable pub men_serealizer_cpu_umv : MenCpuUmv → Outcome (List ℕ)
men_serealizer_cpu_umv self =
    let length = add32 (pos 20) self.tam in
    if ltb_ℤ length (pos 20)
    then fault
    else memcpy_desde self.buffer (pos 0) self.tam >>= λ buffer.
        ok (campos (length ∷ self.tipo ∷ self.base ∷ self.offset ∷ self.tam ∷ []) ++ buffer)

unfoldable pub men_deserealizer_cpu_umv : List ℕ → Outcome MenCpuUmv
men_deserealizer_cpu_umv stream = leer_int32 stream 4 >>= λ tipo. leer_int32 stream 8 >>= λ base.
    leer_int32 stream 12 >>= λ offset. leer_int32 stream 16 >>= λ tam.
    if tam ==ℤ pos 0
    then ok (record { tipo = tipo; base = base; offset = offset; tam = tam; buffer = [] })
    else memcpy_desde stream (pos 20) tam >>= λ buffer.
        ok (record { tipo = tipo; base = base; offset = offset; tam = tam; buffer = buffer })

unfoldable pub socket_send_cpu_umv : MenCpuUmv → Outcome (List ℕ)
unfolding men_serealizer_cpu_umv
socket_send_cpu_umv men = men_serealizer_cpu_umv men >>= enviar

unfoldable pub socket_recv_cpu_umv : List ℕ → Outcome (MenCpuUmv × List ℕ)
unfolding crear_men_cpu_umv men_deserealizer_cpu_umv
socket_recv_cpu_umv soc =
    recibir (crear_men_cpu_umv conec_cerrada (pos 0) (pos 0) (pos 0) none) men_deserealizer_cpu_umv
      soc

-- A message that says how long its buffer is, and fits a block.
pub record EsCpuUmv (m : MenCpuUmv) : Type 0 where
  pub tam : m.tam ≡ pos (length m.buffer)
  pub tipo_int : IsInt32 m.tipo
  pub base_int : IsInt32 m.base
  pub offset_int : IsInt32 m.offset
  pub corto : 20 + length m.buffer < 2 ^ 31

campos_cpu_umv : MenCpuUmv → List ℤ
campos_cpu_umv m = m.tipo ∷ m.base ∷ m.offset ∷ m.tam ∷ []

men_serealizer_cpu_umv_lem :
    (m : MenCpuUmv)
    → EsCpuUmv m
    → men_serealizer_cpu_umv m
      ≡ ok (campos (pos (20 + length m.buffer) ∷ campos_cpu_umv m) ++ m.buffer)
unfolding men_serealizer_cpu_umv memcpy_desde campos_cpu_umv
men_serealizer_cpu_umv_lem m h =
    simp h.tam (ground (arith, add32-pos 20 (length m.buffer), leer-all m.buffer))

men_deserealizer_cpu_umv_lem :
    (m : MenCpuUmv)
    → EsCpuUmv m
    → men_deserealizer_cpu_umv (campos (pos (20 + length m.buffer) ∷ campos_cpu_umv m) ++ m.buffer)
      ≡ ok m
unfolding men_deserealizer_cpu_umv campos_cpu_umv
men_deserealizer_cpu_umv_lem m h =
    let n = 20 + length m.buffer in
    let zs = pos n ∷ campos_cpu_umv m in
    let xs = m.buffer in
    let son : SonInt32 zs = (
      (h.corto, omega arith),
      (h.tipo_int, (h.base_int, (h.offset_int, (ground (arith, h.tam), tt)))),
    ) in
    let a : leer_int32 (campos zs ++ xs) 4 ≡ ok m.tipo = campo zs xs 1 _ son refl in
    let b : leer_int32 (campos zs ++ xs) 8 ≡ ok m.base = campo zs xs 2 _ son refl in
    let c : leer_int32 (campos zs ++ xs) 12 ≡ ok m.offset = campo zs xs 3 _ son refl in
    let d : leer_int32 (campos zs ++ xs) 16 ≡ ok m.tam = campo zs xs 4 _ son refl in
    let dato : memcpy_desde (campos zs ++ xs) (pos 20) (pos (length xs)) ≡ ok xs =
      memcpy-campos zs xs in
    rw (a, b, c, d) (simp h.tam (ground (arith, dato)))

-- A message sent is read back, and the bytes that follow it are left on the connection, if it says
-- how many bytes its buffer has and the stream's length does not overflow.
pub socket_recv_cpu_umv-socket_send_cpu_umv :
    (m : MenCpuUmv) (soc : List ℕ)
    → EsCpuUmv m
    → (bytes : List ℕ) × (socket_send_cpu_umv m ≡ ok bytes)
      × (socket_recv_cpu_umv (bytes ++ soc) ≡ ok (m, soc))
unfolding socket_send_cpu_umv socket_recv_cpu_umv
socket_recv_cpu_umv-socket_send_cpu_umv m soc h =
    let n = 20 + length m.buffer in
    (
      campos (pos n ∷ campos_cpu_umv m) ++ m.buffer,
      rw (men_serealizer_cpu_umv_lem m h) (
          campos-enviar n (campos_cpu_umv m) m.buffer h.corto
            (unfold campos_cpu_umv in omega arith)),
      campos-recibir _ men_deserealizer_cpu_umv n (campos_cpu_umv m) m.buffer soc m h.corto
          (unfold campos_cpu_umv in omega arith) (men_deserealizer_cpu_umv_lem m h),
    )

-- A request for a positive number of bytes, made with no buffer, has no bytes to copy into the
-- stream: the copy reads past the end of its block.
pub socket_send_cpu_umv-crear_men_cpu_umv :
    (base offset : ℤ) (tam : ℕ)
    → 0 < tam
    → (crear_men_cpu_umv sol_bytes base offset (pos tam) none >>= socket_send_cpu_umv) ≡ fault
unfolding crear_men_cpu_umv socket_send_cpu_umv memcpy_desde
socket_send_cpu_umv-crear_men_cpu_umv base offset tam h = ground arith
