-- ===== src/Sockets.antt =====
-- sockets_lib/sockets_lib.c: an `int32_t` as the machine stores it, and the part of `socket_send_*` and
-- `socket_recv_*` that the four kinds of message share. A child for each kind.
pub mod Enteros
pub mod Comun
pub mod QuantumPcb
pub mod CpuUmv
pub mod Pedido
pub mod Secuencia
use tp_2014_1c_tp_so.Base.{
  ℕ, ◌+◌, ◌*◌, ◌/◌, ◌%◌, ◌^◌, Bool, ◌&&◌, List, [], ◌∷◌, ◌++◌, length, take, drop, if◌then◌else◌,
}
use tp_2014_1c_tp_so.Base.Int.{ℤ, pos, pos_part, leb_ℤ, ltb_ℤ}
use tp_2014_1c_tp_so.Base.Words.{pattern32, signed32}
use tp_2014_1c_tp_so.Base.Outcome.{Outcome, ok, fault, ◌>>=◌}
use tp_2014_1c_tp_so.Base.Memoria.{leer, memcpy_desde}

-- `memcpy(stream+offset, &n, sizeof(int32_t))`: four bytes, the lowest first.
unfoldable pub bytes_int32 : ℤ → List ℕ
bytes_int32 z =
    let w = pattern32 z in w % 256 ∷ w / 256 % 256 ∷ w / 65536 % 256 ∷ w / 16777216 % 256 ∷ []

-- One `memcpy` of a number after the other, with `offset` going on by four.
unfoldable pub campos : List ℤ → List ℕ
campos [] = []
campos (z ∷ zs) = bytes_int32 z ++ campos zs

-- Fewer than four bytes are a read outside the block, or of bytes that nobody wrote.
unfoldable pub int32_de : List ℕ → Outcome ℤ
int32_de (a ∷ b ∷ c ∷ d ∷ []) = ok (signed32 (a + b * 256 + c * 65536 + d * 16777216))
int32_de _ = fault

-- `memcpy(&n, stream+offset, sizeof(int32_t))`
abbrev pub leer_int32 : List ℕ → ℕ → Outcome ℤ
leer_int32 stream offset = int32_de (leer stream offset 4)

-- The bytes that `socket_send_*` puts on the connection: as many of the stream as its own first
-- four bytes say.
unfoldable pub enviar : List ℕ → Outcome (List ℕ)
enviar stream = leer_int32 stream 0 >>= λ length. memcpy_desde stream (pos 0) length

-- `socket_recv_*`, on the bytes that the other side sends before it closes the connection: the
-- message, and the bytes left. `cerrada` is what it answers when none comes. Its `recv` waits for
-- `length` bytes (`MSG_WAITALL`); a block of a length that is not positive has no meaning.
unfoldable pub recibir {ℓ} :
    {A : Type ℓ} → Outcome A → (List ℕ → Outcome A) → List ℕ → Outcome (A × List ℕ)
recibir cerrada deserealizer [] = cerrada >>= λ m. ok (m, [])
recibir cerrada deserealizer (b ∷ soc) = leer_int32 (b ∷ soc) 0 >>= λ length.
    if ltb_ℤ (pos 0) length
    then (deserealizer (take (pos_part length) (b ∷ soc)) >>= λ m.
        ok (m, drop (pos_part length) (b ∷ soc)))
    else fault
