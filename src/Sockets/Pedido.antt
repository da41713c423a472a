-- ===== src/Sockets/Pedido.antt =====
-- `t_men_seg` on the connection.
use tp_2014_1c_tp_so.Base.{ℕ, ◌≡◌, refl, List, [], ◌∷◌, ◌++◌, arith}
use tp_2014_1c_tp_so.Base.Int.{ℤ, pos}
use tp_2014_1c_tp_so.Base.Words.{IsInt32}
use tp_2014_1c_tp_so.Base.Outcome.{Outcome, ok, ◌>>=◌}
use tp_2014_1c_tp_so.Mensajes.{MenSeg}
use tp_2014_1c_tp_so.Mensajes.Tipos.{conec_cerrada}
use tp_2014_1c_tp_so.Sockets.{campos, leer_int32, enviar, recibir}
use tp_2014_1c_tp_so.Sockets.Enteros.{SonInt32, campo, campos-enviar, campos-recibir}

unfoldable pub crear_men_seg : ℤ → ℤ → ℤ → MenSeg
crear_men_seg tipo id_prog tam_seg = record { tipo = tipo; id_prog = id_prog; tam_seg = tam_seg }

unfoldable pub men_serealizer_seg : MenSeg → List ℕ
men_serealizer_seg self = campos (pos 16 ∷ self.tipo ∷ self.id_prog ∷ self.tam_seg ∷ []) ++ []

unfoldable pub men_deserealizer_seg : List ℕ → Outcome MenSeg
men_deserealizer_seg stream = leer_int32 stream 4 >>= λ tipo. leer_int32 stream 8 >>= λ id_prog.
    leer_int32 stream 12 >>= λ tam_seg.
    ok (record { tipo = tipo; id_prog = id_prog; tam_seg = tam_seg })

unfoldable pub socket_send_seg : MenSeg → Outcome (List ℕ)
unfolding men_serealizer_seg
socket_send_seg men = enviar (men_serealizer_seg men)

unfoldable pub socket_recv_seg : List ℕ → Outcome (MenSeg × List ℕ)
unfolding crear_men_seg men_deserealizer_seg
socket_recv_seg soc =
    recibir (ok (crear_men_seg conec_cerrada (pos 0) (pos 0))) men_deserealizer_seg soc

abbrev pub SegInt32 : MenSeg → Type 0
SegInt32 m = IsInt32 m.tipo × IsInt32 m.id_prog × IsInt32 m.tam_seg

men_deserealizer_seg-men_serealizer_seg :
    (m : MenSeg) → SegInt32 m → men_deserealizer_seg (men_serealizer_seg m) ≡ ok m
unfolding men_deserealizer_seg men_serealizer_seg
men_deserealizer_seg-men_serealizer_seg m h =
    let zs = pos 16 ∷ m.tipo ∷ m.id_prog ∷ m.tam_seg ∷ [] in
    let son : SonInt32 zs = ((omega arith, omega arith), (h.0, (h.1, (h.2, tt)))) in
    let a : leer_int32 (campos zs ++ []) 4 ≡ ok m.tipo = campo zs [] 1 _ son refl in
    let b : leer_int32 (campos zs ++ []) 8 ≡ ok m.id_prog = campo zs [] 2 _ son refl in
    let c : leer_int32 (campos zs ++ []) 12 ≡ ok m.tam_seg = campo zs [] 3 _ son refl in
    rw (a, b, c) refl

-- A request sent is read back, and the bytes that follow it are left on the connection.
pub socket_recv_seg-socket_send_seg :
    (m : MenSeg) (soc : List ℕ)
    → SegInt32 m
    → (bytes : List ℕ) × (socket_send_seg m ≡ ok bytes)
      × (socket_recv_seg (bytes ++ soc) ≡ ok (m, soc))
unfolding socket_send_seg socket_recv_seg
socket_recv_seg-socket_send_seg m soc h =
    let zs = m.tipo ∷ m.id_prog ∷ m.tam_seg ∷ [] in
    (
      campos (pos 16 ∷ zs) ++ [],
      campos-enviar 16 zs [] (omega arith) refl,
      campos-recibir _ men_deserealizer_seg 16 zs [] soc m (omega arith) refl
          (unfold men_serealizer_seg in men_deserealizer_seg-men_serealizer_seg m h),
    )
