-- ===== src/Sockets/QuantumPcb.antt =====
-- `t_men_quantum_pcb` on the connection.
use tp_2014_1c_tp_so.Base.{ℕ, ◌≡◌, refl, List, [], ◌∷◌, ◌++◌, Option, none, some, arith}
use tp_2014_1c_tp_so.Base.Int.{ℤ, pos}
use tp_2014_1c_tp_so.Base.Outcome.{Outcome, ok, fault, ◌>>=◌}
use tp_2014_1c_tp_so.Mensajes.{Pcb, MenQuantumPcb}
use tp_2014_1c_tp_so.Mensajes.Tipos.{conec_cerrada}
use tp_2014_1c_tp_so.Sockets.{campos, leer_int32, enviar, recibir}
use tp_2014_1c_tp_so.Sockets.Enteros.{SonInt32, campo, campos-enviar, campos-recibir}

-- It copies the block that `pcb` points to; `none` is a null pointer.
unfoldable pub crear_men_quantum_pcb : ℤ → ℤ → Option Pcb → Outcome MenQuantumPcb
crear_men_quantum_pcb tipo quantum none = fault
crear_men_quantum_pcb tipo quantum (some pcb) =
    ok (record { tipo = tipo; quantum = quantum; pcb = pcb })

-- The numbers of a message in the order in which they are written.
abbrev pub campos_quantum_pcb : MenQuantumPcb → List ℤ
campos_quantum_pcb m =
    m.tipo ∷ m.quantum ∷ m.pcb.cant_var_cont_actual ∷ m.pcb.dir_cont_actual
    ∷ m.pcb.dir_indice_codigo ∷ m.pcb.dir_indice_etiquetas ∷ m.pcb.dir_seg_codigo
    ∷ m.pcb.dir_seg_stack ∷ m.pcb.id ∷ m.pcb.program_counter ∷ m.pcb.tam_indice_etiquetas
    ∷ m.pcb.cant_instrucciones ∷ []

unfoldable pub men_serealizer_quantum_pcb : MenQuantumPcb → List ℕ
men_serealizer_quantum_pcb self = campos (pos 52 ∷ campos_quantum_pcb self) ++ []

-- The ten numbers of the process control block, from `offset` on.
unfoldable pub pcb_de : List ℕ → Outcome Pcb
pcb_de stream = leer_int32 stream 12 >>= λ cant_var_cont_actual.
    leer_int32 stream 16 >>= λ dir_cont_actual. leer_int32 stream 20 >>= λ dir_indice_codigo.
    leer_int32 stream 24 >>= λ dir_indice_etiquetas. leer_int32 stream 28 >>= λ dir_seg_codigo.
    leer_int32 stream 32 >>= λ dir_seg_stack. leer_int32 stream 36 >>= λ id.
    leer_int32 stream 40 >>= λ program_counter. leer_int32 stream 44 >>= λ tam_indice_etiquetas.
    leer_int32 stream 48 >>= λ cant_instrucciones. ok (record {
      cant_var_cont_actual = cant_var_cont_actual;
      dir_cont_actual = dir_cont_actual;
      dir_indice_codigo = dir_indice_codigo;
      dir_indice_etiquetas = dir_indice_etiquetas;
      dir_seg_codigo = dir_seg_codigo;
      dir_seg_stack = dir_seg_stack;
      id = id;
      program_counter = program_counter;
      tam_indice_etiquetas = tam_indice_etiquetas;
      cant_instrucciones = cant_instrucciones;
    })

unfoldable pub men_deserealizer_quantum_pcb : List ℕ → Outcome MenQuantumPcb
unfolding pcb_de
men_deserealizer_quantum_pcb stream = leer_int32 stream 4 >>= λ tipo.
    leer_int32 stream 8 >>= λ quantum.
    pcb_de stream >>= λ pcb. ok (record { tipo = tipo; quantum = quantum; pcb = pcb })

unfoldable pub socket_send_quantum_pcb : MenQuantumPcb → Outcome (List ℕ)
unfolding men_serealizer_quantum_pcb
socket_send_quantum_pcb men = enviar (men_serealizer_quantum_pcb men)

unfoldable pub socket_recv_quantum_pcb : List ℕ → Outcome (MenQuantumPcb × List ℕ)
unfolding crear_men_quantum_pcb men_deserealizer_quantum_pcb
socket_recv_quantum_pcb soc =
    recibir (crear_men_quantum_pcb conec_cerrada (pos 0) none) men_deserealizer_quantum_pcb soc

module _ (m : MenQuantumPcb) (h : SonInt32 (campos_quantum_pcb m)) where
  son_int32 : SonInt32 (pos 52 ∷ campos_quantum_pcb m)
  son_int32 = ((omega arith, omega arith), h)

  pcb_de-campos : pcb_de (campos (pos 52 ∷ campos_quantum_pcb m) ++ []) ≡ ok m.pcb
  unfolding pcb_de
  pcb_de-campos =
      let zs = pos 52 ∷ campos_quantum_pcb m in
      let s = campos zs ++ [] in
      let c3 : leer_int32 s 12 ≡ ok m.pcb.cant_var_cont_actual = campo zs [] 3 _ son_int32 refl in
      let c4 : leer_int32 s 16 ≡ ok m.pcb.dir_cont_actual = campo zs [] 4 _ son_int32 refl in
      let c5 : leer_int32 s 20 ≡ ok m.pcb.dir_indice_codigo = campo zs [] 5 _ son_int32 refl in
      let c6 : leer_int32 s 24 ≡ ok m.pcb.dir_indice_etiquetas = campo zs [] 6 _ son_int32 refl in
      let c7 : leer_int32 s 28 ≡ ok m.pcb.dir_seg_codigo = campo zs [] 7 _ son_int32 refl in
      let c8 : leer_int32 s 32 ≡ ok m.pcb.dir_seg_stack = campo zs [] 8 _ son_int32 refl in
      let c9 : leer_int32 s 36 ≡ ok m.pcb.id = campo zs [] 9 _ son_int32 refl in
      let c10 : leer_int32 s 40 ≡ ok m.pcb.program_counter = campo zs [] 10 _ son_int32 refl in
      let c11 : leer_int32 s 44 ≡ ok m.pcb.tam_indice_etiquetas = campo zs [] 11 _ son_int32 refl in
      let c12 : leer_int32 s 48 ≡ ok m.pcb.cant_instrucciones = campo zs [] 12 _ son_int32 refl in
      rw (c3, c4, c5, c6, c7, c8, c9, c10, c11, c12) refl

  men_deserealizer_quantum_pcb_lem :
      men_deserealizer_quantum_pcb (men_serealizer_quantum_pcb m) ≡ ok m
  unfolding men_deserealizer_quantum_pcb men_serealizer_quantum_pcb
  men_deserealizer_quantum_pcb_lem =
      let zs = pos 52 ∷ campos_quantum_pcb m in
      let a : leer_int32 (campos zs ++ []) 4 ≡ ok m.tipo = campo zs [] 1 _ son_int32 refl in
      let b : leer_int32 (campos zs ++ []) 8 ≡ ok m.quantum = campo zs [] 2 _ son_int32 refl in
      rw (a, b, pcb_de-campos) refl

-- A quantum and a process control block sent are read back, number for number, and the bytes that
-- follow them are left on the connection.
pub socket_recv_quantum_pcb-socket_send_quantum_pcb :
    (m : MenQuantumPcb) (soc : List ℕ)
    → SonInt32 (campos_quantum_pcb m)
    → (bytes : List ℕ) × (socket_send_quantum_pcb m ≡ ok bytes)
      × (socket_recv_quantum_pcb (bytes ++ soc) ≡ ok (m, soc))
unfolding socket_send_quantum_pcb socket_recv_quantum_pcb
socket_recv_quantum_pcb-socket_send_quantum_pcb m soc h =
    let zs = campos_quantum_pcb m in
    (
      campos (pos 52 ∷ zs) ++ [],
      campos-enviar 52 zs [] (omega arith) refl,
      campos-recibir _ men_deserealizer_quantum_pcb 52 zs [] soc m (omega arith) refl
          (unfold men_serealizer_quantum_pcb in men_deserealizer_quantum_pcb_lem m h),
    )
