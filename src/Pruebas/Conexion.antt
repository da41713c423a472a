-- ===== src/Pruebas/Conexion.antt =====
-- The properties of sockets_lib/sockets_lib.c on concrete messages.
use tp_2014_1c_tp_so.Base.{ℕ, ◌≡◌, refl, List, [], ◌∷◌, ◌++◌, arith}
use tp_2014_1c_tp_so.Base.Int.{pos, negsuc}
use tp_2014_1c_tp_so.Base.Outcome.{ok}
use tp_2014_1c_tp_so.Mensajes.{MenComun, MenSeg, MenCpuUmv, MenQuantumPcb}
use tp_2014_1c_tp_so.Mensajes.Tipos.{alm_bytes, ped_mem_seg_cod, imprimir_texto, pcb_y_quantum}
use tp_2014_1c_tp_so.Sockets.Comun.{EsComun}
use tp_2014_1c_tp_so.Sockets.QuantumPcb.{
  socket_send_quantum_pcb, socket_recv_quantum_pcb, socket_recv_quantum_pcb-socket_send_quantum_pcb,
}
use tp_2014_1c_tp_so.Sockets.Secuencia.{
  de_comun, de_quantum_pcb, es_comun, es_quantum_pcb, enviar_varios, recibir_varios,
  recibir_varios-enviar_varios,
}

abbrev texto : MenComun
texto = record { tam_dato = pos 3; tipo = imprimir_texto; dato = 72 ∷ 105 ∷ 0 ∷ [] }

texto-EsComun : EsComun texto
texto-EsComun = record { tam = refl; tipo_int = (omega arith, omega arith); corto = omega arith }

abbrev pedido_cod : MenSeg
pedido_cod = record { tipo = ped_mem_seg_cod; id_prog = pos 3; tam_seg = negsuc 4 }

abbrev almacenar : MenCpuUmv
almacenar = record {
  tipo = alm_bytes;
  base = pos 101;
  offset = pos 1;
  tam = pos 2;
  buffer = 7 ∷ 8 ∷ [];
}

abbrev un_turno : MenQuantumPcb
un_turno = record {
  tipo = pcb_y_quantum;
  quantum = pos 3;
  pcb = record {
    cant_var_cont_actual = pos 2;
    dir_cont_actual = pos 40;
    dir_indice_codigo = pos 41;
    dir_indice_etiquetas = pos 0;
    dir_seg_codigo = pos 43;
    dir_seg_stack = pos 40;
    id = pos 7;
    program_counter = negsuc 0;
    tam_indice_etiquetas = pos 0;
    cant_instrucciones = pos 9;
  };
}

socket_recv_quantum_pcb-socket_send_quantum_pcb_example :
    (bytes : List ℕ) × (socket_send_quantum_pcb un_turno ≡ ok bytes)
    × (socket_recv_quantum_pcb (bytes ++ (1 ∷ 2 ∷ [])) ≡ ok (un_turno, 1 ∷ 2 ∷ []))
socket_recv_quantum_pcb-socket_send_quantum_pcb_example =
    socket_recv_quantum_pcb-socket_send_quantum_pcb un_turno (1 ∷ 2 ∷ []) (ground arith)

recibir_varios-enviar_varios_example :
    (bytes : List ℕ) × (enviar_varios (de_comun texto ∷ de_quantum_pcb un_turno ∷ []) ≡ ok bytes)
    × (recibir_varios (es_comun ∷ es_quantum_pcb ∷ []) (bytes ++ (1 ∷ []))
        ≡ ok (de_comun texto ∷ de_quantum_pcb un_turno ∷ [], 1 ∷ []))
recibir_varios-enviar_varios_example =
    recibir_varios-enviar_varios (de_comun texto ∷ de_quantum_pcb un_turno ∷ []) (1 ∷ [])
      (texto-EsComun, (ground arith, tt))
