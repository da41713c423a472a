-- ===== src/Pruebas/Planificacion.antt =====
-- The properties of kernel/kernel.c on the concrete state.
use mathlib.Core.List.{mem-cons_self, mem-cons_of_mem}
use tp_2014_1c_tp_so.Base.{
  ◌+◌, ◌≡◌, ◌≢◌, ℕ, List, refl, ◌⊎◌, [], ◌∷◌, ◌++◌, none, some, Mem, length, arith,
}
use tp_2014_1c_tp_so.Base.Int.{ℤ, pos, negsuc, ◌==ℤ◌}
use tp_2014_1c_tp_so.Base.Words.{add32, sub32}
use tp_2014_1c_tp_so.Base.Outcome.{ok}
use tp_2014_1c_tp_so.Mensajes.Tipos
use tp_2014_1c_tp_so.Kernel.Estado.{Cpu, PcbOtros, Io, Semaforo, Kernel, a_cpu, avisar, llegan}
use tp_2014_1c_tp_so.Base.Diccionario.{clave_de, clave, dictionary_get}
use tp_2014_1c_tp_so.Kernel.Colas.{rotar_hasta, buscar_pcb, mover_pcb_exit}
use tp_2014_1c_tp_so.Kernel.Colas.Rotacion.{Ninguno, Primero, rotar_hasta_lem}
use tp_2014_1c_tp_so.Kernel.Colas.PesoMinimo.{Elegido}
use tp_2014_1c_tp_so.Kernel.Servicios.{numero, wait, signal, enviar_io}
use tp_2014_1c_tp_so.Kernel.Planificador.{
  manejador_new_ready, manejador_ready_exec, cambiar_multiprog,
}
use tp_2014_1c_tp_so.Kernel.Programas.{Entorno}
use tp_2014_1c_tp_so.Kernel.Programas.Baja.{hallados, mover_pcb_exit_lem}
use tp_2014_1c_tp_so.Kernel.Invariante.{total, Valido, Bien}
use tp_2014_1c_tp_so.Kernel.Invariante.Rondas.{
  Asignada, manejador_new_ready-Bien, manejador_ready_exec-Bien,
}
use tp_2014_1c_tp_so.Kernel.Invariante.Multiprogramacion.{cambiar_multiprog-Valido}
use tp_2014_1c_tp_so.Kernel.Invariante.Turnos.{Bloqueado}
use tp_2014_1c_tp_so.Kernel.Invariante.Pedidos.{enviar_io-Bien}
use tp_2014_1c_tp_so.Kernel.Invariante.Semaforos.{
  SemHecho, SemValido, Espera, Despierta, wait-SemHecho, signal-SemHecho,
}
use tp_2014_1c_tp_so.Pruebas.Nucleo.{
  proceso, impresora, semaforo, nucleo, nucleo-Valido, cpu_cinco, texto, pide, siguientes,
}

en_new : Mem (proceso 3 4) nucleo.cola_new
en_new = mem-cons_of_mem (proceso 2 9) mem-cons_self

rotar_hasta_lem_example :
    (Ninguno (λ x. x.n_socket ==ℤ pos 23) nucleo.cola_new
      × (rotar_hasta 2 (λ x. x.n_socket ==ℤ pos 23) nucleo.cola_new ≡ (none, nucleo.cola_new)))
    ⊎ ((f : Primero (λ x. x.n_socket ==ℤ pos 23) nucleo.cola_new) × (rotar_hasta 2
            (λ x. x.n_socket ==ℤ pos 23)
            nucleo.cola_new
          ≡ (some f.elemento, f.despues ++ f.antes)))
rotar_hasta_lem_example = rotar_hasta_lem (λ x. x.n_socket ==ℤ pos 23) nucleo.cola_new

manejador_new_ready-Bien_example :
    (k' : Kernel) × (x : PcbOtros) × (manejador_new_ready nucleo ≡ ok k')
    × Bien 5 nucleo k'
    × Elegido nucleo.cola_new x k'.cola_new
    × (k'.cola_ready ≡ nucleo.cola_ready ++ (x ∷ []))
manejador_new_ready-Bien_example =
    manejador_new_ready-Bien 5 nucleo (proceso 3 4) nucleo-Valido en_new (omega arith) (omega arith)

manejador_ready_exec-Bien_example :
    (k' : Kernel) × (c : Cpu) × (manejador_ready_exec nucleo
      ≡ ok (
        k',
        a_cpu c.soc_cpu
              (record { tipo = Tipos.pcb_y_quantum; quantum = pos 3; pcb = (proceso 4 1).pcb })
            ∷ [],
      ))
    × Bien 5 nucleo k'
    × (k'.cola_ready ≡ [])
    × (k'.cola_exec ≡ nucleo.cola_exec ++ (proceso 4 1 ∷ []))
    × Asignada nucleo c (proceso 4 1) k'
manejador_ready_exec-Bien_example =
    manejador_ready_exec-Bien 5 nucleo (proceso 4 1) [] nucleo-Valido refl (omega arith)

cambiar_multiprog-Valido_example : Valido 3 (cambiar_multiprog nucleo (pos 3))
cambiar_multiprog-Valido_example =
    cambiar_multiprog-Valido 5 3 nucleo nucleo-Valido (omega arith) (omega arith)

semaforo_s : dictionary_get (115 ∷ []) nucleo.dicc_sem ≡ some semaforo
unfolding dictionary_get
semaforo_s = refl

nombre_s : clave_de (115 ∷ 0 ∷ []) ≡ ok (115 ∷ [])
unfolding clave_de clave
nombre_s = refl

wait-SemHecho_example :
    (k' : Kernel) × (s' : Semaforo) × (wait nucleo (pos 5) (pide Tipos.wait 115) (llegan siguientes)
      ≡ ok (k', avisar (pos 5) Tipos.sem_bloqueado ∷ []))
    × SemHecho 5 nucleo (115 ∷ []) k' s'
    × (s'.valor ≡ sub32 (negsuc 0) (pos 1))
    × SemValido s'
    × Espera nucleo (pos 5) siguientes semaforo k' s'
wait-SemHecho_example =
    wait-SemHecho 5 nucleo (pos 5) (pide Tipos.wait 115) siguientes semaforo (115 ∷ []) nombre_s
      nucleo-Valido cpu_cinco semaforo_s refl (omega arith) (omega arith)

signal-SemHecho_example :
    (k' : Kernel) × (s' : Semaforo) × (signal nucleo (pos 5) (pide Tipos.signal 115)
      ≡ ok (k', avisar (pos 5) Tipos.sem_ok ∷ []))
    × SemHecho 5 nucleo (115 ∷ []) k' s'
    × (s'.valor ≡ add32 (negsuc 0) (pos 1))
    × SemValido s'
    × Despierta nucleo semaforo k' s'
signal-SemHecho_example =
    signal-SemHecho 5 nucleo (pos 5) (pide Tipos.signal 115) semaforo (115 ∷ []) nombre_s
      nucleo-Valido semaforo_s refl (omega arith) (omega arith)

enviar_io-Bien_example :
    (k' : Kernel) × (io' : Io) × (enviar_io texto nucleo
        (pos 5)
        (pide Tipos.io_id 105)
        (llegan siguientes)
      ≡ ok k')
    × Bien 5 nucleo k'
    × (dictionary_get (105 ∷ []) k'.dicc_disp_io ≡ some io')
    × (io'.cont_cant_proc ≡ 2)
    × (b : Bloqueado nucleo (pos 5) siguientes.pcb k') × (io'.procesos
        ≡ impresora.procesos ++ (record { id_prog = b.cpu.id_prog_exec; unidades = pos 2 } ∷ []))
    × ((m : List ℕ)
        → 105 ∷ [] ≢ m
        → dictionary_get m k'.dicc_disp_io ≡ dictionary_get m nucleo.dicc_disp_io)
enviar_io-Bien_example =
    enviar_io-Bien texto 5 nucleo (pos 5) (pide Tipos.io_id 105) siguientes impresora (105 ∷ [])
      (pos 2) (unfold clave_de clave in refl) (unfold numero in refl) nucleo-Valido cpu_cinco
      (unfold dictionary_get in refl)

mover_pcb_exit_lem_example :
    let k' = mover_pcb_exit nucleo (pos 23) in
    ((id : ℤ) → total id k' ≡ total id nucleo)
    × (k'.cant_exit ≡ length k'.cola_exit)
    × (k'.cant_new ≡ length k'.cola_new + length (hallados (buscar_pcb nucleo.cola_new (pos 23)).0))
    × (k'.cant_ready
        ≡ length k'.cola_ready + length (hallados (buscar_pcb nucleo.cola_ready (pos 23)).0))
mover_pcb_exit_lem_example = mover_pcb_exit_lem 5 nucleo (pos 23) nucleo-Valido

abbrev pub entorno_prog : Entorno
entorno_prog = record {
  texto = texto;
  metadata_desde_literal = λ bs. record {
    instruccion_inicio = pos 0;
    instrucciones_size = pos 2;
    instrucciones_serializado =
        1 ∷ 2 ∷ 3 ∷ 4 ∷ 5 ∷ 6 ∷ 7 ∷ 8 ∷ 9 ∷ 10 ∷ 11 ∷ 12 ∷ 13 ∷ 14 ∷ 15 ∷ 16 ∷ [];
    etiquetas_size = pos 1;
    etiquetas = 0 ∷ [];
    cantidad_de_funciones = pos 1;
    cantidad_de_etiquetas = pos 1;
  };
  sin_escribir = pos 0;
}
