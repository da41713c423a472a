-- ===== src/Pruebas/Nucleo.antt =====
-- A state of the kernel for the tests: process 1 is executed by the CPU 5, the CPU 6 is free, two
-- processes are in NEW, one in READY, one in BLOCK, which waits for the semaphore `s`, and one in EXIT.
use tp_2014_1c_tp_so.Base.{ℕ, ◌+◌, refl, [], ◌∷◌, arith, length, list_remove}
use tp_2014_1c_tp_so.Base.Int.{ℤ, pos, negsuc}
use tp_2014_1c_tp_so.Mensajes.{Pcb, MenComun}
use tp_2014_1c_tp_so.Mensajes.Tipos.{pcb_y_quantum}
use tp_2014_1c_tp_so.Kernel.Estado.{PcbOtros, Io, Semaforo, Kernel, Siguientes}
use tp_2014_1c_tp_so.Kernel.Servicios.{Texto}
use tp_2014_1c_tp_so.Kernel.Invariante.{Valido, Ocupada}

abbrev pub pcb : ℕ → Pcb
pcb n = record {
  cant_var_cont_actual = pos 0;
  dir_cont_actual = pos 0;
  dir_indice_codigo = pos 0;
  dir_indice_etiquetas = pos 0;
  dir_seg_codigo = pos 0;
  dir_seg_stack = pos 0;
  id = pos n;
  program_counter = pos 0;
  tam_indice_etiquetas = pos 0;
  cant_instrucciones = pos 0;
}

-- The process `n`, of the program at the socket 20 + n.
abbrev pub proceso : ℕ → ℕ → PcbOtros
proceso n peso = record {
  pcb = pcb n;
  n_socket = pos (20 + n);
  peso = pos peso;
  tipo_fin_ejecucion = negsuc 0;
}

abbrev pub impresora : Io
impresora = record {
  io_sleep = pos 1;
  procesos = record { id_prog = pos 5; unidades = pos 2 } ∷ [];
  cont_cant_proc = 1;
}

abbrev pub semaforo : Semaforo
semaforo = record { valor = negsuc 0; procesos = pos 5 ∷ [] }

abbrev pub nucleo : Kernel
nucleo = record {
  conj_soc_progs = [];
  conj_soc_cpus = pos 5 ∷ pos 6 ∷ [];
  contador_programa = pos 6;
  cola_new = proceso 2 9 ∷ proceso 3 4 ∷ [];
  cola_ready = proceso 4 1 ∷ [];
  cola_exec = proceso 1 1 ∷ [];
  cola_block = proceso 5 1 ∷ [];
  cola_exit = proceso 6 1 ∷ [];
  lista_cpu =
      record { soc_cpu = pos 5; soc_prog = pos 21; id_prog_exec = pos 1 }
      ∷ record { soc_cpu = pos 6; soc_prog = pos 0; id_prog_exec = pos 0 }
      ∷ [];
  cant_new = 2;
  cant_ready = 1;
  cant_exit = 1;
  cant_multiprog = 2;
  cant_cpu_libres = 1;
  quantum_max = pos 3;
  tamanio_stack = pos 100;
  dicc_disp_io = (105 ∷ [], impresora) ∷ [];
  dicc_var = (118 ∷ [], pos 3) ∷ [];
  dicc_sem = (115 ∷ [], semaforo) ∷ [];
}

pub nucleo-Valido : Valido 5 nucleo
nucleo-Valido = record {
  nuevos = refl;
  listos = refl;
  salidos = refl;
  libres = refl;
  ocupadas = λ id ne. ground (arith, ne);
  numerados = refl;
  multiprog = refl;
}

pub cpu_cinco : Ocupada nucleo (pos 5)
unfolding list_remove
cpu_cinco = record {
  cpu = record { soc_cpu = pos 5; soc_prog = pos 21; id_prog_exec = pos 1 };
  resto = record { soc_cpu = pos 6; soc_prog = pos 0; id_prog_exec = pos 0 } ∷ [];
  esta = refl;
  activa = λ e. absurd (ground arith);
}

abbrev pub texto : Texto
texto = record { atoi = λ bs. pos (length bs); string_itoa = λ z. 51 ∷ [] }

-- A message of a type with the bytes of a name, and those that follow it.
abbrev pub pide : ℤ → ℕ → MenComun
pide tipo nombre = record { tam_dato = pos 2; tipo = tipo; dato = nombre ∷ 0 ∷ [] }

abbrev pub siguientes : Siguientes
siguientes = record {
  dato = record { tam_dato = pos 2; tipo = pos 0; dato = 50 ∷ 0 ∷ [] };
  pcb = record { tipo = pcb_y_quantum; quantum = pos 0; pcb = pcb 1 };
  cerrar = record { tam_dato = pos 0; tipo = pos 0; dato = [] };
}
