-- ===== src/Pruebas/Inicio.antt =====
-- The kernel from a configuration with one device, one semaphore and one shared variable.
use tp_2014_1c_tp_so.Base.{ℕ, ◌+◌, ◌≤◌, ◌≡◌, List, [], ◌∷◌, some, length, arith}
use tp_2014_1c_tp_so.Base.Int.{pos}
use tp_2014_1c_tp_so.Base.Outcome.{ok}
use tp_2014_1c_tp_so.Base.Diccionario.{dictionary_get}
use tp_2014_1c_tp_so.Kernel.Estado.{Io, Semaforo, Kernel}
use tp_2014_1c_tp_so.Kernel.Configuracion.{Config, levantar_config}
use tp_2014_1c_tp_so.Kernel.Invariante.{Valido}
use tp_2014_1c_tp_so.Kernel.Invariante.Pasos.{Corre}
use tp_2014_1c_tp_so.Kernel.Invariante.Inicio.{SinEspera, SinPedidos, Corre-levantar_config}
use tp_2014_1c_tp_so.Pruebas.Nucleo.{texto}
use tp_2014_1c_tp_so.Pruebas.Planificacion.{entorno_prog}

abbrev config : Config
config = record {
  id_hio = (105 ∷ []) ∷ [];
  hio = (49 ∷ 48 ∷ []) ∷ [];
  semaforos = (115 ∷ []) ∷ [];
  valor_semaforo = (49 ∷ []) ∷ [];
  variables_globales = (118 ∷ []) ∷ [];
  quantum = pos 3;
  tamanio_stack = pos 100;
  multiprogramacion = 2;
}

Corre-levantar_config_example :
    (k : Kernel) × (levantar_config texto config ≡ ok k)
    × ((nombre : List ℕ) (s : Semaforo) → dictionary_get nombre k.dicc_sem ≡ some s → SinEspera s)
    × ((nombre : List ℕ) (io : Io) → dictionary_get nombre k.dicc_disp_io ≡ some io → SinPedidos io)
    × ((k' : Kernel)
        → Corre entorno_prog k k'
        → Valido 2 k' × (length k'.cola_ready + length k'.cola_exec + length k'.cola_block ≤ 2))
Corre-levantar_config_example =
    Corre-levantar_config texto entorno_prog config (omega arith) (omega arith)
