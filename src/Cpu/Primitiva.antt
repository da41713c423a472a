-- ===== src/Cpu/Primitiva.antt =====
-- The tables `functions` and `kernel_functions` of CPU/cpu.c: what the parser may call while it runs an
-- instruction.
use tp_2014_1c_tp_so.Base.{ℕ, ◌≡◌, List}
use tp_2014_1c_tp_so.Base.Int.{ℤ}
use tp_2014_1c_tp_so.Base.Outcome.{ok}
use tp_2014_1c_tp_so.Cpu.Estado.{Maquina, Externo, signal_handler}
use tp_2014_1c_tp_so.Cpu.Variables.{definir_variable, dereferenciar, asignar}
use tp_2014_1c_tp_so.Cpu.Llamadas.{
  ir_al_label, llamar_sin_retorno, llamar_con_retorno, finalizar, retornar,
}
use tp_2014_1c_tp_so.Cpu.Servicios.{
  obtener_valor_compartida, asignar_valor_compartida, imprimir, imprimir_texto, entrada_salida,
  mi_signal, wait,
}

module _ (x : Externo) where
  -- A call, with any arguments; `senal` is the handler of SIGUSR1 and SIGINT, which may run at any
  -- time. `obtenerPosicionVariable` changes nothing.
  pub data Primitiva (m : Maquina) : Maquina → Type 0 where
    define :
        (id_var : ℕ) {z : ℤ} {m' : Maquina}
        → definir_variable x m id_var ≡ ok (z, m')
        → Primitiva m m'
    dereferencia :
        (dir : ℤ) {z : ℤ} {m' : Maquina} → dereferenciar x m dir ≡ ok (z, m') → Primitiva m m'
    asigna : (dir valor : ℤ) {m' : Maquina} → asignar x m dir valor ≡ ok m' → Primitiva m m'
    obtiene_compartida :
        (variable : List ℕ) {z : ℤ} {m' : Maquina}
        → obtener_valor_compartida x m variable ≡ ok (z, m')
        → Primitiva m m'
    asigna_compartida :
        (variable : List ℕ) (valor : ℤ)
        → Primitiva m (asignar_valor_compartida x m variable valor).1
    va_al_label : (etiqueta : List ℕ) → Primitiva m (ir_al_label x m etiqueta)
    llama_sin_retorno :
        (etiqueta : List ℕ) {m' : Maquina}
        → llamar_sin_retorno x m etiqueta ≡ ok m'
        → Primitiva m m'
    llama_con_retorno :
        (etiqueta : List ℕ) (donde : ℤ) {m' : Maquina}
        → llamar_con_retorno x m etiqueta donde ≡ ok m'
        → Primitiva m m'
    finaliza : {m' : Maquina} → finalizar x m ≡ ok m' → Primitiva m m'
    retorna : (valor : ℤ) {m' : Maquina} → retornar x m valor ≡ ok m' → Primitiva m m'
    imprime : (valor : ℤ) → Primitiva m (imprimir x m valor)
    imprime_texto : (texto : List ℕ) → Primitiva m (imprimir_texto x m texto)
    sale_a_io :
        (dispositivo : List ℕ) (tiempo : ℤ) → Primitiva m (entrada_salida x m dispositivo tiempo)
    espera_semaforo : (id : List ℕ) → Primitiva m (wait m id)
    da_senal : (id : List ℕ) {m' : Maquina} → mi_signal x m id ≡ ok m' → Primitiva m m'
    senal : Primitiva m (signal_handler m)

  -- Any number of calls.
  pub data Corrida (m : Maquina) : Maquina → Type 0 where
    parada : Corrida m m
    sigue : {m1 m2 : Maquina} → Corrida m m1 → Primitiva m1 m2 → Corrida m m2
