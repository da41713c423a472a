-- ===== src/Kernel/Invariante/Espera.antt =====
-- How long a process waits in READY for `manejador_ready_exec`.
use tp_2014_1c_tp_so.Base.{ℕ, suc, ◌<◌, ◌≡◌, List, ◌++◌}
use tp_2014_1c_tp_so.Base.Outcome.{ok}
use tp_2014_1c_tp_so.Kernel.Estado.{PcbOtros, Kernel, Envio}
use tp_2014_1c_tp_so.Kernel.Planificador.{manejador_ready_exec}
use tp_2014_1c_tp_so.Kernel.Programas.{Entorno}
use tp_2014_1c_tp_so.Kernel.Invariante.Pasos.{Ronda}

module _ (e : Entorno) where
  -- Rounds of the kernel's threads, of which `n` are of `manejador_ready_exec` with a free CPU, and the
  -- others at most add processes at the end of READY.
  pub data Despachos (k : Kernel) : ℕ → Kernel → Type 0 where
    ninguno : Despachos k 0 k
    otra :
        {n : ℕ} {j k' : Kernel} (ys : List PcbOtros)
        → Despachos k n j
        → Ronda e j k'
        → k'.cola_ready ≡ j.cola_ready ++ ys
        → Despachos k n k'
    despacha :
        {n : ℕ} {j k' : Kernel} {rs : List Envio}
        → Despachos k n j
        → 0 < j.cant_cpu_libres
        → manejador_ready_exec j ≡ ok (k', rs)
        → Despachos k (suc n) k'
