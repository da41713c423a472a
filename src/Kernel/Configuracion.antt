-- ===== src/Kernel/Configuracion.antt =====
-- `levantar_config` and `menu_imp` of kernel/kernel.c: the state at the start, from the values of the
-- configuration, and what the menu changes in it.
use tp_2014_1c_tp_so.Base.{ℕ, List, [], ◌∷◌}
use tp_2014_1c_tp_so.Base.Int.{ℤ, pos}
use tp_2014_1c_tp_so.Base.Outcome.{Outcome, ok, fault, ◌>>=◌}
use tp_2014_1c_tp_so.Base.Diccionario.{dictionary_put}
use tp_2014_1c_tp_so.Kernel.Estado.{Io, Semaforo, Kernel}
use tp_2014_1c_tp_so.Kernel.Servicios.{Texto}
use tp_2014_1c_tp_so.Kernel.Planificador.{cambiar_multiprog, crear_inicializar_estructuras}

-- The entries of the configuration; an array of strings ends with a null pointer.
pub record Config : Type 0 where
  pub id_hio : List (List ℕ)
  pub hio : List (List ℕ)
  pub semaforos : List (List ℕ)
  pub valor_semaforo : List (List ℕ)
  pub variables_globales : List (List ℕ)
  pub quantum : ℤ
  pub tamanio_stack : ℤ
  pub multiprogramacion : ℕ

module _ (t : Texto) where
  -- `atoi` reads the null pointer if there are fewer numbers than names.
  unfoldable pub crear_disp_io :
      List (List ℕ) → List (List ℕ) → List (List ℕ × Io) → Outcome (List (List ℕ × Io))
  crear_disp_io [] sleeps dicc = ok dicc
  crear_disp_io (id ∷ ids) [] dicc = fault
  crear_disp_io (id ∷ ids) (s ∷ sleeps) dicc =
      crear_disp_io ids sleeps
        (dictionary_put id (record { io_sleep = t.atoi s; procesos = []; cont_cant_proc = 0 }) dicc)

  unfoldable pub crear_sem :
      List (List ℕ) → List (List ℕ) → List (List ℕ × Semaforo) → Outcome (List (List ℕ × Semaforo))
  crear_sem [] valores dicc = ok dicc
  crear_sem (id ∷ ids) [] dicc = fault
  crear_sem (id ∷ ids) (v ∷ valores) dicc =
      crear_sem ids valores (dictionary_put id (record { valor = t.atoi v; procesos = [] }) dicc)

  unfoldable pub crear_var : List (List ℕ) → List (List ℕ × ℤ) → List (List ℕ × ℤ)
  crear_var [] dicc = dicc
  crear_var (id ∷ ids) dicc = crear_var ids (dictionary_put id (pos 0) dicc)

  -- With `crear_inicializar_estructuras`, which `main` calls then.
  unfoldable pub levantar_config : Config → Outcome Kernel
  unfolding crear_disp_io crear_sem crear_var
  levantar_config c = crear_disp_io c.id_hio c.hio [] >>= λ io.
      crear_sem c.semaforos c.valor_semaforo [] >>= λ sem. ok (
        crear_inicializar_estructuras c.multiprogramacion c.quantum c.tamanio_stack io
          (crear_var c.variables_globales []) sem)

-- The letters of the menu that change the state: `Q`, `k` and `m`.
pub data Opcion : Type 0 where
  quantum : ℤ → Opcion
  stack : ℤ → Opcion
  multiprog : ℤ → Opcion

unfoldable pub menu_imp : Kernel → Opcion → Kernel
menu_imp k (quantum n) = record k { quantum_max = n }
menu_imp k (stack n) = record k { tamanio_stack = n }
menu_imp k (multiprog n) = cambiar_multiprog k n
