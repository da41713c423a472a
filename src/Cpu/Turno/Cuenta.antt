-- ===== src/Cpu/Turno/Cuenta.antt =====
-- How many instructions a turn runs, and what the kernel is told at its end.
use mathlib.Core.List.{append_assoc}
use tp_2014_1c_tp_so.Base.{ℕ, ◌≤◌, ◌≡◌, false, List, [], ◌∷◌, ◌++◌, Option, arith, if◌then◌else◌}
use tp_2014_1c_tp_so.Base.Int.{pos, pos_part}
use tp_2014_1c_tp_so.Base.Outcome.{Outcome, ok}
use tp_2014_1c_tp_so.Mensajes.{aviso}
use tp_2014_1c_tp_so.Mensajes.Tipos
use tp_2014_1c_tp_so.Cpu.Estado.{AlKernel, comun, quantum_pcb, Maquina, Externo, al_kernel}
use tp_2014_1c_tp_so.Cpu.Servicios.{enviar_cierre}
use tp_2014_1c_tp_so.Cpu.Turno.{salir_por_quantum, traer_indice_etiquetas, correr_quantum}
use tp_2014_1c_tp_so.Cpu.Contexto.{regenerar_dicc_var}
use tp_2014_1c_tp_so.Cpu.Segura.Turnos.{con_activo}

-- The two messages of `salirPorQuantum`.
abbrev pub avisos : Maquina → List AlKernel
avisos m =
    comun (
      if m.quit_sistema
      then aviso Tipos.fin_quantum
      else record { tam_dato = pos 1; tipo = Tipos.fin_quantum; dato = 0 ∷ [] })
    ∷ quantum_pcb (record { tipo = Tipos.pcb_y_quantum; quantum = pos 0; pcb = m.pcb })
    ∷ []

pub salir_por_quantum-salida : (m : Maquina) → (salir_por_quantum m).salida ≡ m.salida ++ avisos m
unfolding salir_por_quantum
salir_por_quantum-salida m =
    let e : (enviar_cierre m Tipos.fin_quantum).salida
        ≡ m.salida
          ++ (comun (
                if m.quit_sistema
                then aviso Tipos.fin_quantum
                else record { tam_dato = pos 1; tipo = Tipos.fin_quantum; dato = 0 ∷ [] })
              ∷ []) =
      unfold enviar_cierre al_kernel in ground arith in
    let q : (enviar_cierre m Tipos.fin_quantum).pcb ≡ m.pcb =
      unfold enviar_cierre al_kernel in ground arith in
    rw (e, q) (append_assoc m.salida _ _)

module _ (x : Externo) (analizador_linea : Option (List ℕ) → Maquina → Outcome Maquina) where
  -- What the kernel is told at the end of the turn of `m`, and when: `m3` is the machine once the
  -- process is active, its labels are read and its variables are known, and `mt` the one after `k`
  -- instructions from there.
  pub record Salida (m m' : Maquina) : Type 0 where
    pub m2 : Maquina
    pub m3 : Maquina
    pub mt : Maquina
    pub k : ℕ
    pub etiquetas : traer_indice_etiquetas x (con_activo m m.pcb.id) ≡ ok m2
    pub variables : regenerar_dicc_var x m2 ≡ ok m3
    pub corre : correr_quantum x analizador_linea (pos_part m.quantum_max) m3 ≡ ok (k, mt)
    pub cuenta : k ≤ pos_part m.quantum_max
    pub entero : mt.fue_fin_ejecucion ≡ false → k ≡ pos_part m.quantum_max
    pub salida : m'.salida ≡ (if mt.fue_fin_ejecucion then mt.salida else mt.salida ++ avisos mt)
