-- ===== src/Pruebas/Procesador.antt =====
-- The properties of CPU/cpu.c on a memory of forty bytes: the stack of process 1, with the variable `a`,
-- and its code.
use mathlib.Core.Logic.{◌≢◌}
use tp_2014_1c_tp_so.Base.{
  ℕ, ◌+◌, ◌*◌, ◌≤◌, ◌≡◌, refl, min, max, true, false, List, [], ◌∷◌, none, some, arith, list_find,
}
use tp_2014_1c_tp_so.Base.Int.{ℤ, pos, negsuc}
use tp_2014_1c_tp_so.Base.Outcome.{ok}
use tp_2014_1c_tp_so.Mensajes.{Pcb}
use tp_2014_1c_tp_so.Mensajes.Tipos
use tp_2014_1c_tp_so.Umv.Estado.{Seg, Umv, first_fit}
use tp_2014_1c_tp_so.Umv.Espacio.Validez.{IsValid}
use tp_2014_1c_tp_so.Umv.Segmentos.{buscar_segmento_dir_logica}
use tp_2014_1c_tp_so.Cpu.Estado.{Maquina, Externo, comun, con_cadena}
use tp_2014_1c_tp_so.Cpu.Pila.{EnPila}
use tp_2014_1c_tp_so.Cpu.Contexto.{regenerar_dicc_var}
use tp_2014_1c_tp_so.Cpu.Contexto.Marco.{EnContexto}
use tp_2014_1c_tp_so.Cpu.Variables.{
  definir_variable, obtener_posicion_variable, dereferenciar, asignar,
}
use tp_2014_1c_tp_so.Cpu.Variables.Asignacion.{dereferenciar-asignar}
use tp_2014_1c_tp_so.Cpu.Variables.Definicion.{
  regenerar_dicc_var-definir_variable, definir_variable-segmen_fault,
}
use tp_2014_1c_tp_so.Pruebas.{SegsValidos-dos, bloque}
use tp_2014_1c_tp_so.Pruebas.Servidor.{entorno}
use tp_2014_1c_tp_so.Pruebas.Nucleo.{texto}

abbrev pub seg_pila : Seg
seg_pila = record {
  id_proc = pos 1;
  dir_logica = pos 101;
  dir_fisica = pos 0;
  tam_seg = pos 30;
  tipo_seg = pos 1;
}

-- The index of the code, with one instruction, and its text.
abbrev seg_codigo : Seg
seg_codigo = record {
  id_proc = pos 1;
  dir_logica = pos 202;
  dir_fisica = pos 30;
  tam_seg = pos 10;
  tipo_seg = pos 2;
}

abbrev pub memoria : Umv
memoria = record {
  mem_prin =
      97 ∷ 0 ∷ 0 ∷ 0 ∷ 0 ∷ 0 ∷ 0 ∷ 0 ∷ 0 ∷ 0 ∷ 0 ∷ 0 ∷ 0 ∷ 0 ∷ 0 ∷ 0 ∷ 0 ∷ 0 ∷ 0 ∷ 0 ∷ 0 ∷ 0 ∷ 0 ∷ 0
      ∷ 0 ∷ 0 ∷ 0 ∷ 0 ∷ 0 ∷ 0 ∷ 8 ∷ 0 ∷ 0 ∷ 0 ∷ 2 ∷ 0 ∷ 0 ∷ 0 ∷ 97 ∷ 98 ∷ [];
  list_seg = seg_pila ∷ seg_codigo ∷ [];
  alg_actual = first_fit;
  tam_mem_total = pos 40;
  retardo = pos 0;
  quit_sistema = true;
}

pub memoria-IsValid : IsValid memoria
memoria-IsValid = record {
  total_nonneg = refl;
  total_small = omega arith;
  reservada = refl;
  segs =
      SegsValidos-dos 40 seg_pila seg_codigo
        (record { dir_nonneg = refl; tam_nonneg = refl; dentro = omega arith })
        (record { dir_nonneg = refl; tam_nonneg = refl; dentro = omega arith }) (omega arith);
}

abbrev pub externo : Externo
externo = record {
  umv = entorno;
  texto = texto;
  string_trim = λ s. s;
  metadata_buscar_etiqueta = λ e i t. pos 0;
  sin_valor = λ m. pos 0;
  tras_clave = λ m. 0 ∷ 0 ∷ 0 ∷ [];
}

-- A process whose context begins `c` bytes into the stack and has `v` variables.
abbrev pub proceso : ℕ → ℕ → Pcb
proceso c v = record {
  cant_var_cont_actual = pos v;
  dir_cont_actual = pos (101 + c);
  dir_indice_codigo = pos 202;
  dir_indice_etiquetas = pos 202;
  dir_seg_codigo = pos 202;
  dir_seg_stack = pos 101;
  id = pos 1;
  program_counter = pos 0;
  tam_indice_etiquetas = pos 0;
  cant_instrucciones = pos 1;
}

abbrev pub maquina : ℕ → ℕ → List (List ℕ × ℤ) → Maquina
maquina c v dic = record {
  pcb = proceso c v;
  dic_variables = dic;
  quantum_max = pos 1;
  etiquetas = [];
  fue_fin_ejecucion = false;
  hubo_seg_fault = false;
  quit_sistema = true;
  umv = memoria;
  sesion = record { proc_activo = pos 1; este_conectada = true };
  entrada = [];
  salida = [];
}

abbrev pub con_a : Maquina
con_a = maquina 0 1 ((97 ∷ [], pos 101) ∷ [])

pub hay : (n : ℕ) → bloque (pos n) ≢ none
hay n e = absurd (ground arith)

hallado : buscar_segmento_dir_logica memoria (pos 1) (pos 101) ≡ some seg_pila
unfolding buscar_segmento_dir_logica list_find
hallado = refl

pub en_pila : (c v : ℕ) (dic : List (List ℕ × ℤ)) → EnPila (maquina c v dic) seg_pila 101
en_pila c v dic = record {
  valido = memoria-IsValid;
  chica = omega arith;
  base = refl;
  segmento = hallado;
  alcance = omega arith;
}

pub en_contexto :
    (c v : ℕ) (dic : List (List ℕ × ℤ))
    → c + v * 5 ≤ 30
    → EnContexto (maquina c v dic) seg_pila 101 c v
en_contexto c v dic h = record {
  pila = en_pila c v dic;
  dir_cont = refl;
  cant_var = refl;
  cabe = h;
}

-- 42 is assigned to the variable `a`.
dereferenciar-asignar_example :
    (m' : Maquina) × (asignar externo con_a (pos 101) (pos 42) ≡ ok m')
    × (dereferenciar externo m' (pos 101) ≡ ok (pos 42, m'))
    × ((d' : ℕ) (v' : ℤ)
        → d' + 5 ≤ 30
        → min 5 (d' + 5) ≤ max 0 d'
        → dereferenciar externo con_a (pos (101 + d')) ≡ ok (v', con_a)
        → dereferenciar externo m' (pos (101 + d')) ≡ ok (v', m'))
dereferenciar-asignar_example =
    dereferenciar-asignar externo hay con_a seg_pila 101 0 (pos 42)
      (en_pila 0 1 ((97 ∷ [], pos 101) ∷ [])) (omega arith) refl (omega arith, omega arith)

-- The variable `b` is defined in an empty context.
regenerar_dicc_var-definir_variable_example :
    (m' : Maquina) × (definir_variable externo (maquina 0 0 []) 98 ≡ ok (pos 101, m'))
    × EnContexto m' seg_pila 101 0 1
    × (obtener_posicion_variable m' 98 ≡ ok (pos 101))
    × (regenerar_dicc_var externo m' ≡ ok m')
regenerar_dicc_var-definir_variable_example =
    regenerar_dicc_var-definir_variable externo hay (maquina 0 0 []) seg_pila 101 0 0 98
      (en_contexto 0 0 [] (omega arith)) (omega arith) (omega arith)
      (unfold regenerar_dicc_var in refl)

-- The stack is full.
definir_variable-segmen_fault_example :
    definir_variable externo (maquina 26 0 []) 98
    ≡ ok (
      negsuc 0,
      record (maquina 26 0 []) {
        fue_fin_ejecucion = true;
        hubo_seg_fault = true;
        salida = comun (con_cadena Tipos.segmen_fault (texto.string_itoa (pos 1))) ∷ [];
      },
    )
definir_variable-segmen_fault_example =
    definir_variable-segmen_fault externo (maquina 26 0 []) seg_pila 101 26 0 98
      (en_contexto 26 0 [] (omega arith)) (omega arith) (omega arith)
