-- ===== src/Cpu/Segura/Turnos.antt =====
-- A turn of the CPU, where the parser only calls primitives.
use tp_2014_1c_tp_so.Base.{
  ℕ, zero, suc, ◌≡◌, refl, ◌≢◌, false, List, Option, none, arith, if◌then◌else◌,
}
use tp_2014_1c_tp_so.Base.Int.{ℤ, pos, pos_part, ltb_ℤ, ◌==ℤ◌}
use tp_2014_1c_tp_so.Base.Outcome.{Outcome, ok, Logra, bien, Logra-bind, Logra-eq, Logra-of_eq}
use tp_2014_1c_tp_so.Base.Memoria.{memcpy_desde}
use tp_2014_1c_tp_so.Mensajes.Tipos
use tp_2014_1c_tp_so.Umv.Espacio.Validez.{IsValid}
use tp_2014_1c_tp_so.Umv.Bytes.{solicitar_bytes}
use tp_2014_1c_tp_so.Sockets.CpuUmv.{crear_men_cpu_umv}
use tp_2014_1c_tp_so.Umv.Sesion.{atender_cpu}
use tp_2014_1c_tp_so.Cpu.Estado.{Maquina, Externo, enviar_men_cpu_umv, cambio_pa}
use tp_2014_1c_tp_so.Cpu.Contexto.{regenerar_dicc_var}
use tp_2014_1c_tp_so.Cpu.Llamadas.{entero_en}
use tp_2014_1c_tp_so.Cpu.Primitiva.{Corrida}
use tp_2014_1c_tp_so.Cpu.Turno.{
  salir_por_quantum, traer_indice_etiquetas, solicitar_prox_sentencia_a_umv, correr_quantum, turno,
}
use tp_2014_1c_tp_so.Cpu.Segura.{
  Firme, Sigue, Sigue-Firme, Sigue-trans, Sigue-of_eq, Segura, sola, con_valor, Segura-ok,
  Segura-fault, Segura-if, Segura-bind, Segura-puro, pedir-Segura,
}
use tp_2014_1c_tp_so.Cpu.Segura.Primitivas.{regenerar_dicc_var-Segura, finalizar_contexto-Segura}
use tp_2014_1c_tp_so.Cpu.Segura.Pedidos.{Corrida-Sigue}

-- What the code relies on of the parser: it calls primitives, and nothing else.
abbrev pub SoloPrimitivas : Externo → (Option (List ℕ) → Maquina → Outcome Maquina) → Type 0
SoloPrimitivas x analizador_linea =
    (l : Option (List ℕ)) (m m' : Maquina) → analizador_linea l m ≡ ok m' → Corrida x m m'

-- The machine whose connection has another active process.
abbrev pub con_activo : Maquina → ℤ → Maquina
con_activo m id = record m { sesion = record m.sesion { proc_activo = id } }

con_activo-Firme : (m : Maquina) (id : ℤ) → Firme m → Firme (con_activo m id)
con_activo-Firme m id f = f

-- What a turn leaves: the flags of the next one, no process active on the connection, and of the
-- memory and the process what `Sigue` says.
pub record Turnado (m m' : Maquina) : Type 0 where
  pub valido : IsValid m'.umv
  pub total : m'.umv.tam_mem_total ≡ m.umv.tam_mem_total
  pub segmentos : m'.umv.list_seg ≡ m.umv.list_seg
  pub activo : m'.sesion.proc_activo ≡ pos 0
  pub fue_fin_ejecucion : m'.fue_fin_ejecucion ≡ false
  pub hubo_seg_fault : m'.hubo_seg_fault ≡ false
  pub proceso :
      record m'.pcb {
        cant_var_cont_actual = m.pcb.cant_var_cont_actual;
        dir_cont_actual = m.pcb.dir_cont_actual;
        program_counter = m.pcb.program_counter;
      }
      ≡ m.pcb
  pub ajenos :
      (malloc : ℤ → Option (List ℕ)) (id base offset tam : ℤ)
      → id ≢ m.pcb.id
      → solicitar_bytes malloc m'.umv id base offset tam
        ≡ solicitar_bytes malloc m.umv id base offset tam

salir-Sigue :
    (m : Maquina) → Firme m → Sigue m (if m.fue_fin_ejecucion then m else salir_por_quantum m)
unfolding salir_por_quantum
salir-Sigue m f = Sigue-of_eq f (ground arith) (ground arith) (ground arith) (ground arith)

module _ (x : Externo) where
  cambio_pa_lem : (m : Maquina) (id : ℤ) → cambio_pa x m id ≡ ok (con_activo m id)
  unfolding cambio_pa enviar_men_cpu_umv crear_men_cpu_umv atender_cpu
  cambio_pa_lem m id = refl

  traer_indice_etiquetas-Segura : (m : Maquina) → Segura sola m (traer_indice_etiquetas x m)
  unfolding traer_indice_etiquetas
  traer_indice_etiquetas-Segura m =
      Segura-bind (pedir-Segura x m Tipos.sol_bytes _ _ _ none refl) (λ r.
        Segura-bind {maq = sola}
          (Segura-if (r.0.tipo ==ℤ Tipos.r_sol_bytes)
            (Segura-puro (memcpy_desde r.0.dato (pos 0) r.0.tam_dato)
              (λ bs. Segura-ok sola _ (λ f. Sigue-of_eq f refl refl refl refl)))
            (Segura-ok sola _ (λ f. Sigue-of_eq f refl refl refl refl)))
          (λ m1.
            Segura-if (r.0.tipo ==ℤ Tipos.segmen_fault)
              (finalizar_contexto-Segura x m1 Tipos.segmen_fault)
              (Segura-ok sola _ (λ f. Sigue-of_eq f refl refl refl refl))))

  solicitar_prox_sentencia-Segura :
      (m : Maquina) → Segura con_valor m (solicitar_prox_sentencia_a_umv x m)
  unfolding solicitar_prox_sentencia_a_umv
  solicitar_prox_sentencia-Segura m =
      Segura-bind (pedir-Segura x m Tipos.sol_bytes _ _ _ none refl) (λ r.
        Segura-puro (entero_en r.0.dato (pos 0)) (λ offset.
          Segura-puro (entero_en r.0.dato (pos 4)) (λ tam.
            Segura-bind (pedir-Segura x r.1 Tipos.sol_bytes _ offset tam none refl) (λ t.
              Segura-if (ltb_ℤ tam (pos 0)) (Segura-fault con_valor) (
                Segura-if (t.0.tipo ==ℤ Tipos.r_sol_bytes)
                  (Segura-puro (memcpy_desde t.0.dato (pos 0) tam)
                    (λ bs. Segura-ok con_valor _ (λ f. Sigue-of_eq f refl refl refl refl)))
                  (Segura-if (t.0.tipo ==ℤ Tipos.segmen_fault)
                    (Segura-bind (finalizar_contexto-Segura x t.1 Tipos.segmen_fault)
                      (λ m1. Segura-ok con_valor _ (λ f. Sigue-of_eq f refl refl refl refl)))
                    (Segura-ok con_valor _ (λ f. Sigue-of_eq f refl refl refl refl))))))))

  module _ (analizador_linea : Option (List ℕ) → Maquina → Outcome Maquina)
      (solo : SoloPrimitivas x analizador_linea) where
    analizador-Segura : (l : Option (List ℕ)) (m : Maquina) → Segura sola m (analizador_linea l m)
    analizador-Segura l m = record {
      logra = λ f. Logra-of_eq _ (λ m' h. Corrida-Sigue x (solo l m m' h) f);
    }

    correr_quantum-Segura :
        (n : ℕ) (m : Maquina) → Segura con_valor m (correr_quantum x analizador_linea n m)
    unfolding correr_quantum
    correr_quantum-Segura zero m = Segura-ok con_valor _ (λ f. Sigue-of_eq f refl refl refl refl)
    correr_quantum-Segura (suc n) m =
        Segura-if m.fue_fin_ejecucion
          (Segura-ok con_valor _ (λ f. Sigue-of_eq f refl refl refl refl))
          (Segura-bind (solicitar_prox_sentencia-Segura m) (λ r.
            Segura-bind (analizador-Segura r.0 r.1) (λ m1.
              Segura-bind (correr_quantum-Segura n m1)
                (λ t. Segura-ok con_valor _ (λ f. Sigue-of_eq f refl refl refl refl)))))

    -- The state after the first three calls of a turn, and what the loop made of it.
    pub record Partes (m m' : Maquina) : Type 0 where
      pub m2 : Maquina
      pub m3 : Maquina
      pub t : ℕ × Maquina
      pub etiquetas : traer_indice_etiquetas x (con_activo m m.pcb.id) ≡ ok m2
      pub variables : regenerar_dicc_var x m2 ≡ ok m3
      pub hasta : Sigue (con_activo m m.pcb.id) m3
      pub corre : correr_quantum x analizador_linea (pos_part m3.quantum_max) m3 ≡ ok t
      pub fin :
          m'
          ≡ record (con_activo
              (if t.1.fue_fin_ejecucion then t.1 else salir_por_quantum t.1)
              (pos 0)) { fue_fin_ejecucion = false; hubo_seg_fault = false }

    pub turno-Partes : (m : Maquina) → Firme m → Logra (Partes m) (turno x analizador_linea m)
    unfolding turno
    turno-Partes m f = rw (cambio_pa_lem m m.pcb.id) (
        Logra-bind (Logra-of_eq (traer_indice_etiquetas x (con_activo m m.pcb.id)) (λ m2 h. h))
          (λ m2 h2.
            let s2 =
              Logra-eq ((traer_indice_etiquetas-Segura (con_activo m m.pcb.id)).logra f) h2 in
            let f2 = Sigue-Firme {m = con_activo m m.pcb.id} f s2 in
            Logra-bind (Logra-of_eq (regenerar_dicc_var x m2) (λ m3 h. h)) (λ m3 h3.
              let s3 = Logra-eq ((regenerar_dicc_var-Segura x m2).logra f2) h3 in
              Logra-bind
                (Logra-of_eq (correr_quantum x analizador_linea (pos_part m3.quantum_max) m3)
                  (λ t h. h))
                (λ t h.
                  let m4 = if t.1.fue_fin_ejecucion then t.1 else salir_por_quantum t.1 in
                  rw (cambio_pa_lem m4 (pos 0)) (
                    bien _ (record {
                      m2 = m2;
                      m3 = m3;
                      t = t;
                      etiquetas = h2;
                      variables = h3;
                      hasta = Sigue-trans s2 s3;
                      corre = h;
                      fin = refl;
                    }))))))

    -- A turn that ends, on a valid memory of less than 1 GiB, with a parser that only calls primitives:
    -- memory is valid then, with the same segments; every other process than the one whose turn it
    -- was reads, at any base, offset and size, what it read before; that process keeps its identity
    -- and the addresses of its segments; no process is active on the connection, and the flags are
    -- those of a new turn.
    pub turno-Turnado :
        (m m' : Maquina) → Firme m → turno x analizador_linea m ≡ ok m' → Turnado m m'
    turno-Turnado m m' f h =
        let p = Logra-eq (turno-Partes m f) h in
        let f3 = Sigue-Firme {m = con_activo m m.pcb.id} f p.hasta in
        let s4 =
          Logra-eq ((correr_quantum-Segura (pos_part p.m3.quantum_max) p.m3).logra f3) p.corre in
        let s = Sigue-trans p.hasta (Sigue-trans s4 (salir-Sigue p.t.1 (Sigue-Firme f3 s4))) in
        rw p.fin (record {
          valido = s.valido;
          total = s.total;
          segmentos = s.segmentos;
          activo = refl;
          fue_fin_ejecucion = refl;
          hubo_seg_fault = refl;
          proceso = s.proceso;
          ajenos = s.ajenos;
        })
