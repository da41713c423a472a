-- ===== src/Sistema/Concedidas.antt =====
-- What kernel/kernel.c sends and keeps for a script when UMV/UMV.c grants its four requests.

use tp_2014_1c_tp_so.Base.{
  ℕ, ◌+◌, ◌^◌, ◌<◌, ◌≡◌, refl, ◌∙◌, ap, false, List, [], ◌∷◌, ◌++◌, Option, some, arith, length,
  length-append,
}
use tp_2014_1c_tp_so.Base.Int.{ℤ, pos, negsuc, ◌==ℤ◌}
use tp_2014_1c_tp_so.Base.Words.{add32, mul32, add32-pos}
use tp_2014_1c_tp_so.Mensajes.{MenComun, crear_men_comun}
use tp_2014_1c_tp_so.Mensajes.Tipos.{
  ped_mem_seg_cod, ped_mem_ind_eti, ped_mem_ind_cod, ped_mem_seg_stack, escribir_seg, mem_overload,
  resp_mem_seg_cod, resp_mem_ind_eti, resp_mem_ind_cod, resp_mem_seg_stack, codigo_script,
  ind_eti_func, ind_cod,
}
use tp_2014_1c_tp_so.Cpu.Pila.{take-all}
use tp_2014_1c_tp_so.Umv.Sesion as Sesion
use tp_2014_1c_tp_so.Umv.Sesion.{cadena}
use tp_2014_1c_tp_so.Kernel.Estado.{Kernel, PcbOtros, Envio, a_umv_dato}
use tp_2014_1c_tp_so.Kernel.Programas.{
  Entorno, Respuestas, RespSolMem, pedir_seg, gestionar_resp_sol_mem, solicitar_mem,
  crear_pcb_escribir_seg_umv, calcular_peso, administrar_new_script,
}
use tp_2014_1c_tp_so.Kernel.Programas.Carga.{
  nuevo_pcb, administrar_new_script-some, administrar_new_script-envios,
}

-- The UMV's answer to a request that it grants, as the kernel reads it.
pub gestionar_resp-cadena :
    (eu : Sesion.Entorno) (ek : Entorno) (tipo a : ℤ)
    → (tipo ==ℤ mem_overload) ≡ false
    → ek.texto.atoi (eu.string_itoa a ++ (0 ∷ [])) ≡ a
    → gestionar_resp_sol_mem ek (cadena eu tipo a) ≡ a
unfolding gestionar_resp_sol_mem crear_men_comun
gestionar_resp-cadena eu ek tipo a t h =
    let s = eu.string_itoa a in
    rw (t, take-all (length s + 1) (s ++ (0 ∷ [])) (length-append s (0 ∷ []))) h

pub no_es_error : (a : ℕ) → (pos a ==ℤ negsuc 0) ≡ false
no_es_error a = ground arith

-- What is sent for a script: four requests, and the data of three segments.
abbrev pub tanda : ℤ → ℤ → ℤ → ℤ → ℤ → MenComun → MenComun → MenComun → List Envio
tanda id tam1 tam2 tam3 tam4 d1 d2 d3 =
    pedir_seg ped_mem_seg_cod id tam1
    ∷ pedir_seg ped_mem_ind_eti id tam2
    ∷ pedir_seg ped_mem_ind_cod id tam3
    ∷ pedir_seg ped_mem_seg_stack id tam4
    ∷ pedir_seg escribir_seg id (pos 0)
    ∷ a_umv_dato d1
    ∷ pedir_seg escribir_seg id (pos 0)
    ∷ a_umv_dato d2
    ∷ pedir_seg escribir_seg id (pos 0)
    ∷ a_umv_dato d3
    ∷ []

-- A message that brings these bytes.
abbrev pub lleva : ℤ → List ℕ → MenComun
lleva tipo bs = record { tam_dato = pos (length bs); tipo = tipo; dato = bs }

crear_men_comun-lleva :
    (tipo : ℤ) (bs : List ℕ) (tam : ℤ)
    → tam ≡ pos (length bs)
    → crear_men_comun tipo bs tam ≡ lleva tipo bs
unfolding crear_men_comun
crear_men_comun-lleva tipo bs tam e = rw (e, take-all (length bs) bs refl) refl

abbrev pub concedidas : Sesion.Entorno → ℕ → ℕ → ℕ → ℕ → Respuestas
concedidas eu a1 a2 a3 a4 = record {
  seg_cod = cadena eu resp_mem_seg_cod (pos a1);
  ind_eti = cadena eu resp_mem_ind_eti (pos a2);
  indice_cod = cadena eu resp_mem_ind_cod (pos a3);
  seg_stack = cadena eu resp_mem_seg_stack (pos a4);
}

module _ (eu : Sesion.Entorno) (ek : Entorno)
    (leida : (a : ℕ) → a < 2 ^ 31 → ek.texto.atoi (eu.string_itoa (pos a) ++ (0 ∷ [])) ≡ pos a)
    (k : Kernel) (soc_prog : ℤ) (men : MenComun) (n a1 a2 a3 a4 : ℕ)
    (en : k.contador_programa ≡ pos n) (hn : n + 1 < 2 ^ 31) (l1 : a1 < 2 ^ 31) (l2 : a2 < 2 ^ 31)
    (l3 : a3 < 2 ^ 31) (l4 : a4 < 2 ^ 31) where
  -- The process that is made of the answers.
  abbrev pub nuevo : PcbOtros
  nuevo =
      let meta = ek.metadata_desde_literal men.dato in
      record {
        pcb = record {
          cant_var_cont_actual = pos 0;
          dir_cont_actual = pos a4;
          dir_indice_codigo = pos a3;
          dir_indice_etiquetas = pos a2;
          dir_seg_codigo = pos a1;
          dir_seg_stack = pos a4;
          id = pos (n + 1);
          program_counter = meta.instruccion_inicio;
          tam_indice_etiquetas = meta.etiquetas_size;
          cant_instrucciones = ek.sin_escribir;
        };
        n_socket = soc_prog;
        peso = calcular_peso ek men;
        tipo_fin_ejecucion = negsuc 0;
      }

  abbrev numerado : Kernel
  numerado = record k { contador_programa = pos (n + 1) }

  -- The addresses that the kernel reads.
  abbrev direcciones : RespSolMem
  direcciones = record {
    dir_seg_codigo = pos a1;
    dir_seg_stack = pos a4;
    dir_indice_codigo = pos a3;
    dir_indice_etiquetas = pos a2;
  }

  solicitar_mem-concedidas :
      let meta = ek.metadata_desde_literal men.dato in
      let id = pos (n + 1) in
      solicitar_mem ek numerado men (concedidas eu a1 a2 a3 a4) ≡ (
        pedir_seg ped_mem_seg_cod id men.tam_dato
            ∷ pedir_seg ped_mem_ind_eti id meta.etiquetas_size
            ∷ pedir_seg ped_mem_ind_cod id (mul32 meta.instrucciones_size (pos 8))
            ∷ pedir_seg ped_mem_seg_stack id k.tamanio_stack
            ∷ [],
        some direcciones,
      )
  unfolding solicitar_mem
  solicitar_mem-concedidas =
      rw
        (
          gestionar_resp-cadena eu ek resp_mem_seg_cod (pos a1) refl (leida a1 l1),
          gestionar_resp-cadena eu ek resp_mem_ind_eti (pos a2) refl (leida a2 l2),
          gestionar_resp-cadena eu ek resp_mem_ind_cod (pos a3) refl (leida a3 l3),
          gestionar_resp-cadena eu ek resp_mem_seg_stack (pos a4) refl (leida a4 l4),
          no_es_error a1,
          no_es_error a2,
          no_es_error a3,
          no_es_error a4,
        )
        refl

  administrar_new_script-concedidas :
      let meta = ek.metadata_desde_literal men.dato in
      let id = pos (n + 1) in
      let instr = mul32 meta.instrucciones_size (pos 8) in
      let r = administrar_new_script ek k soc_prog men (concedidas eu a1 a2 a3 a4) in
      (r.1
        ≡ tanda id men.tam_dato meta.etiquetas_size instr k.tamanio_stack
            (crear_men_comun codigo_script men.dato men.tam_dato)
            (crear_men_comun ind_eti_func meta.etiquetas meta.etiquetas_size)
            (crear_men_comun ind_cod meta.instrucciones_serializado instr))
      × (r.0.cola_new ≡ k.cola_new ++ (nuevo ∷ []))
  unfolding crear_pcb_escribir_seg_umv nuevo_pcb
  administrar_new_script-concedidas =
      let c : add32 k.contador_programa (pos 1) ≡ pos (n + 1) = rw en (add32-pos n 1 hn) in
      let s = solicitar_mem-concedidas in
      let r = ap (λ (p : List Envio × Option RespSolMem). p.1) s in
      let rs = concedidas eu a1 a2 a3 a4 in
      (
        administrar_new_script-envios ek k soc_prog men rs (pos (n + 1)) direcciones c r
            ∙ ap
                (λ (p : List Envio × Option RespSolMem).
                  p.0 ++ (crear_pcb_escribir_seg_umv ek numerado men direcciones).0)
                s,
        ap (λ (q : Kernel). q.cola_new)
            (administrar_new_script-some ek k soc_prog men rs (pos (n + 1)) direcciones c r),
      )

  -- The same, where the sizes are those of the data.
  pub administrar_new_script-tanda :
      (k4 : ℕ)
      → let meta = ek.metadata_desde_literal men.dato in
        men.tam_dato ≡ pos (length men.dato)
        → meta.etiquetas_size ≡ pos (length meta.etiquetas)
        → mul32 meta.instrucciones_size (pos 8) ≡ pos (length meta.instrucciones_serializado)
        → k.tamanio_stack ≡ pos k4
        → (administrar_new_script ek k soc_prog men (concedidas eu a1 a2 a3 a4)).1
          ≡ tanda
              (pos (n + 1))
              (pos (length men.dato))
              (pos (length meta.etiquetas))
              (pos (length meta.instrucciones_serializado))
              (pos k4)
              (lleva codigo_script men.dato)
              (lleva ind_eti_func meta.etiquetas)
              (lleva ind_cod meta.instrucciones_serializado)
  administrar_new_script-tanda k4 t1 t2 t3 t4 =
      let meta = ek.metadata_desde_literal men.dato in
      let e1 = crear_men_comun-lleva codigo_script men.dato men.tam_dato t1 in
      let e2 = crear_men_comun-lleva ind_eti_func meta.etiquetas meta.etiquetas_size t2 in
      let e3 = crear_men_comun-lleva ind_cod meta.instrucciones_serializado _ t3 in
      administrar_new_script-concedidas.0
      ∙ (λ i. tanda (pos (n + 1)) (t1 i) (t2 i) (t3 i) (t4 i) (e1 i) (e2 i) (e3 i))

  pub administrar_new_script-nuevo :
      (administrar_new_script ek k soc_prog men (concedidas eu a1 a2 a3 a4)).0.cola_new
      ≡ k.cola_new ++ (nuevo ∷ [])
  administrar_new_script-nuevo = administrar_new_script-concedidas.1
