-- ===== src/Kernel/Programas.antt =====
-- The messages of the programs in kernel/kernel.c: a new script is loaded into the UMV and its process goes to
-- NEW; the process of a program that closes goes to EXIT.
pub mod Carga
pub mod Baja
use tp_2014_1c_tp_so.Base.{
  ℕ, ◌+◌, Bool, List, [], ◌∷◌, ◌++◌, Option, none, some, length, if◌then◌else◌, list_remove,
}
use tp_2014_1c_tp_so.Base.Int.{ℤ, pos, negsuc, ◌==ℤ◌}
use tp_2014_1c_tp_so.Base.Words.{add32, mul32}
use tp_2014_1c_tp_so.Mensajes.{Pcb, MenComun, MenSeg, crear_men_comun}
use tp_2014_1c_tp_so.Mensajes.Tipos.{
  mem_overload, ped_mem_seg_cod, ped_mem_ind_eti, ped_mem_ind_cod, ped_mem_seg_stack, escribir_seg,
  codigo_script, ind_eti_func, ind_cod, conec_cerrada,
}
use tp_2014_1c_tp_so.Kernel.Estado.{
  Cpu, PcbOtros, Kernel, Envio, a_comun, a_umv, a_umv_dato, fd_clr,
}
use tp_2014_1c_tp_so.Kernel.Colas.{mover_pcb_exit}
use tp_2014_1c_tp_so.Kernel.Servicios.{Texto}

-- `t_metadata_program` of the course's parser.
pub record Metadata : Type 0 where
  pub instruccion_inicio : ℤ
  pub instrucciones_size : ℤ
  pub instrucciones_serializado : List ℕ
  pub etiquetas_size : ℤ
  pub etiquetas : List ℕ
  pub cantidad_de_funciones : ℤ
  pub cantidad_de_etiquetas : ℤ

-- `metadata_desde_literal`, the text functions, and what stands in a block of `malloc` that is not
-- written: the field `cant_instrucciones` of a new process control block.
pub record Entorno : Type 0 where
  pub texto : Texto
  pub metadata_desde_literal : List ℕ → Metadata
  pub sin_escribir : ℤ

-- `t_resp_sol_mem`
pub record RespSolMem : Type 0 where
  pub dir_seg_codigo : ℤ
  pub dir_seg_stack : ℤ
  pub dir_indice_codigo : ℤ
  pub dir_indice_etiquetas : ℤ

-- The UMV's answers to the four requests, in their order; those after a refusal are not read.
pub record Respuestas : Type 0 where
  pub seg_cod : MenComun
  pub ind_eti : MenComun
  pub indice_cod : MenComun
  pub seg_stack : MenComun

-- `enviar_umv_mem_seg_destruir(soc_umv, tipo, id, tam)`
abbrev pub pedir_seg : ℤ → ℤ → ℤ → Envio
pedir_seg tipo id_prog tam_seg =
    a_umv (record { tipo = tipo; id_prog = id_prog; tam_seg = tam_seg })

-- `none` is a null pointer, for a program that has no room.
module _ (e : Entorno) where
  unfoldable pub gestionar_resp_sol_mem : MenComun → ℤ
  gestionar_resp_sol_mem resp =
      if resp.tipo ==ℤ mem_overload then negsuc 0 else e.texto.atoi resp.dato

  -- What is sent, and the addresses.
  unfoldable pub solicitar_mem : Kernel → MenComun → Respuestas → List Envio × Option RespSolMem
  solicitar_mem k men rs =
      let id = k.contador_programa in
      let meta = e.metadata_desde_literal men.dato in
      let cod = gestionar_resp_sol_mem rs.seg_cod in
      let eti = gestionar_resp_sol_mem rs.ind_eti in
      let ind = gestionar_resp_sol_mem rs.indice_cod in
      let stack = gestionar_resp_sol_mem rs.seg_stack in
      let p1 = pedir_seg ped_mem_seg_cod id men.tam_dato in
      let p2 = pedir_seg ped_mem_ind_eti id meta.etiquetas_size in
      let p3 = pedir_seg ped_mem_ind_cod id (mul32 meta.instrucciones_size (pos 8)) in
      let p4 = pedir_seg ped_mem_seg_stack id k.tamanio_stack in
      if cod ==ℤ negsuc 0
      then (p1 ∷ [], none)
      else if eti ==ℤ negsuc 0
      then (p1 ∷ p2 ∷ [], none)
      else if ind ==ℤ negsuc 0
      then (p1 ∷ p2 ∷ p3 ∷ [], none)
      else if stack ==ℤ negsuc 0
      then (p1 ∷ p2 ∷ p3 ∷ p4 ∷ [], none)
      else (
        p1 ∷ p2 ∷ p3 ∷ p4 ∷ [],
        some (record {
          dir_seg_codigo = cod;
          dir_seg_stack = stack;
          dir_indice_codigo = ind;
          dir_indice_etiquetas = eti;
        }),
      )

  unfoldable pub crear_pcb_escribir_seg_umv : Kernel → MenComun → RespSolMem → List Envio × Pcb
  crear_pcb_escribir_seg_umv k men resp =
      let id = k.contador_programa in
      let meta = e.metadata_desde_literal men.dato in
      (
        pedir_seg escribir_seg id (pos 0)
            ∷ a_umv_dato (crear_men_comun codigo_script men.dato men.tam_dato)
            ∷ pedir_seg escribir_seg id (pos 0)
            ∷ a_umv_dato (crear_men_comun ind_eti_func meta.etiquetas meta.etiquetas_size)
            ∷ pedir_seg escribir_seg id (pos 0)
            ∷ a_umv_dato (
                crear_men_comun ind_cod meta.instrucciones_serializado
                  (mul32 meta.instrucciones_size (pos 8)))
            ∷ [],
        record {
          cant_var_cont_actual = pos 0;
          dir_cont_actual = resp.dir_seg_stack;
          dir_indice_codigo = resp.dir_indice_codigo;
          dir_indice_etiquetas = resp.dir_indice_etiquetas;
          dir_seg_codigo = resp.dir_seg_codigo;
          dir_seg_stack = resp.dir_seg_stack;
          id = id;
          program_counter = meta.instruccion_inicio;
          tam_indice_etiquetas = meta.etiquetas_size;
          cant_instrucciones = e.sin_escribir;
        },
      )

  unfoldable pub calcular_peso : MenComun → ℤ
  calcular_peso men =
      let meta = e.metadata_desde_literal men.dato in
      add32
        (add32 (mul32 (pos 5) meta.cantidad_de_etiquetas)
          (mul32 (pos 3) meta.cantidad_de_funciones))
        meta.instrucciones_size

  unfoldable pub administrar_new_script : Kernel → ℤ → MenComun → Respuestas → Kernel × List Envio
  administrar_new_script k0 soc_prog men rs =
      let k = record k0 { contador_programa = add32 k0.contador_programa (pos 1) } in
      let r = solicitar_mem k men rs in
      elim r.1 [
        | none ↦
            let s = e.texto.string_itoa k.contador_programa in
            (
              record k { conj_soc_progs = fd_clr soc_prog k.conj_soc_progs },
              r.0
                  ++ (a_comun soc_prog
                        (crear_men_comun mem_overload (s ++ (0 ∷ [])) (pos (length s + 1)))
                      ∷ []),
            )
        | some resp ↦
            let p = crear_pcb_escribir_seg_umv k men resp in
            let x : PcbOtros = record {
              pcb = p.1;
              n_socket = soc_prog;
              peso = calcular_peso men;
              tipo_fin_ejecucion = negsuc 0;
            } in
            (record k { cola_new = k.cola_new ++ (x ∷ []); cant_new = k.cant_new + 1 }, r.0 ++ p.0)
      ]

unfoldable pub administrar_prog_cerrado : Kernel → ℤ → Kernel
unfolding mover_pcb_exit list_remove
administrar_prog_cerrado k0 soc_prog =
    let k =
      mover_pcb_exit (record k0 { conj_soc_progs = fd_clr soc_prog k0.conj_soc_progs }) soc_prog in
    elim (list_remove (λ c. c.soc_prog ==ℤ soc_prog) k.lista_cpu) [
      | none ↦ k
      | some (c, resto) ↦ record k {
        lista_cpu = resto;
        conj_soc_cpus = fd_clr c.soc_cpu k.conj_soc_cpus;
      }
    ]

module _ (e : Entorno) where
  unfoldable pub administrar_men_progs : Kernel → ℤ → MenComun → Respuestas → Kernel × List Envio
  unfolding administrar_prog_cerrado administrar_new_script
  administrar_men_progs k soc_prog men rs =
      if men.tipo ==ℤ conec_cerrada
      then (administrar_prog_cerrado k soc_prog, [])
      else if men.tipo ==ℤ codigo_script
      then administrar_new_script e k soc_prog men rs
      else (k, [])
