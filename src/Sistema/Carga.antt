-- ===== src/Sistema/Carga.antt =====
-- A script is loaded: kernel/kernel.c asks UMV/UMV.c for its segments and fills them.

use tp_2014_1c_tp_so.Base.{
  ℕ, ◌+◌, ◌^◌, ◌≤◌, ◌<◌, ◌≡◌, refl, ◌≢◌, List, [], ◌∷◌, ◌++◌, Option, none, some, Mem, arith,
  length,
}
use tp_2014_1c_tp_so.Base.Int.{ℤ, pos, pos_part}
use tp_2014_1c_tp_so.Base.Words.{mul32}
use tp_2014_1c_tp_so.Base.Outcome.{ok}
use tp_2014_1c_tp_so.Mensajes.{Pcb, MenComun, aviso}
use tp_2014_1c_tp_so.Mensajes.Tipos.{men_alm_ok}
use tp_2014_1c_tp_so.Umv.Estado.{Seg, Umv, largo}
use tp_2014_1c_tp_so.Umv.Espacio.Validez.{IsValid}
use tp_2014_1c_tp_so.Umv.Segmentos.{buscar_segmento_dir_logica}
use tp_2014_1c_tp_so.Umv.Segmentos.Compactacion.{suma}
use tp_2014_1c_tp_so.Umv.Segmentos.Busqueda.{Distintas}
use tp_2014_1c_tp_so.Umv.Bytes.{solicitar_bytes}
use tp_2014_1c_tp_so.Umv.Sesion as Sesion
use tp_2014_1c_tp_so.Umv.Sesion.{cadena}
use tp_2014_1c_tp_so.Umv.Sesion.Concesion.{Propios-Crecida}
use tp_2014_1c_tp_so.Kernel.Estado.{Kernel, PcbOtros}
use tp_2014_1c_tp_so.Kernel.Programas.{Metadata, Entorno, administrar_new_script}
use tp_2014_1c_tp_so.Sistema.Concedidas.{
  nuevo, concedidas, administrar_new_script-tanda, administrar_new_script-nuevo,
}
use tp_2014_1c_tp_so.Sistema.Escritura.{servir-Leidas}
use tp_2014_1c_tp_so.Sistema.Servicio.{servir, lote, servir-pedidos}

-- The segments of the new process, as the CPU reads them at the addresses of its process control block.
pub record Cargado (malloc : ℤ → Option (List ℕ)) (meta : Metadata) (script : List ℕ)
    (tam_stack : ℤ) (w : Umv) (pcb : Pcb) : Type 0 where
  pub codigo :
      solicitar_bytes malloc w pcb.id pcb.dir_seg_codigo (pos 0) (pos (length script))
      ≡ ok (some script)
  pub etiquetas :
      solicitar_bytes malloc w pcb.id pcb.dir_indice_etiquetas (pos 0) pcb.tam_indice_etiquetas
      ≡ ok (some meta.etiquetas)
  pub indice :
      solicitar_bytes malloc w pcb.id pcb.dir_indice_codigo
        (pos 0)
        (mul32 meta.instrucciones_size (pos 8))
      ≡ ok (some meta.instrucciones_serializado)
  pub stack :
      (s : Seg) × (buscar_segmento_dir_logica w pcb.id pcb.dir_seg_stack ≡ some s)
      × (s.tam_seg ≡ tam_stack)
  pub contexto : pcb.dir_cont_actual ≡ pcb.dir_seg_stack
  pub inicio : pcb.program_counter ≡ meta.instruccion_inicio

-- The logical addresses, which `rand` gives, are four.
abbrev pub Cuatro : ℕ → ℕ → ℕ → ℕ → Type 0
Cuatro a1 a2 a3 a4 = ((a1 ≢ a2) × (a1 ≢ a3) × (a1 ≢ a4)) × ((a2 ≢ a3) × (a2 ≢ a4)) × (a3 ≢ a4)

Cuatro-Distintas :
    (id : ℤ) (k1 k2 k3 k4 a1 a2 a3 a4 : ℕ)
    → Cuatro a1 a2 a3 a4
    → Distintas (λ f. f.dir_logica) (lote id k1 k2 k3 k4 a1 a2 a3 a4)
Cuatro-Distintas id k1 k2 k3 k4 a1 a2 a3 a4 c = ground arith

-- A script for which the UMV has room: the UMV answers the kernel's four requests with the addresses
-- and its three writes with `MEN_ALM_OK`; the process goes to the end of NEW,
-- with the client's socket and the next number; and at the addresses of
-- its process control block a CPU reads the script, the labels and the index of the code, and finds
-- a stack of the size that the configuration gives. This is for a valid memory of less than 1 GiB
-- without segments of the process, `malloc` not failing, four addresses that differ and are not
-- negative, a next number that is an `int32_t`, sizes that
-- are those of the data, a stack of the UMV that holds, from the pointer of the loop of `compactar` on,
-- at least as many bytes as any segment is long, and an `atoi` that reads what `string_itoa` writes.
pub administrar_new_script-servir :
    (eu : Sesion.Entorno) (ek : Entorno) (u : Umv) (k : Kernel) (soc_prog : ℤ) (men : MenComun)
    (n k4 a1 a2 a3 a4 : ℕ) (z1 z2 z3 : ℤ)
    → let meta = ek.metadata_desde_literal men.dato in
      let instr = mul32 meta.instrucciones_size (pos 8) in
      ((s : Seg) → largo s ≤ length (eu.pila s))
      → ((m : ℤ) → eu.malloc m ≢ none)
      → ((a : ℕ) → a < 2 ^ 31 → ek.texto.atoi (eu.string_itoa (pos a) ++ (0 ∷ [])) ≡ pos a)
      → IsValid u
      → pos_part u.tam_mem_total < 2 ^ 30
      → k.contador_programa ≡ pos n
      → n + 1 < 2 ^ 31
      → ((s : Seg) → Mem s u.list_seg → s.id_proc ≢ pos (n + 1))
      → men.tam_dato ≡ pos (length men.dato)
      → meta.etiquetas_size ≡ pos (length meta.etiquetas)
      → instr ≡ pos (length meta.instrucciones_serializado)
      → k.tamanio_stack ≡ pos k4
      → suma u.list_seg
          + length men.dato
          + length meta.etiquetas
          + length meta.instrucciones_serializado
          + k4
        ≤ pos_part u.tam_mem_total
      → (a1 < 2 ^ 31) × (a2 < 2 ^ 31) × (a3 < 2 ^ 31) × (a4 < 2 ^ 31)
      → Cuatro a1 a2 a3 a4
      → let rs = concedidas eu a1 a2 a3 a4 in
        let r = administrar_new_script ek k soc_prog men rs in
        (w : Umv) × (x : PcbOtros) × (servir eu u r.1
            (pos a1 ∷ pos a2 ∷ pos a3 ∷ pos a4 ∷ z1 ∷ z2 ∷ z3 ∷ [])
          ≡ ok (
            w,
            rs.seg_cod
                ∷ rs.ind_eti
                ∷ rs.indice_cod
                ∷ rs.seg_stack
                ∷ aviso men_alm_ok
                ∷ aviso men_alm_ok
                ∷ aviso men_alm_ok
                ∷ [],
          ))
        × IsValid w
        × (r.0.cola_new ≡ k.cola_new ++ (x ∷ []))
        × (x.n_socket ≡ soc_prog)
        × (x.pcb.id ≡ pos (n + 1))
        × Cargado eu.malloc meta men.dato k.tamanio_stack w x.pcb
administrar_new_script-servir eu ek u k soc_prog men n k4 a1 a2 a3 a4 z1 z2 z3 larga hay leida v
      small en hn sin t1 t2 t3 t4 cabe (l1, l2, l3, l4) c =
    let meta = ek.metadata_desde_literal men.dato in
    let id = pos (n + 1) in
    let b1 = men.dato in
    let b2 = meta.etiquetas in
    let b3 = meta.instrucciones_serializado in
    let dirs = Cuatro-Distintas id (length b1) (length b2) (length b3) k4 a1 a2 a3 a4 c in
    let p =
      servir-pedidos eu larga u v id (length b1) (length b2) (length b3) k4 a1 a2 a3 a4 cabe in
    let r =
      servir-Leidas eu hay p.0 p.2.valido (rw p.2.total small) id b1 b2 b3 k4 a1 a2 a3 a4
        (Propios-Crecida u p.0 id _ sin p.2) dirs z1 z2 z3 in
    let x = nuevo eu ek leida k soc_prog men n a1 a2 a3 a4 en hn l1 l2 l3 l4 in
    let tanda =
      administrar_new_script-tanda eu ek leida k soc_prog men n a1 a2 a3 a4 en hn l1 l2 l3 l4 k4 t1
        t2 t3 t4 in
    (
      r.0,
      x,
      rw tanda (p.1 _ (z1 ∷ z2 ∷ z3 ∷ []) r.0 _ r.1),
      r.2,
      administrar_new_script-nuevo eu ek leida k soc_prog men n a1 a2 a3 a4 en hn l1 l2 l3 l4,
      refl,
      refl,
      record {
        codigo = r.3;
        etiquetas = rw t2 r.4;
        indice = rw t3 r.5;
        stack = rw t4 r.6;
        contexto = refl;
        inicio = refl;
      },
    )
