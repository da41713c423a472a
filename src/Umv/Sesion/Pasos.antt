-- ===== src/Umv/Sesion/Pasos.antt =====
-- The threads of UMV/UMV.c side by side: the console, the one of the kernel, and one for each CPU. A round
-- of a thread holds `mutex_list_seg` for its whole access, and an order of the console is taken for
-- one step, so an execution is a sequence of rounds in some order.
use tp_2014_1c_tp_so.Base.{ℕ, ◌^◌, ◌≤◌, ◌<◌, ◌≡◌, refl, ◌∙◌, ◌≢◌, List, Option, none, some, length}
use tp_2014_1c_tp_so.Base.Int.{ℤ, pos, pos_part, neg_part}
use tp_2014_1c_tp_so.Mensajes.{MenComun, MenSeg, MenCpuUmv}
use tp_2014_1c_tp_so.Mensajes.Tipos.{alm_bytes}
use tp_2014_1c_tp_so.Base.Outcome.{ok, Logra-eq}
use tp_2014_1c_tp_so.Umv.Estado.{Umv}
use tp_2014_1c_tp_so.Umv.Espacio.Validez.{IsValid}
use tp_2014_1c_tp_so.Umv.Segmentos.{buscar_segmento_dir_logica}
use tp_2014_1c_tp_so.Umv.Segmentos.Compactacion.{PilaLarga}
use tp_2014_1c_tp_so.Umv.Bytes.{solicitar_bytes}
use tp_2014_1c_tp_so.Umv.Consola.{Informe, Orden, atender_consola}
use tp_2014_1c_tp_so.Umv.Consola.Ordenes.{OrdenValida, atender_consola-IsValid}
use tp_2014_1c_tp_so.Umv.Sesion.{Entorno, SesionCpu, atender_kernel, atender_cpu}
use tp_2014_1c_tp_so.Umv.Sesion.Kernel.{atender_kernel-IsValid}
use tp_2014_1c_tp_so.Umv.Sesion.Cpu.{RondaCpu, atender_cpu-RondaCpu}

-- What a message of the kernel, and the one after it, must satisfy.
pub record PedidoKernel (e : Entorno) (u : Umv) (men : MenSeg) (aux_men : MenComun) (azar : ℤ)
    : Type 0 where
  pub larga : PilaLarga e.pila u.list_seg
  pub tam_seg : (k : ℕ) × (men.tam_seg ≡ pos k)
  pub tam_dato : (n : ℕ) × (aux_men.tam_dato ≡ pos n) × (n ≤ length aux_men.dato)
  pub azar_nonneg : neg_part azar ≡ 0

-- What a message of a CPU must satisfy.
pub record PedidoCpu (e : Entorno) (u : Umv) (c : SesionCpu) (men : MenCpuUmv) : Type 0 where
  pub tam : (n : ℕ) × (men.tam ≡ pos n) × (n ≤ length men.buffer) × (e.malloc (pos n) ≢ none)
  pub segmento : men.tipo ≡ alm_bytes → buscar_segmento_dir_logica u c.proc_activo men.base ≢ none

module _ (e : Entorno) where
  -- A round of one of the threads; the index says which process was active in it, if it was a CPU's.
  pub data Paso : Umv → Option ℤ → Umv → Type 0 where
    de_kernel :
        {u w : Umv} {rs : List MenComun} (men : MenSeg) (aux_men : MenComun) (azar : ℤ)
        → PedidoKernel e u men aux_men azar
        → atender_kernel e u men aux_men azar ≡ ok (w, rs)
        → Paso u none w
    de_cpu :
        {u w : Umv} {d : SesionCpu} {rs : List MenComun} (c : SesionCpu) (men : MenCpuUmv)
        → PedidoCpu e u c men
        → atender_cpu e u c men ≡ ok (w, d, rs)
        → Paso u (some c.proc_activo) w
    de_consola :
        {u w : Umv} {inf : Informe} (realloc : List ℕ → ℤ → List ℕ) (o : Orden)
        → OrdenValida e.pila u o
        → atender_consola e.lib e.pila e.malloc realloc u o ≡ ok (w, inf)
        → Paso u none w

  pub data Alcanza (u : Umv) : Umv → Type 0 where
    aca : Alcanza u u
    luego : {v w : Umv} {p : Option ℤ} → Alcanza u v → Paso v p w → Alcanza u w

  -- Only the CPUs, and none of them while the process `id` is active.
  pub data Ajenos (id : ℤ) (u : Umv) : Umv → Type 0 where
    nada : Ajenos id u u
    otro : {v w : Umv} (p : ℤ) → Ajenos id u v → Paso v (some p) w → id ≢ p → Ajenos id u w

  Paso-IsValid :
      {u w : Umv} {p : Option ℤ}
      → Paso u p w
      → IsValid u
      → pos_part u.tam_mem_total < 2 ^ 30
      → IsValid w × (w.tam_mem_total ≡ u.tam_mem_total)
  Paso-IsValid (de_kernel {u} {w} {rs} men aux_men azar h q) v small =
      let k =
        atender_kernel-IsValid e u men aux_men azar h.tam_seg.0 h.tam_dato.0 v h.larga h.tam_seg.1
          h.tam_dato.1 h.tam_dato.2 h.azar_nonneg in
      let igual : k.0 ≡ (w, rs) = cc in (rw igual at k.2, rw igual at k.3)
  Paso-IsValid (de_cpu {u} {w} {d} {rs} c men h q) v small =
      let k = atender_cpu-RondaCpu e u c men h.tam.0 v small h.tam.1 h.tam.2 h.tam.3 h.segmento in
      let igual : k.0 ≡ (w, d, rs) = cc in
      let r : RondaCpu u c men (w, d, rs) = rw igual at k.2 in (r.valido, r.total)
  Paso-IsValid (de_consola {u} {w} {inf} realloc o h q) v small =
      Logra-eq (atender_consola-IsValid e.lib e.pila e.malloc realloc u o h v small) q

  -- A memory of less than 1 GiB that is valid at first is valid after any rounds of the threads, in
  -- whatever order, and has the same size, as long as each round ends and gets what `PedidoKernel`,
  -- `PedidoCpu` or `OrdenValida` asks of it: sizes are not negative, and not longer than the data
  -- that comes; logical addresses are not negative; `malloc` gives a block; a CPU writes into a segment
  -- that exists; the stack holds the bytes that `compactar` copies by mistake; and the console does not
  -- change the size of memory and makes no segment of a negative size.
  pub Alcanza-IsValid :
      {u w : Umv}
      → Alcanza u w
      → IsValid u
      → pos_part u.tam_mem_total < 2 ^ 30
      → IsValid w × (w.tam_mem_total ≡ u.tam_mem_total)
  Alcanza-IsValid aca v small = (v, refl)
  Alcanza-IsValid (luego a p) v small =
      let i = Alcanza-IsValid a v small in
      let j = Paso-IsValid p i.0 (rw i.1 small) in (j.0, j.1 ∙ i.1)

  Paso-ajeno :
      {u w : Umv} {p : ℤ}
      → Paso u (some p) w
      → IsValid u
      → pos_part u.tam_mem_total < 2 ^ 30
      → (malloc : ℤ → Option (List ℕ)) (id base offset tam : ℤ) → id ≢ p
      → solicitar_bytes malloc w id base offset tam ≡ solicitar_bytes malloc u id base offset tam
  Paso-ajeno (de_cpu {u} {w} {d} {rs} c men h q) v small malloc id base offset tam ne =
      let k = atender_cpu-RondaCpu e u c men h.tam.0 v small h.tam.1 h.tam.2 h.tam.3 h.segmento in
      let igual : k.0 ≡ (w, d, rs) = cc in
      let r : RondaCpu u c men (w, d, rs) = rw igual at k.2 in r.ajenos malloc id base offset tam ne

  -- On a valid memory of less than 1 GiB, while the CPUs work for other processes, the kernel sends
  -- nothing and the console is not used, a process reads at any base, offset and size what it read
  -- before, after any number of rounds of the CPUs that end and get what `PedidoCpu` asks: sizes are
  -- not negative and not longer than the data that comes, `malloc` gives a block, and a write is into a
  -- segment that exists.
  pub Ajenos-solicitar_bytes :
      {id : ℤ} {u w : Umv}
      → Ajenos id u w
      → IsValid u
      → pos_part u.tam_mem_total < 2 ^ 30
      → (malloc : ℤ → Option (List ℕ)) (base offset tam : ℤ)
      → solicitar_bytes malloc w id base offset tam ≡ solicitar_bytes malloc u id base offset tam
  Ajenos-solicitar_bytes a v small malloc base offset tam =
      (leidos a v small).2 malloc base offset tam
    where
      leidos :
          {id : ℤ} {u w : Umv}
          → Ajenos id u w
          → IsValid u
          → pos_part u.tam_mem_total < 2 ^ 30
          → IsValid w
            × (w.tam_mem_total ≡ u.tam_mem_total)
            × ((malloc : ℤ → Option (List ℕ)) (base offset tam : ℤ)
                → solicitar_bytes malloc w id base offset tam
                  ≡ solicitar_bytes malloc u id base offset tam)
      leidos nada v small = (v, refl, λ malloc base offset tam. refl)
      leidos {id = id} (otro p a s ne) v small =
          let i = leidos a v small in
          let j = Paso-IsValid s i.0 (rw i.1 small) in
          (
            j.0,
            j.1 ∙ i.1,
            λ malloc base offset tam.
                Paso-ajeno s i.0 (rw i.1 small) malloc id base offset tam ne
                ∙ i.2 malloc base offset tam,
          )
