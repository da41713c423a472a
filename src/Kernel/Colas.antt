-- ===== src/Kernel/Colas.antt =====
-- The searches in the queues of kernel/kernel.c. Each pops the elements one by one, pushes back those
-- that it does not want, and makes as many rounds as the queue is long.
pub mod Rotacion
pub mod PesoMinimo
pub mod Cuentas
use tp_2014_1c_tp_so.Base.{
  ℕ, zero, suc, ◌+◌, Bool, List, [], ◌∷◌, ◌++◌, Option, none, some, length, if◌then◌else◌,
}
use tp_2014_1c_tp_so.Base.Int.{ℤ, pos, ltb_ℤ, ◌==ℤ◌}
use tp_2014_1c_tp_so.Kernel.Estado.{PcbOtros, Kernel}

-- The element that passes, or `none` for a null pointer, and the queue.
unfoldable pub rotar_hasta : ℕ → (PcbOtros → Bool) → List PcbOtros → Option PcbOtros × List PcbOtros
rotar_hasta zero p cola = (none, cola)
rotar_hasta (suc n) p [] = (none, [])
rotar_hasta (suc n) p (x ∷ cola) =
    let resto = rotar_hasta n p (cola ++ (x ∷ [])) in if p x then (some x, cola) else resto

unfoldable pub buscar_pcb : List PcbOtros → ℤ → Option PcbOtros × List PcbOtros
unfolding rotar_hasta
buscar_pcb cola soc_prog = rotar_hasta (length cola) (λ x. x.n_socket ==ℤ soc_prog) cola

unfoldable pub get_pcb_otros_exec : Kernel → ℤ → Option PcbOtros × Kernel
unfolding rotar_hasta
get_pcb_otros_exec k id_proc =
    let r = rotar_hasta (length k.cola_exec) (λ x. id_proc ==ℤ x.pcb.id) k.cola_exec in
    (r.0, record k { cola_exec = r.1 })

-- The first loop of `get_peso_min`.
unfoldable pub peso_minimo : ℕ → ℤ → List PcbOtros → ℤ × List PcbOtros
peso_minimo zero peso_min cola = (peso_min, cola)
peso_minimo (suc n) peso_min [] = (peso_min, [])
peso_minimo (suc n) peso_min (x ∷ cola) =
    peso_minimo n (if ltb_ℤ x.peso peso_min then x.peso else peso_min) (cola ++ (x ∷ []))

unfoldable pub get_peso_min : Kernel → Option PcbOtros × Kernel
unfolding rotar_hasta peso_minimo
get_peso_min k =
    let tam_cola = length k.cola_new in
    let m = peso_minimo tam_cola (pos 1000000) k.cola_new in
    let r = rotar_hasta tam_cola (λ x. m.0 ==ℤ x.peso) m.1 in (r.0, record k { cola_new = r.1 })

unfoldable pub pasar_pcb_exit : Kernel → Option PcbOtros → Kernel
pasar_pcb_exit k none = k
pasar_pcb_exit k (some x) = record k {
  cola_exit = k.cola_exit ++ (x ∷ []);
  cant_exit = k.cant_exit + 1;
  cant_multiprog = k.cant_multiprog + 1;
}

unfoldable pub mover_pcb_exit : Kernel → ℤ → Kernel
unfolding buscar_pcb pasar_pcb_exit
mover_pcb_exit k soc_prog =
    let r1 = buscar_pcb k.cola_new soc_prog in
    let k1 = pasar_pcb_exit (record k { cola_new = r1.1 }) r1.0 in
    let r2 = buscar_pcb k1.cola_ready soc_prog in
    let k2 = pasar_pcb_exit (record k1 { cola_ready = r2.1 }) r2.0 in
    let r3 = buscar_pcb k2.cola_block soc_prog in
    let k3 = pasar_pcb_exit (record k2 { cola_block = r3.1 }) r3.0 in
    let r4 = buscar_pcb k3.cola_exec soc_prog in
    pasar_pcb_exit (record k3 { cola_exec = r4.1 }) r4.0

-- `queue_push(colas->cola_ready, x); sem_incre(&cant_ready);`
abbrev pub pasar_ready : Kernel → PcbOtros → Kernel
pasar_ready k x = record k { cola_ready = k.cola_ready ++ (x ∷ []); cant_ready = k.cant_ready + 1 }

unfoldable pub pasar_pcb_block_ready : Kernel → ℤ → Kernel
unfolding rotar_hasta
pasar_pcb_block_ready k id_pcb =
    let r = rotar_hasta (length k.cola_block) (λ x. x.pcb.id ==ℤ id_pcb) k.cola_block in
    let k1 = record k { cola_block = r.1 } in elim r.0 [ none ↦ k1 | some x ↦ pasar_ready k1 x ]
