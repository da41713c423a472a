-- ===== src/Pruebas/Servidor.antt =====
-- The properties of UMV/UMV.c on the concrete memory.
use mathlib.Core.Logic.{◌≢◌}
use tp_2014_1c_tp_so.Base.{ℕ, ◌≡◌, refl, List, [], ◌∷◌, Option, none, some, arith, true}
use tp_2014_1c_tp_so.Base.Int.{ℤ, pos}
use tp_2014_1c_tp_so.Base.Outcome.{ok}
use tp_2014_1c_tp_so.Mensajes.{MenComun, MenSeg, MenCpuUmv}
use tp_2014_1c_tp_so.Mensajes.Tipos.{ped_mem_seg_stack, resp_mem_seg_stack, alm_bytes, r_alm_bytes}
use tp_2014_1c_tp_so.Umv.Estado.{Umv}
use tp_2014_1c_tp_so.Umv.Espacio.{
  menor_dir_fisica, ordenar_lista_seg_por_dir_fisica, buscar_espacio_mem_prin,
}
use tp_2014_1c_tp_so.Umv.Espacio.Validez.{IsValid}
use tp_2014_1c_tp_so.Umv.Espacio.Busqueda.{Respuesta, buscar_espacio_mem_prin-Respuesta}
use tp_2014_1c_tp_so.Umv.Segmentos.{buscar_segmento_dir_logica, compactar, crear_segmento}
use tp_2014_1c_tp_so.Umv.Segmentos.Compactacion.{ubicar, Contenidos}
use tp_2014_1c_tp_so.Umv.Segmentos.Agregado.{Creado}
use tp_2014_1c_tp_so.Umv.Segmentos.Creacion.{crear_segmento-Creado, compactar_lem}
use tp_2014_1c_tp_so.Umv.Bytes.{solicitar_bytes, almacenar_bytes}
use tp_2014_1c_tp_so.Umv.Bytes.Acceso.{
  almacenar_bytes_lem, escrito, solicitar_bytes-almacenar_bytes,
}
use tp_2014_1c_tp_so.Umv.Bytes.Aislamiento.{almacenar_bytes_aislado}
use tp_2014_1c_tp_so.Umv.Consola.{Informe, con_algoritmo, cambiar_algoritmo, atender_consola}
use tp_2014_1c_tp_so.Umv.Sesion.{Entorno, SesionCpu, gestionar_ped_seg, atender_cpu}
use tp_2014_1c_tp_so.Umv.Sesion.Kernel.{Pedido, gestionar_ped_seg-Pedido, atender_kernel-IsValid}
use tp_2014_1c_tp_so.Umv.Sesion.Cpu.{RondaCpu, atender_cpu-RondaCpu}
use tp_2014_1c_tp_so.Umv.Sesion.Pasos.{
  PedidoKernel, PedidoCpu, Paso, de_kernel, de_cpu, de_consola, aca, luego, nada, otro,
  Alcanza-IsValid, Ajenos-solicitar_bytes,
}
use tp_2014_1c_tp_so.Pruebas.{
  seg_uno, seg_dos, servidor, servidor-IsValid, ceros, ceros-PilaLarga, bloque,
}
use tp_2014_1c_tp_so.Pruebas.Orden.{orden}

abbrev pub entorno : Entorno
entorno = record { lib = orden; string_itoa = λ z. 55 ∷ []; pila = ceros; malloc = bloque }

abbrev pedido : MenSeg
pedido = record { tipo = ped_mem_seg_stack; id_prog = pos 3; tam_seg = pos 5 }

abbrev escritura : MenComun
escritura = record { tam_dato = pos 4; tipo = pos 1; dato = 9 ∷ 9 ∷ 9 ∷ 9 ∷ [] }

-- None of the three gaps has five bytes: the memory is compacted.
crear_segmento-Creado_example :
    (r : Umv × ℤ) × (crear_segmento orden ceros servidor pedido (pos 77) ≡ ok r)
    × Creado servidor pedido 5 (pos 77) r
crear_segmento-Creado_example =
    crear_segmento-Creado orden ceros servidor pedido (pos 77) 5 refl servidor-IsValid
      ceros-PilaLarga

buscar_espacio_mem_prin-Respuesta_example :
    let (v, z) = buscar_espacio_mem_prin orden servidor (pos 1) in
    (v ≡ ordenar_lista_seg_por_dir_fisica orden servidor) × Respuesta 16 1 v.list_seg z
buscar_espacio_mem_prin-Respuesta_example =
    buscar_espacio_mem_prin-Respuesta orden servidor 1 servidor-IsValid

compactar_lem_example :
    let segs = orden.list_sort menor_dir_fisica servidor.list_seg in
    (m' : List ℕ) × (compactar orden ceros servidor
      ≡ ok (record servidor { mem_prin = m'; list_seg = ubicar 0 segs }))
    × IsValid (record servidor { mem_prin = m'; list_seg = ubicar 0 segs })
    × Contenidos ceros servidor.mem_prin m' 0 segs
compactar_lem_example = compactar_lem orden ceros servidor servidor-IsValid ceros-PilaLarga

hallado_uno : buscar_segmento_dir_logica servidor (pos 1) (pos 101) ≡ some seg_uno
unfolding buscar_segmento_dir_logica
hallado_uno = refl

hallado_dos : buscar_segmento_dir_logica servidor (pos 2) (pos 202) ≡ some seg_dos
unfolding buscar_segmento_dir_logica
hallado_dos = refl

solicitar_bytes-almacenar_bytes_example :
    (w : Umv) × (almacenar_bytes servidor (pos 1) (pos 101) (pos 1) (pos 2) (7 ∷ 8 ∷ [])
      ≡ ok (w, r_alm_bytes))
    × IsValid w
    × (solicitar_bytes bloque w (pos 1) (pos 101) (pos 1) (pos 2) ≡ ok (some (7 ∷ 8 ∷ [])))
solicitar_bytes-almacenar_bytes_example =
    solicitar_bytes-almacenar_bytes bloque servidor (pos 1) (pos 101) seg_uno 1 2 (7 ∷ 8 ∷ [])
      servidor-IsValid (omega arith) refl (λ e. absurd (ground arith)) (omega arith) (omega arith)
      hallado_uno

gestionar_ped_seg-Pedido_example :
    (r : Umv × List MenComun) × (gestionar_ped_seg entorno servidor pedido resp_mem_seg_stack
        (pos 77)
      ≡ ok r)
    × Pedido entorno servidor pedido resp_mem_seg_stack (pos 77) 5 r
gestionar_ped_seg-Pedido_example =
    gestionar_ped_seg-Pedido entorno servidor pedido resp_mem_seg_stack (pos 77) 5 servidor-IsValid
      ceros-PilaLarga refl refl

abbrev sesion : SesionCpu
sesion = record { proc_activo = pos 1; este_conectada = true }

abbrev guardar : MenCpuUmv
guardar = record {
  tipo = alm_bytes;
  base = pos 101;
  offset = pos 1;
  tam = pos 2;
  buffer = 7 ∷ 8 ∷ [];
}

atender_cpu-RondaCpu_example :
    (r : Umv × SesionCpu × List MenComun) × (atender_cpu entorno servidor sesion guardar ≡ ok r)
    × RondaCpu servidor sesion guardar r
atender_cpu-RondaCpu_example =
    atender_cpu-RondaCpu entorno servidor sesion guardar 2 servidor-IsValid (omega arith) refl
      (omega arith) (λ e. absurd (ground arith)) (λ t e. absurd (ground (arith, hallado_uno)))

guardado :
    almacenar_bytes servidor (pos 1) (pos 101) (pos 1) (pos 2) (7 ∷ 8 ∷ [])
    ≡ ok (escrito servidor seg_uno 1 2 (7 ∷ 8 ∷ []), r_alm_bytes)
guardado =
    almacenar_bytes_lem servidor (pos 1) (pos 101) seg_uno 1 2 (7 ∷ 8 ∷ []) servidor-IsValid
      (omega arith) refl (omega arith) hallado_uno

almacenar_bytes_aislado_example :
    IsValid (escrito servidor seg_uno 1 2 (7 ∷ 8 ∷ []))
    × ((malloc : ℤ → Option (List ℕ)) (id_otro base' offset' tam' : ℤ)
        → id_otro ≢ pos 1
        → solicitar_bytes malloc
            (escrito servidor seg_uno 1 2 (7 ∷ 8 ∷ []))
            id_otro
            base'
            offset'
            tam'
          ≡ solicitar_bytes malloc servidor id_otro base' offset' tam')
almacenar_bytes_aislado_example =
    almacenar_bytes_aislado servidor (pos 1) (pos 101) (pos 1) (pos 2) (7 ∷ 8 ∷ [])
      (escrito servidor seg_uno 1 2 (7 ∷ 8 ∷ [])) r_alm_bytes servidor-IsValid (omega arith)
      guardado

pedido_kernel : PedidoKernel entorno servidor pedido escritura (pos 77)
pedido_kernel = record {
  larga = ceros-PilaLarga;
  tam_seg = (5, refl);
  tam_dato = (4, refl, omega arith);
  azar_nonneg = refl;
}

pedido_cpu : PedidoCpu entorno servidor sesion guardar
pedido_cpu = record {
  tam = (2, refl, omega arith, λ e. absurd (ground arith));
  segmento = λ t e. absurd (ground (arith, hallado_uno));
}

ronda_cpu : (w : Umv) × Paso entorno servidor (some (pos 1)) w
ronda_cpu =
    let r =
      atender_cpu-RondaCpu entorno servidor sesion guardar 2 servidor-IsValid (omega arith) refl
        (omega arith) (λ e. absurd (ground arith)) (λ t e. absurd (ground (arith, hallado_uno))) in
    (r.0.0, de_cpu {d = r.0.1} {rs = r.0.2} sesion guardar pedido_cpu r.1)

ronda_kernel : (w : Umv) × Paso entorno servidor none w
ronda_kernel =
    let r =
      atender_kernel-IsValid entorno servidor pedido escritura (pos 77) 5 4 servidor-IsValid
        ceros-PilaLarga refl refl (omega arith) refl in
    (r.0.0, de_kernel {rs = r.0.1} pedido escritura (pos 77) pedido_kernel r.1)

otro_algoritmo : (u : Umv) → Paso entorno u none (cambiar_algoritmo u)
otro_algoritmo u =
    let q : atender_consola orden ceros bloque (λ m n. m) u con_algoritmo
        ≡ ok (cambiar_algoritmo u, Informe.nada) =
      unfold atender_consola in refl in
    de_consola (λ m n. m) con_algoritmo tt q

-- A round of the kernel's thread, and an order of the console.
Alcanza-IsValid_example :
    IsValid (cambiar_algoritmo ronda_kernel.0)
    × ((cambiar_algoritmo ronda_kernel.0).tam_mem_total ≡ servidor.tam_mem_total)
Alcanza-IsValid_example =
    Alcanza-IsValid entorno (luego (luego aca ronda_kernel.1) (otro_algoritmo ronda_kernel.0))
      servidor-IsValid (omega arith)

Ajenos-solicitar_bytes_example :
    solicitar_bytes bloque ronda_cpu.0 (pos 2) (pos 202) (pos 0) (pos 5)
    ≡ solicitar_bytes bloque servidor (pos 2) (pos 202) (pos 0) (pos 5)
Ajenos-solicitar_bytes_example =
    Ajenos-solicitar_bytes entorno (otro (pos 1) nada ronda_cpu.1 (λ e. absurd (ground arith)))
      servidor-IsValid (omega arith) bloque (pos 202) (pos 0) (pos 5)
