-- ===== src/Umv/Sesion.antt =====
-- The rounds of `admin_conec_kernel` and `admin_conec_cpu` of UMV/UMV.c, with the functions that they
-- call: a message comes in, the state changes, and the answers go out.
pub mod Kernel
pub mod Cpu
pub mod Pasos
pub mod Parcial
pub mod Concesion
use tp_2014_1c_tp_so.Base.{
  ℕ, ◌+◌, Bool, true, false, List, [], ◌∷◌, ◌++◌, Option, none, some, length, if◌then◌else◌,
}
use tp_2014_1c_tp_so.Base.Int.{ℤ, pos, negsuc, ◌==ℤ◌}
use tp_2014_1c_tp_so.Mensajes.{MenComun, MenSeg, MenCpuUmv, crear_men_comun, aviso}
use tp_2014_1c_tp_so.Mensajes.Tipos.{
  conec_cerrada, destr_segs, ped_mem_seg_cod, ped_mem_ind_eti, ped_mem_ind_cod, ped_mem_seg_stack,
  escribir_seg, resp_mem_seg_cod, resp_mem_ind_eti, resp_mem_ind_cod, resp_mem_seg_stack, sincro_ok,
  men_alm_ok, mem_overload, segmen_fault, r_sol_bytes, cambio_pa, sol_bytes, alm_bytes,
}
use tp_2014_1c_tp_so.Base.Outcome.{Outcome, ok, fault, ◌>>=◌}
use tp_2014_1c_tp_so.Umv.Estado.{Seg, Umv, ListSort}
use tp_2014_1c_tp_so.Base.Memoria.{memcpy_hacia}
use tp_2014_1c_tp_so.Umv.Segmentos.{buscar_segmento_tipo_seg, destruir_segmentos, crear_segmento}
use tp_2014_1c_tp_so.Umv.Bytes.{solicitar_bytes, almacenar_bytes}

unfoldable pub almacenar_segmento : Umv → MenComun → ℤ → Outcome Umv
almacenar_segmento u aux_men id_proc = elim (buscar_segmento_tipo_seg u id_proc aux_men.tipo) [
  | none ↦ ok u
  | some s ↦
      if aux_men.tam_dato ==ℤ s.tam_seg
      then (memcpy_hacia u.mem_prin s.dir_fisica aux_men.dato aux_men.tam_dato >>= λ m.
          ok (record u { mem_prin = m }))
      else ok u
]

-- What a round reads from outside: the library's sort, `string_itoa`, the bytes of the stack, and
-- what `malloc` gives.
pub record Entorno : Type 0 where
  pub lib : ListSort
  pub string_itoa : ℤ → List ℕ
  pub pila : Seg → List ℕ
  pub malloc : ℤ → Option (List ℕ)

-- `string_itoa(z)` and its end.
abbrev pub cadena : Entorno → ℤ → ℤ → MenComun
cadena e tipo z =
    let s = e.string_itoa z in crear_men_comun tipo (s ++ (0 ∷ [])) (pos (length s + 1))

module _ (e : Entorno) where
  unfoldable pub gestionar_ped_seg : Umv → MenSeg → ℤ → ℤ → Outcome (Umv × List MenComun)
  gestionar_ped_seg u men tipo_resp azar = crear_segmento e.lib e.pila u men azar >>= λ r. ok (
      if r.1 ==ℤ negsuc 0
      then (destruir_segmentos r.0 men.id_prog, aviso mem_overload ∷ [])
      else (r.0, cadena e tipo_resp r.1 ∷ []))

  -- `aux_men` is the message that follows on the socket.
  unfoldable pub gestionar_alm_seg : Umv → MenComun → ℤ → Outcome (Umv × List MenComun)
  unfolding almacenar_segmento
  gestionar_alm_seg u aux_men id_proc =
      almacenar_segmento u aux_men id_proc >>= λ w. ok (w, aviso men_alm_ok ∷ [])

  unfoldable pub atender_kernel : Umv → MenSeg → MenComun → ℤ → Outcome (Umv × List MenComun)
  unfolding gestionar_alm_seg
  atender_kernel u men aux_men azar =
      if men.tipo ==ℤ conec_cerrada
      then ok (record u { quit_sistema = false }, [])
      else if men.tipo ==ℤ destr_segs
      then ok (destruir_segmentos u men.id_prog, aviso sincro_ok ∷ [])
      else if men.tipo ==ℤ ped_mem_seg_cod
      then gestionar_ped_seg u men resp_mem_seg_cod azar
      else if men.tipo ==ℤ ped_mem_ind_eti
      then gestionar_ped_seg u men resp_mem_ind_eti azar
      else if men.tipo ==ℤ ped_mem_ind_cod
      then gestionar_ped_seg u men resp_mem_ind_cod azar
      else if men.tipo ==ℤ ped_mem_seg_stack
      then gestionar_ped_seg u men resp_mem_seg_stack azar
      else if men.tipo ==ℤ escribir_seg
      then gestionar_alm_seg u aux_men men.id_prog
      else ok (u, [])

  unfoldable pub gestionar_solicitud_bytes : Umv → MenCpuUmv → ℤ → Outcome (List MenComun)
  gestionar_solicitud_bytes u men proc_activo =
      solicitar_bytes e.malloc u proc_activo men.base men.offset men.tam >>= elim [
        | none ↦ ok (aviso segmen_fault ∷ [])
        | some bytes ↦ ok (crear_men_comun r_sol_bytes bytes men.tam ∷ [])
      ]

  unfoldable pub gestionar_almacenamiento_bytes :
      Umv → MenCpuUmv → ℤ → Outcome (Umv × List MenComun)
  gestionar_almacenamiento_bytes u men proc_activo =
      almacenar_bytes u proc_activo men.base men.offset men.tam men.buffer >>= λ r.
      ok (r.0, aviso r.1 ∷ [])

-- The variables of a thread of `admin_conec_cpu`.
pub record SesionCpu : Type 0 where
  pub proc_activo : ℤ
  pub este_conectada : Bool

module _ (e : Entorno) where
  unfoldable pub atender_cpu :
      Umv → SesionCpu → MenCpuUmv → Outcome (Umv × SesionCpu × List MenComun)
  unfolding gestionar_solicitud_bytes gestionar_almacenamiento_bytes
  atender_cpu u c men =
      if men.tipo ==ℤ conec_cerrada
      then ok (u, record c { este_conectada = false }, [])
      else if men.tipo ==ℤ cambio_pa
      then ok (u, record c { proc_activo = men.base }, [])
      else if men.tipo ==ℤ sol_bytes
      then (gestionar_solicitud_bytes e u men c.proc_activo >>= λ rs. ok (u, c, rs))
      else if men.tipo ==ℤ alm_bytes
      then (gestionar_almacenamiento_bytes e u men c.proc_activo >>= λ r. ok (r.0, c, r.1))
      else ok (u, c, [])
