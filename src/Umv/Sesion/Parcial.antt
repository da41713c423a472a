-- ===== src/Umv/Sesion/Parcial.antt =====
-- A round of `admin_conec_cpu` for any message, where it does not fault.
use tp_2014_1c_tp_so.Base.{◌^◌, ◌<◌, ◌≡◌, refl, false, List, [], arith}
use tp_2014_1c_tp_so.Base.Int.{pos_part, ◌==ℤ◌}
use tp_2014_1c_tp_so.Mensajes.{MenComun, MenCpuUmv}
use tp_2014_1c_tp_so.Mensajes.Tipos.{conec_cerrada, cambio_pa, sol_bytes, alm_bytes}
use tp_2014_1c_tp_so.Base.Outcome.{Logra, bien, Logra-bind, Logra-of_eq, Logra-if}
use tp_2014_1c_tp_so.Umv.Estado.{Umv}
use tp_2014_1c_tp_so.Umv.Espacio.Validez.{IsValid}
use tp_2014_1c_tp_so.Umv.Bytes.{almacenar_bytes}
use tp_2014_1c_tp_so.Umv.Bytes.Aislamiento.{almacenar_bytes_aislado, almacenar_bytes-lista}
use tp_2014_1c_tp_so.Umv.Sesion.{
  Entorno, SesionCpu, gestionar_solicitud_bytes, gestionar_almacenamiento_bytes, atender_cpu,
}
use tp_2014_1c_tp_so.Umv.Sesion.Cpu.{RondaCpu, RondaCpu-refl}

-- A write, whatever is answered then.
almacenado :
    (u : Umv) (c : SesionCpu) (men : MenCpuUmv)
    → IsValid u
    → pos_part u.tam_mem_total < 2 ^ 30
    → (men.tipo ==ℤ cambio_pa) ≡ false
    → Logra
        (λ r. (rs : List MenComun) → RondaCpu u c men (r.0, c, rs))
        (almacenar_bytes u c.proc_activo men.base men.offset men.tam men.buffer)
almacenado u c men v small t = Logra-of_eq _ (λ r h rs.
    let a =
      almacenar_bytes_aislado u c.proc_activo men.base men.offset men.tam men.buffer r.0 r.1 v small
        h in
    let l =
      almacenar_bytes-lista u v small c.proc_activo men.base men.offset men.tam men.buffer r.0 r.1
        h in
    record { valido = a.0; total = l.1; lista = l.0; activo = rw t refl; ajenos = a.1 })

-- A round on a valid memory of less than 1 GiB does what `RondaCpu` says, whatever the message.
pub atender_cpu-Logra :
    (e : Entorno) (u : Umv) (c : SesionCpu) (men : MenCpuUmv)
    → IsValid u
    → pos_part u.tam_mem_total < 2 ^ 30
    → Logra (RondaCpu u c men) (atender_cpu e u c men)
unfolding atender_cpu gestionar_solicitud_bytes gestionar_almacenamiento_bytes
atender_cpu-Logra e u c men v small =
    Logra-if (men.tipo ==ℤ conec_cerrada)
      (λ t. bien _ (RondaCpu-refl u c _ men [] v (ground arith)))
      (λ t.
        Logra-if (men.tipo ==ℤ cambio_pa)
          (λ t'. bien _ (RondaCpu-refl u c _ men [] v (ground arith)))
          (λ t'.
            Logra-if (men.tipo ==ℤ sol_bytes)
              (λ s.
                Logra-bind (Logra-of_eq {P = λ _. Unit {0}} _ (λ a h. tt))
                  (λ rs _. bien _ (RondaCpu-refl u c c men rs v (rw t' refl))))
              (λ s.
                Logra-if (men.tipo ==ℤ alm_bytes)
                  (λ a.
                    Logra-bind {P = λ (k : Umv × List MenComun). RondaCpu u c men (k.0, c, k.1)}
                      (Logra-bind (almacenado u c men v small t') (λ r q. bien _ (q _)))
                      (λ r q. bien _ q))
                  (λ a. bien _ (RondaCpu-refl u c c men [] v (rw t' refl))))))
