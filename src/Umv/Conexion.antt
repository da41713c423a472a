-- ===== src/Umv/Conexion.antt =====
-- The beginning of UMV/UMV.c: the memory that `main` reserves, and the threads that `admin_conecciones` makes.
use tp_2014_1c_tp_so.Base.{ℕ, true, List, [], ◌∷◌, ◌++◌, if◌then◌else◌}
use tp_2014_1c_tp_so.Base.Int.{ℤ, pos, ◌==ℤ◌}
use tp_2014_1c_tp_so.Base.Outcome.{Outcome, ok, ◌>>=◌}
use tp_2014_1c_tp_so.Mensajes.{aviso}
use tp_2014_1c_tp_so.Mensajes.Tipos.{hs_kernel, hs_cpu, hs_umv, conec_cerrada}
use tp_2014_1c_tp_so.Sockets.Comun.{socket_send_comun, socket_recv_comun}
use tp_2014_1c_tp_so.Umv.Estado.{Umv}

-- `tamanio` and `modo` of the configuration, and the block that `malloc` gives.
unfoldable pub iniciar : ℤ → ℤ → List ℕ → Umv
iniciar tamanio modo bloque = record {
  mem_prin = bloque;
  list_seg = [];
  alg_actual = modo;
  tam_mem_total = tamanio;
  retardo = pos 0;
  quit_sistema = true;
}

-- A thread that serves connections: `admin_conec_kernel` reads its socket from the global
-- `soc_kernel`, `admin_conec_cpu` from its parameter.
pub data Hilo : Type 0 where
  admin_conec_kernel : Hilo
  admin_conec_cpu : ℤ → Hilo

pub record Conecciones : Type 0 where
  pub soc_kernel : ℤ
  pub hilos : List Hilo

-- A round of `admin_conecciones`, on the socket that `socket_accept` gave and what comes on it, with
-- the first call of the thread that it makes: what is sent, and what is left.
unfoldable pub admin_conecciones :
    Conecciones → ℤ → List ℕ → Outcome (Conecciones × List ℕ × List ℕ)
admin_conecciones c new_soc soc = socket_recv_comun soc >>= λ r.
    if r.0.tipo ==ℤ conec_cerrada
    then ok (c, [], r.1)
    else if r.0.tipo ==ℤ hs_kernel
    then (socket_send_comun (aviso hs_umv) >>= λ bytes.
        ok (
          record { soc_kernel = new_soc; hilos = c.hilos ++ (admin_conec_kernel ∷ []) },
          bytes,
          r.1,
        ))
    else if r.0.tipo ==ℤ hs_cpu
    then (socket_send_comun (aviso hs_umv) >>= λ bytes.
        ok (record c { hilos = c.hilos ++ (admin_conec_cpu new_soc ∷ []) }, bytes, r.1))
    else ok (c, [], r.1)
