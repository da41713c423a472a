-- ===== src/Sistema/Rechazo.antt =====
-- A script for which UMV/UMV.c has no room leaves nothing behind in kernel/kernel.c and there.
pub mod Pedidos
use mathlib.Core.List.{append-nil}
use mathlib.Core.List.Perm
use tp_2014_1c_tp_so.Base.{
  ℕ, ◌+◌, ◌^◌, ◌≤◌, ◌<◌, ◌≡◌, refl, ◌∙◌, sym, ap, ◌≢◌, true, false, leb, Bool-cases, inl, inr, List,
  [], ◌∷◌, ◌++◌, Option, none, some, Mem, Perm, arith, length,
}
use tp_2014_1c_tp_so.Base.Int.{ℤ, pos, negsuc, pos_part, ◌==ℤ◌}
use tp_2014_1c_tp_so.Base.Words.{add32, mul32, add32-pos}
use tp_2014_1c_tp_so.Base.Outcome.{ok}
use tp_2014_1c_tp_so.Mensajes.{MenComun, MenSeg, aviso}
use tp_2014_1c_tp_so.Mensajes.Tipos.{
  ped_mem_seg_cod, ped_mem_ind_eti, ped_mem_ind_cod, ped_mem_seg_stack, mem_overload,
  resp_mem_seg_cod, resp_mem_ind_eti, resp_mem_ind_cod, resp_mem_seg_stack,
}
use tp_2014_1c_tp_so.Umv.Estado.{Seg, Umv, largo}
use tp_2014_1c_tp_so.Umv.Espacio.Validez.{IsValid}
use tp_2014_1c_tp_so.Umv.Segmentos.Compactacion.{suma}
use tp_2014_1c_tp_so.Umv.Segmentos.Fichas.{fichas}
use tp_2014_1c_tp_so.Umv.Sesion as Sesion
use tp_2014_1c_tp_so.Umv.Sesion.{cadena, atender_kernel}
use tp_2014_1c_tp_so.Umv.Sesion.Concesion.{
  Crecida, Crecida-nil, gestionar_ped_seg-Crecida, gestionar_ped_seg-lleno,
}
use tp_2014_1c_tp_so.Kernel.Estado.{Kernel, Envio, fd_clr}
use tp_2014_1c_tp_so.Kernel.Programas.{
  Entorno, Respuestas, RespSolMem, pedir_seg, gestionar_resp_sol_mem, solicitar_mem,
  administrar_new_script,
}
use tp_2014_1c_tp_so.Kernel.Programas.Carga.{
  sin_lugar, administrar_new_script-none, administrar_new_script-sin_lugar,
}
use tp_2014_1c_tp_so.Sistema.Concedidas.{gestionar_resp-cadena, no_es_error}
use tp_2014_1c_tp_so.Sistema.Servicio.{servir, servir-paso, servir-fin}

-- How the exchange ends: the UMV refuses one of the requests, after having granted those before it, and
-- has the segments that it had; the kernel has the processes that it had, and tells the client.
pub record Rechazado (eu : Sesion.Entorno) (ek : Entorno) (u : Umv) (k : Kernel) (soc_prog : ℤ)
    (men : MenComun) (id : ℤ) (azares : List ℤ) (rs : Respuestas) (w : Umv)
    (antes despues : List MenComun) : Type 0 where
  pub leidas :
      rs.seg_cod ∷ rs.ind_eti ∷ rs.indice_cod ∷ rs.seg_stack ∷ []
      ≡ antes ++ (aviso mem_overload ∷ despues)
  pub servidas :
      servir eu u (administrar_new_script ek k soc_prog men rs).1 azares
      ≡ ok (w, antes ++ (aviso mem_overload ∷ []))
  pub umv_valida : IsValid w
  pub segmentos : Perm (fichas w) (fichas u)
  pub nucleo :
      (administrar_new_script ek k soc_prog men rs).0
      ≡ record k { contador_programa = id; conj_soc_progs = fd_clr soc_prog k.conj_soc_progs }
  pub avisado :
      (ps : List Envio) × ((administrar_new_script ek k soc_prog men rs).1
        ≡ ps ++ (sin_lugar ek soc_prog id ∷ []))

abbrev pub rechazo : MenComun
rechazo = aviso mem_overload

-- The exchange ends so.
abbrev pub Termina : Sesion.Entorno → Entorno → Umv → Kernel → ℤ → MenComun → ℤ → List ℤ → Type 0
Termina eu ek u k soc_prog men id azares =
    (rs : Respuestas) × (w : Umv) × (antes : List MenComun) × (despues : List MenComun) × Rechazado
      eu ek u k soc_prog men id azares rs w antes despues

-- The answer to a refused request, as the kernel reads it.
pub gestionar_resp-rechazo : (ek : Entorno) → gestionar_resp_sol_mem ek rechazo ≡ negsuc 0
unfolding gestionar_resp_sol_mem
gestionar_resp-rechazo ek = refl

module _ (eu : Sesion.Entorno) (ek : Entorno) (u : Umv) (k : Kernel) (soc_prog : ℤ) (men : MenComun)
    (n : ℕ) (azares : List ℤ) (en : k.contador_programa ≡ pos n) (hn : n + 1 < 2 ^ 31) where
  -- What is left to show of a refusal.
  pub termina :
      (rs : Respuestas) (w : Umv) (antes despues : List MenComun) (ps : List Envio)
      → solicitar_mem ek (record k { contador_programa = pos (n + 1) }) men rs ≡ (ps, none)
      → rs.seg_cod ∷ rs.ind_eti ∷ rs.indice_cod ∷ rs.seg_stack ∷ [] ≡ antes ++ (rechazo ∷ despues)
      → servir eu u (ps ++ (sin_lugar ek soc_prog (pos (n + 1)) ∷ [])) azares
        ≡ ok (w, antes ++ (rechazo ∷ []))
      → Crecida u [] w
      → Termina eu ek u k soc_prog men (pos (n + 1)) azares
  termina rs w antes despues ps es el ev c =
      let cuenta : add32 k.contador_programa (pos 1) ≡ pos (n + 1) = rw en (add32-pos n 1 hn) in
      let no : (solicitar_mem ek (record k { contador_programa = pos (n + 1) }) men rs).1 ≡ none =
        ap (λ (p : List Envio × Option RespSolMem). p.1) es in
      let sale =
        administrar_new_script-sin_lugar ek k soc_prog men rs (pos (n + 1)) cuenta no
        ∙ ap
            (λ (p : List Envio × Option RespSolMem).
              p.0 ++ (sin_lugar ek soc_prog (pos (n + 1)) ∷ []))
            es in
      (
        rs,
        w,
        antes,
        despues,
        record {
          leidas = el;
          servidas = rw sale ev;
          umv_valida = c.valido;
          segmentos = rw (append-nil (fichas u)) at c.segmentos;
          nucleo = administrar_new_script-none ek k soc_prog men rs (pos (n + 1)) cuenta no;
          avisado = (ps, sale);
        },
      )
