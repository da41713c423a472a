-- ===== src/Sistema/Rechazo/Pedidos.antt =====
-- Each of the four requests of a script of kernel/kernel.c may be the one that UMV/UMV.c refuses.

use tp_2014_1c_tp_so.Base.{
  ℕ, ◌+◌, ◌^◌, ◌≤◌, ◌<◌, ◌≡◌, refl, ◌≢◌, false, leb, Bool-cases, inl, inr, List, [], ◌∷◌, ◌++◌,
  none, Mem, arith, length,
}
use tp_2014_1c_tp_so.Base.Int.{ℤ, pos, pos_part, ◌==ℤ◌}
use tp_2014_1c_tp_so.Base.Words.{mul32}
use tp_2014_1c_tp_so.Mensajes.{MenComun, MenSeg}
use tp_2014_1c_tp_so.Mensajes.Tipos.{
  ped_mem_seg_cod, ped_mem_ind_eti, ped_mem_ind_cod, ped_mem_seg_stack, resp_mem_seg_cod,
  resp_mem_ind_eti, resp_mem_ind_cod, resp_mem_seg_stack,
}
use tp_2014_1c_tp_so.Umv.Estado.{Seg, Umv, largo}
use tp_2014_1c_tp_so.Umv.Espacio.Validez.{IsValid}
use tp_2014_1c_tp_so.Umv.Segmentos.Compactacion.{suma}
use tp_2014_1c_tp_so.Umv.Sesion as Sesion
use tp_2014_1c_tp_so.Umv.Sesion.{cadena, atender_kernel}
use tp_2014_1c_tp_so.Umv.Sesion.Concesion.{
  Crecida-nil, gestionar_ped_seg-Crecida, gestionar_ped_seg-lleno,
}
use tp_2014_1c_tp_so.Kernel.Estado.{Kernel}
use tp_2014_1c_tp_so.Kernel.Programas.{Entorno, Respuestas, pedir_seg, solicitar_mem}
use tp_2014_1c_tp_so.Sistema.Concedidas.{gestionar_resp-cadena, no_es_error}
use tp_2014_1c_tp_so.Sistema.Rechazo.{Rechazado, rechazo, Termina, gestionar_resp-rechazo, termina}
use tp_2014_1c_tp_so.Sistema.Servicio.{servir-paso, servir-fin}

module _ (eu : Sesion.Entorno) (ek : Entorno) (larga : (s : Seg) → largo s ≤ length (eu.pila s))
    (leida : (a : ℕ) → a < 2 ^ 31 → ek.texto.atoi (eu.string_itoa (pos a) ++ (0 ∷ [])) ≡ pos a)
    (u : Umv) (v : IsValid u) (k : Kernel) (soc_prog : ℤ) (men : MenComun)
    (n k1 k2 k3 k4 a1 a2 a3 a4 : ℕ) (azares : List ℤ) (en : k.contador_programa ≡ pos n)
    (hn : n + 1 < 2 ^ 31) (l1 : a1 < 2 ^ 31) (l2 : a2 < 2 ^ 31) (l3 : a3 < 2 ^ 31)
    (t1 : men.tam_dato ≡ pos k1) (t2 : (ek.metadata_desde_literal men.dato).etiquetas_size ≡ pos k2)
    (t3 : mul32 (ek.metadata_desde_literal men.dato).instrucciones_size (pos 8) ≡ pos k3)
    (t4 : k.tamanio_stack ≡ pos k4)
    (sin : (s : Seg) → Mem s u.list_seg → s.id_proc ≢ pos (n + 1)) where
  abbrev Acaba : Type 0
  Acaba = Termina eu ek u k soc_prog men (pos (n + 1)) (pos a1 ∷ pos a2 ∷ pos a3 ∷ pos a4 ∷ azares)

  abbrev pedido : ℤ → ℕ → MenSeg
  pedido tipo tam = record { tipo = tipo; id_prog = pos (n + 1); tam_seg = pos tam }

  id_no_cero : (pos (n + 1) ==ℤ pos 0) ≡ false
  id_no_cero = ground arith

  -- The answers, of which the first `j` grant the request.
  abbrev respuestas : MenComun → MenComun → MenComun → Respuestas
  respuestas r1 r2 r3 = record { seg_cod = r1; ind_eti = r2; indice_cod = r3; seg_stack = rechazo }

  abbrev dada : ℤ → ℕ → MenComun
  dada tipo a = cadena eu tipo (pos a)

  -- The first request is refused.
  rechaza_uno : pos_part u.tam_mem_total < suma u.list_seg + k1 → Acaba
  unfolding atender_kernel solicitar_mem
  rechaza_uno lleno =
      let x =
        gestionar_ped_seg-lleno eu larga u [] u (pedido ped_mem_seg_cod k1) resp_mem_seg_cod
          (pos a1) k1 (Crecida-nil u v) refl refl (omega arith) id_no_cero sin (tt) in
      termina eu ek u k soc_prog men n (pos a1 ∷ pos a2 ∷ pos a3 ∷ pos a4 ∷ azares) en hn
        (respuestas rechazo rechazo rechazo) x.0 ([]) (rechazo ∷ rechazo ∷ rechazo ∷ [])
        (pedir_seg ped_mem_seg_cod (pos (n + 1)) (pos k1) ∷ [])
        (rw (gestionar_resp-rechazo ek)
          (λ i. (pedir_seg ped_mem_seg_cod (pos (n + 1)) (t1 i) ∷ [], none)))
        refl (servir-paso eu u x.0 _ _ _ _ _ x.0 _ x.1 (servir-fin eu x.0 soc_prog _ _)) x.2

  -- The second request is refused.
  rechaza_dos :
      suma u.list_seg + k1 ≤ pos_part u.tam_mem_total
      → pos_part u.tam_mem_total < suma u.list_seg + k1 + k2
      → Acaba
  unfolding atender_kernel solicitar_mem
  rechaza_dos cabe lleno =
      let c1 =
        gestionar_ped_seg-Crecida eu larga u [] u (pedido ped_mem_seg_cod k1) resp_mem_seg_cod
          (pos a1) k1 (Crecida-nil u v) refl refl (omega arith) in
      let x =
        gestionar_ped_seg-lleno eu larga u _ c1.0 (pedido ped_mem_ind_eti k2) resp_mem_ind_eti
          (pos a2) k2 c1.2 refl refl (omega arith) id_no_cero sin (refl, tt) in
      termina eu ek u k soc_prog men n (pos a1 ∷ pos a2 ∷ pos a3 ∷ pos a4 ∷ azares) en hn
        (respuestas (dada resp_mem_seg_cod a1) rechazo rechazo) x.0 (dada resp_mem_seg_cod a1 ∷ [])
        (rechazo ∷ rechazo ∷ [])
        (pedir_seg ped_mem_seg_cod (pos (n + 1)) (pos k1)
          ∷ pedir_seg ped_mem_ind_eti (pos (n + 1)) (pos k2)
          ∷ [])
        (rw
          (
            gestionar_resp-cadena eu ek resp_mem_seg_cod (pos a1) refl (leida a1 l1),
            no_es_error a1,
            gestionar_resp-rechazo ek,
          )
          (λ i. (
            pedir_seg ped_mem_seg_cod (pos (n + 1)) (t1 i)
                ∷ pedir_seg ped_mem_ind_eti (pos (n + 1)) (t2 i)
                ∷ [],
            none,
          )))
        refl
        (servir-paso eu u c1.0 _ _ _ _ _ x.0 _ c1.1
          (servir-paso eu c1.0 x.0 _ _ _ _ _ x.0 _ x.1 (servir-fin eu x.0 soc_prog _ _)))
        x.2

  -- The third request is refused.
  rechaza_tres :
      suma u.list_seg + k1 + k2 ≤ pos_part u.tam_mem_total
      → pos_part u.tam_mem_total < suma u.list_seg + k1 + k2 + k3
      → Acaba
  unfolding atender_kernel solicitar_mem
  rechaza_tres cabe lleno =
      let c1 =
        gestionar_ped_seg-Crecida eu larga u [] u (pedido ped_mem_seg_cod k1) resp_mem_seg_cod
          (pos a1) k1 (Crecida-nil u v) refl refl (omega arith) in
      let c2 =
        gestionar_ped_seg-Crecida eu larga u _ c1.0 (pedido ped_mem_ind_eti k2) resp_mem_ind_eti
          (pos a2) k2 c1.2 refl refl (omega arith) in
      let x =
        gestionar_ped_seg-lleno eu larga u _ c2.0 (pedido ped_mem_ind_cod k3) resp_mem_ind_cod
          (pos a3) k3 c2.2 refl refl (omega arith) id_no_cero sin (refl, (refl, tt)) in
      termina eu ek u k soc_prog men n (pos a1 ∷ pos a2 ∷ pos a3 ∷ pos a4 ∷ azares) en hn
        (respuestas (dada resp_mem_seg_cod a1) (dada resp_mem_ind_eti a2) rechazo) x.0
        (dada resp_mem_seg_cod a1 ∷ dada resp_mem_ind_eti a2 ∷ []) (rechazo ∷ [])
        (pedir_seg ped_mem_seg_cod (pos (n + 1)) (pos k1)
          ∷ pedir_seg ped_mem_ind_eti (pos (n + 1)) (pos k2)
          ∷ pedir_seg ped_mem_ind_cod (pos (n + 1)) (pos k3)
          ∷ [])
        (rw
          (
            gestionar_resp-cadena eu ek resp_mem_seg_cod (pos a1) refl (leida a1 l1),
            no_es_error a1,
            gestionar_resp-cadena eu ek resp_mem_ind_eti (pos a2) refl (leida a2 l2),
            no_es_error a2,
            gestionar_resp-rechazo ek,
          )
          (λ i. (
            pedir_seg ped_mem_seg_cod (pos (n + 1)) (t1 i)
                ∷ pedir_seg ped_mem_ind_eti (pos (n + 1)) (t2 i)
                ∷ pedir_seg ped_mem_ind_cod (pos (n + 1)) (t3 i)
                ∷ [],
            none,
          )))
        refl
        (servir-paso eu u c1.0 _ _ _ _ _ x.0 _ c1.1 (
          servir-paso eu c1.0 c2.0 _ _ _ _ _ x.0 _ c2.1
            (servir-paso eu c2.0 x.0 _ _ _ _ _ x.0 _ x.1 (servir-fin eu x.0 soc_prog _ _))))
        x.2

  -- The fourth request is refused.
  rechaza_cuatro :
      suma u.list_seg + k1 + k2 + k3 ≤ pos_part u.tam_mem_total
      → pos_part u.tam_mem_total < suma u.list_seg + k1 + k2 + k3 + k4
      → Acaba
  unfolding atender_kernel solicitar_mem
  rechaza_cuatro cabe lleno =
      let c1 =
        gestionar_ped_seg-Crecida eu larga u [] u (pedido ped_mem_seg_cod k1) resp_mem_seg_cod
          (pos a1) k1 (Crecida-nil u v) refl refl (omega arith) in
      let c2 =
        gestionar_ped_seg-Crecida eu larga u _ c1.0 (pedido ped_mem_ind_eti k2) resp_mem_ind_eti
          (pos a2) k2 c1.2 refl refl (omega arith) in
      let c3 =
        gestionar_ped_seg-Crecida eu larga u _ c2.0 (pedido ped_mem_ind_cod k3) resp_mem_ind_cod
          (pos a3) k3 c2.2 refl refl (omega arith) in
      let x =
        gestionar_ped_seg-lleno eu larga u _ c3.0 (pedido ped_mem_seg_stack k4) resp_mem_seg_stack
          (pos a4) k4 c3.2 refl refl (omega arith) id_no_cero sin (refl, (refl, (refl, tt))) in
      termina eu ek u k soc_prog men n (pos a1 ∷ pos a2 ∷ pos a3 ∷ pos a4 ∷ azares) en hn
        (respuestas (dada resp_mem_seg_cod a1) (dada resp_mem_ind_eti a2)
          (dada resp_mem_ind_cod a3))
        x.0 (dada resp_mem_seg_cod a1 ∷ dada resp_mem_ind_eti a2 ∷ dada resp_mem_ind_cod a3 ∷ [])
        ([])
        (pedir_seg ped_mem_seg_cod (pos (n + 1)) (pos k1)
          ∷ pedir_seg ped_mem_ind_eti (pos (n + 1)) (pos k2)
          ∷ pedir_seg ped_mem_ind_cod (pos (n + 1)) (pos k3)
          ∷ pedir_seg ped_mem_seg_stack (pos (n + 1)) (pos k4)
          ∷ [])
        (rw
          (
            gestionar_resp-cadena eu ek resp_mem_seg_cod (pos a1) refl (leida a1 l1),
            no_es_error a1,
            gestionar_resp-cadena eu ek resp_mem_ind_eti (pos a2) refl (leida a2 l2),
            no_es_error a2,
            gestionar_resp-cadena eu ek resp_mem_ind_cod (pos a3) refl (leida a3 l3),
            no_es_error a3,
            gestionar_resp-rechazo ek,
          )
          (λ i. (
            pedir_seg ped_mem_seg_cod (pos (n + 1)) (t1 i)
                ∷ pedir_seg ped_mem_ind_eti (pos (n + 1)) (t2 i)
                ∷ pedir_seg ped_mem_ind_cod (pos (n + 1)) (t3 i)
                ∷ pedir_seg ped_mem_seg_stack (pos (n + 1)) (t4 i)
                ∷ [],
            none,
          )))
        refl
        (servir-paso eu u c1.0 _ _ _ _ _ x.0 _ c1.1 (
          servir-paso eu c1.0 c2.0 _ _ _ _ _ x.0 _ c2.1 (
            servir-paso eu c2.0 c3.0 _ _ _ _ _ x.0 _ c3.1
              (servir-paso eu c3.0 x.0 _ _ _ _ _ x.0 _ x.1 (servir-fin eu x.0 soc_prog _ _)))))
        x.2

  -- A script whose four segments do not fit, all together, in what is left of the UMV's valid memory:
  -- the UMV grants some of the kernel's requests and refuses the next with `MEM_OVERLOAD`, and the
  -- kernel asks no more. The UMV's memory is valid and has the segments that it had before the
  -- script, but for their places; the kernel has the processes that it had, has counted the program,
  -- waits no more for its socket, and tells the client. This is for a UMV without segments of the
  -- new process whose stack holds, from the pointer of the loop of `compactar` on, at least as many bytes
  -- as any segment is long, for addresses of `rand` and sizes
  -- that are not negative, a next number that is an `int32_t`, and an `atoi` that reads what `string_itoa` writes.
  pub administrar_new_script-Rechazado :
      pos_part u.tam_mem_total < suma u.list_seg + k1 + k2 + k3 + k4
      → (rs : Respuestas) × (w : Umv) × (antes : List MenComun) × (despues : List MenComun)
        × Rechazado eu ek u k soc_prog men
            (pos (n + 1))
            (pos a1 ∷ pos a2 ∷ pos a3 ∷ pos a4 ∷ azares)
            rs
            w
            antes
            despues
  administrar_new_script-Rechazado lleno =
      let total = pos_part u.tam_mem_total in
      let usado = suma u.list_seg in
      elim (Bool-cases (leb (usado + k1) total)) [
        | inr e1 ↦ rechaza_uno (ground arith)
        | inl e1 ↦ elim (Bool-cases (leb (usado + k1 + k2) total)) [
          | inr e2 ↦ rechaza_dos (ground arith) (ground arith)
          | inl e2 ↦ elim (Bool-cases (leb (usado + k1 + k2 + k3) total)) [
            | inr e3 ↦ rechaza_tres (ground arith) (ground arith)
            | inl e3 ↦ rechaza_cuatro (ground arith) lleno
          ]
        ]
      ]
