-- ===== src/Kernel/Programas/Carga.antt =====
-- A program that is loaded.
use tp_2014_1c_tp_so.Base.{
  ℕ, ◌+◌, ◌^◌, ◌<◌, ◌≡◌, refl, ap, ◌⊎◌, inl, inr, [], ◌∷◌, ◌++◌, none, some, length, arith,
  Option-cases,
}
use tp_2014_1c_tp_so.Base.Int.{ℤ, pos, negsuc}
use tp_2014_1c_tp_so.Base.Words.{add32, add32-pos}
use tp_2014_1c_tp_so.Mensajes.{MenComun, crear_men_comun}
use tp_2014_1c_tp_so.Mensajes.Tipos.{mem_overload}
use tp_2014_1c_tp_so.Kernel.Estado.{PcbOtros, Kernel, Envio, a_comun, fd_clr}
use tp_2014_1c_tp_so.Kernel.Colas.Cuentas.{uno, veces-push, length-push}
use tp_2014_1c_tp_so.Kernel.Invariante.{total, Valido}
use tp_2014_1c_tp_so.Kernel.Programas.{
  Entorno, Respuestas, RespSolMem, calcular_peso, solicitar_mem, crear_pcb_escribir_seg_umv,
  administrar_new_script,
}

-- The process of a script for which there is memory.
unfoldable pub nuevo_pcb : Entorno → Kernel → ℤ → MenComun → RespSolMem → PcbOtros
nuevo_pcb e k soc_prog men resp = record {
  pcb = (crear_pcb_escribir_seg_umv e k men resp).1;
  n_socket = soc_prog;
  peso = calcular_peso e men;
  tipo_fin_ejecucion = negsuc 0;
}

nuevo_pcb-id :
    (e : Entorno) (k : Kernel) (soc_prog : ℤ) (men : MenComun) (resp : RespSolMem)
    → (nuevo_pcb e k soc_prog men resp).pcb.id ≡ k.contador_programa
unfolding nuevo_pcb crear_pcb_escribir_seg_umv
nuevo_pcb-id e k soc_prog men resp = refl

pub administrar_new_script-none :
    (e : Entorno) (k : Kernel) (soc_prog : ℤ) (men : MenComun) (rs : Respuestas) (c : ℤ)
    → add32 k.contador_programa (pos 1) ≡ c
    → (solicitar_mem e (record k { contador_programa = c }) men rs).1 ≡ none
    → (administrar_new_script e k soc_prog men rs).0
      ≡ record k { contador_programa = c; conj_soc_progs = fd_clr soc_prog k.conj_soc_progs }
unfolding administrar_new_script
administrar_new_script-none e k soc_prog men rs c ec r = ground (arith, ec, r)

pub administrar_new_script-some :
    (e : Entorno) (k : Kernel) (soc_prog : ℤ) (men : MenComun) (rs : Respuestas) (c : ℤ)
    (resp : RespSolMem)
    → add32 k.contador_programa (pos 1) ≡ c
    → (solicitar_mem e (record k { contador_programa = c }) men rs).1 ≡ some resp
    → (administrar_new_script e k soc_prog men rs).0 ≡ record k {
      contador_programa = c;
      cola_new =
          k.cola_new ++ (nuevo_pcb e (record k { contador_programa = c }) soc_prog men resp ∷ []);
      cant_new = k.cant_new + 1;
    }
unfolding administrar_new_script nuevo_pcb
administrar_new_script-some e k soc_prog men rs c resp ec r = ground (arith, ec, r)

-- What is sent for a program that has no room.
abbrev pub sin_lugar : Entorno → ℤ → ℤ → Envio
sin_lugar e soc_prog id =
    let s = e.texto.string_itoa id in
    a_comun soc_prog (crear_men_comun mem_overload (s ++ (0 ∷ [])) (pos (length s + 1)))

pub administrar_new_script-sin_lugar :
    (e : Entorno) (k : Kernel) (soc_prog : ℤ) (men : MenComun) (rs : Respuestas) (c : ℤ)
    → add32 k.contador_programa (pos 1) ≡ c
    → (solicitar_mem e (record k { contador_programa = c }) men rs).1 ≡ none
    → (administrar_new_script e k soc_prog men rs).1
      ≡ (solicitar_mem e (record k { contador_programa = c }) men rs).0
        ++ (sin_lugar e soc_prog c ∷ [])
unfolding administrar_new_script
administrar_new_script-sin_lugar e k soc_prog men rs c ec r = ground (arith, ec, r)

pub administrar_new_script-envios :
    (e : Entorno) (k : Kernel) (soc_prog : ℤ) (men : MenComun) (rs : Respuestas) (c : ℤ)
    (resp : RespSolMem)
    → add32 k.contador_programa (pos 1) ≡ c
    → (solicitar_mem e (record k { contador_programa = c }) men rs).1 ≡ some resp
    → (administrar_new_script e k soc_prog men rs).1
      ≡ (solicitar_mem e (record k { contador_programa = c }) men rs).0
        ++ (crear_pcb_escribir_seg_umv e (record k { contador_programa = c }) men resp).0
unfolding administrar_new_script
administrar_new_script-envios e k soc_prog men rs c resp ec r = ground (arith, ec, r)

-- A new script keeps the state valid, whether or not there is memory; if there is, a process with a new
-- number is in NEW, and else the processes are the same.
pub administrar_new_script-Valido :
    (e : Entorno) (grado : ℕ) (k : Kernel) (soc_prog : ℤ) (men : MenComun) (rs : Respuestas) (n : ℕ)
    → Valido grado k
    → k.contador_programa ≡ pos n
    → n + 1 < 2 ^ 31
    → let k' = (administrar_new_script e k soc_prog men rs).0 in
      Valido grado k'
      × (k'.contador_programa ≡ pos (n + 1))
      × (((id : ℤ) → total id k' ≡ total id k)
          ⊎ ((id : ℤ) → total id k' ≡ total id k + uno (pos (n + 1)) id))
administrar_new_script-Valido e grado k soc_prog men rs n v en hn =
    let suma = add32-pos n 1 hn in
    let k1 : Kernel = record k { contador_programa = pos (n + 1) } in
    elim (Option-cases (solicitar_mem e k1 men rs).1) [
      | inl r ↦ rw (administrar_new_script-none e k soc_prog men rs (pos (n + 1)) (rw en suma) r) (
        record {
          nuevos = v.nuevos;
          listos = v.listos;
          salidos = v.salidos;
          libres = v.libres;
          ocupadas = v.ocupadas;
          numerados = v.numerados;
          multiprog = v.multiprog;
        },
        refl,
        inl (λ id. refl),
      )
      | inr (resp, r) ↦
          let x = nuevo_pcb e k1 soc_prog men resp in
          rw (administrar_new_script-some e k soc_prog men rs (pos (n + 1)) resp (rw en suma) r) (
            record {
              nuevos = omega (arith, v.nuevos, length-push k.cola_new x);
              listos = v.listos;
              salidos = v.salidos;
              libres = v.libres;
              ocupadas = v.ocupadas;
              numerados = ground (
                arith,
                v.numerados,
                veces-push (pos 0) k.cola_new x,
                nuevo_pcb-id e k1 soc_prog men resp,
              );
              multiprog = v.multiprog;
            },
            refl,
            inr (λ id. omega (
              arith,
              veces-push id k.cola_new x,
              ap (λ z. uno z id) (nuevo_pcb-id e k1 soc_prog men resp),
            )),
          )
    ]
