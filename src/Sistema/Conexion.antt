-- ===== src/Sistema/Conexion.antt =====
-- The handshakes of two programs together.
use tp_2014_1c_tp_so.Base.{ℕ, ◌^◌, ◌<◌, ◌≡◌, refl, ◌∙◌, sym, Bool, true, List, [], ◌∷◌, ◌++◌, arith}
use tp_2014_1c_tp_so.Base.Int.{ℤ, pos}
use tp_2014_1c_tp_so.Base.Outcome.{Outcome, ok, ok_inj}
use tp_2014_1c_tp_so.Mensajes.{MenComun, aviso, crear_men_comun}
use tp_2014_1c_tp_so.Mensajes.Tipos
use tp_2014_1c_tp_so.Sockets.Comun.{
  EsComun, socket_send_comun, socket_recv_comun, socket_recv_comun-socket_send_comun,
}
use tp_2014_1c_tp_so.Umv.Conexion.{
  Conecciones, admin_conecciones, admin_conec_kernel, admin_conec_cpu,
}
use tp_2014_1c_tp_so.Kernel.Conexion as Nucleo
use tp_2014_1c_tp_so.Cpu.Conexion as Procesador
use tp_2014_1c_tp_so.Programa as Cliente

-- A message as it travels, whatever follows it.
viaja :
    (m : MenComun)
    → EsComun m
    → (bytes : List ℕ) × (socket_send_comun m ≡ ok bytes)
      × ((soc : List ℕ) → socket_recv_comun (bytes ++ soc) ≡ ok (m, soc))
viaja m h =
    let a = socket_recv_comun-socket_send_comun m [] h in
    (
      a.0,
      a.1,
      λ soc.
          let b = socket_recv_comun-socket_send_comun m soc h in
          let q : b.0 ≡ a.0 = ok_inj (sym b.1 ∙ a.1) in rw q at b.2,
    )

-- The one that calls sends `ida` and gets `vuelta`, the other the other way round: each takes the message
-- that it expects, and leaves on the connection what comes after it.
abbrev pub Saludan :
    (List ℕ → Outcome (List ℕ × Bool × List ℕ))
    → (List ℕ → Outcome (List ℕ × Bool × List ℕ))
    → Type 0
Saludan llama atiende =
    (ida : List ℕ) × (vuelta : List ℕ) × ((soc : List ℕ)
      → llama (vuelta ++ soc) ≡ ok (ida, true, soc))
    × ((soc : List ℕ) → atiende (ida ++ soc) ≡ ok (vuelta, true, soc))

-- The same, where the other is the UMV, which has the connections `c` and then `c'`.
abbrev pub Admite :
    (List ℕ → Outcome (List ℕ × Bool × List ℕ)) → Conecciones → ℤ → Conecciones → Type 0
Admite llama c new_soc c' =
    (ida : List ℕ) × (vuelta : List ℕ) × ((soc : List ℕ)
      → llama (vuelta ++ soc) ≡ ok (ida, true, soc))
    × ((soc : List ℕ) → admin_conecciones c new_soc (ida ++ soc) ≡ ok (c', vuelta, soc))

aviso-EsComun : (t : ℕ) → t < 2 ^ 31 → EsComun (aviso (pos t))
aviso-EsComun t h = record { tam = refl; tipo_int = ground (arith, h); corto = omega arith }

abbrev hola : MenComun
hola = record { tam_dato = pos 1; tipo = Tipos.hs_prog; dato = 0 ∷ [] }

hola-EsComun : EsComun hola
hola-EsComun = record { tam = refl; tipo_int = ground arith; corto = omega arith }

-- Every pair of programs that connect agree on the handshake: a CPU and a client with the kernel, and
-- a CPU and the kernel with the UMV. Each side takes exactly one message, of the type that it
-- expects, and leaves what follows it; the UMV makes a thread for the connection, which is the
-- kernel's only for the kernel.
pub handshake_umv-admin_conecciones :
    (c : Conecciones) (new_soc : ℤ)
    → Saludan Procesador.handshake_kernel Nucleo.handshake_cpu
      × Saludan Cliente.handshake_kernel Nucleo.handshake_prog
      × Admite Procesador.handshake_umv c new_soc
          (record c { hilos = c.hilos ++ (admin_conec_cpu new_soc ∷ []) })
      × Admite Nucleo.handshake_umv c new_soc
          (record { soc_kernel = new_soc; hilos = c.hilos ++ (admin_conec_kernel ∷ []) })
unfolding Procesador.handshake_kernel Procesador.handshake_umv Nucleo.handshake_cpu
    Nucleo.handshake_prog Nucleo.handshake_umv Cliente.handshake_kernel admin_conecciones
    crear_men_comun
handshake_umv-admin_conecciones c new_soc =
    let de_cpu = viaja (aviso Tipos.hs_cpu) (aviso-EsComun 12 (omega arith)) in
    let de_kernel = viaja (aviso Tipos.hs_kernel) (aviso-EsComun 10 (omega arith)) in
    let de_umv = viaja (aviso Tipos.hs_umv) (aviso-EsComun 13 (omega arith)) in
    let de_prog = viaja hola hola-EsComun in
    (
      (
        de_cpu.0,
        de_kernel.0,
        λ soc. rw (de_cpu.1, de_kernel.2 soc) refl,
        λ soc. rw (de_cpu.2 soc, de_kernel.1) refl,
      ),
      (
        de_prog.0,
        de_kernel.0,
        λ soc. rw (de_prog.1, de_kernel.2 soc) refl,
        λ soc. rw (de_prog.2 soc, de_kernel.1) refl,
      ),
      (
        de_cpu.0,
        de_umv.0,
        λ soc. rw (de_cpu.1, de_umv.2 soc) refl,
        λ soc. rw (de_cpu.2 soc, de_umv.1) refl,
      ),
      (
        de_kernel.0,
        de_umv.0,
        λ soc. rw (de_kernel.1, de_umv.2 soc) refl,
        λ soc. rw (de_kernel.2 soc, de_umv.1) refl,
      ),
    )
