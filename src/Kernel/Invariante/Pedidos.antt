-- ===== src/Kernel/Invariante/Pedidos.antt =====
-- What the processes ask of the kernel keeps the state valid.
use tp_2014_1c_tp_so.Base.{
  ℕ, suc, ◌+◌, ◌≡◌, ◌≢◌, ◌⊎◌, ◌∙◌, refl, ap, inl, inr, List, [], ◌∷◌, ◌++◌, some, arith,
}
use tp_2014_1c_tp_so.Base.Int.{ℤ, pos, ◌==ℤ◌}
use tp_2014_1c_tp_so.Base.Outcome.{ok}
use tp_2014_1c_tp_so.Mensajes.{MenComun}
use tp_2014_1c_tp_so.Kernel.Estado.{Semaforo, IoEspera, Io, Kernel, Siguientes, llegan}
use tp_2014_1c_tp_so.Base.Diccionario.{
  clave_de, dictionary_get, dictionary_put, dictionary_get-dictionary_put,
  dictionary_get-dictionary_put_ne,
}
use tp_2014_1c_tp_so.Kernel.Colas.{pasar_ready, pasar_pcb_block_ready}
use tp_2014_1c_tp_so.Kernel.Colas.Rotacion.{Ninguno, Primero, rotar_hasta_lem}
use tp_2014_1c_tp_so.Kernel.Colas.Cuentas.{rotar_hasta-Sacado}
use tp_2014_1c_tp_so.Kernel.Servicios.{Texto, numero, enviar_io}
use tp_2014_1c_tp_so.Kernel.Planificador.{manejador_io}
use tp_2014_1c_tp_so.Kernel.Invariante.{Valido, Bien, Ocupada}
use tp_2014_1c_tp_so.Kernel.Invariante.Parcial.{Parcial, Parcial-ready}
use tp_2014_1c_tp_so.Kernel.Invariante.Turnos.{Bloqueado, Bloqueado-dicc, bloquear-Bien}

-- The dictionaries do not matter for it.
pub Valido-dicc_sem :
    (grado : ℕ) (k : Kernel) (d : List (List ℕ × Semaforo))
    → Valido grado k
    → Valido grado (record k { dicc_sem = d })
Valido-dicc_sem grado k d v = record {
  nuevos = v.nuevos;
  listos = v.listos;
  salidos = v.salidos;
  libres = v.libres;
  ocupadas = v.ocupadas;
  numerados = v.numerados;
  multiprog = v.multiprog;
}

pub Valido-dicc_disp_io :
    (grado : ℕ) (k : Kernel) (d : List (List ℕ × Io))
    → Valido grado k
    → Valido grado (record k { dicc_disp_io = d })
Valido-dicc_disp_io grado k d v = record {
  nuevos = v.nuevos;
  listos = v.listos;
  salidos = v.salidos;
  libres = v.libres;
  ocupadas = v.ocupadas;
  numerados = v.numerados;
  multiprog = v.multiprog;
}

pub Bien-refl : (grado : ℕ) (k : Kernel) → Valido grado k → Bien grado k k
Bien-refl grado k v = record { valido = v; mismos = λ id. refl }

-- `pasar_pcbBlock_ready`, whether or not the process is in BLOCK: the state stays valid, and no
-- process is lost.
pub pasar_pcb_block_ready-Bien :
    (grado : ℕ) (k : Kernel) (id_pcb : ℤ)
    → Valido grado k
    → Bien grado k (pasar_pcb_block_ready k id_pcb)
unfolding pasar_pcb_block_ready
pasar_pcb_block_ready-Bien grado k id_pcb v =
    elim (rotar_hasta-Sacado (λ x. x.pcb.id ==ℤ id_pcb) k.cola_block) [
      | inl (n, r) ↦
          let q : pasar_pcb_block_ready k id_pcb ≡ k = ground (arith, r) in
          rw q (Bien-refl grado k v)
      | inr (x, resto, r, p, s) ↦
          let j : Kernel = record k { cola_block = resto } in
          let h : Parcial grado k x j = record {
            nuevos = v.nuevos;
            listos = v.listos;
            salidos = v.salidos;
            libres = v.libres;
            ocupadas = v.ocupadas;
            numerados = omega (arith, v.numerados, s.cuenta (pos 0));
            numerado = omega (arith, v.numerados, s.cuenta (pos 0));
            mismos = λ id. omega (arith, s.cuenta id);
            multiprog = omega (arith, v.multiprog, s.largo);
          } in
          let q : pasar_pcb_block_ready k id_pcb ≡ pasar_ready j x = ground (arith, r) in
          rw q (Parcial-ready grado k x j h x refl)
    ]

-- The process `id` was the first of its number in BLOCK in `k`, and stands at the end of READY in
-- `k'`; or it was not in BLOCK, and both queues are as they were.
abbrev pub Despertado : Kernel → ℤ → Kernel → Type 0
Despertado k id k' =
    (Ninguno (λ x. x.pcb.id ==ℤ id) k.cola_block
      × (k'.cola_block ≡ k.cola_block)
      × (k'.cola_ready ≡ k.cola_ready))
    ⊎ ((f : Primero (λ x. x.pcb.id ==ℤ id) k.cola_block) × (k'.cola_block ≡ f.despues ++ f.antes)
        × (k'.cola_ready ≡ k.cola_ready ++ (f.elemento ∷ [])))

pub pasar_pcb_block_ready-Despertado :
    (k : Kernel) (id_pcb : ℤ) → Despertado k id_pcb (pasar_pcb_block_ready k id_pcb)
unfolding pasar_pcb_block_ready
pasar_pcb_block_ready-Despertado k id_pcb =
    elim (rotar_hasta_lem (λ x. x.pcb.id ==ℤ id_pcb) k.cola_block) [
      | inl (n, r) ↦
          let q : pasar_pcb_block_ready k id_pcb ≡ k = ground (arith, r) in
          rw q (inl (n, refl, refl))
      | inr (f, r) ↦
          let q : pasar_pcb_block_ready k id_pcb
              ≡ pasar_ready (record k { cola_block = f.despues ++ f.antes }) f.elemento =
            ground (arith, r) in
          rw q (inr (f, refl, refl))
    ]

-- A device's thread, where a process waits for the device: it goes to READY. The state stays valid.
pub manejador_io-Bien :
    (grado : ℕ) (k : Kernel) (nombre : List ℕ) (io : Io) (p : IoEspera) (resto : List IoEspera)
    (n : ℕ)
    → Valido grado k
    → dictionary_get nombre k.dicc_disp_io ≡ some io
    → io.procesos ≡ p ∷ resto
    → io.cont_cant_proc ≡ suc n
    → (k' : Kernel) × (manejador_io k nombre ≡ ok k') × Bien grado k k'
manejador_io-Bien grado k nombre io p resto n v e ep en =
    let io1 : Io = record io { cont_cant_proc = n; procesos = resto } in
    let k1 : Kernel = record k { dicc_disp_io = dictionary_put nombre io1 k.dicc_disp_io } in
    let b = pasar_pcb_block_ready-Bien grado k1 p.id_prog (Valido-dicc_disp_io grado k _ v) in
    (
      pasar_pcb_block_ready k1 p.id_prog,
      unfold manejador_io in ground (arith, e, ep, en),
      record { valido = b.valido; mismos = b.mismos },
    )

-- `enviar_IO` of a CPU that executes a process, for a device that exists, when the messages that the
-- kernel waits for come whole and both texts are there: the CPU's process leaves
-- EXEC and goes to the end of BLOCK, with the place that the CPU sends, and to the end of the
-- device's queue with the units asked for; the device's semaphore counts one more, and no other
-- device changes. READY is as it was, and the state stays valid.
pub enviar_io-Bien :
    (t : Texto) (grado : ℕ) (k : Kernel) (soc_cpu : ℤ) (men_cpu : MenComun) (sig : Siguientes)
    (io : Io) (nombre : List ℕ) (unidades : ℤ)
    → clave_de men_cpu.dato ≡ ok nombre
    → numero t sig.dato.dato ≡ ok unidades
    → Valido grado k
    → Ocupada k soc_cpu
    → dictionary_get nombre k.dicc_disp_io ≡ some io
    → (k' : Kernel) × (io' : Io) × (enviar_io t k soc_cpu men_cpu (llegan sig) ≡ ok k')
      × Bien grado k k'
      × (dictionary_get nombre k'.dicc_disp_io ≡ some io')
      × (io'.cont_cant_proc ≡ suc io.cont_cant_proc)
      × (b : Bloqueado k soc_cpu sig.pcb k') × (io'.procesos
          ≡ io.procesos ++ (record { id_prog = b.cpu.id_prog_exec; unidades = unidades } ∷ []))
      × ((m : List ℕ)
          → nombre ≢ m
          → dictionary_get m k'.dicc_disp_io ≡ dictionary_get m k.dicc_disp_io)
enviar_io-Bien t grado k soc_cpu men_cpu sig io nombre unidades c u v o e =
    let b = bloquear-Bien grado k soc_cpu sig v o in
    let w : IoEspera = record { id_prog = b.0.id_prog_exec; unidades = unidades } in
    let io1 : Io = record io {
      procesos = io.procesos ++ (w ∷ []);
      cont_cant_proc = io.cont_cant_proc + 1;
    } in
    let mismo : b.1.dicc_disp_io ≡ k.dicc_disp_io = ap (λ (j : Kernel). j.dicc_disp_io) b.8 in
    let hay : dictionary_get nombre b.1.dicc_disp_io ≡ some io = rw mismo e in
    (
      record b.2 { dicc_disp_io = dictionary_put nombre io1 b.2.dicc_disp_io },
      io1,
      unfold enviar_io in ground (arith, b.3, u, c, hay, b.4),
      record { valido = Valido-dicc_disp_io grado b.2 _ b.5.valido; mismos = b.5.mismos },
      dictionary_get-dictionary_put nombre io1 b.2.dicc_disp_io,
      omega arith,
      Bloqueado-dicc k.dicc_sem b.2.dicc_sem _ b.9,
      rw b.10 refl,
      λ m ne.
          dictionary_get-dictionary_put_ne nombre m io1 b.2.dicc_disp_io ne
          ∙ ap (λ (d : List (List ℕ × Io)). dictionary_get m d) b.7,
    )
