-- ===== src/Cpu/Segura.antt =====
-- What no step of a CPU changes: the segments of the UMV, the bytes of the other processes, and what its
-- process control block says of where the process lies. A code is `Segura` if that holds whatever
-- it is answered, where it ends.
pub mod Primitivas
pub mod Pedidos
pub mod Turnos
use tp_2014_1c_tp_so.Base.{
  ℕ, ◌^◌, ◌<◌, ◌≡◌, refl, ◌∙◌, sym, ap, subst, ◌≢◌, Bool, true, false, List, [], ◌∷◌, Option, none,
  some, arith, if◌then◌else◌,
}
use tp_2014_1c_tp_so.Base.Int.{ℤ, pos, pos_part, ◌==ℤ◌}
use tp_2014_1c_tp_so.Base.Outcome.{
  Outcome, ok, fault, espera, ◌>>=◌, Logra, bien, falla, bloquea, Logra-bind, Logra-puro,
  Logra-mono,
}
use tp_2014_1c_tp_so.Base.Memoria.{memcpy_desde}
use tp_2014_1c_tp_so.Mensajes.{Pcb, MenComun, MenCpuUmv}
use tp_2014_1c_tp_so.Mensajes.Tipos
use tp_2014_1c_tp_so.Sockets.CpuUmv.{crear_men_cpu_umv}
use tp_2014_1c_tp_so.Umv.Estado.{Umv}
use tp_2014_1c_tp_so.Umv.Espacio.Validez.{IsValid}
use tp_2014_1c_tp_so.Umv.Bytes.{solicitar_bytes}
use tp_2014_1c_tp_so.Umv.Sesion.{SesionCpu}
use tp_2014_1c_tp_so.Umv.Sesion.Cpu.{RondaCpu}
use tp_2014_1c_tp_so.Umv.Sesion.Parcial.{atender_cpu-Logra}
use tp_2014_1c_tp_so.Cpu.Estado.{
  Maquina, Externo, al_kernel, del_kernel, recibir_resp_kernel, enviar_pcb, enviar_men_cpu_umv,
  pedir,
}

-- A valid memory of less than 1 GiB.
abbrev pub Firme : Maquina → Type 0
Firme m = IsValid m.umv × (pos_part m.umv.tam_mem_total < 2 ^ 30)

pub record Sigue (m m' : Maquina) : Type 0 where
  pub valido : IsValid m'.umv
  pub total : m'.umv.tam_mem_total ≡ m.umv.tam_mem_total
  pub segmentos : m'.umv.list_seg ≡ m.umv.list_seg
  pub activo : m'.sesion.proc_activo ≡ m.sesion.proc_activo
  pub quantum : m'.quantum_max ≡ m.quantum_max
  pub proceso :
      record m'.pcb {
        cant_var_cont_actual = m.pcb.cant_var_cont_actual;
        dir_cont_actual = m.pcb.dir_cont_actual;
        program_counter = m.pcb.program_counter;
      }
      ≡ m.pcb
  pub ajenos :
      (malloc : ℤ → Option (List ℕ)) (id base offset tam : ℤ)
      → id ≢ m.sesion.proc_activo
      → solicitar_bytes malloc m'.umv id base offset tam
        ≡ solicitar_bytes malloc m.umv id base offset tam

pub Sigue-Firme : {m m' : Maquina} → Firme m → Sigue m m' → Firme m'
Sigue-Firme f s = (s.valido, rw s.total f.1)

pub Sigue-trans : {m m1 m2 : Maquina} → Sigue m m1 → Sigue m1 m2 → Sigue m m2
Sigue-trans {m} {m1} {m2} s t = record {
  valido = t.valido;
  total = t.total ∙ s.total;
  segmentos = t.segmentos ∙ s.segmentos;
  activo = t.activo ∙ s.activo;
  quantum = t.quantum ∙ s.quantum;
  proceso =
      ap
        (λ (q : Pcb). record q {
          cant_var_cont_actual = m.pcb.cant_var_cont_actual;
          dir_cont_actual = m.pcb.dir_cont_actual;
          program_counter = m.pcb.program_counter;
        })
        t.proceso
      ∙ s.proceso;
  ajenos = λ malloc id base offset tam ne.
      t.ajenos malloc id base offset tam (λ e. ne (e ∙ s.activo))
      ∙ s.ajenos malloc id base offset tam ne;
}

-- A change of anything but the memory, the connection and where the process lies.
pub Sigue-of_eq :
    {m m' : Maquina}
    → Firme m
    → m'.umv ≡ m.umv
    → m'.sesion ≡ m.sesion
    → m'.quantum_max ≡ m.quantum_max
    → record m'.pcb {
      cant_var_cont_actual = m.pcb.cant_var_cont_actual;
      dir_cont_actual = m.pcb.dir_cont_actual;
      program_counter = m.pcb.program_counter;
    }
      ≡ m.pcb
    → Sigue m m'
Sigue-of_eq {m} {m'} f u c n q = record {
  valido = subst IsValid (sym u) f.0;
  total = ap (λ (w : Umv). w.tam_mem_total) u;
  segmentos = ap (λ (w : Umv). w.list_seg) u;
  activo = ap (λ (d : SesionCpu). d.proc_activo) c;
  quantum = n;
  proceso = q;
  ajenos = λ malloc id base offset tam ne. ap (λ w. solicitar_bytes malloc w id base offset tam) u;
}

pub record Segura {A : Type 0} (maq : A → Maquina) (m : Maquina) (o : Outcome A) : Type 0 where
  pub logra : Firme m → Logra (λ a. Sigue m (maq a)) o

-- The machine of a result.
abbrev pub sola : Maquina → Maquina
sola m = m

abbrev pub con_valor : {A : Type 0} → A × Maquina → Maquina
con_valor r = r.1

module _ {A : Type 0} {m : Maquina} where
  pub Segura-ok : (maq : A → Maquina) (a : A) → (Firme m → Sigue m (maq a)) → Segura maq m (ok a)
  Segura-ok maq a h = record { logra = λ f. bien a (h f) }

  pub Segura-fault : (maq : A → Maquina) → Segura maq m fault
  Segura-fault maq = record { logra = λ f. falla }

  pub Segura-if :
      {maq : A → Maquina} (b : Bool) {o o' : Outcome A}
      → Segura maq m o
      → Segura maq m o'
      → Segura maq m (if b then o else o')
  Segura-if true s t = s
  Segura-if false s t = t

  pub Segura-mover :
      {maq : A → Maquina} {m0 : Maquina} {o : Outcome A}
      → (Firme m → Sigue m m0)
      → Segura maq m0 o
      → Segura maq m o
  Segura-mover h s = record {
    logra = λ f. let g = h f in Logra-mono (λ a q. Sigue-trans g q) (s.logra (Sigue-Firme f g));
  }

module _ {A B : Type 0} {m : Maquina} where
  pub Segura-bind :
      {maq : A → Maquina} {maq' : B → Maquina} {o : Outcome A} {k : A → Outcome B}
      → Segura maq m o
      → ((a : A) → Segura maq' (maq a) (k a))
      → Segura maq' m (o >>= k)
  Segura-bind s t = record {
    logra = λ f.
        Logra-bind (s.logra f)
          (λ a p. Logra-mono (λ b q. Sigue-trans p q) ((t a).logra (Sigue-Firme f p)));
  }

  -- A part with no machine.
  pub Segura-puro :
      {maq : B → Maquina} (o : Outcome A) {k : A → Outcome B}
      → ((a : A) → Segura maq m (k a))
      → Segura maq m (o >>= k)
  Segura-puro (ok a) h = h a
  Segura-puro fault h = record { logra = λ f. falla }
  Segura-puro espera h = record { logra = λ f. bloquea }

-- The list that a code splits on.
pub Segura-lista :
    {A B : Type 0} {maq : B → Maquina} {m : Maquina} (xs : List A) {n : Outcome B}
    {c : A → List A → Outcome B}
    → Segura maq m n
    → ((a : A) (ys : List A) → Segura maq m (c a ys))
    → Segura maq m (elim xs [ [] ↦ n | a ∷ ys ↦ c a ys ])
Segura-lista [] s t = s
Segura-lista (a ∷ ys) s t = t a ys

pub al_kernel-Sigue : (m : Maquina) (men : MenComun) → Firme m → Sigue m (al_kernel m men)
unfolding al_kernel
al_kernel-Sigue m men f = Sigue-of_eq f refl refl refl refl

pub enviar_pcb-Sigue : (m : Maquina) → Firme m → Sigue m (enviar_pcb m)
unfolding enviar_pcb
enviar_pcb-Sigue m f = Sigue-of_eq f refl refl refl refl

pub del_kernel-Sigue : (m : Maquina) → Firme m → Sigue m (del_kernel m).1
unfolding del_kernel
del_kernel-Sigue m f = Sigue-of_eq f (ground arith) (ground arith) (ground arith) (ground arith)

pub recibir_resp_kernel-Sigue : (m : Maquina) → Firme m → Sigue m (recibir_resp_kernel m)
unfolding recibir_resp_kernel
recibir_resp_kernel-Sigue m f = del_kernel-Sigue m f

crear_men_cpu_umv-tipo :
    (tipo base offset tam : ℤ) (buffer : Option (List ℕ))
    → Logra (λ (men : MenCpuUmv). men.tipo ≡ tipo) (crear_men_cpu_umv tipo base offset tam buffer)
unfolding crear_men_cpu_umv
crear_men_cpu_umv-tipo tipo base offset tam none = bien _ refl
crear_men_cpu_umv-tipo tipo base offset tam (some bs) =
    Logra-puro (memcpy_desde bs (pos 0) tam) (λ b. bien _ refl)

module _ (x : Externo) where
  pub enviar_men_cpu_umv-Segura :
      (m : Maquina) (tipo base offset tam : ℤ) (buffer : Option (List ℕ))
      → (tipo ==ℤ Tipos.cambio_pa) ≡ false
      → Segura con_valor m (enviar_men_cpu_umv x m tipo base offset tam buffer)
  unfolding enviar_men_cpu_umv
  enviar_men_cpu_umv-Segura m tipo base offset tam buffer t = record {
    logra = λ f. Logra-bind (crear_men_cpu_umv-tipo tipo base offset tam buffer) (λ men e.
        Logra-bind (atender_cpu-Logra x.umv m.umv m.sesion men f.0 f.1) (λ r q. bien _ (record {
          valido = q.valido;
          total = q.total;
          segmentos = q.lista;
          activo = q.activo ∙ rw (e, t) refl;
          quantum = refl;
          proceso = refl;
          ajenos = q.ajenos;
        })));
  }

  pub pedir-Segura :
      (m : Maquina) (tipo base offset tam : ℤ) (buffer : Option (List ℕ))
      → (tipo ==ℤ Tipos.cambio_pa) ≡ false
      → Segura con_valor m (pedir x m tipo base offset tam buffer)
  unfolding pedir
  pedir-Segura m tipo base offset tam buffer t =
      Segura-bind (enviar_men_cpu_umv-Segura m tipo base offset tam buffer t) (λ r.
        Segura-lista r.0 (record { logra = λ f. bloquea })
          (λ men ys. Segura-ok con_valor (men, r.1) (λ f. Sigue-of_eq f refl refl refl refl)))
