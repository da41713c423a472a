-- ===== src/Kernel/Invariante/Pasos.antt =====
-- The threads of kernel/kernel.c side by side, a round at a time, while no program closes its connection.
use tp_2014_1c_tp_so.Base.{
  ℕ, suc, ◌+◌, ◌^◌, ◌≤◌, ◌<◌, ◌≡◌, refl, Bool, true, false, List, ◌∷◌, some, Mem, length,
  list_remove, arith,
}
use tp_2014_1c_tp_so.Base.Int.{ℤ, pos, ◌≤ℤ◌, ◌==ℤ◌}
use tp_2014_1c_tp_so.Base.Outcome.{ok}
use tp_2014_1c_tp_so.Mensajes.{MenComun}
use tp_2014_1c_tp_so.Kernel.Estado.{
  Cpu, PcbOtros, IoEspera, Io, Semaforo, Kernel, Envio, Siguientes, llegan,
}
use tp_2014_1c_tp_so.Base.Diccionario.{dictionary_get}
use tp_2014_1c_tp_so.Kernel.Cpus.{ingresar_new_cpu, conec_cerrada_cpu}
use tp_2014_1c_tp_so.Kernel.Servicios.{administrar_men_cpus}
use tp_2014_1c_tp_so.Kernel.Planificador.{
  manejador_new_ready, manejador_ready_exec, manejador_exit, manejador_io,
  crear_inicializar_estructuras,
}
use tp_2014_1c_tp_so.Kernel.Configuracion.{Opcion, quantum, stack, multiprog, menu_imp}
use tp_2014_1c_tp_so.Kernel.Programas.{Entorno, Respuestas, administrar_new_script}
use tp_2014_1c_tp_so.Kernel.Programas.Carga.{administrar_new_script-Valido}
use tp_2014_1c_tp_so.Kernel.Invariante.{Valido, Ocupada}
use tp_2014_1c_tp_so.Kernel.Invariante.Turnos.{ingresar_new_cpu-Bien, conec_cerrada_cpu-Bien}
use tp_2014_1c_tp_so.Kernel.Invariante.Rondas.{
  manejador_new_ready-Bien, manejador_ready_exec-Bien, manejador_exit-Valido,
}
use tp_2014_1c_tp_so.Kernel.Invariante.Pedidos.{manejador_io-Bien}
use tp_2014_1c_tp_so.Kernel.Invariante.Despacho.{Atendible, administrar_men_cpus-Bien}

abbrev no_cambia_grado : Opcion → Bool
no_cambia_grado (quantum n) = true
no_cambia_grado (stack n) = true
no_cambia_grado (multiprog n) = false

menu_imp-Valido :
    (grado : ℕ) (k : Kernel) (o : Opcion)
    → Valido grado k
    → no_cambia_grado o ≡ true
    → Valido grado (menu_imp k o)
unfolding menu_imp
menu_imp-Valido grado k (quantum n) v h = record {
  nuevos = v.nuevos;
  listos = v.listos;
  salidos = v.salidos;
  libres = v.libres;
  ocupadas = v.ocupadas;
  numerados = v.numerados;
  multiprog = v.multiprog;
}
menu_imp-Valido grado k (stack n) v h = record {
  nuevos = v.nuevos;
  listos = v.listos;
  salidos = v.salidos;
  libres = v.libres;
  ocupadas = v.ocupadas;
  numerados = v.numerados;
  multiprog = v.multiprog;
}
menu_imp-Valido grado k (multiprog n) v h = cc

module _ (e : Entorno) where
  -- A round of one of the threads that finds what it waits for, while no program closes its connection
  -- and the degree of multiprogramming is not changed. A CPU that is idle only closes its connection;
  -- one that is not sends any message that `Atendible` allows, and the rest of it.
  pub data Ronda : Kernel → Kernel → Type 0 where
    de_cpu :
        {k k' : Kernel} {rs : List Envio} (soc_cpu : ℤ) (men : MenComun) (sig : Siguientes)
        → Ocupada k soc_cpu
        → Atendible k men sig
        → administrar_men_cpus e.texto k soc_cpu men (llegan sig) ≡ ok (k', rs)
        → Ronda k k'
    cierra_cpu :
        {k k' : Kernel} (soc_cpu : ℤ) (c : Cpu) (resto : List Cpu)
        → list_remove (λ d. d.soc_cpu ==ℤ soc_cpu) k.lista_cpu ≡ some (c, resto)
        → conec_cerrada_cpu k soc_cpu ≡ ok k'
        → Ronda k k'
    llega_cpu : (k : Kernel) (soc_cpu : ℤ) → Ronda k (ingresar_new_cpu k soc_cpu).0
    llega_script :
        (k : Kernel) (soc_prog : ℤ) (men : MenComun) (rs : Respuestas) (n : ℕ)
        → k.contador_programa ≡ pos n
        → n + 1 < 2 ^ 31
        → Ronda k (administrar_new_script e k soc_prog men rs).0
    de_new_ready :
        {k k' : Kernel} (z : PcbOtros)
        → Mem z k.cola_new
        → z.peso ≤ℤ pos 1000000
        → 0 < k.cant_multiprog
        → manejador_new_ready k ≡ ok k'
        → Ronda k k'
    de_ready_exec :
        {k k' : Kernel} {rs : List Envio} (x : PcbOtros) (resto : List PcbOtros)
        → k.cola_ready ≡ x ∷ resto
        → 0 < k.cant_cpu_libres
        → manejador_ready_exec k ≡ ok (k', rs)
        → Ronda k k'
    de_exit :
        {k k' : Kernel} {rs : List Envio} (x : PcbOtros) (resto : List PcbOtros)
        → k.cola_exit ≡ x ∷ resto
        → manejador_exit k ≡ ok (k', rs)
        → Ronda k k'
    de_io :
        {k k' : Kernel} (nombre : List ℕ) (io : Io) (p : IoEspera) (resto : List IoEspera) (n : ℕ)
        → dictionary_get nombre k.dicc_disp_io ≡ some io
        → io.procesos ≡ p ∷ resto
        → io.cont_cant_proc ≡ suc n
        → manejador_io k nombre ≡ ok k'
        → Ronda k k'
    cambia_quantum : (k : Kernel) (n : ℤ) → Ronda k (menu_imp k (quantum n))
    cambia_stack : (k : Kernel) (n : ℤ) → Ronda k (menu_imp k (stack n))

  pub data Corre (k : Kernel) : Kernel → Type 0 where
    parado : Corre k k
    ronda : {j k' : Kernel} → Corre k j → Ronda j k' → Corre k k'

  pub Ronda-Valido : {k k' : Kernel} (grado : ℕ) → Ronda k k' → Valido grado k → Valido grado k'
  Ronda-Valido grado (de_cpu {k} {k'} {rs} soc_cpu men sig o h q) v =
      let r = administrar_men_cpus-Bien e.texto grado k soc_cpu v o men sig h in
      let igual : r.0 ≡ (k', rs) = cc in rw igual at r.2.valido
  Ronda-Valido grado (cierra_cpu {k} {k'} soc_cpu c resto h q) v =
      let r = conec_cerrada_cpu-Bien grado k soc_cpu c resto v h in
      let igual : r.0 ≡ k' = cc in rw igual at r.2.valido
  Ronda-Valido grado (llega_cpu k soc_cpu) v = (ingresar_new_cpu-Bien grado k soc_cpu v).valido
  Ronda-Valido grado (llega_script k soc_prog men rs n en hn) v =
      (administrar_new_script-Valido e grado k soc_prog men rs n v en hn).0
  Ronda-Valido grado (de_new_ready {k} {k'} z hz le hm q) v =
      let r = manejador_new_ready-Bien grado k z v hz le hm in
      let igual : r.0 ≡ k' = cc in rw igual at r.3.valido
  Ronda-Valido grado (de_ready_exec {k} {k'} {rs} x resto er hl q) v =
      let r = manejador_ready_exec-Bien grado k x resto v er hl in
      let igual : r.0 ≡ k' = cc in rw igual at r.3.valido
  Ronda-Valido grado (de_exit {k} {k'} {rs} x resto er q) v =
      let r = manejador_exit-Valido grado k x resto v er in
      let igual : r.0 ≡ k' = cc in rw igual at r.2
  Ronda-Valido grado (de_io {k} {k'} nombre io p resto n d ep en q) v =
      let r = manejador_io-Bien grado k nombre io p resto n v d ep en in
      let igual : r.0 ≡ k' = cc in rw igual at r.2.valido
  Ronda-Valido grado (cambia_quantum k n) v = menu_imp-Valido grado k (quantum n) v refl
  Ronda-Valido grado (cambia_stack k n) v = menu_imp-Valido grado k (stack n) v refl

  Corre-Valido : {k k' : Kernel} (grado : ℕ) → Corre k k' → Valido grado k → Valido grado k'
  Corre-Valido grado parado v = v
  Corre-Valido grado (ronda c r) v = Ronda-Valido grado r (Corre-Valido grado c v)

  inicial-Valido :
      (grado : ℕ) (quantum_max tamanio_stack : ℤ) (io : List (List ℕ × Io))
      (var : List (List ℕ × ℤ)) (sem : List (List ℕ × Semaforo))
      → Valido grado (crear_inicializar_estructuras grado quantum_max tamanio_stack io var sem)
  unfolding crear_inicializar_estructuras
  inicial-Valido grado quantum_max tamanio_stack io var sem = record {
    nuevos = refl;
    listos = refl;
    salidos = refl;
    libres = refl;
    ocupadas = λ id ne. refl;
    numerados = refl;
    multiprog = omega arith;
  }

  -- In every execution from the start in which no program closes its connection, whatever the order of
  -- the rounds: READY, EXEC and BLOCK hold at most as many processes as the degree of
  -- multiprogramming; each CPU executes a process of EXEC, and each process of EXEC is executed by
  -- exactly as many CPUs as it is there times; the semaphores count the queues and the free CPUs.
  pub Corre-crear_inicializar_estructuras :
      {k : Kernel} (grado : ℕ) (quantum_max tamanio_stack : ℤ) (io : List (List ℕ × Io))
      (var : List (List ℕ × ℤ)) (sem : List (List ℕ × Semaforo))
      → Corre (crear_inicializar_estructuras grado quantum_max tamanio_stack io var sem) k
      → Valido grado k × (length k.cola_ready + length k.cola_exec + length k.cola_block ≤ grado)
  Corre-crear_inicializar_estructuras grado quantum_max tamanio_stack io var sem c =
      let v = Corre-Valido grado c (inicial-Valido grado quantum_max tamanio_stack io var sem) in
      (v, omega (arith, v.multiprog))
