-- ===== src/Pruebas/Despacho.antt =====
-- A process of READY with one process before it.
use tp_2014_1c_tp_so.Base.{ℕ, [], ◌∷◌}
use tp_2014_1c_tp_so.Base.Int.{pos}
use tp_2014_1c_tp_so.Kernel.Estado.{Kernel, Cpu}
use tp_2014_1c_tp_so.Pruebas.Nucleo.{nucleo, proceso}

abbrev con_dos : Kernel
con_dos = record nucleo { cola_ready = proceso 4 1 ∷ proceso 7 1 ∷ []; cant_ready = 2 }

abbrev cpu_de : ℕ → ℕ → ℕ → Cpu
cpu_de soc prog id = record { soc_cpu = pos soc; soc_prog = pos prog; id_prog_exec = pos id }

-- With another CPU, and with the first of the two processes sent to the CPU 6.
abbrev con_cpu : Kernel
con_cpu = record con_dos {
  conj_soc_cpus = pos 7 ∷ pos 5 ∷ pos 6 ∷ [];
  lista_cpu = cpu_de 5 21 1 ∷ cpu_de 6 0 0 ∷ cpu_de 7 0 0 ∷ [];
  cant_cpu_libres = 2;
}

abbrev con_despacho : Kernel
con_despacho = record con_cpu {
  cola_ready = proceso 7 1 ∷ [];
  cant_ready = 1;
  cola_exec = proceso 1 1 ∷ proceso 4 1 ∷ [];
  lista_cpu = cpu_de 5 21 1 ∷ cpu_de 7 0 0 ∷ cpu_de 6 24 4 ∷ [];
  cant_cpu_libres = 1;
}
