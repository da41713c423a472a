-- ===== src/Umv/Bytes.antt =====
-- `solicitar_bytes` and `almacenar_bytes` of UMV/UMV.c: the accesses of a process to its segments.
pub mod Acceso
pub mod Aislamiento
use tp_2014_1c_tp_so.Base.{ℕ, Bool, ◌||◌, List, Option, none, some, if◌then◌else◌}
use tp_2014_1c_tp_so.Base.Int.{ℤ, pos, ltb_ℤ}
use tp_2014_1c_tp_so.Base.Words.{add32}
use tp_2014_1c_tp_so.Mensajes.Tipos.{segmen_fault, r_alm_bytes}
use tp_2014_1c_tp_so.Base.Outcome.{Outcome, ok, fault, ◌>>=◌}
use tp_2014_1c_tp_so.Umv.Estado.{Umv, Seg}
use tp_2014_1c_tp_so.Base.Memoria.{memcpy_desde, memcpy_hacia}
use tp_2014_1c_tp_so.Umv.Segmentos.{buscar_segmento_dir_logica}

-- The guard at the head of both functions.
abbrev pub fuera_de_rango : Umv → ℤ → ℤ → ℤ → Bool
fuera_de_rango u base offset tam =
    ltb_ℤ offset (pos 0)
    || ltb_ℤ base (pos 0)
    || ltb_ℤ u.tam_mem_total offset
    || ltb_ℤ u.tam_mem_total tam

-- `none` is `NULL`. `malloc tam` is the block that `malloc` gives, with what happens to stand in it,
-- or `none` where it fails; the branch of a segment that does not exist returns it as it is.
unfoldable pub solicitar_bytes :
    (ℤ → Option (List ℕ)) → Umv → ℤ → ℤ → ℤ → ℤ → Outcome (Option (List ℕ))
solicitar_bytes malloc u id_proc base offset tam =
    if fuera_de_rango u base offset tam
    then ok none
    else elim (buscar_segmento_dir_logica u id_proc base) [
      | none ↦ ok (malloc tam)
      | some s ↦ if ltb_ℤ s.tam_seg (add32 offset tam) then ok none else elim (malloc tam) [
        | none ↦ fault
        | some _ ↦ memcpy_desde u.mem_prin (add32 s.dir_fisica offset) tam >>= λ bs. ok (some bs)
      ]
    ]

-- The state and the type of the answer. A segment that does not exist is a null pointer.
unfoldable pub almacenar_bytes : Umv → ℤ → ℤ → ℤ → ℤ → List ℕ → Outcome (Umv × ℤ)
almacenar_bytes u id_proc base offset tam buffer =
    if fuera_de_rango u base offset tam
    then ok (u, segmen_fault)
    else elim (buscar_segmento_dir_logica u id_proc base) [
      | none ↦ fault
      | some s ↦
          if ltb_ℤ s.tam_seg (add32 offset tam)
          then ok (u, segmen_fault)
          else memcpy_hacia u.mem_prin (add32 s.dir_fisica offset) buffer tam >>= λ m.
              ok (record u { mem_prin = m }, r_alm_bytes)
    ]
