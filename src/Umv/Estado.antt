-- ===== src/Umv/Estado.antt =====
-- The globals of UMV/UMV.c, and what its code takes from outside the repository.
use tp_2014_1c_tp_so.Base.{ℕ, ◌+◌, ◌≤◌, Bool, List, Perm, Pairwise, min, max}
use tp_2014_1c_tp_so.Base.Int.{ℤ, pos, pos_part, ltb_ℤ, ◌≤ℤ◌}

-- `t_seg`
pub record Seg : Type 0 where
  pub id_proc : ℤ
  pub dir_logica : ℤ
  pub dir_fisica : ℤ
  pub tam_seg : ℤ
  pub tipo_seg : ℤ

-- The mutexes have no field: every operation of the threads holds `mutex_list_seg` from its first
-- access to its last.
pub record Umv : Type 0 where
  pub mem_prin : List ℕ
  pub list_seg : List Seg
  pub alg_actual : ℤ
  pub tam_mem_total : ℤ
  pub retardo : ℤ
  pub quit_sistema : Bool

abbrev pub first_fit : ℤ
first_fit = pos 1

abbrev pub worst_fit : ℤ
worst_fit = pos 2

-- What the code relies on of `list_sort` of the commons library: the same elements, in the order
-- of the key that the comparator reads.
pub record ListSort : Type 0 where
  pub list_sort : (Seg → Seg → Bool) → List Seg → List Seg
  pub list_sort-Perm : (menor : Seg → Seg → Bool) (xs : List Seg) → Perm (list_sort menor xs) xs
  pub list_sort-Pairwise :
      (key : Seg → ℤ) (xs : List Seg)
      → Pairwise (λ s t. key s ≤ℤ key t) (list_sort (λ s t. ltb_ℤ (key s) (key t)) xs)

-- The first byte of a segment, its length, and the byte after its last.
abbrev pub inicio : Seg → ℕ
inicio s = pos_part s.dir_fisica

abbrev pub largo : Seg → ℕ
largo s = pos_part s.tam_seg

abbrev pub fin : Seg → ℕ
fin s = inicio s + largo s

-- Two segments share no byte.
abbrev pub Separados : Seg → Seg → Type 0
Separados s t = min (fin s) (fin t) ≤ max (inicio s) (inicio t)
