-- ===== src/Umv/Segmentos/Busqueda.antt =====
-- The searches of UMV/UMV.c for the segments of a process whose segments are known.
use mathlib.Core.Bool.{Bool-set}
use mathlib.Core.List.{
  mem-cons, mem-cons_self, mem-cons_of_mem, not-mem-nil, mem-map_of_mem, exists_of_mem-map,
}
use mathlib.Core.Logic.Or
use mathlib.Core.Logic.{∥∥₁_elim}
use native.Mathlib.Decide.{ℕ_discrete}
use tp_2014_1c_tp_so.Base.{
  ◌≡◌, refl, ◌≢◌, ◌∙◌, sym, ap, Bool, false, ◌&&◌, List, [], ◌∷◌, none, some, Mem, arith, list_find,
  Bool-cases, inl, inr, Option-cases,
}
use tp_2014_1c_tp_so.Base.Int.{ℤ, ◌==ℤ◌}
use tp_2014_1c_tp_so.Umv.Estado.{Seg, Umv}
use tp_2014_1c_tp_so.Umv.Segmentos.{buscar_segmento_tipo_seg, buscar_segmento_dir_logica}
use tp_2014_1c_tp_so.Umv.Segmentos.Fichas.{ficha, fichas}
use tp_2014_1c_tp_so.Umv.Bytes.Acceso.{list_find-mem}

pub buscar_segmento_tipo_seg-mem :
    (u : Umv) (id_proc tipo : ℤ) (s : Seg)
    → buscar_segmento_tipo_seg u id_proc tipo ≡ some s
    → Mem s u.list_seg
unfolding buscar_segmento_tipo_seg
buscar_segmento_tipo_seg-mem u id_proc tipo s e = (list_find-mem _ u.list_seg s e).0

Seg-set : IsSet Seg
Seg-set = hlevel (ℕ_discrete)

list_find-none :
    (p : Seg → Bool) (segs : List Seg) (s : Seg)
    → list_find p segs ≡ none
    → Mem s segs
    → p s ≡ false
unfolding list_find
list_find-none p [] s e m = absurd (not-mem-nil m)
list_find-none p (t ∷ segs) s e m = elim (Bool-cases (p t)) [
  | inl h ↦ absurd (ground arith)
  | inr h ↦
      Or.elim (Bool-set _ _) (mem-cons.0 m) (λ q. rw q h)
        (λ k. list_find-none p segs s (ground arith) k)
]

list_find-ap :
    (p q : Seg → Bool) (segs : List Seg)
    → ((s : Seg) → Mem s segs → p s ≡ q s)
    → list_find p segs ≡ list_find q segs
unfolding list_find
list_find-ap p q [] h = refl
list_find-ap p q (t ∷ segs) h =
    rw (h t mem-cons_self, list_find-ap p q segs (λ s m. h s (mem-cons_of_mem t m))) refl

-- No two elements have the same key.
abbrev Ajena : (Seg → ℤ) → Seg → List Seg → Type 0
Ajena key f [] = Unit {0}
Ajena key f (g ∷ gs) = (key f ≢ key g) × Ajena key f gs

abbrev pub Distintas : (Seg → ℤ) → List Seg → Type 0
Distintas key [] = Unit {0}
Distintas key (f ∷ fs) = Ajena key f fs × Distintas key fs

Ajena-mem :
    (key : Seg → ℤ) (f : Seg) (gs : List Seg) (g : Seg) → Ajena key f gs → Mem g gs → key f ≢ key g
Ajena-mem key f [] g h m = absurd (not-mem-nil m)
Ajena-mem key f (x ∷ gs) g h m =
    Or.elim (hlevel) (mem-cons.0 m) (λ q. rw q h.0) (λ k. Ajena-mem key f gs g h.1 k)

Distintas-mem :
    (key : Seg → ℤ) (fs : List Seg) (f g : Seg)
    → Distintas key fs
    → Mem f fs
    → Mem g fs
    → key f ≡ key g
    → f ≡ g
Distintas-mem key [] f g h mf mg e = absurd (not-mem-nil mf)
Distintas-mem key (x ∷ fs) f g h mf mg e =
    Or.elim (Seg-set _ _) (mem-cons.0 mf)
      (λ qf.
        Or.elim (Seg-set _ _) (mem-cons.0 mg) (λ qg. qf ∙ sym qg)
          (λ kg. absurd (Ajena-mem key x fs g h.0 kg (sym (ap key qf) ∙ e))))
      (λ kf.
        Or.elim (Seg-set _ _) (mem-cons.0 mg)
          (λ qg. absurd (Ajena-mem key x fs f h.0 kf (sym (ap key qg) ∙ sym e)))
          (λ kg. Distintas-mem key fs f g h.1 kf kg e))

-- The segments of a process are these, but for their places.
pub record Propios (id_proc : ℤ) (fs : List Seg) (u : Umv) : Type 0 where
  pub estan : (f : Seg) → Mem f fs → Mem f (fichas u)
  pub solo : (f : Seg) → Mem f (fichas u) → f.id_proc ≡ id_proc → Mem f fs

module _ (u : Umv) (id_proc : ℤ) (fs : List Seg) (h : Propios id_proc fs u)
    (tipos : Distintas (λ f. f.tipo_seg) fs) (dirs : Distintas (λ f. f.dir_logica) fs) (f : Seg)
    (m : Mem f fs) (e : f.id_proc ≡ id_proc) where
  -- Among the segments of the process, the one of its type is the one of its address.
  mismo_segmento :
      (s : Seg)
      → Mem s u.list_seg
      → (s.tipo_seg ==ℤ f.tipo_seg && s.id_proc ==ℤ id_proc)
        ≡ (s.dir_logica ==ℤ f.dir_logica && s.id_proc ==ℤ id_proc)
  mismo_segmento s ms = elim (Bool-cases (s.id_proc ==ℤ id_proc)) [
    | inl i ↦
        let mf = h.solo (ficha s) (mem-map_of_mem ficha ms) (ground arith) in
        let por_tipo = Distintas-mem (λ g. g.tipo_seg) fs (ficha s) f tipos mf m in
        let por_dir = Distintas-mem (λ g. g.dir_logica) fs (ficha s) f dirs mf m in
        elim (Bool-cases (s.tipo_seg ==ℤ f.tipo_seg)) [
          | inl t ↦ let q = ap (λ (g : Seg). g.dir_logica) (por_tipo (ground arith)) in ground arith
          | inr t ↦ elim (Bool-cases (s.dir_logica ==ℤ f.dir_logica)) [
            | inl d ↦ let q = ap (λ (g : Seg). g.tipo_seg) (por_dir (ground arith)) in ground arith
            | inr d ↦ ground arith
          ]
        ]
    | inr i ↦ ground arith
  ]

  -- Both searches find the segment.
  pub buscar-Propios :
      (s : Seg) × (buscar_segmento_tipo_seg u id_proc f.tipo_seg ≡ some s)
      × (buscar_segmento_dir_logica u id_proc f.dir_logica ≡ some s)
      × (ficha s ≡ f)
  unfolding buscar_segmento_tipo_seg buscar_segmento_dir_logica
  buscar-Propios =
      let p : Seg → Bool = λ s. s.tipo_seg ==ℤ f.tipo_seg && s.id_proc ==ℤ id_proc in
      let hay : (t : Seg) × (list_find p u.list_seg ≡ some t) =
        elim (Option-cases (list_find p u.list_seg)) [
          | inl n ↦ absurd (
              ∥∥₁_elim (exists_of_mem-map (h.estan f m)) (hlevel)
                (λ r. let k = list_find-none p u.list_seg r.0 n r.1 in let q = r.2 in ground arith))
          | inr r ↦ r
        ] in
      let r = list_find-mem p u.list_seg hay.0 hay.1 in
      (
        hay.0,
        hay.1,
        sym (list_find-ap p _ u.list_seg mismo_segmento) ∙ hay.1,
        Distintas-mem (λ g. g.tipo_seg) fs (ficha hay.0) f tipos
            (h.solo (ficha hay.0) (mem-map_of_mem ficha r.0) (ground (arith, r.1))) m
            (ground (arith, r.1)),
      )
