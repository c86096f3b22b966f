-- ===== src/GoMap/Keys.antt =====
-- The keys of a map, as a list of texts.
use mathlib.Core.HLevel.{hedberg}
use mathlib.Core.Bool.{Bool-discrete}
use mathlib.Core.List.{
  Mem, Perm, Nodup, Nodup-cons, Pairwise, mem-cons, not-mem-nil, mem-cons_self, mem-cons_of_mem,
}
use mathlib.Core.List.Perm
use mathlib.Core.Logic.Or
use xray_exporter.Common.{
  ◌≡◌, refl, sym, ◌∙◌, inl, inr, Bool, true, false, none, List, [], ◌∷◌, arith, any, Bool-cases,
}
use xray_exporter.Text.{Text, text_eq}
use xray_exporter.GoMap.{GoMap, lookup, keys, Distinct, text_eq_iff, text_eq_refl}

abbrev pub has_text : Text → List Text → Bool
has_text u = any (λ k. text_eq k u)

pub has_text→Mem : (u : Text) (ks : List Text) → has_text u ks ≡ true → Mem u ks
has_text→Mem u [] h = absurd (ground arith)
has_text→Mem u (k ∷ ks) h = elim (Bool-cases (text_eq k u)) [
  | inl p ↦ rw ((text_eq_iff k u).0 p) mem-cons_self
  | inr p ↦ mem-cons_of_mem k (has_text→Mem u ks (rw p at h))
]

pub Mem→has_text : (u : Text) (ks : List Text) → Mem u ks → has_text u ks ≡ true
Mem→has_text u [] m = absurd (not-mem-nil m)
Mem→has_text u (k ∷ ks) m =
    Or.elim (hedberg Bool-discrete _ _) (mem-cons.0 m) (λ (e : u ≡ k). rw (e, text_eq_refl k) refl)
      (λ (t : Mem u ks). elim (Bool-cases (text_eq k u)) [
        | inl p ↦ rw p refl
        | inr p ↦ rw p (Mem→has_text u ks t)
      ])

-- A permutation holds the same texts.
pub has_text-perm : (u : Text) (ks js : List Text) → Perm ks js → has_text u ks ≡ has_text u js
has_text-perm u ks js p = elim (Bool-cases (has_text u ks)) [
  | inl h ↦ h ∙ sym (Mem→has_text u js ((Perm.mem_iff p).0 (has_text→Mem u ks h)))
  | inr h ↦ elim (Bool-cases (has_text u js)) [
    | inl g ↦ cc (g, Mem→has_text u ks ((Perm.mem_iff p).1 (has_text→Mem u js g)))
    | inr g ↦ h ∙ sym g
  ]
]

module _ {ℓ} {V : Type ℓ} where
  pub has_text-keys : (u : Text) (m : GoMap V) → has_text u (keys m) ≡ false → lookup u m ≡ none
  unfolding lookup
  has_text-keys u [] h = refl
  has_text-keys u ((k, v) ∷ m) h = ground (arith, has_text-keys u m)

  pub lookup-none-has_text :
      (u : Text) (m : GoMap V) → lookup u m ≡ none → has_text u (keys m) ≡ false
  unfolding lookup
  lookup-none-has_text u [] h = refl
  lookup-none-has_text u ((k, v) ∷ m) h = ground (arith, lookup-none-has_text u m)

  pub keys-Nodup : (m : GoMap V) → Distinct m → Nodup (keys m)
  unfolding lookup
  keys-Nodup [] d = Pairwise.nil
  keys-Nodup ((k, v) ∷ m) d =
      Nodup-cons.1
        (λ x. cc (Mem→has_text k (keys m) x, lookup-none-has_text k m d.0), keys-Nodup m d.1)

  absent : (k : Text) (m : GoMap V) → ¬ Mem k (keys m) → lookup k m ≡ none
  absent k m h = elim (Bool-cases (has_text k (keys m))) [
    | inl e ↦ absurd (h (has_text→Mem k (keys m) e))
    | inr e ↦ has_text-keys k m e
  ]

  -- Keys that are all different make a map.
  pub Distinct-of_Nodup : (m : GoMap V) → Nodup (keys m) → Distinct m
  Distinct-of_Nodup [] d = tt
  Distinct-of_Nodup ((k, v) ∷ m) d =
      let parts = Nodup-cons.0 d in (absent k m parts.0, Distinct-of_Nodup m parts.1)

  pub Distinct-perm : (m n : GoMap V) → Perm m n → Distinct n → Distinct m
  Distinct-perm m n p d =
      Distinct-of_Nodup m
        (Perm.nodup (Perm.map (λ (e : Text × V). e.0) (Perm.symm p)) (keys-Nodup n d))
