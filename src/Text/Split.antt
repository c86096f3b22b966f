-- ===== src/Text/Split.antt =====
-- What `split` promises: its parts, joined by the separator, are the text.
use xray_exporter.Common.{
  ℕ, zero, suc, ◌-◌, ◌≡◌, ◌≢◌, refl, ap, ◌∙◌, inl, inr, true, List, [], ◌∷◌, ◌++◌, arith, length,
  drop, Bool-cases,
}
use xray_exporter.Text.{Text, has_prefix, cons_head, split_from, split}

-- strings.Join
unfoldable pub join : Text → List Text → Text
join sep [] = []
join sep (p ∷ []) = p
join sep (p ∷ q ∷ ps) = p ++ sep ++ join sep (q ∷ ps)

split_from-cons :
    (sep : Text) (skip : ℕ) (s : Text)
    → (p : Text) × (ps : List Text) × (split_from sep skip s ≡ p ∷ ps)
unfolding split_from cons_head
split_from-cons sep skip [] = ([], [], refl)
split_from-cons sep (suc skip) (c ∷ s) = split_from-cons sep skip s
split_from-cons sep zero (c ∷ s) = elim (Bool-cases (has_prefix sep (c ∷ s))) [
  | inl e ↦ ([], split_from sep (length sep - 1) s, rw e refl)
  | inr e ↦ let (p, ps, q) = split_from-cons sep zero s in (c ∷ p, ps, rw (e, q) refl)
]

join-cons_head :
    (sep : Text) (c : ℕ) (p : Text) (ps : List Text)
    → join sep (cons_head c (p ∷ ps)) ≡ c ∷ join sep (p ∷ ps)
unfolding join cons_head
join-cons_head sep c p [] = refl
join-cons_head sep c p (q ∷ ps) = refl

has_prefix-drop : (p s : Text) → has_prefix p s ≡ true → p ++ drop (length p) s ≡ s
unfolding has_prefix
has_prefix-drop [] s h = refl
has_prefix-drop (c ∷ p) [] h = ground arith
has_prefix-drop (c ∷ p) (d ∷ s) h = ground (arith, has_prefix-drop p s)

join-split_from :
    (a : ℕ) (sep : Text) (skip : ℕ) (s : Text)
    → join (a ∷ sep) (split_from (a ∷ sep) skip s) ≡ drop skip s
unfolding split_from join
join-split_from a sep zero [] = refl
join-split_from a sep (suc skip) [] = refl
join-split_from a sep (suc skip) (c ∷ s) = join-split_from a sep skip s
join-split_from a sep zero (c ∷ s) = elim (Bool-cases (has_prefix (a ∷ sep) (c ∷ s))) [
  | inl e ↦
      let rest = join-split_from a sep (length sep) s in
      let (p, ps, q) = split_from-cons (a ∷ sep) (length sep) s in
      let at_sep = has_prefix-drop (a ∷ sep) (c ∷ s) e in
      let n : suc (length sep) - 1 ≡ length sep = omega arith in
      rw (e, n, q) (ap (λ t. a ∷ sep ++ t) (rw q at rest) ∙ at_sep)
  | inr e ↦
      let rest = join-split_from a sep zero s in
      let (p, ps, q) = split_from-cons (a ∷ sep) zero s in
      rw (e, q, join-cons_head (a ∷ sep) c p ps) (ap (◌∷◌ c) (rw q at rest))
]

-- Joining the parts of a split gives the text back, for a separator that is not empty.
pub join-split : (sep s : Text) → sep ≢ [] → join sep (split sep s) ≡ s
unfolding split
join-split [] s h = absurd (h refl)
join-split (a ∷ sep) s h = join-split_from a sep zero s
