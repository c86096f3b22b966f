-- ===== src/Text/Trim.antt =====
-- Trimming twice is trimming once.
use xray_exporter.Common.{
  ℕ, ◌≡◌, refl, ap, ◌∙◌, inl, inr, Bool, true, false, ◌&&◌, [], ◌∷◌, Bool-cases,
}
use xray_exporter.Text.{Text, is_empty, is_space, trim_start, trim_end, trim_space}

module _ (p : ℕ → Bool) where
  trim_end-trim_end : (s : Text) → trim_end p (trim_end p s) ≡ trim_end p s
  unfolding trim_end
  trim_end-trim_end [] = refl
  trim_end-trim_end (c ∷ s) = elim (Bool-cases (is_empty (trim_end p s) && p c)) [
    | inl e ↦ rw e refl
    | inr e ↦ rw (e, trim_end, trim_end-trim_end s, e) refl
  ]

  and_false : (b : Bool) → b && false ≡ false
  and_false true = refl
  and_false false = refl

  trim_start-trimmed :
      (s : Text) → trim_start p (trim_end p (trim_start p s)) ≡ trim_end p (trim_start p s)
  unfolding trim_start trim_end
  trim_start-trimmed [] = refl
  trim_start-trimmed (c ∷ s) = elim (Bool-cases (p c)) [
    | inl e ↦ rw e (trim_start-trimmed s)
    | inr e ↦ rw (e, e, and_false (is_empty (trim_end p s)), e) refl
  ]

pub trim_space-trim_space : (s : Text) → trim_space (trim_space s) ≡ trim_space s
unfolding trim_space
trim_space-trim_space s =
    ap (trim_end is_space) (trim_start-trimmed is_space s)
    ∙ trim_end-trim_end is_space (trim_start is_space s)
