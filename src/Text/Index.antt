-- ===== src/Text/Index.antt =====
-- Where `index` and the last index find what was written.
use xray_exporter.Common.{
  ℕ, suc, ◌≤◌, ◌≡◌, refl, sym, ap, ◌∙◌, inl, inr, true, false, some, List, [], ◌∷◌, ◌++◌, ==_iff,
  arith, length, take, drop, Bool-cases, Option-cases,
}
use xray_exporter.Text.{Text, has_prefix, index, contains_rune}

has_prefix-append : (p s t : Text) → length p ≤ length s → has_prefix p (s ++ t) ≡ has_prefix p s
unfolding has_prefix
has_prefix-append [] s t h = refl
has_prefix-append (c ∷ p) [] t h = absurd (omega arith)
has_prefix-append (c ∷ p) (d ∷ s) t h = ground (arith, has_prefix-append p s t)

has_prefix-length : (p s : Text) → has_prefix p s ≡ true → length p ≤ length s
unfolding has_prefix
has_prefix-length [] s h = omega arith
has_prefix-length (c ∷ p) [] h = absurd (ground arith)
has_prefix-length (c ∷ p) (d ∷ s) h = ground (arith, has_prefix-length p s)

index-nil : (t : Text) → index [] t ≡ some 0
unfolding index has_prefix
index-nil [] = refl
index-nil (c ∷ t) = refl

-- Where a search that does not find at once goes on.
later :
    (sub : Text) (c : ℕ) (s : Text) (i : ℕ)
    → index sub (c ∷ s) ≡ some i
    → has_prefix sub (c ∷ s) ≡ false
    → (j : ℕ) × (index sub s ≡ some j) × (i ≡ suc j)
unfolding index
later sub c s i h e = elim (Option-cases (index sub s)) [
  | inl n ↦ let wrong = rw (index, e, n) at h in absurd (ground (arith, wrong))
  | inr (j, q) ↦ let same = rw (index, e, q) at h in (j, q, ground (arith, same))
]

index-length : (sub s : Text) (i : ℕ) → index sub s ≡ some i → length sub ≤ length s
unfolding index
index-length [] s i h = omega arith
index-length (c ∷ sub) [] i h = absurd (ground arith)
index-length (c ∷ sub) (d ∷ s) i h = elim (Bool-cases (has_prefix (c ∷ sub) (d ∷ s))) [
  | inl e ↦ has_prefix-length (c ∷ sub) (d ∷ s) e
  | inr e ↦ let (j, q, _) = later (c ∷ sub) d s i h e in omega (arith, index-length (c ∷ sub) s j q)
]

-- What is found stays found when more text follows.
pub index-append : (sub s t : Text) (i : ℕ) → index sub s ≡ some i → index sub (s ++ t) ≡ some i
unfolding index
index-append [] [] t i h = index-nil t ∙ h
index-append (c ∷ sub) [] t i h = absurd (ground arith)
index-append sub (c ∷ s) t i h =
    let enough = index-length sub (c ∷ s) i h in
    let same = has_prefix-append sub (c ∷ s) t enough in
    elim (Bool-cases (has_prefix sub (c ∷ s))) [
      | inl e ↦ rw (same, e) (rw (index, e) at h)
      | inr e ↦
          let (j, q, n) = later sub c s i h e in
          rw (index, same, e, index-append sub s t j q) (ap some (sym n))
    ]

-- A byte after text without it.
pub index-byte :
    (b : ℕ) (s t : Text) → contains_rune b s ≡ false → index (b ∷ []) (s ++ b ∷ t) ≡ some (length s)
unfolding index has_prefix contains_rune
index-byte b [] t h = ground (arith, ==_iff b b)
index-byte b (c ∷ s) t h = ground (arith, index-byte b s t)

pub take_append {ℓ} : {A : Type ℓ} (s t : List A) → take (length s) (s ++ t) ≡ s
take_append [] t = refl
take_append (c ∷ s) t = ap (◌∷◌ c) (take_append s t)

pub drop_append {ℓ} : {A : Type ℓ} (s t : List A) → drop (length s) (s ++ t) ≡ t
drop_append [] t = refl
drop_append (c ∷ s) t = drop_append s t
