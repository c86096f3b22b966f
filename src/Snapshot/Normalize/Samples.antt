-- ===== src/Snapshot/Normalize/Samples.antt =====
-- The samples of a snapshot against the map of aggregates they are read from.
use mathlib.Core.List.{Mem, Nodup, Pairwise, mem-cons_self, mem-cons_of_mem}
use mathlib.Core.List.Pairwise
use xray_exporter.Common.{
  ◌≡◌, ◌≢◌, refl, ap, ap₂, inl, inr, true, false, Option, none, some, List, [], ◌∷◌, map, arith,
  if◌then◌else◌, Option-cases,
}
use xray_exporter.Common.Sort.{InOrder}
use xray_exporter.Text.{Text, text_less}
use xray_exporter.GoMap.{GoMap, lookup, text_eq_iff}
use xray_exporter.GoMap.Keys.{has_text}
use xray_exporter.Snapshot.Types.{Sample}
use xray_exporter.Snapshot.Normalize.{Aggregate, sample_of, samples_at}
use xray_exporter.Snapshot.Normalize.Spec.{find_sample}

-- Every entry stands at its own uuid.
abbrev pub IsKeyed : GoMap Aggregate → Type 0
IsKeyed m = (u : Text) (a : Aggregate) → lookup u m ≡ some a → a.uuid ≡ u

abbrev pub option_sample : Option Aggregate → Option Sample
option_sample none = none
option_sample (some a) = some (sample_of a)

pub find_sample-samples_at :
    (u : Text) (m : GoMap Aggregate) (ks : List Text)
    → IsKeyed m
    → find_sample u (samples_at m ks) ≡ (if has_text u ks then option_sample (lookup u m) else none)
unfolding find_sample samples_at
find_sample-samples_at u m [] keyed = refl
find_sample-samples_at u m (k ∷ ks) keyed = elim (Option-cases (lookup k m)) [
  | inl e ↦ ground (arith, text_eq_iff k u, find_sample-samples_at u m ks keyed)
  | inr (a, e) ↦ ground (arith, keyed k a e, text_eq_iff k u, find_sample-samples_at u m ks keyed)
]

-- The samples stand at the keys that they were read at.
pub uuids-samples_at :
    (m : GoMap Aggregate) (ks : List Text)
    → IsKeyed m
    → ((k : Text) → Mem k ks → lookup k m ≢ none)
    → map (λ s. s.uuid) (samples_at m ks) ≡ ks
unfolding samples_at
uuids-samples_at m [] keyed present = refl
uuids-samples_at m (k ∷ ks) keyed present = elim (Option-cases (lookup k m)) [
  | inl e ↦ absurd (present k mem-cons_self e)
  | inr (a, e) ↦
      rw (e, samples_at, keyed k a e)
        (ap (◌∷◌ k) (uuids-samples_at m ks keyed (λ j x. present j (mem-cons_of_mem k x))))
]

-- The order on texts is total.
text_less_total : (s t : Text) → text_less t s ≡ false → s ≢ t → text_less s t ≡ true
unfolding text_less
text_less_total [] [] h n = absurd (n refl)
text_less_total [] (b ∷ t) h n = refl
text_less_total (a ∷ s) [] h n = absurd (ground arith)
text_less_total (a ∷ s) (b ∷ t) h n =
    ground (arith, text_less_total s t, λ (p : s ≡ t) (q : a ≡ b). n (ap₂ ◌∷◌ q p))

abbrev pub Ascending : List Text → Type 0
Ascending = Pairwise (λ a b. text_less a b ≡ true)

-- Texts in order, none of them twice, ascend.
pub Ascending-of_ordered :
    {ks : List Text} → Pairwise (InOrder text_less) ks → Nodup ks → Ascending ks
Ascending-of_ordered {ks} ordered distinct =
    Pairwise.imp (λ a b h. text_less_total a b h.0 h.1) (Pairwise.and ordered distinct)
