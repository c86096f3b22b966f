-- ===== src/LogParser/Batch/Tally.antt =====
-- A count map after one increment for each name of a list.
use xray_exporter.Common.{
  ℕ, zero, suc, ◌≡◌, refl, ap, ◌∙◌, inl, inr, Bool-cases, Option, none, some, List, [], ◌∷◌, arith,
  if◌then◌else◌,
}
use xray_exporter.Common.Int64.{add64}
use xray_exporter.Text.{Text, text_eq}
use xray_exporter.GoMap.{lookup, Distinct, lookup-insert, insert-Distinct, text_eq→eq}
use xray_exporter.LogParser.Counts.{Counts, or_zero, add_count, merge_counts}
use xray_exporter.LogParser.Counts.Merge.{merged, lookup-merge_counts}
use xray_exporter.LogParser.Batch.{count}

-- How often a name stands in a list of names, some of them missing.
unfoldable pub occurrences : Text → List (Option Text) → ℕ
occurrences k [] = 0
occurrences k (none ∷ names) = occurrences k names
occurrences k (some j ∷ names) =
    let rest = occurrences k names in if text_eq j k then suc rest else rest

-- A count raised by a number of increments; a missing one is made by the first of them.
abbrev pub increased : Option ℕ → ℕ → Option ℕ
increased old zero = old
increased old (suc n) = some (add64 (or_zero old) (suc n))

unfoldable pub count_option : Option Text → Counts → Counts
count_option none m = m
count_option (some k) m = count k m

unfoldable pub count_all : List (Option Text) → Counts → Counts
unfolding count_option
count_all [] m = m
count_all (name ∷ names) m = count_all names (count_option name m)

increased-increased :
    (old : Option ℕ) (n : ℕ) → increased (some (add64 (or_zero old) 1)) n ≡ increased old (suc n)
increased-increased old zero = refl
increased-increased old (suc n) = ap some (omega arith)

pub lookup-count_all :
    (k : Text) (names : List (Option Text)) (m : Counts)
    → lookup k (count_all names m) ≡ increased (lookup k m) (occurrences k names)
unfolding count_all occurrences count_option
lookup-count_all k [] m = refl
lookup-count_all k (none ∷ names) m = lookup-count_all k names m
lookup-count_all k (some j ∷ names) m =
    let rest = lookup-count_all k names (count j m) in
    let here : lookup k (count j m)
        ≡ (if text_eq j k then some (add64 (or_zero (lookup j m)) 1) else lookup k m) =
      unfold count add_count in lookup-insert j k (add64 (or_zero (lookup j m)) 1) m in
    elim (Bool-cases (text_eq j k)) [
      | inl e ↦
          rest
          ∙ (rw (e, here, e, text_eq→eq j k e)
              (increased-increased (lookup k m) (occurrences k names)))
      | inr e ↦ rest ∙ (rw (e, here, e) refl)
    ]

pub count_all-Distinct :
    (names : List (Option Text)) (m : Counts) → Distinct m → Distinct (count_all names m)
unfolding count_all count_option count
count_all-Distinct [] m d = d
count_all-Distinct (none ∷ names) m d = count_all-Distinct names m d
count_all-Distinct (some k ∷ names) m d =
    count_all-Distinct names (count k m)
      (unfold add_count in insert-Distinct k (add64 (or_zero (lookup k m)) 1) m d)

merged-increased : (old : Option ℕ) (n : ℕ) → merged old (increased none n) ≡ increased old n
merged-increased old zero = refl
merged-increased old (suc n) = ap some (omega arith)

-- Counting into a new map and merging it is counting into the old one.
pub lookup-merge_counts-count_all :
    (k : Text) (names : List (Option Text)) (m : Counts)
    → lookup k (merge_counts m (count_all names [])) ≡ increased (lookup k m) (occurrences k names)
unfolding lookup
lookup-merge_counts-count_all k names m =
    lookup-merge_counts k m (count_all names []) (count_all-Distinct names [] tt)
    ∙ ap (merged (lookup k m)) (lookup-count_all k names [])
    ∙ merged-increased (lookup k m) (occurrences k names)
