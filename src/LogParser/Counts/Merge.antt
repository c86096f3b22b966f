-- ===== src/LogParser/Counts/Merge.antt =====
-- What a merge and an increment do to each count.
use xray_exporter.Common.{ℕ, ◌≡◌, refl, Option, none, some, [], ◌∷◌, arith}
use xray_exporter.Common.Int64.{add64}
use xray_exporter.Text.{Text}
use xray_exporter.GoMap.{lookup, Distinct, lookup-insert, insert-Distinct, text_eq_iff}
use xray_exporter.LogParser.Counts.{Counts, or_zero, add_count, merge_counts}

abbrev pub merged : Option ℕ → Option ℕ → Option ℕ
merged old none = old
merged old (some v) = some (add64 (or_zero old) v)

-- A merge adds the batch's count to each key of the batch, wrapping as int64 does, makes the keys that
-- are new, and leaves every other key as it was.
pub lookup-merge_counts :
    (k : Text) (m d : Counts)
    → Distinct d
    → lookup k (merge_counts m d) ≡ merged (lookup k m) (lookup k d)
unfolding merge_counts lookup
lookup-merge_counts k m [] u = refl
lookup-merge_counts k m ((j, v) ∷ d) u = ground (
  arith,
  lookup-merge_counts k (add_count j v m) d u.1,
  lookup-insert j k (add64 (or_zero (lookup j m)) v) m,
  text_eq_iff j k,
)

pub merge_counts-Distinct : (m d : Counts) → Distinct m → Distinct (merge_counts m d)
unfolding merge_counts
merge_counts-Distinct m [] u = u
merge_counts-Distinct m ((j, v) ∷ d) u =
    merge_counts-Distinct (add_count j v m) d
      (unfold add_count in insert-Distinct j (add64 (or_zero (lookup j m)) v) m u)
