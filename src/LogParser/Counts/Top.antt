-- ===== src/LogParser/Counts/Top.antt =====
-- Trimming keeps the most frequent entries.
use mathlib.Core.List.{Mem, Perm, Pairwise-append, append-nil, append_assoc, not-mem-nil}
use mathlib.Core.List.Perm
use xray_exporter.Common.{
  ℕ, zero, suc, ◌≤◌, ◌≡◌, refl, sym, ap, ◌∙◌, inl, inr, false, none, List, [], ◌∷◌, ◌++◌, arith,
  if◌then◌else◌, Bool-cases, length, take, drop, min, leb, take-append-drop, length-take,
}
use xray_exporter.Common.Int64.{bias}
use xray_exporter.Common.Members.{length-perm, Bool-path_prop}
use xray_exporter.Common.Sort.{Sorting}
use xray_exporter.Text.{Text}
use xray_exporter.GoMap.{lookup, insert, Distinct, text_eq_iff}
use xray_exporter.GoMap.Keys.{Distinct-perm}
use xray_exporter.LogParser.Counts.{Counts, CountEntry, more_often, rebuild, keep_top_n}

-- Together with the entries that were left out they make up the map, none of those left out has a
-- count above one that was kept, and as many are kept as the bound allows.
pub record IsTop (counts : Counts) (n : ℕ) (kept rest : List CountEntry) : Type 0 where
  pub whole : Perm (kept ++ rest) counts
  pub most : (e f : CountEntry) → Mem e kept → Mem f rest → bias f.1 ≤ bias e.1
  pub many : length kept ≡ min n (length counts)

-- The first `n` of the sorted entries.
pub take-IsTop :
    (sorting : Sorting more_often) (counts : Counts) (n : ℕ)
    → IsTop counts n (take n (sorting.sort counts)) (drop n (sorting.sort counts))
take-IsTop sorting counts n =
    let xs = sorting.sort counts in
    let p = sorting.sort-perm counts in
    let split = take-append-drop n xs in
    let ordered =
      (Pairwise-append (λ a b. Bool-path_prop (more_often b a) false) {l₁ = take n xs}
          {l₂ = drop n xs}).0
        (rw split (sorting.sort-ordered counts)) in
    record {
      whole = rw split p;
      most = λ e f x y. ground (arith, ordered.2 e x f y);
      many = length-take n xs ∙ ap (λ (k : ℕ). min n k) (length-perm xs counts p);
    }

lookup_append_none : (k : Text) (a b : Counts) → lookup k (a ++ b) ≡ none → lookup k b ≡ none
unfolding lookup
lookup_append_none k [] b h = h
lookup_append_none k ((j, c) ∷ a) b h = ground (arith, lookup_append_none k a b)

middle_absent : (k : Text) (c : ℕ) (a b : Counts) → Distinct (a ++ (k, c) ∷ b) → lookup k a ≡ none
unfolding lookup
middle_absent k c [] b d = refl
middle_absent k c ((j, v) ∷ a) b d =
    let here = lookup_append_none j a ((k, c) ∷ b) d.0 in
    ground (arith, here, middle_absent k c a b d.1, text_eq_iff j k, text_eq_iff k j)

insert_absent :
    (k : Text) (c : ℕ) (m : Counts) → lookup k m ≡ none → insert k c m ≡ m ++ (k, c) ∷ []
unfolding lookup insert
insert_absent k c [] h = refl
insert_absent k c ((j, v) ∷ m) h = ground (arith, insert_absent k c m)

rebuild-append : (a b : Counts) → Distinct (a ++ b) → rebuild a b ≡ a ++ b
unfolding rebuild
rebuild-append a [] d = sym (append-nil a)
rebuild-append a ((k, c) ∷ b) d =
    let e = append_assoc a ((k, c) ∷ []) b in
    rw (insert_absent k c a (middle_absent k c a b d))
      (rebuild-append (a ++ (k, c) ∷ []) b (rw e d) ∙ e)

lookup-take-none : (k : Text) (n : ℕ) (m : Counts) → lookup k m ≡ none → lookup k (take n m) ≡ none
unfolding lookup
lookup-take-none k zero m h = refl
lookup-take-none k (suc n) [] h = refl
lookup-take-none k (suc n) ((j, c) ∷ m) h = ground (arith, lookup-take-none k n m)

Distinct-take : (n : ℕ) (m : Counts) → Distinct m → Distinct (take n m)
unfolding lookup
Distinct-take zero m d = tt
Distinct-take (suc n) [] d = tt
Distinct-take (suc n) ((k, c) ∷ m) d = (lookup-take-none k n m d.0, Distinct-take n m d.1)

left_out : Sorting more_often → Counts → ℕ → List CountEntry
left_out sorting counts n = if leb (length counts) n then [] else drop n (sorting.sort counts)

-- On a map, `keepTopN` keeps the top `n`: entries with their counts, as many as there are up to
-- `n`, and none of those left out has a greater count.
pub keep_top_n-IsTop :
    (sorting : Sorting more_often) (counts : Counts) (n : ℕ)
    → Distinct counts
    → (rest : List CountEntry) × IsTop counts n (keep_top_n sorting counts n) rest
unfolding keep_top_n left_out
keep_top_n-IsTop sorting counts n d = (
  left_out sorting counts n,
  elim (Bool-cases (leb (length counts) n)) [
    | inl e ↦ rw (e) (record {
      whole = rw (append-nil counts) Perm.rfl;
      most = λ x y _ m. absurd (not-mem-nil m);
      many = ground arith;
    })
    | inr e ↦
        let xs = sorting.sort counts in
        let u = Distinct-take n xs (Distinct-perm xs counts (sorting.sort-perm counts) d) in
        rw (e, rebuild-append [] (take n xs) u) (take-IsTop sorting counts n)
  ],
)

pub keep_top_n-Distinct :
    (sorting : Sorting more_often) (counts : Counts) (n : ℕ)
    → Distinct counts
    → Distinct (keep_top_n sorting counts n)
unfolding keep_top_n
keep_top_n-Distinct sorting counts n d = elim (Bool-cases (leb (length counts) n)) [
  | inl e ↦ rw e d
  | inr e ↦
      let xs = sorting.sort counts in
      let u = Distinct-take n xs (Distinct-perm xs counts (sorting.sort-perm counts) d) in
      rw (e, rebuild-append [] (take n xs) u) u
]
