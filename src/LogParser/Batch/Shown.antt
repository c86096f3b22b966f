-- ===== src/LogParser/Batch/Shown.antt =====
-- Maps without the addresses that are filtered.
use mathlib.Core.List.Perm
use xray_exporter.Common.{
  ℕ, ◌≡◌, refl, ◌∙◌, inl, inr, Bool, true, false, Option, none, some, List, [], ◌∷◌, ◌++◌, arith,
  Bool-cases,
}
use xray_exporter.Common.Sort.{Sorting}
use xray_exporter.Text.{Text}
use xray_exporter.GoMap.{GoMap, lookup, insert, lookup-insert, text_eq_iff, text_eq_refl, Distinct}
use xray_exporter.GoMap.Keys.{has_text-perm, has_text-keys, lookup-none-has_text}
use xray_exporter.LogParser.Ring.{Time}
use xray_exporter.LogParser.Counts.{
  Counts, CountMaps, more_often, merge_counts, add_count, keep_top_n,
}
use xray_exporter.LogParser.Counts.Top.{keep_top_n-IsTop}
use xray_exporter.LogParser.Metrics.{MetricsDelta, merge_ips}
use xray_exporter.LogParser.Line.{is_ip_address_fast, normalize_ip, extract_domain}
use xray_exporter.LogParser.Line.Client.{LogEntry}
use xray_exporter.LogParser.Batch.{
  Setting, process_lines, process_line, process_entry, entry_of_line, add_user, is_user,
  count_target, count_user, count_named, count, target_of, target_names_of, counted_ip,
}

-- No key that a test holds of is in the map.
abbrev pub Without {ℓ} : {V : Type ℓ} → (Text → Bool) → GoMap V → Type ℓ
Without filtered m = (k : Text) → filtered k ≡ true → lookup k m ≡ none

module _ (filtered : Text → Bool) where
  insert-Without {ℓ} :
      {V : Type ℓ} (k : Text) (v : V) (m : GoMap V)
      → filtered k ≡ false
      → Without filtered m
      → Without filtered (insert k v m)
  insert-Without k v m h w j f = ground (arith, lookup-insert k j v m, text_eq_iff k j, w j f, h, f)

  -- The head and the rest of such a map.
  Without-cons {ℓ} :
      {V : Type ℓ} (k : Text) (v : V) (m : GoMap V)
      → Without filtered ((k, v) ∷ m)
      → (filtered k ≡ false) × Without filtered m
  unfolding lookup
  Without-cons k v m w = (
    elim (Bool-cases (filtered k)) [
      | inl e ↦ absurd (ground (arith, w k e, text_eq_refl k))
      | inr e ↦ e
    ],
    λ j f. ground (arith, w j f),
  )

  pub merge_counts-Without :
      (m d : Counts) → Without filtered m → Without filtered d → Without filtered (merge_counts m d)
  unfolding merge_counts add_count
  merge_counts-Without m [] w u = w
  merge_counts-Without m ((k, c) ∷ d) w u =
      let (fine, rest) = Without-cons k c d u in
      merge_counts-Without (add_count k c m) d (insert-Without k _ m fine w) rest

  pub merge_ips-Without :
      (m d : GoMap Time)
      → Without filtered m
      → Without filtered d
      → Without filtered (merge_ips m d)
  unfolding merge_ips
  merge_ips-Without m [] w u = w
  merge_ips-Without m ((k, t) ∷ d) w u =
      let (fine, rest) = Without-cons k t d u in
      merge_ips-Without (insert k t m) d (insert-Without k t m fine w) rest

lookup-append-none : (k : Text) (a b : Counts) → lookup k (a ++ b) ≡ none → lookup k a ≡ none
unfolding lookup
lookup-append-none k [] b h = refl
lookup-append-none k ((j, c) ∷ a) b h = ground (arith, lookup-append-none k a b)

pub keep_top_n-Without :
    (filtered : Text → Bool) (sorting : Sorting more_often) (m : Counts) (n : ℕ)
    → Distinct m
    → Without filtered m
    → Without filtered (keep_top_n sorting m n)
keep_top_n-Without filtered sorting m n d w k f =
    let (rest, top) = keep_top_n-IsTop sorting m n d in
    let same = has_text-perm k _ _ (Perm.map (λ (e : Text × ℕ). e.0) top.whole) in
    lookup-append-none k (keep_top_n sorting m n) rest
      (has_text-keys k _ (same ∙ lookup-none-has_text k m (w k f)))

module _ (s : Setting) (cutoff : Time) where
  -- What is shown of a batch.
  pub record IsBatch (d : MetricsDelta) : Type 0 where
    pub users : Without s.should_filter d.unique_ips
    pub targets : Without s.should_filter d.counts.ips

  counted_ip-Without :
      (ip : Text) (m : Counts)
      → Without s.should_filter m
      → Without s.should_filter (count_named (counted_ip s.should_filter ip) m)
  unfolding counted_ip count_named count add_count
  counted_ip-Without [] m w = w
  counted_ip-Without (c ∷ ip) m w = elim (Bool-cases (s.should_filter (c ∷ ip))) [
    | inl e ↦ rw e w
    | inr e ↦ rw e (insert-Without s.should_filter (c ∷ ip) _ m e w)
  ]

  target-Without :
      (domain : Text) (m : Counts)
      → Without s.should_filter m
      → Without s.should_filter (count_named (target_names_of s domain).0 m)
  unfolding target_names_of count_named
  target-Without [] m w = w
  target-Without (c ∷ domain) m w = elim (Bool-cases (is_ip_address_fast (c ∷ domain))) [
    | inl e ↦ rw e (counted_ip-Without (normalize_ip s.texts (c ∷ domain)) m w)
    | inr e ↦ rw e w
  ]

  count_target-Without :
      (line : Text) (m : CountMaps)
      → Without s.should_filter m.ips
      → Without s.should_filter (count_target s line m).ips
  unfolding count_target target_of
  count_target-Without line m w = target-Without (extract_domain line) m.ips w

  process_entry-IsBatch :
      (d : MetricsDelta) (line : Text) (o : Option LogEntry)
      → IsBatch d
      → IsBatch (process_entry s cutoff d line o)
  unfolding process_entry add_user count_user is_user
  process_entry-IsBatch d line none v = v
  process_entry-IsBatch d line (some entry) v =
      let targets = count_target-Without line d.counts v.targets in
      elim (Bool-cases (is_user s cutoff entry)) [
        | inl e ↦
            let fine : s.should_filter entry.ip ≡ false = ground (arith, e) in
            rw e (record {
              users =
                  insert-Without s.should_filter entry.ip entry.timestamp d.unique_ips fine v.users;
              targets = targets;
            })
        | inr e ↦ rw e (record { users = v.users; targets = targets })
      ]

  pub process_lines-IsBatch :
      (d : MetricsDelta) (lines : List Text) → IsBatch d → IsBatch (process_lines s cutoff d lines)
  unfolding process_lines process_line
  process_lines-IsBatch d [] v = v
  process_lines-IsBatch d (line ∷ lines) v =
      process_lines-IsBatch (process_line s cutoff d line) lines
        (process_entry-IsBatch d line (entry_of_line s line) v)
