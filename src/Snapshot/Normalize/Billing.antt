-- ===== src/Snapshot/Normalize/Billing.antt =====
-- What `normalize` promises to billing.
use mathlib.Core.List.{Mem}
use mathlib.Core.List.Perm
use xray_exporter.Common.{
  ℕ, ◌%◌, ◌≡◌, ◌≢◌, refl, Option, none, some, List, [], ◌∷◌, map, arith, if◌then◌else◌, any,
}
use xray_exporter.Common.Int64.{modulus}
use xray_exporter.Common.Sort.{Sorting}
use xray_exporter.Text.{Text, text_less}
use xray_exporter.GoMap.{GoMap, lookup, keys, Distinct, insert-Distinct}
use xray_exporter.Snapshot.Types.{RawCounter, Identity}
use xray_exporter.Snapshot.Normalize.{
  Aggregate, account_of, aggregate_all, count_for, normalize, is_uplink, is_downlink,
}
use xray_exporter.Snapshot.Normalize.Spec.{belongs, total, first_email, expected, find_sample}
use xray_exporter.Snapshot.Normalize.Aggregates.{lookup-aggregate_none}
use xray_exporter.Snapshot.Normalize.Samples.{
  IsKeyed, Ascending, Ascending-of_ordered, find_sample-samples_at, uuids-samples_at,
}
use xray_exporter.GoMap.Keys.{
  has_text-perm, has_text-keys, keys-Nodup, lookup-none-has_text, Mem→has_text,
}

module _ (unicode_lower : ℕ → ℕ) (identities : GoMap Identity) where
  count_for-Distinct :
      (account : Option (Text × Text)) (c : RawCounter) (m : GoMap Aggregate)
      → Distinct m
      → Distinct (count_for account c m)
  unfolding count_for
  count_for-Distinct none c m d = d
  count_for-Distinct (some (u, e)) c m d = insert-Distinct u _ m d

  aggregate_all-Distinct :
      (m : GoMap Aggregate) (cs : List RawCounter)
      → Distinct m
      → Distinct (aggregate_all unicode_lower identities m cs)
  unfolding aggregate_all
  aggregate_all-Distinct m [] d = d
  aggregate_all-Distinct m (c ∷ cs) d =
      aggregate_all-Distinct (count_for (account_of unicode_lower identities c) c m) cs
        (count_for-Distinct (account_of unicode_lower identities c) c m d)

  module _ (cs : List RawCounter) where
    abbrev aggregates : GoMap Aggregate
    aggregates = aggregate_all unicode_lower identities [] cs

    lookup-aggregates :
        (u : Text)
        → lookup u aggregates ≡ (
            if any (belongs unicode_lower identities u) cs
            then some (record {
              uuid = u;
              email = first_email unicode_lower identities u cs;
              uplink = total unicode_lower identities u is_uplink cs % modulus;
              downlink = total unicode_lower identities u is_downlink cs % modulus;
            })
            else none)
    lookup-aggregates u =
        lookup-aggregate_none unicode_lower identities u [] cs (unfold lookup in refl)

    aggregates-IsKeyed : IsKeyed aggregates
    aggregates-IsKeyed u a h = ground (arith, lookup-aggregates u)

    aggregates-present : (k : Text) → Mem k (keys aggregates) → lookup k aggregates ≢ none
    aggregates-present k x h =
        cc (Mem→has_text k (keys aggregates) x, lookup-none-has_text k aggregates h)

module _ (sorting : Sorting text_less) (unicode_lower : ℕ → ℕ) (identities : GoMap Identity) where
  -- For every account, the snapshot has exactly what the counters say: no sample when no counter
  -- resolves to the account, else one with the email of its first counter and, in each direction,
  -- the sum of its counters modulo 2 ^ 64.
  pub normalize-expected :
      (u : Text) (cs : List RawCounter)
      → find_sample u (normalize sorting unicode_lower cs identities)
        ≡ expected unicode_lower identities u cs
  unfolding normalize expected
  normalize-expected u cs =
      let m = aggregates unicode_lower identities cs in
      rw
        (
          find_sample-samples_at u m (sorting.sort (keys m))
              (aggregates-IsKeyed unicode_lower identities cs),
          has_text-perm u (sorting.sort (keys m)) (keys m) (sorting.sort-perm (keys m)),
        )
        (ground (arith, lookup-aggregates unicode_lower identities cs u, has_text-keys u m))

  -- The samples stand in strictly ascending order of their uuids; so no account has two.
  pub normalize-Ascending :
      (cs : List RawCounter)
      → Ascending (map (λ s. s.uuid) (normalize sorting unicode_lower cs identities))
  unfolding normalize
  normalize-Ascending cs =
      let m = aggregates unicode_lower identities cs in
      let ks = sorting.sort (keys m) in
      let p = sorting.sort-perm (keys m) in
      rw
        (uuids-samples_at m ks (aggregates-IsKeyed unicode_lower identities cs)
          (λ k x. aggregates-present unicode_lower identities cs k ((Perm.mem_iff p).0 x)))
        (Ascending-of_ordered (sorting.sort-ordered (keys m)) (
          Perm.nodup (Perm.symm p)
            (keys-Nodup m (aggregate_all-Distinct unicode_lower identities [] cs tt))))
