-- ===== src/Snapshot/Normalize.antt =====
-- `normalize` of internal/snapshot/service.go: raw counters become one sample for each account.
pub mod Spec
pub mod Aggregates
pub mod Samples
pub mod Billing
pub mod Emails
use xray_exporter.Common.{
  ℕ, Bool, true, false, ◌&&◌, Option, none, some, List, [], ◌∷◌, map, if◌then◌else◌,
}
use xray_exporter.Common.Int64.{add64}
use xray_exporter.Common.Sort.{Sorting}
use xray_exporter.Text.{Text, codes, text_eq, text_less, trim_space, to_lower, contains_rune}
use xray_exporter.GoMap.{GoMap, lookup, insert, keys}
use xray_exporter.Snapshot.Types.{RawCounter, Identity, Sample}

abbrev pub is_blank : Text → Bool
is_blank [] = true
is_blank (c ∷ s) = false

-- the local type `aggregate`
pub record Aggregate : Type 0 where
  pub uuid : Text
  pub email : Text
  pub uplink : ℕ
  pub downlink : ℕ

-- The uuid of a counter whose identity is known.
canonical_uuid : Identity → Text → Text
canonical_uuid identity identifier =
    if is_blank identity.account_uuid
    then (if is_blank identity.proxy_uuid then identifier else identity.proxy_uuid)
    else identity.account_uuid

-- `none` is a `continue`; else the uuid and the email.
resolve : Option Identity → Text → Option (Text × Text)
resolve none identifier = if contains_rune b'@' identifier then none else some (identifier, [])
resolve (some identity) identifier = some (canonical_uuid identity identifier, identity.email)

present : Option (Text × Text) → Option (Text × Text)
present none = none
present (some (uuid, email)) = if is_blank uuid then none else some (uuid, email)

-- The head of the loop's body: the account that a counter counts for, if any.
unfoldable pub account_of : (ℕ → ℕ) → GoMap Identity → RawCounter → Option (Text × Text)
unfolding canonical_uuid resolve present
account_of unicode_lower identities counter =
    let identifier = trim_space counter.identifier in
    if is_blank identifier
    then none
    else present (resolve (lookup (to_lower unicode_lower identifier) identities) identifier)

abbrev pub is_uplink : RawCounter → Bool
is_uplink counter = text_eq (trim_space counter.direction) (codes "uplink")

abbrev pub is_downlink : RawCounter → Bool
is_downlink counter = text_eq (trim_space counter.direction) (codes "downlink")

-- the `switch` on the direction
add_counter : RawCounter → Aggregate → Aggregate
add_counter counter entry =
    if is_uplink counter
    then record entry { uplink = add64 entry.uplink counter.value }
    else if is_downlink counter
    then record entry { downlink = add64 entry.downlink counter.value }
    else entry

fresh : Text → Text → Aggregate
fresh uuid email = record { uuid = uuid; email = email; uplink = 0; downlink = 0 }

entry_or_fresh : Option Aggregate → Text → Text → Aggregate
entry_or_fresh none uuid email = fresh uuid email
entry_or_fresh (some entry) uuid email = entry

count_for : Option (Text × Text) → RawCounter → GoMap Aggregate → GoMap Aggregate
count_for none counter aggregates = aggregates
count_for (some (uuid, email)) counter aggregates =
    insert uuid (add_counter counter (entry_or_fresh (lookup uuid aggregates) uuid email))
      aggregates

module _ (unicode_lower : ℕ → ℕ) (identities : GoMap Identity) where
  -- the loop over the counters
  unfoldable pub aggregate_all : GoMap Aggregate → List RawCounter → GoMap Aggregate
  unfolding account_of add_counter fresh entry_or_fresh count_for
  aggregate_all aggregates [] = aggregates
  aggregate_all aggregates (counter ∷ counters) =
      aggregate_all (count_for (account_of unicode_lower identities counter) counter aggregates)
        counters

abbrev pub sample_of : Aggregate → Sample
sample_of entry = record {
  uuid = entry.uuid;
  email = entry.email;
  inbound_tag = [];
  uplink_bytes_total = entry.uplink;
  downlink_bytes_total = entry.downlink;
}

-- the loop over the sorted keys; each key is in the map, so the `none` branch is not reached
unfoldable pub samples_at : GoMap Aggregate → List Text → List Sample
samples_at aggregates [] = []
samples_at aggregates (key ∷ rest) = elim (lookup key aggregates) [
  | none ↦ samples_at aggregates rest
  | some entry ↦ sample_of entry ∷ samples_at aggregates rest
]

unfoldable pub normalize :
    Sorting text_less → (ℕ → ℕ) → List RawCounter → GoMap Identity → List Sample
unfolding aggregate_all samples_at
normalize sorting unicode_lower counters identities =
    let aggregates = aggregate_all unicode_lower identities [] counters in
    samples_at aggregates (sorting.sort (keys aggregates))
