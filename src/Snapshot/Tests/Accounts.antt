-- ===== src/Snapshot/Tests/Accounts.antt =====
-- Runs of `normalize` and of the identity index.
use xray_exporter.Common.{subst, ◌≡◌, ◌≢◌, refl, none, some, [], ◌∷◌, arith}
use xray_exporter.Text.{codes, trim_space, to_lower, text_eq, contains_rune}
use xray_exporter.Common.{Bool-cases, inl, inr}
use xray_exporter.Common.Sort.{insertion_sort}
use xray_exporter.GoMap.{lookup, insert}
use xray_exporter.Snapshot.Types.{Identity, Sample}
use xray_exporter.Snapshot.Normalize.{normalize}
use xray_exporter.Snapshot.Normalize.Spec.{find_sample, expected}
use xray_exporter.Snapshot.Normalize.Billing.{normalize-expected}
use xray_exporter.Snapshot.Normalize.Emails.{
  AllCanonical, IsCanonical, normalize-no_email, normalize-email_only,
}
use xray_exporter.Snapshot.Identities.{index_all}
use xray_exporter.Snapshot.Identities.Index.{last_known_as, index_all-last}
use xray_exporter.Snapshot.Tests.Data.{
  sort_texts, ascii_lower, alice, identities, counter, counters,
}

alice_sample : Sample
alice_sample = record {
  uuid = codes "a1";
  email = codes "alice@example.org";
  inbound_tag = [];
  uplink_bytes_total = 2;
  downlink_bytes_total = 7;
}

-- The email, the proxy's uplink past 2 ^ 64 and its downlink make one sample; Bob, unknown, makes none.
normalize_run : normalize sort_texts ascii_lower counters identities ≡ alice_sample ∷ []
unfolding normalize trim_space to_lower lookup alice_sample insertion_sort text_eq insert
    contains_rune
normalize_run = refl

normalize-expected_example :
    find_sample (codes "a1") (normalize sort_texts ascii_lower counters identities)
    ≡ expected ascii_lower identities (codes "a1") counters
normalize-expected_example =
    normalize-expected sort_texts ascii_lower identities (codes "a1") counters

alice-IsCanonical : IsCanonical alice
unfolding contains_rune
alice-IsCanonical = record { named = refl; account_plain = refl; proxy_plain = refl }

same-IsCanonical : (i : Identity) → some alice ≡ some i → IsCanonical i
same-IsCanonical i h = let e : alice ≡ i = cc in subst IsCanonical e alice-IsCanonical

no_identity : (i : Identity) → none ≢ some i
no_identity i h = ground arith

all_canonical : AllCanonical identities
unfolding lookup
all_canonical k i h = elim (Bool-cases (text_eq (codes "alice@example.org") k)) [
  | inl e ↦ same-IsCanonical i (rw (e) at h)
  | inr e ↦ elim (Bool-cases (text_eq (codes "p1") k)) [
    | inl q ↦ same-IsCanonical i (rw (e, q) at h)
    | inr q ↦ absurd (no_identity i (rw (e, q) at h))
  ]
]

normalize-no_email_example :
    find_sample (codes "bob@example.org") (normalize sort_texts ascii_lower counters identities)
    ≡ none
unfolding contains_rune
normalize-no_email_example =
    normalize-no_email sort_texts ascii_lower identities (codes "bob@example.org") counters
      all_canonical refl

abbrev eve : Identity
eve = record { proxy_uuid = []; email = codes "eve@example.org"; account_uuid = [] }

normalize-email_only_example :
    find_sample (trim_space (codes "eve@example.org")) (
      normalize sort_texts ascii_lower
        (counter (codes "eve@example.org") (codes "uplink") 1 ∷ [])
        ((codes "eve@example.org", eve) ∷ []))
    ≢ none
unfolding lookup trim_space to_lower text_eq
normalize-email_only_example =
    normalize-email_only sort_texts ascii_lower ((codes "eve@example.org", eve) ∷ [])
      (counter (codes "eve@example.org") (codes "uplink") 1) [] eve refl refl refl refl

index_all-last_example :
    lookup (codes "p1") (index_all ascii_lower [] (alice ∷ eve ∷ []))
    ≡ last_known_as ascii_lower (codes "p1") (alice ∷ eve ∷ []) none
index_all-last_example = index_all-last ascii_lower (codes "p1") (alice ∷ eve ∷ [])
