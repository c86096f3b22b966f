-- ===== src/Snapshot/Normalize/Spec.antt =====
-- What a normalized snapshot says of one account, described from the counters alone.
use xray_exporter.Common.{
  ℕ, ◌+◌, ◌%◌, Bool, false, ◌&&◌, Option, none, some, List, [], ◌∷◌, if◌then◌else◌, any,
}
use xray_exporter.Common.Int64.{modulus}
use xray_exporter.Text.{Text, text_eq}
use xray_exporter.GoMap.{GoMap}
use xray_exporter.Snapshot.Types.{RawCounter, Identity, Sample}
use xray_exporter.Snapshot.Normalize.{account_of, is_uplink, is_downlink}

abbrev pub names : Text → Option (Text × Text) → Bool
names u none = false
names u (some (uuid, email)) = text_eq uuid u

abbrev pub email_or : Option (Text × Text) → Text → Text
email_or none e = e
email_or (some (uuid, email)) e = email

module _ (unicode_lower : ℕ → ℕ) (identities : GoMap Identity) (u : Text) where
  -- The counter counts for the account `u`.
  abbrev pub belongs : RawCounter → Bool
  belongs counter = names u (account_of unicode_lower identities counter)

  -- The sum of the account's counters in one direction, with no bound on its size.
  unfoldable pub total : (RawCounter → Bool) → List RawCounter → ℕ
  total in_direction [] = 0
  total in_direction (c ∷ cs) =
      (if belongs c && in_direction c then c.value else 0) + total in_direction cs

  -- The email that came with the account's first counter.
  unfoldable pub first_email : List RawCounter → Text
  first_email [] = []
  first_email (c ∷ cs) =
      if belongs c then email_or (account_of unicode_lower identities c) [] else first_email cs

  unfoldable pub expected : List RawCounter → Option Sample
  unfolding total first_email
  expected counters =
      if any belongs counters
      then some (record {
        uuid = u;
        email = first_email counters;
        inbound_tag = [];
        uplink_bytes_total = total is_uplink counters % modulus;
        downlink_bytes_total = total is_downlink counters % modulus;
      })
      else none

-- The sample of an account in a snapshot.
unfoldable pub find_sample : Text → List Sample → Option Sample
find_sample u [] = none
find_sample u (s ∷ rest) = if text_eq s.uuid u then some s else find_sample u rest
