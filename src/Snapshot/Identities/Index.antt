-- ===== src/Snapshot/Identities/Index.antt =====
-- What the index of identities answers.
use xray_exporter.Common.{
  ℕ, ◌≡◌, refl, Bool, ◌&&◌, ◌||◌, not, Option, none, some, List, [], ◌∷◌, arith, if◌then◌else◌,
}
use xray_exporter.Text.{Text, text_eq, to_lower}
use xray_exporter.GoMap.{GoMap, lookup, lookup-insert}
use xray_exporter.Snapshot.Types.{Identity}
use xray_exporter.Snapshot.Normalize.{is_blank}
use xray_exporter.Snapshot.Identities.{clean, index_key, index_identity, index_all}

module _ (unicode_lower : ℕ → ℕ) (k : Text) where
  -- The key is the lower case of the name, and the name is not blank.
  abbrev pub goes_by : Text → Bool
  goes_by name = not (is_blank name) && text_eq (to_lower unicode_lower name) k

  abbrev pub is_known_as : Identity → Bool
  is_known_as i = goes_by i.proxy_uuid || goes_by i.account_uuid || goes_by i.email

  -- The last identity of a payload that goes by the key.
  unfoldable pub last_known_as : List Identity → Option Identity → Option Identity
  last_known_as [] found = found
  last_known_as (i ∷ is) found =
      last_known_as is
        (if is_known_as (clean unicode_lower i) then some (clean unicode_lower i) else found)

  lookup-index_key :
      (i : Identity) (m : GoMap Identity) (name : Text)
      → lookup k (index_key unicode_lower i m name) ≡ (if goes_by name then some i else lookup k m)
  unfolding index_key
  lookup-index_key i m name = ground (arith, lookup-insert (to_lower unicode_lower name) k i m)

  lookup-index_identity :
      (i : Identity) (m : GoMap Identity)
      → lookup k (index_identity unicode_lower m i) ≡ (if is_known_as i then some i else lookup k m)
  unfolding index_identity
  lookup-index_identity i m =
      rw (lookup-index_key, lookup-index_key, lookup-index_key) (ground arith)

  lookup-index_all :
      (m : GoMap Identity) (is : List Identity)
      → lookup k (index_all unicode_lower m is) ≡ last_known_as is (lookup k m)
  unfolding index_all last_known_as
  lookup-index_all m [] = refl
  lookup-index_all m (i ∷ is) =
      rw
        (
          lookup-index_all (index_identity unicode_lower m (clean unicode_lower i)) is,
          lookup-index_identity (clean unicode_lower i) m,
        )
        refl

  -- The map of a payload answers a key with the last identity, trimmed and its email in lower case,
  -- that has the key as the lower case of its proxy, account or email, and with none otherwise.
  pub index_all-last :
      (is : List Identity) → lookup k (index_all unicode_lower [] is) ≡ last_known_as is none
  unfolding lookup
  index_all-last is = lookup-index_all [] is
