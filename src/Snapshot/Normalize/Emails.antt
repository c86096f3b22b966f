-- ===== src/Snapshot/Normalize/Emails.antt =====
-- Which identifiers with an `@` reach the samples.
use xray_exporter.Common.{
  ℕ, ◌≡◌, ◌≢◌, refl, Bool, true, false, ◌&&◌, Option, none, some, List, [], ◌∷◌, arith, any,
}
use xray_exporter.Common.Sort.{Sorting}
use xray_exporter.Text.{Text, text_less, contains_rune, trim_space, to_lower}
use xray_exporter.GoMap.{GoMap, lookup, text_eq_iff, text_eq_refl}
use xray_exporter.Snapshot.Types.{RawCounter, Identity}
use xray_exporter.Snapshot.Normalize.{
  account_of, normalize, is_blank, canonical_uuid, resolve, present,
}
use xray_exporter.Snapshot.Normalize.Spec.{belongs, expected, find_sample, names}
use xray_exporter.Snapshot.Normalize.Billing.{normalize-expected}

abbrev pub has_at : Text → Bool
has_at = contains_rune b'@'

-- The identity names an account or a proxy, and neither name looks like an email.
pub record IsCanonical (i : Identity) : Type 0 where
  pub named : (is_blank i.account_uuid && is_blank i.proxy_uuid) ≡ false
  pub account_plain : has_at i.account_uuid ≡ false
  pub proxy_plain : has_at i.proxy_uuid ≡ false

abbrev pub AllCanonical : GoMap Identity → Type 0
AllCanonical identities = (k : Text) (i : Identity) → lookup k identities ≡ some i → IsCanonical i

-- A text without an `@` is not one with an `@`.
named-plain : (u w e : Text) → has_at u ≡ true → has_at w ≡ false → names u (some (w, e)) ≡ false
named-plain u w e at plain = ground (arith, text_eq_iff w u)

names-resolve :
    (u : Text) (o : Option Identity) (identifier : Text)
    → ((i : Identity) → o ≡ some i → IsCanonical i)
    → has_at u ≡ true
    → names u (present (resolve o identifier)) ≡ false
unfolding present resolve canonical_uuid
names-resolve u none identifier canonical at = ground (arith, named-plain u identifier [] at)
names-resolve u (some i) identifier canonical at =
    let c = canonical i refl in
    ground (
      arith,
      c.named,
      named-plain u i.account_uuid i.email at c.account_plain,
      named-plain u i.proxy_uuid i.email at c.proxy_plain,
    )

module _ (sorting : Sorting text_less) (unicode_lower : ℕ → ℕ) (identities : GoMap Identity) where
  belongs-false :
      (u : Text)
      → AllCanonical identities
      → has_at u ≡ true
      → (c : RawCounter) → belongs unicode_lower identities u c ≡ false
  unfolding account_of
  belongs-false u canonical at c = ground (
    arith,
    names-resolve u (lookup (to_lower unicode_lower (trim_space c.identifier)) identities)
        (trim_space c.identifier) (canonical (to_lower unicode_lower (trim_space c.identifier))) at,
  )

  any-false :
      (u : Text)
      → AllCanonical identities
      → has_at u ≡ true
      → (cs : List RawCounter) → any (belongs unicode_lower identities u) cs ≡ false
  any-false u canonical at [] = refl
  any-false u canonical at (c ∷ cs) =
      ground (arith, belongs-false u canonical at c, any-false u canonical at cs)

  -- When every known identity names an account or a proxy by something other than an email, no
  -- sample stands at a uuid with an `@`, whatever the counters are.
  pub normalize-no_email :
      (u : Text) (cs : List RawCounter)
      → AllCanonical identities
      → has_at u ≡ true
      → find_sample u (normalize sorting unicode_lower cs identities) ≡ none
  unfolding expected
  normalize-no_email u cs canonical at =
      rw (normalize-expected, any-false u canonical at cs, expected) refl

  -- An identity with neither an account nor a proxy lets an email through: the counter that it
  -- matches gets a sample at its own trimmed identifier.
  pub normalize-email_only :
      (c : RawCounter) (cs : List RawCounter) (i : Identity)
      → is_blank (trim_space c.identifier) ≡ false
      → lookup (to_lower unicode_lower (trim_space c.identifier)) identities ≡ some i
      → is_blank i.account_uuid ≡ true
      → is_blank i.proxy_uuid ≡ true
      → find_sample (trim_space c.identifier) (normalize sorting unicode_lower (c ∷ cs) identities)
        ≢ none
  unfolding expected account_of canonical_uuid present resolve
  normalize-email_only c cs i plain found no_account no_proxy h = ground (
    arith,
    normalize-expected sorting unicode_lower identities (trim_space c.identifier) (c ∷ cs),
    text_eq_refl (trim_space c.identifier),
  )
