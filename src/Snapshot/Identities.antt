-- ===== src/Snapshot/Identities.antt =====
-- internal/snapshot/identities.go: the identities of the accounts service, indexed by their names.
pub mod Index
use xray_exporter.Common.{
  ℕ, Bool, true, false, ◌||◌, not, Option, none, some, List, [], ◌∷◌, ◌==◌, if◌then◌else◌,
}
use xray_exporter.Text.{Text, codes, trim_space, trim_end, to_lower}
use xray_exporter.GoMap.{GoMap, insert}
use xray_exporter.Snapshot.Types.{Identity}
use xray_exporter.Snapshot.Normalize.{is_blank}
use xray_exporter.Snapshot.Service.{Fetched, fetched, fetch_failed}

pub record AccountsClient : Type 0 where
  pub base_url : Text
  pub token : Text

unfoldable pub new_accounts_client : Text → Text → AccountsClient
new_accounts_client base_url token = record {
  base_url = trim_end (λ c. c == b'/') (trim_space base_url);
  token = trim_space token;
}

-- The answer of `client.Do`, with what the decoder makes of the body.
pub data Answer : Type 0 where
  no_answer : Answer
  answer : ℕ → Option (List Identity) → Answer

-- net/url and net/http as the client sees them: `url.JoinPath`, `http.NewRequest`, and the exchange
-- of a GET with a service token and a timeout.
pub record AccountsNet : Type 0 where
  pub join_path : Text → Text → Option Text
  pub request_ok : Text → Bool
  pub get : Text → Text → ℕ → Answer

module _ (unicode_lower : ℕ → ℕ) where
  -- the trimming at the head of the loop
  unfoldable pub clean : Identity → Identity
  clean i = record {
    proxy_uuid = trim_space i.proxy_uuid;
    email = to_lower unicode_lower (trim_space i.email);
    account_uuid = trim_space i.account_uuid;
  }

  -- the inner loop's body
  index_key : Identity → GoMap Identity → Text → GoMap Identity
  index_key i m key = if is_blank key then m else insert (to_lower unicode_lower key) i m

  index_identity : GoMap Identity → Identity → GoMap Identity
  unfolding index_key
  index_identity m i = index_key i (index_key i (index_key i m i.proxy_uuid) i.account_uuid) i.email

  unfoldable pub index_all : GoMap Identity → List Identity → GoMap Identity
  unfolding clean index_identity
  index_all m [] = m
  index_all m (i ∷ is) = index_all (index_identity m (clean i)) is

  decoded : Option (List Identity) → Fetched (GoMap Identity)
  unfolding index_all
  decoded none = fetch_failed (codes "decode identities")
  decoded (some is) = fetched (index_all [] is)

  received : Answer → Fetched (GoMap Identity)
  unfolding decoded
  received no_answer = fetch_failed (codes "fetch identities")
  received (answer status payload) =
      if status == 200
      then decoded payload
      else fetch_failed (codes "fetch identities: unexpected status")

  request_at : AccountsNet → Text → ℕ → Option Text → Fetched (GoMap Identity)
  unfolding received
  request_at net token timeout none = fetch_failed (codes "build identities endpoint")
  request_at net token timeout (some endpoint) =
      if net.request_ok endpoint
      then received (net.get endpoint token timeout)
      else fetch_failed (codes "build identities request")

  -- A nil client is `none`.
  unfoldable pub fetch_identities :
      AccountsNet → Option AccountsClient → ℕ → Fetched (GoMap Identity)
  unfolding request_at
  fetch_identities net none timeout =
      fetch_failed (codes "accounts identity source is not configured")
  fetch_identities net (some c) timeout =
      if is_blank c.base_url || is_blank c.token
      then fetch_failed (codes "accounts identity source is not configured")
      else request_at net c.token timeout
          (net.join_path c.base_url (codes "/api/internal/network/identities"))
