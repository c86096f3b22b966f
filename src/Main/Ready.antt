-- ===== src/Main/Ready.antt =====
-- What the settings promise of billing where it is started.
use mathlib.Core.Option.{some-injective}
use xray_exporter.Common.{
  subst, ℕ, ◌*◌, ◌<◌, ◌≡◌, refl, inl, inr, true, false, ◌&&◌, not, Option, some, List, [], ◌∷◌,
  arith, Bool-cases,
}
use xray_exporter.Common.Sort.{Sorting}
use xray_exporter.Text.{Text, trim_start, trim_end, trim_space}
use xray_exporter.Text.Trim.{trim_space-trim_space}
use xray_exporter.Snapshot.Normalize.{is_blank}
use xray_exporter.Snapshot.Disk.{Codec, ReadOutcome}
use xray_exporter.Snapshot.Store.{Loaded, opened, failed, older, new_store}
use xray_exporter.Snapshot.Service.{new_service}
use xray_exporter.Snapshot.Identities.{new_accounts_client}
use xray_exporter.Snapshot.Push.{Pusher, new_pusher, enabled}
use xray_exporter.LogParser.Metrics.{minute}
use xray_exporter.Main.{
  first_non_empty, parse_duration, Options, Settings, settings, Started, disabled, fatal, running,
  pusher_of, with_store, start_billing,
}

first_non_empty-trim_space :
    (values : List Text) → trim_space (first_non_empty values) ≡ first_non_empty values
unfolding first_non_empty trim_space trim_start trim_end
first_non_empty-trim_space [] = refl
first_non_empty-trim_space (v ∷ values) = elim (Bool-cases (is_blank (trim_space v))) [
  | inl e ↦ rw e (first_non_empty-trim_space values)
  | inr e ↦ rw e (trim_space-trim_space v)
]

parse_duration-positive :
    (parse : Text → Option ℕ) (value : Text) (fallback : ℕ)
    → 0 < fallback
    → 0 < parse_duration parse value fallback
unfolding parse_duration
parse_duration-positive parse value fallback h = ground (arith, h)

-- A service with a node and a timeout, a client with a token, and a pusher that pushes if there is one.
pub IsReady : Started → Type 0
IsReady disabled = Unit
IsReady (fatal e) = Unit
IsReady (running service client pusher) =
    (is_blank service.node_id ≡ false)
    × (0 < service.timeout)
    × (is_blank client.token ≡ false)
    × ((p : Pusher) → pusher ≡ some p → enabled (some p) ≡ true)

-- The settings that billing is started with.
record IsNamed (s : Settings) : Type 0 where
  pub node_id : is_blank (trim_space s.node_id) ≡ false
  pub token : is_blank (trim_space s.internal_service_token) ≡ false
  pub url : trim_space s.vector_snapshot_url ≡ s.vector_snapshot_url

pusher_of-enabled :
    (s : Settings) (timeout : ℕ) (p : Pusher)
    → IsNamed s
    → pusher_of s timeout ≡ some p
    → enabled (some p) ≡ true
unfolding pusher_of new_pusher enabled
pusher_of-enabled s timeout p v h = elim (Bool-cases (is_blank s.vector_snapshot_url)) [
  | inl e ↦ let wrong = rw (pusher_of, e) at h in absurd (ground (arith, wrong))
  | inr e ↦
      let made = new_pusher s.vector_snapshot_url s.internal_service_token timeout in
      let same = rw (pusher_of, e) at h in
      let on : enabled (some made) ≡ true = rw (v.url, e, v.token) refl in
      subst (λ q. enabled (some q) ≡ true) (some-injective made p same) on
]

with_store-IsReady :
    (s : Settings) (timeout : ℕ) (loaded : Loaded)
    → IsNamed s
    → IsReady (with_store s timeout loaded)
unfolding with_store IsReady new_service new_accounts_client
with_store-IsReady s timeout (failed e) v = tt
with_store-IsReady s timeout (opened store) v =
    (v.node_id, ground arith, v.token, λ p h. pusher_of-enabled s timeout p v h)

start-IsReady :
    (sorting : Sorting older) (codec : Codec) (outcome : ReadOutcome) (s : Settings) (timeout : ℕ)
    → trim_space s.node_id ≡ s.node_id
    → trim_space s.internal_service_token ≡ s.internal_service_token
    → trim_space s.vector_snapshot_url ≡ s.vector_snapshot_url
    → IsReady (start_billing sorting codec outcome s timeout)
unfolding start_billing IsReady
start-IsReady sorting codec outcome s timeout node token url =
    elim (Bool-cases (
      not (is_blank s.node_id)
      && not (is_blank s.internal_service_token)
      && not (is_blank s.accounts_base_url))) [
        | inr e ↦ rw e tt
        | inl e ↦
            let has_node : is_blank s.node_id ≡ false = ground (arith, e) in
            let has_token : is_blank s.internal_service_token ≡ false = ground (arith, e) in
            rw e (
              with_store-IsReady s timeout
                (new_store sorting codec s.snapshot_store_path s.snapshot_retention outcome)
                (record { node_id = rw node has_node; token = rw token has_token; url = url }))
      ]

-- Billing with settings from flags and variables: the retention and the interval are positive, and where
-- billing is started, whatever the store has in it, its service has a node and a positive timeout, the
-- accounts client has a token, and a pusher, if there is one, is enabled.
pub start_billing-IsReady :
    (sorting : Sorting older) (codec : Codec) (outcome : ReadOutcome) (parse : Text → Option ℕ)
    (flags env : Options) (timeout : ℕ)
    → let s = settings parse flags env in
      (0 < s.snapshot_retention)
      × (0 < s.snapshot_interval)
      × IsReady (start_billing sorting codec outcome s timeout)
unfolding settings
start_billing-IsReady sorting codec outcome parse flags env timeout =
    let hours : 0 < 72 * (60 * minute) = omega arith in
    let one : 0 < minute = omega arith in
    (
      parse_duration-positive parse _ (72 * (60 * minute)) hours,
      parse_duration-positive parse _ minute one,
      start-IsReady sorting codec outcome (settings parse flags env) timeout
          (first_non_empty-trim_space (flags.node_id ∷ env.node_id ∷ []))
          (first_non_empty-trim_space
            (flags.internal_service_token ∷ env.internal_service_token ∷ []))
          (first_non_empty-trim_space (flags.vector_snapshot_url ∷ env.vector_snapshot_url ∷ [])),
    )
