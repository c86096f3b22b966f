-- ===== src/Main/Served.antt =====
-- What the billing API serves after the loop has collected.
use mathlib.Core.List.{Mem}
use xray_exporter.Common.{
  ℕ, ◌<◌, ◌≡◌, refl, sym, ap, ◌∙◌, inl, inr, Bool, true, false, ◌&&◌, ◌||◌, not, Option, none, some,
  List, [], ◌∷◌, ◌++◌, arith, Bool-cases, if◌then◌else◌,
}
use xray_exporter.Common.Sort.{Sorting}
use xray_exporter.Text.{Text, codes, text_eq, has_prefix, index}
use xray_exporter.GoMap.{GoMap, text_eq→eq}
use xray_exporter.Snapshot.Types.{Time, RawCounter, Identity, Snapshot}
use xray_exporter.Snapshot.TimeText.{TimeText}
use xray_exporter.Snapshot.Normalize.{is_blank}
use xray_exporter.Snapshot.Disk.{Codec, Files, ReadOutcome}
use xray_exporter.Snapshot.Store.{Store, Loaded, opened, failed, older, new_store, latest}
use xray_exporter.Snapshot.Store.Retention.{latest-save_items}
use xray_exporter.Snapshot.Service.{Service, new_service}
use xray_exporter.Snapshot.Http.{Request, latest_response, snapshot_body}
use xray_exporter.Snapshot.Http.Access.{handler-authorized}
use xray_exporter.Snapshot.Identities.{AccountsClient}
use xray_exporter.Snapshot.Push.{Pusher}
use xray_exporter.Main.{
  Settings, Started, disabled, fatal, running, with_store, start_billing, Tick, Billing, Loop,
  run_snapshot_loop,
}
use xray_exporter.Main.Ticks.{
  arrived_at, tick_snapshot, store_tick, stored_after, run_snapshot_loop-stored_after,
}
use xray_exporter.Main.Server.{
  Route, snapshot_reply, routes, snapshot_routes, new_server, answer_of,
}
use xray_exporter.Main.Server.Mux.{ServeMux, is_plain, is_clean, is_served}
use xray_exporter.Main.Server.Routing.{patterns}
use xray_exporter.Main.Server.Paths.{server-snapshots}

started_store : Started → Option Store
started_store disabled = none
started_store (fatal e) = none
started_store (running service client pusher) = service.store

started_token : Started → Bool
started_token disabled = false
started_token (fatal e) = false
started_token (running service client pusher) = true

abbrev IsOn : Started → Type 0
IsOn started = (store : Store) × (started_store started ≡ some store)

with_store-IsOn :
    (s : Settings) (timeout : ℕ) (loaded : Loaded)
    → started_token (with_store s timeout loaded) ≡ true
    → IsOn (with_store s timeout loaded)
unfolding with_store started_store started_token new_service
with_store-IsOn s timeout (failed e) h = absurd (ground arith)
with_store-IsOn s timeout (opened store) h = (store, refl)

-- Where billing runs there is a store, and the token is not blank.
start_billing-IsOn :
    (sorting : Sorting older) (codec : Codec) (outcome : ReadOutcome) (s : Settings) (timeout : ℕ)
    → started_token (start_billing sorting codec outcome s timeout) ≡ true
    → IsOn (start_billing sorting codec outcome s timeout)
      × (is_blank s.internal_service_token ≡ false)
unfolding start_billing started_token
start_billing-IsOn sorting codec outcome s timeout h =
    elim (Bool-cases (
      not (is_blank s.node_id)
      && not (is_blank s.internal_service_token)
      && not (is_blank s.accounts_base_url))) [
        | inl e ↦ rw e (
          with_store-IsOn s timeout
              (new_store sorting codec s.snapshot_store_path s.snapshot_retention outcome)
              (rw e at h),
          ground (arith, e),
        )
        | inr e ↦ absurd (let wrong = rw e at h in ground (arith, wrong))
      ]

stored_after-snoc :
    (b : Billing) (node_id env : Text) (timeout : ℕ) (ticks : List Tick) (t : Tick) (store : Store)
    → stored_after b node_id env timeout (ticks ++ t ∷ []) store
      ≡ store_tick node_id env t
          (stored_after b node_id env timeout ticks store)
          (arrived_at b timeout t)
unfolding stored_after
stored_after-snoc b node_id env timeout [] t store = refl
stored_after-snoc b node_id env timeout (u ∷ ticks) t store =
    stored_after-snoc b node_id env timeout ticks t
      (store_tick node_id env u store (arrived_at b timeout u))

abbrev latest_path : Text
latest_path = codes "/v1/snapshots/latest"

latest_path-below : has_prefix (codes "/v1/snapshots/") latest_path ≡ true
unfolding has_prefix
latest_path-below = refl

differs : (a p q : Text) → has_prefix a p ≡ false → has_prefix a q ≡ true → text_eq p q ≡ false
differs a p q h g = elim (Bool-cases (text_eq p q)) [
  | inl e ↦ absurd (cc (h, g, ap (has_prefix a) (text_eq→eq p q e)))
  | inr e ↦ e
]

latest_path-served :
    (mux : ServeMux) (metrics_path token : Text)
    → has_prefix (codes "/v1/snapshots/") metrics_path ≡ false
    → is_served (patterns mux metrics_path (some token)) latest_path ≡ true
unfolding routes snapshot_routes text_eq is_clean index has_prefix
latest_path-served mux metrics_path token apart =
    let slash =
      differs (codes "/v1/snapshots/") metrics_path (latest_path ++ codes "/") apart refl in
    rw slash (or_true (text_eq metrics_path latest_path))
  where
    or_true : (b : Bool) → ((if b then true else false) || true) ≡ true
    or_true true = refl
    or_true false = refl

-- Once a tick's counters and identities have arrived, `/v1/snapshots/latest` answers a request that has
-- the token with the normalized snapshot of that tick, whatever happened at the ticks before and
-- on the disk, if the tick's time is after those of the snapshots in the store. The metrics path is
-- plain and not below `/v1/snapshots/`.
pub latest-served :
    (mux : ServeMux) (metrics_path version : Text) (sorting : Sorting older) (codec : Codec)
    (outcome : ReadOutcome) (s : Settings) (timeout : ℕ) (service : Service)
    (client : AccountsClient) (pusher : Option Pusher) (server : Text → Option Route) (b : Billing)
    (files : Files) (ticks : List Tick) (t : Tick) (counters : List RawCounter)
    (identities : GoMap Identity) (texts : TimeText) (now : Time) (r : Request)
    → start_billing sorting codec outcome s timeout ≡ running service client pusher
    → is_plain metrics_path ≡ true
    → has_prefix (codes "/v1/snapshots/") metrics_path ≡ false
    → new_server mux metrics_path (some s.internal_service_token) ≡ some server
    → arrived_at b service.timeout t ≡ some (counters, identities)
    → ((before : Store)
        → (run_snapshot_loop b ticks
            (record { service = service; files = files; posts = [] })).service.store
          ≡ some before
        → (x : Snapshot) → Mem x before.items
        → x.collected_at < t.world.now)
    → r.path ≡ codes "/v1/snapshots/latest"
    → r.authorization ≡ codes "Bearer " ++ s.internal_service_token
    → (after : Store) × ((run_snapshot_loop b
          (ticks ++ t ∷ [])
          (record { service = service; files = files; posts = [] })).service.store
        ≡ some after)
      × (answer_of version metrics_path texts now after (server r.path) r
          ≡ snapshot_reply (record {
            status = 200;
            body =
                snapshot_body (tick_snapshot service.node_id service.env t (counters, identities));
          }))
unfolding answer_of latest_response started_store started_token
latest-served mux metrics_path version sorting codec outcome s timeout service client pusher server
      b files ticks t counters identities texts now r started plain apart registered arrived newest
      path token =
    let began : Loop = record { service = service; files = files; posts = [] } in
    let at = start_billing-IsOn sorting codec outcome s timeout (ap started_token started) in
    let (store, has_store) = at.0 in
    let held : service.store ≡ some store = sym (ap started_store started) ∙ has_store in
    let before = stored_after b service.node_id service.env service.timeout ticks store in
    let snapshot = tick_snapshot service.node_id service.env t (counters, identities) in
    let after = store_tick service.node_id service.env t before (some (counters, identities)) in
    let new = newest before (run_snapshot_loop-stored_after b ticks began store held) in
    let saved : latest after ≡ some snapshot =
      latest-save_items t.world.sort_snapshots before snapshot new in
    let api =
      server-snapshots mux metrics_path s.internal_service_token server r.path plain registered
        apart (rw path (latest_path-served mux metrics_path s.internal_service_token apart))
        (rw path latest_path-below) in
    let given =
      handler-authorized texts now s.internal_service_token r after (λ e. cc (at.1, ap is_blank e))
        token in
    (
      after,
      run_snapshot_loop-stored_after b (ticks ++ t ∷ []) began store held
          ∙ ap some (stored_after-snoc b service.node_id service.env service.timeout ticks t store)
          ∙ ap (λ o. some (store_tick service.node_id service.env t before o)) arrived,
      rw api (ap snapshot_reply (given.0 path ∙ (rw saved refl))),
    )
