-- ===== src/Main/Ticks.antt =====
-- What the store holds after any number of ticks.
use xray_exporter.Common.{ℕ, ◌≡◌, refl, ap, ◌∙◌, Option, none, some, List, [], ◌∷◌}
use xray_exporter.Text.{Text}
use xray_exporter.GoMap.{GoMap}
use xray_exporter.Snapshot.Types.{RawCounter, Identity, Snapshot}
use xray_exporter.Snapshot.Normalize.{normalize}
use xray_exporter.Snapshot.Disk.{Files}
use xray_exporter.Snapshot.Store.{Store, save_items}
use xray_exporter.Snapshot.Service.{Service, World, fetch_identities}
use xray_exporter.Snapshot.Service.Arrived.{arrived, stored_by, collect-store}
use xray_exporter.Main.{
  Tick, Billing, Loop, source_at, identities_at, at_tick, collect_and_push, run_snapshot_loop,
}

-- The counters and the identities of a tick, where both arrive within the service's timeout.
abbrev pub arrived_at : Billing → ℕ → Tick → Option (List RawCounter × GoMap Identity)
arrived_at b timeout t = arrived (source_at b t timeout) (identities_at b t timeout)

-- The snapshot of a tick.
abbrev pub tick_snapshot : Text → Text → Tick → List RawCounter × GoMap Identity → Snapshot
tick_snapshot node_id env t (counters, identities) = record {
  collected_at = t.world.now;
  node_id = node_id;
  env = env;
  samples = normalize t.world.sort_texts t.world.unicode_lower counters identities;
}

abbrev pub store_tick :
    Text → Text → Tick → Store → Option (List RawCounter × GoMap Identity) → Store
store_tick node_id env t store none = store
store_tick node_id env t store (some r) =
    save_items t.world.sort_snapshots store (tick_snapshot node_id env t r)

-- The store with a snapshot for each tick at which both arrived.
unfoldable pub stored_after : Billing → Text → Text → ℕ → List Tick → Store → Store
stored_after b node_id env timeout [] store = store
stored_after b node_id env timeout (t ∷ ticks) store =
    stored_after b node_id env timeout ticks
      (store_tick node_id env t store (arrived_at b timeout t))

stored_by-store_tick :
    (s : Service) (b : Billing) (t : Tick) (files : Files) (store : Store)
    (r : Option (List RawCounter × GoMap Identity))
    → stored_by (record t.world { files = files }) (at_tick b t s) store r
      ≡ store_tick s.node_id s.env t store r
unfolding stored_by
stored_by-store_tick s b t files store none = refl
stored_by-store_tick s b t files store (some (counters, identities)) = refl

-- From a service with a store on, the loop collects at every tick: afterwards the store has been given,
-- in order, the normalized snapshot of each tick at which Xray's counters and the identities of the
-- accounts arrived, whatever failed at the other ticks, on the disk, or at Vector.
pub run_snapshot_loop-stored_after :
    (b : Billing) (ticks : List Tick) (l : Loop) (store : Store)
    → l.service.store ≡ some store
    → (run_snapshot_loop b ticks l).service.store
      ≡ some (stored_after b l.service.node_id l.service.env l.service.timeout ticks store)
unfolding run_snapshot_loop collect_and_push stored_after fetch_identities
run_snapshot_loop-stored_after b [] l store h = h
run_snapshot_loop-stored_after b (t ∷ ticks) l store h =
    let s = l.service in
    let w : World = record t.world { files = l.files } in
    let both = arrived_at b s.timeout t in
    let next = stored_by w (at_tick b t s) store both in
    let e : (collect_and_push b t l).service ≡ record (at_tick b t s) { store = some next } =
      collect-store w (at_tick b t s) (source_at b t) store refl h in
    run_snapshot_loop-stored_after b ticks (collect_and_push b t l) next
      (ap (λ (x : Service). x.store) e)
    ∙ ap (λ (x : Service). some (stored_after b x.node_id x.env x.timeout ticks next)) e
    ∙ ap (λ st. some (stored_after b s.node_id s.env s.timeout ticks st))
        (stored_by-store_tick s b t l.files store both)
