-- ===== src/Snapshot/Service/Collect.antt =====
-- What one collection leaves behind on an error that is not the disk's.
use xray_exporter.Common.{ℕ, ◌≡◌, ◌≢◌, refl, Option, none, some, List}
use xray_exporter.GoMap.{GoMap}
use xray_exporter.Snapshot.Types.{RawCounter, Identity, Snapshot}
use xray_exporter.Snapshot.Store.{Store, save}
use xray_exporter.Snapshot.Disk.{StoreError, Files}
use xray_exporter.Snapshot.Service.{
  Service, World, Fetched, fetched, fetch_failed, CollectError, collect_failed, save_error, collect,
  collect_from, snapshot_of, fetch_identities, with_counters, with_identities, saved, Outcome,
}

abbrev IsOtherError : CollectError → Type 0
IsOtherError e = (x : StoreError) → e ≢ save_error x

abbrev pub Keeps : World → Service → Outcome → Type 0
Keeps w s o = (o.0 ≡ s) × (o.1 ≡ w.files)

-- A save ends in a snapshot or in a disk error.
saved-Keeps :
    (w : World) (s : Service) (snapshot : Snapshot) (r : Store × (Option StoreError × Files))
    (e : CollectError)
    → (saved s snapshot r).2 ≡ collect_failed e
    → IsOtherError e
    → Keeps w s (saved s snapshot r)
unfolding saved
saved-Keeps w s snapshot (store, (none, files)) e h other = absurd (cc)
saved-Keeps w s snapshot (store, (some x, files)) e h other =
    let q : e ≡ save_error x = cc in absurd (other x q)

module _ (w : World) (s : Service) (e : CollectError) (other : IsOtherError e) where
  with_identities-Keeps :
      (store : Store) (counters : List RawCounter) (r : Fetched (GoMap Identity))
      → (with_identities w s store counters r).2 ≡ collect_failed e
      → Keeps w s (with_identities w s store counters r)
  unfolding with_identities
  with_identities-Keeps store counters (fetched identities) h =
      saved-Keeps w s (snapshot_of w s counters identities)
        (save w.sort_snapshots w.codec w.calls store w.files (snapshot_of w s counters identities))
        e h other
  with_identities-Keeps store counters (fetch_failed x) h = (refl, refl)

  with_counters-Keeps :
      (store : Store) (r : Fetched (List RawCounter))
      → (with_counters w s store r).2 ≡ collect_failed e
      → Keeps w s (with_counters w s store r)
  unfolding with_counters
  with_counters-Keeps store (fetched counters) h =
      with_identities-Keeps store counters (fetch_identities s.identities s.timeout) h
  with_counters-Keeps store (fetch_failed x) h = (refl, refl)

  collect_from-Keeps :
      (source : Option (ℕ → Fetched (List RawCounter))) (store : Option Store)
      → (collect_from w s source store).2 ≡ collect_failed e
      → Keeps w s (collect_from w s source store)
  unfolding collect_from
  collect_from-Keeps none store h = (refl, refl)
  collect_from-Keeps (some source) none h = (refl, refl)
  collect_from-Keeps (some source) (some store) h = with_counters-Keeps store (source s.timeout) h

-- A collection that failed for any reason but the disk has changed neither the service with its
-- store nor the files.
pub collect_failed-keeps :
    (w : World) (s : Service) (e : CollectError)
    → (collect w s).2 ≡ collect_failed e
    → ((x : StoreError) → e ≢ save_error x)
    → ((collect w s).0 ≡ s) × ((collect w s).1 ≡ w.files)
unfolding collect
collect_failed-keeps w s e failed other = collect_from-Keeps w s e other s.source s.store failed
