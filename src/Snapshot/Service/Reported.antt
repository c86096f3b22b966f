-- ===== src/Snapshot/Service/Reported.antt =====
-- The files and the snapshot that one collection returns, whatever the sources and the disk do.
use xray_exporter.Common.{ℕ, ◌≡◌, refl, ap, ◌∙◌, Option, none, some, List}
use xray_exporter.GoMap.{GoMap}
use xray_exporter.Snapshot.Types.{RawCounter, Identity, Snapshot}
use xray_exporter.Snapshot.Store.{Store, save}
use xray_exporter.Snapshot.Disk.{StoreError, Files}
use xray_exporter.Snapshot.Service.{
  Service, World, Fetched, fetched, fetch_failed, Collected, collected, collect_failed, collect,
  collect_from, snapshot_of, fetch_identities, with_counters, with_identities, saved, Outcome,
}
use xray_exporter.Snapshot.Service.Arrived.{arrived}

-- The snapshot that `Collect` returns without an error.
abbrev pub value_of : Collected → Option Snapshot
value_of (collected value) = some value
value_of (collect_failed e) = none

abbrev pub Report : Type 0
Report = Files × Option Snapshot

abbrev pub saved_report : Snapshot → Option StoreError × Files → Report
saved_report value (none, files) = (files, some value)
saved_report value (some e, files) = (files, none)

-- A snapshot is returned when both sources have sent and the save had no error.
unfoldable pub reported :
    World → Service → Store → Option (List RawCounter × GoMap Identity) → Report
reported w s store none = (w.files, none)
reported w s store (some (counters, identities)) =
    let snapshot = snapshot_of w s counters identities in
    saved_report snapshot (save w.sort_snapshots w.codec w.calls store w.files snapshot).1

abbrev pub report_of : Outcome → Report
report_of o = (o.1, value_of o.2)

saved-reported :
    (s : Service) (snapshot : Snapshot) (store : Store) (r : Option StoreError × Files)
    → report_of (saved s snapshot (store, r)) ≡ saved_report snapshot r
unfolding saved
saved-reported s snapshot store (none, files) = refl
saved-reported s snapshot store (some e, files) = refl

module _ (w : World) (s : Service) (store : Store) where
  with_identities-reported :
      (counters : List RawCounter) (r : Fetched (GoMap Identity))
      → report_of (with_identities w s store counters r)
        ≡ reported w s store (arrived (fetched counters) r)
  unfolding with_identities reported save
  with_identities-reported counters (fetched identities) = saved-reported s _ _ _
  with_identities-reported counters (fetch_failed e) = refl

  with_counters-reported :
      (r : Fetched (List RawCounter))
      → report_of (with_counters w s store r)
        ≡ reported w s store (arrived r (fetch_identities s.identities s.timeout))
  unfolding with_counters reported
  with_counters-reported (fetched counters) =
      with_identities-reported counters (fetch_identities s.identities s.timeout)
  with_counters-reported (fetch_failed e) = refl

-- What a collection of a configured service returns is decided by what has arrived and the disk.
pub collect-reported :
    (w : World) (s : Service) (source : ℕ → Fetched (List RawCounter)) (store : Store)
    → s.source ≡ some source
    → s.store ≡ some store
    → report_of (collect w s)
      ≡ reported w s store (arrived (source s.timeout) (fetch_identities s.identities s.timeout))
unfolding collect collect_from
collect-reported w s source store a b =
    ap (λ o. report_of (collect_from w s o s.store)) a
    ∙ ap (λ o. report_of (collect_from w s (some source) o)) b
    ∙ with_counters-reported w s store (source s.timeout)
