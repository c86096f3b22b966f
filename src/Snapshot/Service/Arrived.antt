-- ===== src/Snapshot/Service/Arrived.antt =====
-- The store after one collection, whatever the sources and the disk do.
use xray_exporter.Common.{ℕ, ◌≡◌, refl, ap, ◌∙◌, Option, none, some, List}
use xray_exporter.GoMap.{GoMap}
use xray_exporter.Snapshot.Types.{RawCounter, Identity, Snapshot}
use xray_exporter.Snapshot.Store.{Store, save_items, save}
use xray_exporter.Snapshot.Disk.{StoreError, Files}
use xray_exporter.Snapshot.Service.{
  Service, World, Fetched, fetched, fetch_failed, collect, collect_from, snapshot_of,
  fetch_identities, with_counters, with_identities, saved,
}

-- What both sources have sent.
abbrev pub arrived {ℓ κ} : {A : Type ℓ} {B : Type κ} → Fetched A → Fetched B → Option (A × B)
arrived (fetched a) (fetched b) = some (a, b)
arrived (fetched a) (fetch_failed e) = none
arrived (fetch_failed e) r = none

-- The store with the snapshot of what has arrived, if it has.
unfoldable pub stored_by :
    World → Service → Store → Option (List RawCounter × GoMap Identity) → Store
stored_by w s store none = store
stored_by w s store (some (counters, identities)) =
    save_items w.sort_snapshots store (snapshot_of w s counters identities)

same_store :
    (s : Service) (store : Store) → s.store ≡ some store → s ≡ record s { store = some store }
same_store s store h = ap (λ o. record s { store = o }) h

saved-store :
    (s : Service) (snapshot : Snapshot) (store : Store) (r : Option StoreError × Files)
    → (saved s snapshot (store, r)).0 ≡ record s { store = some store }
unfolding saved
saved-store s snapshot store (none, files) = refl
saved-store s snapshot store (some e, files) = refl

module _ (w : World) (s : Service) (store : Store) (h : s.store ≡ some store) where
  with_identities-store :
      (counters : List RawCounter) (r : Fetched (GoMap Identity))
      → (with_identities w s store counters r).0
        ≡ record s { store = some (stored_by w s store (arrived (fetched counters) r)) }
  unfolding with_identities stored_by save
  with_identities-store counters (fetched identities) = saved-store s _ _ _
  with_identities-store counters (fetch_failed e) = same_store s store h

  with_counters-store :
      (r : Fetched (List RawCounter))
      → (with_counters w s store r).0 ≡ record s {
        store = some (stored_by w s store (arrived r (fetch_identities s.identities s.timeout)));
      }
  unfolding with_counters stored_by
  with_counters-store (fetched counters) =
      with_identities-store counters (fetch_identities s.identities s.timeout)
  with_counters-store (fetch_failed e) = same_store s store h

-- After a collection the service is as it was, but its store has the snapshot of the counters and the
-- identities where both have arrived, whatever the disk does.
pub collect-store :
    (w : World) (s : Service) (source : ℕ → Fetched (List RawCounter)) (store : Store)
    → s.source ≡ some source
    → s.store ≡ some store
    → (collect w s).0 ≡ record s {
      store = some (
          stored_by w s store
            (arrived (source s.timeout) (fetch_identities s.identities s.timeout)));
    }
unfolding collect collect_from
collect-store w s source store a b =
    ap (λ o. (collect_from w s o s.store).0) a
    ∙ ap (λ o. (collect_from w s (some source) o).0) b
    ∙ with_counters-store w s store b (source s.timeout)
