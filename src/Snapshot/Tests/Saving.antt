-- ===== src/Snapshot/Tests/Saving.antt =====
-- Runs of the store and of its pages.
use mathlib.Core.List.{Mem, Perm, forall_mem-cons, not-mem-nil}
use native.Mathlib.Bridge.{le_prop}
use xray_exporter.Common.{
  ◌+◌, ◌<◌, ◌≤◌, ◌≡◌, ◌≢◌, ◌↔◌, ◌∨₁◌, refl, true, false, none, some, [], ◌∷◌, arith,
}
use xray_exporter.Common.Sort.{insertion_sort}
use xray_exporter.Text.{Text}
use xray_exporter.Snapshot.Types.{Snapshot}
use xray_exporter.Snapshot.Normalize.{is_blank}
use xray_exporter.Snapshot.Disk.{PersistCalls, read_bytes}
use xray_exporter.Snapshot.Store.{Store, opened, new_store, persist_locked, save, save_items}
use xray_exporter.Snapshot.Store.Persist.{persist_atomic, restart-save}
use xray_exporter.Snapshot.Store.Retention.{mem-save_items}
use xray_exporter.Snapshot.Window.{window, in_window}
use xray_exporter.Snapshot.Window.Page.{limited, windowed, window-snapshots}
use xray_exporter.Snapshot.Window.Paging.{follow, follow-windowed}
use xray_exporter.Snapshot.Tests.Coding.{number_codec}
use xray_exporter.Snapshot.Tests.Data.{
  sort_snapshots, number_texts, snapshot_at, store, all_ok, no_files,
}

-- The rename fails.
abbrev rename_fails : PersistCalls
rename_fails = record all_ok { rename_ok = false }

persist_atomic_example :
    ((persist_locked number_codec rename_fails store no_files).0 ≡ none
      → is_blank store.path ≡ false
      → (persist_locked number_codec rename_fails store no_files).1.target
        ≡ some (number_codec.encode store.items))
    × ((persist_locked number_codec rename_fails store no_files).0 ≢ none
        → (persist_locked number_codec rename_fails store no_files).1.target ≡ no_files.target)
    × (is_blank store.path ≡ true
        → persist_locked number_codec rename_fails store no_files ≡ (none, no_files))
    × (rename_fails.remove_ok ≡ true
        → no_files.temp ≡ none
        → (persist_locked number_codec rename_fails store no_files).1.temp ≡ none)
persist_atomic_example = persist_atomic number_codec rename_fails store no_files

-- A retention of 20 drops the snapshot of time 10 when that of 40 comes.
save_items_run :
    save_items sort_snapshots store (snapshot_at 40)
    ≡ record store { items = snapshot_at 20 ∷ snapshot_at 30 ∷ snapshot_at 40 ∷ [] }
unfolding save_items insertion_sort
save_items_run = refl

abbrev saved_payload : Text
saved_payload = number_codec.encode (snapshot_at 20 ∷ snapshot_at 30 ∷ snapshot_at 40 ∷ [])

restart-save_example :
    (t : Store) × (new_store sort_snapshots number_codec store.path store.retention
        (read_bytes saved_payload)
      ≡ opened t)
    × (t.path ≡ store.path)
    × (t.retention ≡ store.retention)
    × Perm t.items (save sort_snapshots number_codec all_ok store no_files (snapshot_at 40)).0.items
unfolding save insertion_sort
restart-save_example =
    restart-save sort_snapshots number_codec all_ok store no_files (snapshot_at 40) saved_payload
      refl refl refl

mem-save_items_example :
    Mem (snapshot_at 20) (save_items sort_snapshots store (snapshot_at 40)).items ↔ (
      (Mem (snapshot_at 20) store.items ∨₁ (snapshot_at 20 ≡ snapshot_at 40))
      × (0 < store.retention → 40 ≤ 20 + store.retention))
mem-save_items_example = mem-save_items sort_snapshots store (snapshot_at 40) (snapshot_at 20)

older_than_40 : (x : Snapshot) → Mem x store.items → x.collected_at < 40
older_than_40 = (forall_mem-cons (λ x. le_prop)).1 (
  omega arith,
  (forall_mem-cons (λ x. le_prop)).1 (
    omega arith,
    (forall_mem-cons (λ x. le_prop)).1 (omega arith, λ x m. absurd (not-mem-nil m)),
  ),
)

window-snapshots_example :
    (window number_texts.format store 5 30 2 none).snapshots
    ≡ limited 2 (windowed 5 30 none store.items)
window-snapshots_example = window-snapshots number_texts.format store 5 30 none 2

window_run :
    (window number_texts.format store 5 30 2 none).snapshots ≡ snapshot_at 10 ∷ snapshot_at 20 ∷ []
unfolding window in_window
window_run = refl

follow-windowed_example : follow number_texts store 5 30 1 4 none ≡ windowed 5 30 none store.items
unfolding in_window
follow-windowed_example =
    follow-windowed number_texts store 5 30 0 4 none
      ((omega arith, (omega arith, tt)), ((omega arith, tt), (tt, tt))) (omega arith)
