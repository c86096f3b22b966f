-- ===== src/Snapshot/Store/Persist.antt =====
-- The files that a save leaves, and what a restart reads.
use xray_exporter.Common.{◌≡◌, ◌≢◌, refl, sym, true, false, none, some, List, [], ◌∷◌, arith}
use mathlib.Core.List.{Perm}
use xray_exporter.Common.Sort.{Sorting}
use xray_exporter.Text.{Text}
use xray_exporter.Snapshot.Types.{Snapshot}
use xray_exporter.Snapshot.Normalize.{is_blank}
use xray_exporter.Snapshot.Disk.{Codec, Files, PersistCalls, read_bytes}
use xray_exporter.Snapshot.Store.{
  Store, older, opened, new_store, persist_locked, save, save_items, load_items, load_payload,
}

module _ (codec : Codec) (calls : PersistCalls) (s : Store) (files : Files) where
  -- A save never leaves a torn store: the file at the path is the old one, with an error, or the whole
  -- encoding of the items, with none; a store with no path touches no file. A temporary file
  -- stays behind only if its removal fails or if one was there before.
  pub persist_atomic :
      ((persist_locked codec calls s files).0 ≡ none
        → is_blank s.path ≡ false
        → (persist_locked codec calls s files).1.target ≡ some (codec.encode s.items))
      × ((persist_locked codec calls s files).0 ≢ none
          → (persist_locked codec calls s files).1.target ≡ files.target)
      × (is_blank s.path ≡ true → persist_locked codec calls s files ≡ (none, files))
      × (calls.remove_ok ≡ true
          → files.temp ≡ none
          → (persist_locked codec calls s files).1.temp ≡ none)
  unfolding persist_locked
  persist_atomic = (ground arith, ground arith, ground arith, ground arith)

-- The bytes of an encoding open as the encoded items, sorted.
load_items-encode :
    (sorting : Sorting older) (codec : Codec) (s : Store) (xs : List Snapshot) (payload : Text)
    → payload ≡ codec.encode xs
    → load_items sorting codec s payload ≡ opened (record s { items = sorting.sort xs })
unfolding load_items
load_items-encode sorting codec s xs [] e = absurd (codec.encode-ne-nil xs (sym e))
load_items-encode sorting codec s xs (c ∷ payload) e = rw (e, codec.decode-encode, load_items) refl

-- What a save that succeeded has left at the path.
stored_payload :
    (codec : Codec) (calls : PersistCalls) (s : Store) (files : Files) (payload : Text)
    → is_blank s.path ≡ false
    → (persist_locked codec calls s files).0 ≡ none
    → (persist_locked codec calls s files).1.target ≡ some payload
    → payload ≡ codec.encode s.items
stored_payload codec calls s files payload named done stored =
    cc ((persist_atomic codec calls s files).0 done named)

-- After a save that succeeded, a restart from the file's bytes opens a store with the same
-- retention and path, and with the saved items in some order.
pub restart-save :
    (sorting : Sorting older) (codec : Codec) (calls : PersistCalls) (s : Store) (files : Files)
    (snapshot : Snapshot) (payload : Text)
    → is_blank s.path ≡ false
    → (save sorting codec calls s files snapshot).1.0 ≡ none
    → (save sorting codec calls s files snapshot).1.1.target ≡ some payload
    → (t : Store) × (new_store sorting codec s.path s.retention (read_bytes payload) ≡ opened t)
      × (t.path ≡ s.path)
      × (t.retention ≡ s.retention)
      × Perm t.items (save sorting codec calls s files snapshot).0.items
unfolding save new_store
restart-save sorting codec calls s files snapshot payload named done stored =
    let s' = save_items sorting s snapshot in
    let e = stored_payload codec calls s' files payload named done stored in
    let blank : Store = record { path = s.path; retention = s.retention; items = [] } in
    (
      record blank { items = sorting.sort s'.items },
      rw (named, load_payload, load_items-encode sorting codec blank s'.items payload e) refl,
      refl,
      refl,
      sorting.sort-perm s'.items,
    )
