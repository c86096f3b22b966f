-- ===== src/Snapshot/Store.antt =====
-- internal/snapshot/store.go, without its pages (Snapshot.Window). A method returns what it leaves of
-- the store and the files beside its result. The mutex makes each method one step.
pub mod Retention
pub mod Persist
use xray_exporter.Common.{
  ℕ, ◌-◌, Bool, true, false, ◌||◌, not, Option, none, some, List, [], ◌∷◌, ◌++◌, ltb, leb,
  if◌then◌else◌, select,
}
use xray_exporter.Common.Members.{last?}
use xray_exporter.Common.Sort.{Sorting}
use xray_exporter.Text.{Text}
use xray_exporter.Snapshot.Types.{Time, Snapshot}
use xray_exporter.Snapshot.Normalize.{is_blank}
use xray_exporter.Snapshot.Disk.{
  Codec, Files, StoreError, read_store, decode_store, create_directory, encode_store, create_temp,
  chmod_temp, write_temp, close_temp, replace_store, PersistCalls, ReadOutcome, not_exist,
  read_failed, read_bytes,
}

-- A retention that is not positive is 0: the program only tests it with `<= 0`.
pub record Store : Type 0 where
  pub path : Text
  pub retention : ℕ
  pub items : List Snapshot

abbrev pub before : Time → Time → Bool
before = ltb

-- the comparison of `sortSnapshots`
abbrev pub older : Snapshot → Snapshot → Bool
older a b = before a.collected_at b.collected_at

pub data Loaded : Type 0 where
  opened : Store → Loaded
  failed : StoreError → Loaded

module _ (sorting : Sorting older) where
  load_items : Codec → Store → Text → Loaded
  load_items codec s [] = opened s
  load_items codec s (c ∷ payload) = elim (codec.decode (c ∷ payload)) [
    | none ↦ failed decode_store
    | some items ↦ opened (record s { items = sorting.sort items })
  ]

  load_payload : Codec → Store → ReadOutcome → Loaded
  unfolding load_items
  load_payload codec s not_exist = opened s
  load_payload codec s read_failed = failed read_store
  load_payload codec s (read_bytes payload) = load_items codec s payload

  unfoldable pub new_store : Codec → Text → ℕ → ReadOutcome → Loaded
  unfolding load_payload
  new_store codec path retention outcome =
      let s : Store = record { path = path; retention = retention; items = [] } in
      if is_blank path then opened s else load_payload codec s outcome

-- The deferred `os.Remove` of the temporary file.
remove_temp : PersistCalls → Files → Files
remove_temp calls files = if calls.remove_ok then record files { temp = none } else files

abbrev pub Persisted : Type 0
Persisted = Option StoreError × Files

-- From the created temporary file on.
fill_temp : PersistCalls → Text → Files → Persisted
unfolding remove_temp
fill_temp calls payload files =
    let created = record files { temp = some [] } in
    let torn = record files { temp = some calls.written } in
    let filled = record files { temp = some payload } in
    if not calls.chmod_ok
    then (some chmod_temp, remove_temp calls created)
    else if not calls.write_ok
    then (some write_temp, remove_temp calls torn)
    else if not calls.close_ok
    then (some close_temp, remove_temp calls filled)
    else if not calls.rename_ok
    then (some replace_store, remove_temp calls filled)
    else (none, record { target = some payload; temp = none })

unfoldable pub persist_locked : Codec → PersistCalls → Store → Files → Persisted
unfolding fill_temp
persist_locked codec calls s files =
    if is_blank s.path
    then (none, files)
    else if not calls.mkdir_ok
    then (some create_directory, files)
    else if not calls.marshal_ok
    then (some encode_store, files)
    else if not calls.create_ok
    then (some create_temp, files)
    else fill_temp calls (codec.encode s.items) files

-- The loop of `Save` keeps an item unless the retention is positive and the item older than it.
abbrev pub is_kept : ℕ → Time → Snapshot → Bool
is_kept retention collected_at item =
    leb retention 0 || not (before item.collected_at (collected_at - retention))

module _ (sorting : Sorting older) where
  unfoldable pub save_items : Store → Snapshot → Store
  save_items s snapshot = record s {
    items =
        sorting.sort
          (select (is_kept s.retention snapshot.collected_at) (s.items ++ snapshot ∷ []));
  }

  unfoldable pub save : Codec → PersistCalls → Store → Files → Snapshot → Store × Persisted
  unfolding save_items persist_locked
  save codec calls s files snapshot =
      let s' = save_items s snapshot in (s', persist_locked codec calls s' files)

-- `cloneSnapshot` copies the samples: the copy is the same value.
abbrev pub clone_snapshot : Snapshot → Snapshot
clone_snapshot snapshot = record snapshot { samples = snapshot.samples }

-- Latest
unfoldable pub latest : Store → Option Snapshot
unfolding last?
latest s = elim (last? s.items) [ none ↦ none | some snapshot ↦ some (clone_snapshot snapshot) ]
