-- ===== src/Snapshot/Disk.antt =====
-- What internal/snapshot/store.go sees of the file system and of encoding/json. Each call of the
-- program has its outcome given from outside, so that a failure can strike at any step.
use xray_exporter.Common.{◌≡◌, ◌≢◌, Bool, Option, some, List, []}
use xray_exporter.Text.{Text}
use xray_exporter.Snapshot.Types.{Snapshot}

-- json.Marshal and json.Unmarshal on a list of snapshots, with the documented round trip; what is
-- written is never the empty text.
pub record Codec : Type 0 where
  pub encode : List Snapshot → Text
  pub decode : Text → Option (List Snapshot)
  pub decode-encode : (items : List Snapshot) → decode (encode items) ≡ some items
  pub encode-ne-nil : (items : List Snapshot) → encode items ≢ []

-- The file at the store's path, and the temporary file beside it.
pub record Files : Type 0 where
  pub target : Option Text
  pub temp : Option Text

pub data StoreError : Type 0 where
  read_store decode_store create_directory encode_store create_temp chmod_temp write_temp :
      StoreError
  close_temp replace_store : StoreError

-- The outcomes of the system calls of one `persistLocked`. `written` is what a failed write left.
pub record PersistCalls : Type 0 where
  pub mkdir_ok : Bool
  pub marshal_ok : Bool
  pub create_ok : Bool
  pub chmod_ok : Bool
  pub write_ok : Bool
  pub written : Text
  pub close_ok : Bool
  pub rename_ok : Bool
  pub remove_ok : Bool

-- The outcome of `os.ReadFile`.
pub data ReadOutcome : Type 0 where
  not_exist : ReadOutcome
  read_failed : ReadOutcome
  read_bytes : Text → ReadOutcome
