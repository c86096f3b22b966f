-- ===== src/Snapshot/Types.antt =====
-- internal/snapshot/types.go. Times are nanoseconds since the zero `time.Time` (year 1, UTC), and
-- `int64` fields are bit patterns (Common.Int64).
use xray_exporter.Common.{ℕ, Bool, List}
use xray_exporter.Text.{Text}

abbrev pub Time : Type 0
Time = ℕ

pub record RawCounter : Type 0 where
  pub identifier : Text
  pub inbound_tag : Text
  pub direction : Text
  pub value : ℕ

pub record Identity : Type 0 where
  pub proxy_uuid : Text
  pub email : Text
  pub account_uuid : Text

pub record Sample : Type 0 where
  pub uuid : Text
  pub email : Text
  pub inbound_tag : Text
  pub uplink_bytes_total : ℕ
  pub downlink_bytes_total : ℕ

pub record Snapshot : Type 0 where
  pub collected_at : Time
  pub node_id : Text
  pub env : Text
  pub samples : List Sample

pub record WindowPage : Type 0 where
  pub node_id : Text
  pub env : Text
  pub snapshots : List Snapshot
  pub has_more : Bool
  pub next_cursor : Text
