-- ===== src/Snapshot/Tests/Data.antt =====
-- Data of the tests: sorts, texts of times, a disk and two accounts.
use mathlib.Core.List.{cons≢nil}
use xray_exporter.Common.{ℕ, ◌-◌, ◌^◌, refl, true, Option, none, some, List, [], ◌∷◌, arith}
use xray_exporter.Common.Sort.{Sorting, Order, insertion}
use xray_exporter.Text.{Text, codes, text_less}
use xray_exporter.Text.Order.{text_less-Order}
use xray_exporter.GoMap.{GoMap}
use xray_exporter.Snapshot.Types.{Time, RawCounter, Identity, Snapshot}
use xray_exporter.Snapshot.TimeText.{TimeText}
use xray_exporter.Snapshot.Disk.{Files, PersistCalls}
use xray_exporter.Snapshot.Store.{Store, older}
use xray_exporter.Snapshot.Service.{Service, World, Fetched, fetched}
use xray_exporter.Snapshot.Tests.Coding.{number_codec}

abbrev pub sort_texts : Sorting text_less
sort_texts = insertion text_less text_less-Order

pub older-Order : Order older
older-Order = record { asym = λ a b h. ground arith; trans = λ a b c h k. ground arith }

abbrev pub sort_snapshots : Sorting older
sort_snapshots = insertion older older-Order

pub parse_number : Text → Option Time
parse_number (n ∷ []) = some n
parse_number _ = none

-- A time as one number.
abbrev pub number_texts : TimeText
unfolding parse_number
number_texts = record {
  format = λ t. t ∷ [];
  parse = parse_number;
  parse-format = λ t. refl;
  format-ne-nil = λ t. cons≢nil;
}

abbrev pub ascii_lower : ℕ → ℕ
ascii_lower c = c

abbrev pub alice : Identity
alice = record {
  proxy_uuid = codes "p1";
  email = codes "alice@example.org";
  account_uuid = codes "a1";
}

abbrev pub identities : GoMap Identity
identities = (codes "alice@example.org", alice) ∷ (codes "p1", alice) ∷ []

abbrev pub counter : Text → Text → ℕ → RawCounter
counter identifier direction value = record {
  identifier = identifier;
  inbound_tag = [];
  direction = direction;
  value = value;
}

abbrev pub counters : List RawCounter
counters =
    counter (codes " Alice@Example.org ") (codes "uplink") 5
    ∷ counter (codes "p1") (codes "downlink") 7
    ∷ counter (codes "bob@example.org") (codes "uplink") 11
    ∷ counter (codes "p1") (codes "uplink") (2 ^ 64 - 3)
    ∷ []

abbrev pub snapshot_at : Time → Snapshot
snapshot_at t = record {
  collected_at = t;
  node_id = codes "node";
  env = codes "prod";
  samples = [];
}

abbrev pub store : Store
store = record {
  path = codes "snapshots.json";
  retention = 20;
  items = snapshot_at 10 ∷ snapshot_at 20 ∷ snapshot_at 30 ∷ [];
}

abbrev pub all_ok : PersistCalls
all_ok = record {
  mkdir_ok = true;
  marshal_ok = true;
  create_ok = true;
  chmod_ok = true;
  write_ok = true;
  written = [];
  close_ok = true;
  rename_ok = true;
  remove_ok = true;
}

abbrev pub no_files : Files
no_files = record { target = none; temp = none }

abbrev pub source : ℕ → Fetched (List RawCounter)
source timeout = fetched counters

abbrev pub service : Service
service = record {
  node_id = codes "node";
  env = codes "prod";
  source = some source;
  identities = some (λ timeout. fetched identities);
  store = some store;
  timeout = 5;
}

abbrev pub world : World
world = record {
  sort_texts = sort_texts;
  sort_snapshots = sort_snapshots;
  unicode_lower = ascii_lower;
  codec = number_codec;
  now = 40;
  calls = all_ok;
  files = no_files;
}
