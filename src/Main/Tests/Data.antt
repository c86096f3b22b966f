-- ===== src/Main/Tests/Data.antt =====
-- Settings, and what the ticks of the loop meet.
use xray_exporter.Common.{ℕ, ◌*◌, Option, true, none, some, List, [], ◌∷◌}
use xray_exporter.Text.{Text, codes}
use xray_exporter.Snapshot.Identities.{AccountsNet, answer}
use xray_exporter.Snapshot.Push.{VectorNet}
use xray_exporter.Snapshot.Tests.Data.{alice, world}
use xray_exporter.Exporter.Retry.{Reply, replied, call_error}
use xray_exporter.Exporter.Metrics.{Stat}
use xray_exporter.Main.{Options, Tick, Billing}
use xray_exporter.LogParser.Metrics.{minute}

abbrev pub accounts : AccountsNet
accounts = record {
  join_path = λ base path. some path;
  request_ok = λ url. true;
  get = λ url token timeout. answer 200 (some (alice ∷ []));
}

abbrev pub vector : VectorNet
vector = record { encode = λ s. some (codes "{}"); request_ok = λ url. true; post = λ p. some 500 }

abbrev pub tick : Reply (List Stat) → Tick
tick reply = record {
  stats = record { call = λ attempt. reply; wait = λ attempt d. none };
  accounts = accounts;
  world = world;
  vector = vector;
}

abbrev pub stats : List Stat
stats = record { name = codes "user>>>p1>>>traffic>>>uplink"; value = 5 } ∷ []

-- Xray is down at the first tick.
abbrev pub ticks : List Tick
ticks = tick (call_error (codes "down")) ∷ tick (replied stats) ∷ []

abbrev pub billing : Billing
billing = record {
  user_traffic = true;
  client = record { base_url = codes "http://accounts"; token = codes "secret" };
  pusher = none;
}

abbrev pub no_options : Options
no_options = record {
  node_id = [];
  environment = [];
  accounts_base_url = [];
  internal_service_token = [];
  snapshot_store_path = [];
  snapshot_retention = [];
  snapshot_interval = [];
  vector_snapshot_url = [];
}

abbrev pub flags : Options
flags = record no_options {
  node_id = codes " n1 ";
  accounts_base_url = codes "http://accounts/";
  vector_snapshot_url = codes "http://vector";
}

abbrev pub variables : Options
variables = record no_options { node_id = codes "n2"; internal_service_token = codes "secret" }

abbrev pub hour_for_all : Text → Option ℕ
hour_for_all t = some (60 * minute)
