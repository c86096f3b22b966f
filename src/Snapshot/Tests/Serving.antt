-- ===== src/Snapshot/Tests/Serving.antt =====
-- Runs of a collection, of the API and of the push.
use xray_exporter.Common.{◌≤◌, ◌≡◌, ◌≢◌, refl, true, none, some, [], ◌∷◌, ◌++◌, arith, length}
use xray_exporter.Text.{Text, codes}
use xray_exporter.Snapshot.Service.{Service, fetch_failed, source_error, collect}
use xray_exporter.Snapshot.Service.Collect.{collect_failed-keeps}
use xray_exporter.Snapshot.Http.{Request, request_window, atoi}
use xray_exporter.Snapshot.Http.Access.{request_window-le}
use xray_exporter.Snapshot.Push.{push, push_status, Pusher, VectorNet}
use xray_exporter.Snapshot.Tests.Data.{snapshot_at, number_texts, service, world, store}

abbrev broken : Service
broken = record service { source = some (λ timeout. fetch_failed (codes "down")) }

collect_failed-keeps_example :
    ((collect world broken).0 ≡ broken) × ((collect world broken).1 ≡ world.files)
unfolding collect
collect_failed-keeps_example =
    collect_failed-keeps world broken (source_error (codes "down")) refl (λ x h. ground arith)

abbrev request : Text → Text → Request
request path authorization = record {
  path = path;
  authorization = authorization;
  since = [];
  until = [];
  limit = codes "5000";
  cursor = [];
}

abbrev latest_request : Request
latest_request = request (codes "/v1/snapshots/latest") (codes "Bearer secret")

abbrev guess : Request
guess = request (codes "/v1/snapshots/latest") (codes "Bearer guess")

wrong_token : guess.authorization ≢ codes "Bearer " ++ codes "secret"
wrong_token h = ground arith

request_window-le_example :
    length (request_window number_texts 40 store latest_request).snapshots ≤ 1000
request_window-le_example = request_window-le number_texts 40 (codes "secret") latest_request store

atoi_run : (atoi (codes "250") ≡ 250) × (atoi (codes "-3") ≡ 0) × (atoi (codes "2x") ≡ 0)
unfolding atoi
atoi_run = (refl, refl, refl)

abbrev pusher : Pusher
pusher = record { url = codes "http://vector"; token = codes "secret"; timeout = 1 }

-- Vector accepts every post.
abbrev accepting : VectorNet
accepting = record {
  encode = λ s. some (s.collected_at ∷ []);
  request_ok = λ url. true;
  post = λ p. some 200;
}

-- A redirect is an error.
push_run :
    (push accepting (some pusher) (snapshot_at 40)).1
      ∷ (push (record accepting { post = λ p. some 302 }) (some pusher) (snapshot_at 40)).1
      ∷ []
    ≡ none ∷ some (push_status 302) ∷ []
unfolding push
push_run = refl
