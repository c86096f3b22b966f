-- ===== src/Main/Server/NoLeak.antt =====
-- What the server tells without the token.
use xray_exporter.Common.{◌≡◌, ◌≢◌, refl, sym, ap, ◌∙◌, inr, Option, none, some, arith, ◌++◌}
use xray_exporter.Text.{Text, codes}
use xray_exporter.GoMap.{lookup}
use xray_exporter.Snapshot.Types.{Time}
use xray_exporter.Snapshot.TimeText.{TimeText}
use xray_exporter.Snapshot.Store.{Store}
use xray_exporter.Snapshot.Http.{Request}
use xray_exporter.Snapshot.Http.Access.{handler-no_leak}
use xray_exporter.Main.Server.{
  Route, own_metrics, scrape, health, index_page, snapshots, routes, snapshot_routes, new_server,
  found, answer_of, snapshot_reply,
}
use xray_exporter.Main.Server.Mux.{ServeMux}
use xray_exporter.Main.Server.Routing.{new_server-registered}

lookup-snapshots :
    (p metrics_path u : Text) (token : Option Text)
    → lookup p (routes metrics_path token) ≡ some (snapshots u)
    → token ≡ some u
unfolding lookup routes snapshot_routes
lookup-snapshots p metrics_path u none h = absurd (ground (arith, h))
lookup-snapshots p metrics_path u (some t) h = ground (arith, h)

found-snapshots :
    (metrics_path u : Text) (token o : Option Text)
    → found (routes metrics_path token) o ≡ some (snapshots u)
    → token ≡ some u
unfolding found
found-snapshots metrics_path u token none h = absurd (ground (arith, h))
found-snapshots metrics_path u token (some p) h = lookup-snapshots p metrics_path u token h

module _ (metrics_path version : Text) (texts : TimeText) (now : Time) (r : Request) where
  answer_of-same :
      (s t : Store) (o : Option Route)
      → ((u : Text) → o ≡ some (snapshots u) → r.authorization ≢ codes "Bearer " ++ u)
      → answer_of version metrics_path texts now s o r
        ≡ answer_of version metrics_path texts now t o r
  unfolding answer_of
  answer_of-same s t none closed = refl
  answer_of-same s t (some own_metrics) closed = refl
  answer_of-same s t (some scrape) closed = refl
  answer_of-same s t (some health) closed = refl
  answer_of-same s t (some index_page) closed = refl
  answer_of-same s t (some (snapshots u)) closed =
      ap snapshot_reply (handler-no_leak texts now u r s t (inr (closed u refl))).0

  -- Whatever the multiplexer does with a path, and whatever the path is: a request without the
  -- header `Bearer ` and the token of billing, or any with billing off, gets the same answer for any
  -- two stores.
  pub server-no_leak :
      (mux : ServeMux) (token : Option Text) (server : Text → Option Route) (s t : Store)
      → new_server mux metrics_path token ≡ some server
      → ((u : Text) → token ≡ some u → r.authorization ≢ codes "Bearer " ++ u)
      → answer_of version metrics_path texts now s (server r.path) r
        ≡ answer_of version metrics_path texts now t (server r.path) r
  server-no_leak mux token server s t registered closed =
      let (choose, run, same) = new_server-registered mux metrics_path token server registered in
      answer_of-same s t (server r.path) (λ u h. closed u (
        found-snapshots metrics_path u token (choose r.path)
          (sym (ap (λ (f : Text → Option Route). f r.path) same) ∙ h)))
