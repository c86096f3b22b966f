-- ===== src/Main/Server.antt =====
-- The HTTP routes of main.go: what each path is answered with.
pub mod Mux
pub mod Routing
pub mod Paths
pub mod NoLeak
use xray_exporter.Common.{ℕ, Option, none, some, List, [], ◌∷◌, ◌++◌, length, ◌≤◌}
use xray_exporter.Text.{Text, codes}
use xray_exporter.GoMap.{GoMap, lookup, keys}
use xray_exporter.Snapshot.Types.{Time}
use xray_exporter.Snapshot.TimeText.{TimeText}
use xray_exporter.Snapshot.Store.{Store}
use xray_exporter.Snapshot.Http.{Request, Response, handler}
use xray_exporter.Main.Server.Mux.{ServeMux}

-- What a pattern is registered with: the program's own metrics (`promhttp.Handler`), a scrape of the
-- exporter (`scrapeHandler`), `healthHandler`, the snapshot API with its token, and the index page.
pub data Route : Type 0 where
  own_metrics scrape health index_page : Route
  snapshots : Text → Route

-- With billing on there is a token, and the snapshot API is served.
unfoldable pub snapshot_routes : Option Text → GoMap Route
snapshot_routes none = []
snapshot_routes (some token) = (codes "/v1/snapshots/", snapshots token) ∷ []

-- The registrations, in their order.
unfoldable pub routes : Text → Option Text → GoMap Route
unfolding snapshot_routes
routes metrics_path token =
    (codes "/metrics", own_metrics)
    ∷ (metrics_path, scrape)
    ∷ (codes "/health", health)
    ∷ (snapshot_routes token ++ (codes "/", index_page) ∷ [])

abbrev line_end : Text
line_end = 10 ∷ []

-- The page at "/".
unfoldable pub index_html : Text → Text → Text
index_html version metrics_path =
    codes "<html>"
    ++ line_end
    ++ codes "<head><title>Xray Exporter</title></head>"
    ++ line_end
    ++ codes "<body>"
    ++ line_end
    ++ codes "<h1>Xray Exporter "
    ++ version
    ++ codes "</h1>"
    ++ line_end
    ++ codes "<p><a href='/metrics'>Exporter Metrics</a></p>"
    ++ line_end
    ++ codes "<p><a href='"
    ++ metrics_path
    ++ codes "'>Scrape Xray Metrics</a></p>"
    ++ line_end
    ++ codes "<p><a href='/health'>Health Check</a></p>"
    ++ line_end
    ++ codes "</body>"
    ++ line_end
    ++ codes "</html>"
    ++ line_end

-- An answer; the two of promhttp, and that of the multiplexer where no pattern fits, are not looked into.
pub data Reply : Type 0 where
  own_metrics_reply scrape_reply no_route : Reply
  plain html : (status : ℕ) → Text → Reply
  snapshot_reply : Response → Reply

-- The route of the pattern that a path is served by.
unfoldable pub found : GoMap Route → Option Text → Option Route
found registered none = none
found registered (some pattern) = lookup pattern registered

-- The registered server; a registration can panic.
unfoldable pub new_server : ServeMux → Text → Option Text → Option (Text → Option Route)
unfolding routes found
new_server mux metrics_path token = elim (mux.register (keys (routes metrics_path token))) [
  | none ↦ none
  | some choose ↦ some (λ path. found (routes metrics_path token) (choose path))
]

-- What a request gets, when the store has what it has.
unfoldable pub answer_of : Text → Text → TimeText → Time → Store → Option Route → Request → Reply
unfolding index_html
answer_of version metrics_path texts now store none r = no_route
answer_of version metrics_path texts now store (some own_metrics) r = own_metrics_reply
answer_of version metrics_path texts now store (some scrape) r = scrape_reply
answer_of version metrics_path texts now store (some health) r = plain 200 (codes "OK")
answer_of version metrics_path texts now store (some index_page) r =
    html 200 (index_html version metrics_path)
answer_of version metrics_path texts now store (some (snapshots token)) r =
    snapshot_reply (handler texts now store token r)
