-- ===== src/Main/Server/Paths.antt =====
-- The paths of the program, and its multiplexer's panic.
use xray_exporter.Common.{
  ◌≤◌, ◌≡◌, ◌≢◌, ◌↔◌, refl, sym, ap, ◌∙◌, inl, inr, Bool, true, false, ◌||◌, Option, none, some,
  List, [], ◌∷◌, arith, length, Bool-cases, if◌then◌else◌,
}
use xray_exporter.Text.{Text, codes, text_eq, has_prefix, index}
use xray_exporter.GoMap.{lookup, keys, text_eq_iff, text_eq→eq, text_eq_refl}
use xray_exporter.GoMap.Keys.{has_text}
use xray_exporter.Main.Server.{
  Route, own_metrics, scrape, health, snapshots, routes, snapshot_routes, new_server, found,
}
use xray_exporter.Main.Server.Mux.{
  ServeMux, is_plain, repeats, matches, is_clean, is_served, IsBest,
}
use xray_exporter.Main.Server.Routing.{
  patterns, patterns-distinct, own_route, served_by, patterns_plain, has_prefix_shorter,
  has_prefix_refl, All-has_text,
}

-- The patterns beside the metrics path.
abbrev pub taken : Option Text → List Text
taken none = codes "/metrics" ∷ codes "/health" ∷ codes "/" ∷ []
taken (some token) = codes "/metrics" ∷ codes "/health" ∷ codes "/v1/snapshots/" ∷ codes "/" ∷ []

text_eq_comm : (a b : Text) → text_eq a b ≡ text_eq b a
text_eq_comm a b = ground (arith, text_eq_iff a b, text_eq_iff b a)

one_of :
    (m h i : Bool)
    → ((if m then true else false) || ((if h then true else if i then true else false) || false))
      ≡ (if m then true else if h then true else if i then true else false)
one_of true h i = refl
one_of false true i = refl
one_of false false true = refl
one_of false false false = refl

one_of_four :
    (m h s i : Bool)
    → ((if m then true else false)
        || ((if h then true else if s then true else if i then true else false) || false))
      ≡ (if m then true else if h then true else if s then true else if i then true else false)
one_of_four true h s i = refl
one_of_four false true s i = refl
one_of_four false false true i = refl
one_of_four false false false true = refl
one_of_four false false false false = refl

not_taken :
    (p : Text) (token : Option Text)
    → has_text p (taken token) ≡ false
    → (text_eq (codes "/metrics") p ≡ false) × (text_eq (codes "/health") p ≡ false)
not_taken p none h = ground (arith, h)
not_taken p (some t) h = ground (arith, h)

repeats-taken :
    (metrics_path : Text) (token : Option Text)
    → repeats (keys (routes metrics_path token)) ≡ has_text metrics_path (taken token)
unfolding routes snapshot_routes text_eq
repeats-taken p none =
    rw (text_eq_comm p (codes "/metrics"))
      (one_of (text_eq (codes "/metrics") p) (text_eq (codes "/health") p) (text_eq (codes "/") p))
repeats-taken p (some t) = rw (text_eq_comm p (codes "/metrics")) (
    one_of_four (text_eq (codes "/metrics") p) (text_eq (codes "/health") p)
      (text_eq (codes "/v1/snapshots/") p) (text_eq (codes "/") p))

abbrev api : Text
api = codes "/v1/snapshots/"

-- A pattern that is as long as the API's and matches a path below it is below it.
below_api :
    (p path : Text)
    → has_prefix api path ≡ true
    → matches p path ≡ true
    → length api ≤ length p
    → has_prefix api p ≡ true
unfolding matches
below_api p path below h le = elim (Bool-cases (text_eq p path)) [
  | inl e ↦ rw (text_eq→eq p path e) below
  | inr e ↦ has_prefix_shorter api p path below (ground (arith, h, e)) le
]

module _ (metrics_path t : Text) (apart : has_prefix api metrics_path ≡ false) where
  only_api :
      (p : Text)
      → has_text p (keys (routes metrics_path (some t))) ≡ true
      → has_prefix api p ≡ true
      → p ≡ api
  unfolding routes snapshot_routes has_prefix
  only_api p =
      All-has_text (λ q. has_prefix api q ≡ true → q ≡ api) p (keys (routes metrics_path (some t)))
        (
          (λ h. absurd (ground arith)),
          (
            (λ h. absurd (cc (h, apart))),
            ((λ h. absurd (ground arith)), ((λ h. refl), ((λ h. absurd (ground arith)), tt))),
          ),
        )

  route_of_api : lookup api (routes metrics_path (some t)) ≡ some (snapshots t)
  unfolding routes snapshot_routes lookup text_eq
  route_of_api = elim (Bool-cases (text_eq metrics_path api)) [
    | inl e ↦
        absurd
          (cc (apart, ap (has_prefix api) (text_eq→eq metrics_path api e), has_prefix_refl api))
    | inr e ↦ rw e refl
  ]

  api_registered : has_text api (keys (routes metrics_path (some t))) ≡ true
  unfolding routes snapshot_routes text_eq
  api_registered = ground arith

  api-matches : (path : Text) → has_prefix api path ≡ true → matches api path ≡ true
  unfolding matches
  api-matches path below = below

  best_snapshots :
      (path : Text) (o : Option Text)
      → has_prefix api path ≡ true
      → IsBest (keys (routes metrics_path (some t))) path o
      → found (routes metrics_path (some t)) o ≡ some (snapshots t)
  unfolding found
  best_snapshots path none below v =
      let wrong = All-has_text (λ q. matches q path ≡ false) api _ v api_registered in
      absurd (cc (wrong, api-matches path below))
  best_snapshots path (some p) below v =
      let longest =
        All-has_text (λ q. matches q path ≡ true → length q ≤ length p) api
          (keys (routes metrics_path (some t))) v.2 api_registered in
      let it = below_api p path below v.1 (longest (api-matches path below)) in
      ap (λ q. lookup q (routes metrics_path (some t))) (only_api p v.0 it) ∙ route_of_api

module _ (mux : ServeMux) (metrics_path : Text) (token : Option Text) where
  register-none :
      mux.register (patterns mux metrics_path token) ≡ none
      → new_server mux metrics_path token ≡ none
  unfolding new_server
  register-none h = rw (new_server, h) refl

  new_server-some :
      (choose : Text → Option Text)
      → mux.register (patterns mux metrics_path token) ≡ some choose
      → new_server mux metrics_path token ≢ none
  unfolding new_server
  new_server-some choose h e = let wrong = rw (new_server, h) at e in ground (arith, wrong)

  -- With a plain metrics path, setting up the routes panics exactly when the path is one of the
  -- others: `/metrics`, `/health` or `/`, or `/v1/snapshots/` with billing on.
  pub new_server-none_iff :
      is_plain metrics_path ≡ true
      → (new_server mux metrics_path token ≡ none) ↔ (has_text metrics_path (taken token) ≡ true)
  new_server-none_iff plain =
      let ps = patterns mux metrics_path token in
      let same = repeats-taken metrics_path token in
      (
        λ e. elim (Bool-cases (repeats ps)) [
          | inl r ↦ sym same ∙ r
          | inr r ↦
              let (choose, run) = mux.accepted ps (patterns_plain mux metrics_path token plain) r in
              absurd (new_server-some choose run e)
        ],
        λ h. register-none (mux.repeated ps (same ∙ h)),
      )

  module _ (server : Text → Option Route) (plain : is_plain metrics_path ≡ true)
      (running : new_server mux metrics_path token ≡ some server) where
    free : has_text metrics_path (taken token) ≡ false
    free =
        sym (repeats-taken metrics_path token)
        ∙ patterns-distinct mux metrics_path token server plain running

    -- What is served: the program's metrics, the health check, and the scrape at the metrics path.
    pub server-own :
        (server (codes "/metrics") ≡ some own_metrics)
        × (server (codes "/health") ≡ some health)
        × (is_clean metrics_path ≡ true → server metrics_path ≡ some scrape)
    unfolding routes lookup is_clean index has_prefix text_eq
    server-own =
        let (not_metrics, not_health_path) = not_taken metrics_path token free in
        let not_health = text_eq_comm metrics_path (codes "/health") ∙ not_health_path in
        let go = own_route mux metrics_path token server plain running in
        (
          go (codes "/metrics") refl refl,
          rw not_health at (go (codes "/health") refl (rw not_health refl)),
          λ c.
              go metrics_path c (rw (not_metrics, text_eq_refl metrics_path) refl)
              ∙ (rw (not_metrics, text_eq_refl metrics_path) refl),
        )

-- With billing on, and no metrics path below it, the paths below `/v1/snapshots/` go to the snapshot
-- API.
pub server-snapshots :
    (mux : ServeMux) (metrics_path t : Text) (server : Text → Option Route) (path : Text)
    → is_plain metrics_path ≡ true
    → new_server mux metrics_path (some t) ≡ some server
    → has_prefix (codes "/v1/snapshots/") metrics_path ≡ false
    → is_served (patterns mux metrics_path (some t)) path ≡ true
    → has_prefix (codes "/v1/snapshots/") path ≡ true
    → server path ≡ some (snapshots t)
server-snapshots mux metrics_path t server path plain running apart served below =
    let (o, best, same) = served_by mux metrics_path (some t) server plain running path served in
    same ∙ best_snapshots metrics_path t apart path o below best
