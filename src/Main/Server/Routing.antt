-- ===== src/Main/Server/Routing.antt =====
-- Where requests go.
use mathlib.Core.Option.{some-injective}
use xray_exporter.Common.{
  ◌≤◌, ◌≡◌, refl, sym, ap, ◌∙◌, inl, inr, true, false, Option, none, some, List, [], ◌∷◌, arith,
  length, All, Bool-cases, Option-cases,
}
use xray_exporter.Text.{Text, text_eq, has_prefix}
use xray_exporter.GoMap.{lookup, keys, text_eq→eq, text_eq_refl}
use xray_exporter.GoMap.Keys.{has_text}
use xray_exporter.Main.Server.{Route, routes, snapshot_routes, new_server, found}
use xray_exporter.Main.Server.Mux.{
  ServeMux, is_plain, all_plain, repeats, matches, is_clean, is_served, IsBest,
}

pub has_prefix_refl : (s : Text) → has_prefix s s ≡ true
unfolding has_prefix
has_prefix_refl [] = refl
has_prefix_refl (c ∷ s) = ground (arith, has_prefix_refl s)

pub matches_refl : (s : Text) → matches s s ≡ true
unfolding matches
matches_refl s = ground (arith, has_prefix_refl s, text_eq_refl s)

-- A prefix that is as long is the whole text.
has_prefix_whole : (p s : Text) → has_prefix p s ≡ true → length s ≤ length p → text_eq p s ≡ true
unfolding has_prefix text_eq
has_prefix_whole [] [] h le = refl
has_prefix_whole [] (d ∷ s) h le = absurd (omega arith)
has_prefix_whole (c ∷ p) [] h le = h
has_prefix_whole (c ∷ p) (d ∷ s) h le = ground (arith, has_prefix_whole p s)

matches_whole : (p s : Text) → matches p s ≡ true → length s ≤ length p → p ≡ s
unfolding matches
matches_whole p s h le = text_eq→eq p s (ground (arith, has_prefix_whole p s))

-- Of two prefixes the shorter is one of the longer.
pub has_prefix_shorter :
    (p q s : Text)
    → has_prefix p s ≡ true
    → has_prefix q s ≡ true
    → length p ≤ length q
    → has_prefix p q ≡ true
unfolding has_prefix
has_prefix_shorter [] q s h g le = refl
has_prefix_shorter (c ∷ p) [] s h g le = absurd (omega arith)
has_prefix_shorter (c ∷ p) (d ∷ q) [] h g le = absurd (ground arith)
has_prefix_shorter (c ∷ p) (d ∷ q) (e ∷ s) h g le = ground (arith, has_prefix_shorter p q s)

pub All-has_text :
    (P : Text → Type 0) (k : Text) (ps : List Text) → All P ps → has_text k ps ≡ true → P k
All-has_text P k [] a h = absurd (ground arith)
All-has_text P k (p ∷ ps) a h = elim (Bool-cases (text_eq p k)) [
  | inl e ↦ rw (← text_eq→eq p k e) (a.0)
  | inr e ↦ All-has_text P k ps a.1 (rw e at h)
]

-- A path that is registered itself is served by its own pattern.
IsBest-own :
    (ps : List Text) (path : Text) (o : Option Text)
    → has_text path ps ≡ true
    → IsBest ps path o
    → o ≡ some path
IsBest-own ps path none h v = absurd (
    let wrong = All-has_text (λ q. matches q path ≡ false) path ps v h in
    cc (wrong, matches_refl path))
IsBest-own ps path (some p) h v =
    let longest = All-has_text (λ q. matches q path ≡ true → length q ≤ length p) path ps v.2 h in
    ap some (matches_whole p path v.1 (longest (matches_refl path)))

module _ (mux : ServeMux) (metrics_path : Text) (token : Option Text) where
  abbrev pub patterns : List Text
  patterns = keys (routes metrics_path token)

  pub patterns_plain : is_plain metrics_path ≡ true → all_plain patterns ≡ true
  unfolding routes snapshot_routes
  patterns_plain h = plain token
    where
      plain : (o : Option Text) → all_plain (keys (routes metrics_path o)) ≡ true
      plain none = ground (arith, h)
      plain (some t) = ground (arith, h)

  pub new_server-registered :
      (server : Text → Option Route)
      → new_server mux metrics_path token ≡ some server
      → (choose : Text → Option Text) × (mux.register patterns ≡ some choose)
        × (server ≡ (λ path. found (routes metrics_path token) (choose path)))
  unfolding new_server
  new_server-registered server e = elim (Option-cases (mux.register patterns)) [
    | inl missing ↦ absurd (let wrong = rw (new_server, missing) at e in ground (arith, wrong))
    | inr (choose, run) ↦ (choose, run, sym (some-injective _ server (rw (new_server, run) at e)))
  ]

  module _ (server : Text → Option Route) (plain : is_plain metrics_path ≡ true)
      (running : new_server mux metrics_path token ≡ some server) where
    pub patterns-distinct : repeats patterns ≡ false
    patterns-distinct = elim (Bool-cases (repeats patterns)) [
      | inl e ↦
          let (choose, run, same) = new_server-registered server running in
          absurd (let wrong = sym (mux.repeated patterns e) ∙ run in ground (arith, wrong))
      | inr e ↦ e
    ]

    -- A path is served by the best of the patterns.
    pub served_by :
        (path : Text)
        → is_served patterns path ≡ true
        → (o : Option Text) × IsBest patterns path o
          × (server path ≡ found (routes metrics_path token) o)
    served_by path served =
        let (choose, run, same) = new_server-registered server running in
        (
          choose path,
          mux.best patterns choose (patterns_plain plain) run path served,
          ap (λ (f : Text → Option Route). f path) same,
        )

    -- A path that is registered itself goes to its own route.
    pub own_route :
        (path : Text)
        → is_clean path ≡ true
        → has_text path patterns ≡ true
        → server path ≡ lookup path (routes metrics_path token)
    unfolding found
    own_route path clean there =
        let (o, best, same) = served_by path (ground (arith, clean, there)) in
        same ∙ ap (found (routes metrics_path token)) (IsBest-own patterns path o there best)
