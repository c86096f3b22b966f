-- ===== src/Main/Server/Mux/Longest.antt =====
-- A multiplexer that meets the documentation: the longest pattern that matches.
use mathlib.Core.Option.{some-injective}
use xray_exporter.Common.{
  ◌≤◌, ◌≡◌, refl, Option, none, some, List, [], ◌∷◌, arith, length, leb, All, if◌then◌else◌,
  Bool-cases, inl, inr, ◌&&◌, subst,
}
use xray_exporter.Text.{Text}
use xray_exporter.GoMap.{text_eq_refl}
use xray_exporter.Main.Server.Mux.{matches, repeats, IsBest, ServeMux}

better : Text → Text → Option Text → Option Text
better p path none = if matches p path then some p else none
better p path (some q) = if matches p path && leb (length q) (length p) then some p else some q

pub longest : List Text → Text → Option Text
unfolding better
longest [] path = none
longest (p ∷ ps) path = better p path (longest ps path)

All-map : {P Q : Text → Type 0} (ps : List Text) → ((q : Text) → P q → Q q) → All P ps → All Q ps
All-map [] f a = tt
All-map (p ∷ ps) f a = (f p a.0, All-map ps f a.1)

better-IsBest :
    (p : Text) (ps : List Text) (path : Text) (o : Option Text)
    → IsBest ps path o
    → IsBest (p ∷ ps) path (better p path o)
unfolding better
better-IsBest p ps path none v = elim (Bool-cases (matches p path)) [
  | inl e ↦
      rw (e, text_eq_refl p)
        (refl, e, (λ h. omega arith, All-map ps (λ q other same. cc (other, same)) v))
  | inr e ↦ rw e (e, v)
]
better-IsBest p ps path (some q) v =
    elim (Bool-cases (matches p path && leb (length q) (length p))) [
      | inl e ↦
          let longer : length q ≤ length p = ground (arith, e) in
          rw (e, text_eq_refl p)
            (
              refl,
              ground (arith, e),
              (λ h. omega arith, All-map ps (λ r le h. omega (arith, le h, longer)) v.2),
            )
      | inr e ↦ rw e (ground (arith, v.0), v.1, (λ h. ground (arith, e), v.2))
    ]

pub longest-IsBest : (ps : List Text) (path : Text) → IsBest ps path (longest ps path)
unfolding longest
longest-IsBest [] path = tt
longest-IsBest (p ∷ ps) path = better-IsBest p ps path (longest ps path) (longest-IsBest ps path)

abbrev register : List Text → Option (Text → Option Text)
register ps = if repeats ps then none else some (longest ps)

pub registered :
    (ps : List Text) (choose : Text → Option Text) → register ps ≡ some choose → longest ps ≡ choose
registered ps choose h = elim (Bool-cases (repeats ps)) [
  | inl e ↦ absurd (let wrong = rw e at h in ground (arith, wrong))
  | inr e ↦ some-injective (longest ps) choose (rw e at h)
]

unfoldable pub longest_mux : ServeMux
unfolding longest
longest_mux = record {
  register = register;
  repeated = λ ps e. rw e refl;
  accepted = λ ps h e. (longest ps, rw e refl);
  best = λ ps choose h e path served.
      subst (λ (f : Text → Option Text). IsBest ps path (f path)) (registered ps choose e)
        (longest-IsBest ps path);
}
