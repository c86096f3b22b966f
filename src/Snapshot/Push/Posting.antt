-- ===== src/Snapshot/Push/Posting.antt =====
-- When a push posts, whatever the answer.
use mathlib.Core.Option.{some-injective}
use xray_exporter.Common.{
  ◌≡◌, refl, sym, ap, ◌⊎◌, inl, inr, true, Option, none, some, [], ◌∷◌, ◌++◌, arith, Bool-cases,
  Option-cases,
}
use xray_exporter.Text.{Text, codes}
use xray_exporter.Snapshot.Types.{Snapshot}
use xray_exporter.Snapshot.Push.{Pusher, Post, VectorNet, enabled, push}

-- A pusher that is on, for a snapshot that can be encoded and a request that can be made.
pub record CanPost (net : VectorNet) (o : Option Pusher) (value : Snapshot) : Type 0 where
  pub pusher : Pusher
  pub body : Text
  pub has_pusher : o ≡ some pusher
  pub is_enabled : enabled (some pusher) ≡ true
  pub encoded : net.encode value ≡ some body
  pub request_ok : net.request_ok pusher.url ≡ true

abbrev pub post_of : Pusher → Text → Post
post_of p body = record { url = p.url; authorization = codes "Bearer " ++ p.token; body = body }

push-on :
    (net : VectorNet) (p : Pusher) (value : Snapshot) (body : Text)
    → enabled (some p) ≡ true
    → net.encode value ≡ some body
    → net.request_ok p.url ≡ true
    → (push net (some p) value).0 ≡ post_of p body ∷ []
unfolding push
push-on net p value body on encoded ok = ground arith

pub push-CanPost :
    (net : VectorNet) (o : Option Pusher) (value : Snapshot) (c : CanPost net o value)
    → (push net o value).0 ≡ post_of c.pusher c.body ∷ []
push-CanPost net o value c =
    rw c.has_pusher (push-on net c.pusher value c.body c.is_enabled c.encoded c.request_ok)

abbrev pub IsQuiet : (net : VectorNet) (o : Option Pusher) (value : Snapshot) → Type 0
IsQuiet net o value = ((push net o value).0 ≡ []) × (¬ CanPost net o value)

some_pusher :
    (net : VectorNet) (p : Pusher) (value : Snapshot) (c : CanPost net (some p) value)
    → c.pusher ≡ p
some_pusher net p value c = sym (some-injective p c.pusher c.has_pusher)

push_on-IsQuiet :
    (net : VectorNet) (p : Pusher) (value : Snapshot)
    → enabled (some p) ≡ true
    → CanPost net (some p) value ⊎ IsQuiet net (some p) value
unfolding push
push_on-IsQuiet net p value on = elim (Option-cases (net.encode value)) [
  | inl e ↦ inr (ground arith, λ c. cc (e, c.encoded))
  | inr (body, e) ↦ elim (Bool-cases (net.request_ok p.url)) [
    | inl ok ↦ inl (record {
      pusher = p;
      body = body;
      has_pusher = refl;
      is_enabled = on;
      encoded = e;
      request_ok = ok;
    })
    | inr refused ↦ inr (
      ground arith,
      λ c.
          let q = some_pusher net p value c in
          cc (refused, ap (λ x. net.request_ok x.url) q, c.request_ok),
    )
  ]
]

-- A push that cannot post sends nothing.
pub push-IsQuiet :
    (net : VectorNet) (o : Option Pusher) (value : Snapshot)
    → CanPost net o value ⊎ IsQuiet net o value
unfolding push
push-IsQuiet net none value = inr (refl, λ c. cc (c.has_pusher))
push-IsQuiet net (some p) value = elim (Bool-cases (enabled (some p))) [
  | inl on ↦ push_on-IsQuiet net p value on
  | inr off ↦ inr (
    ground arith,
    λ c. let q = some_pusher net p value c in cc (off, ap (λ x. enabled (some x)) q, c.is_enabled),
  )
]
