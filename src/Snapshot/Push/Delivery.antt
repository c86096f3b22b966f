-- ===== src/Snapshot/Push/Delivery.antt =====
-- When a push has no error, and what it sends.
use xray_exporter.Common.{
  ℕ, ◌<◌, ◌≤◌, ◌≡◌, inl, inr, true, false, none, some, [], ◌∷◌, ◌++◌, arith, Option-cases,
}
use xray_exporter.Text.{Text, codes}
use xray_exporter.Snapshot.Types.{Snapshot}
use xray_exporter.Snapshot.Push.{Pusher, Post, VectorNet, enabled, push}

-- The snapshot was posted once, encoded, to the pusher's URL with its token as a bearer, and was
-- answered with a status from 200 to 299.
pub record IsDelivered (net : VectorNet) (p : Pusher) (value : Snapshot) : Type 0 where
  pub body : Text
  pub status : ℕ
  pub encoded : net.encode value ≡ some body
  pub sent :
      (push net (some p) value).0
      ≡ record { url = p.url; authorization = codes "Bearer " ++ p.token; body = body } ∷ []
  pub accepted :
      net.post (record { url = p.url; authorization = codes "Bearer " ++ p.token; body = body })
      ≡ some status
  pub success : (200 ≤ status) × (status < 300)

abbrev posted : Pusher → Text → Post
posted p body = record { url = p.url; authorization = codes "Bearer " ++ p.token; body = body }

push-IsDelivered :
    (net : VectorNet) (p : Pusher) (value : Snapshot)
    → enabled (some p) ≡ true
    → (push net (some p) value).1 ≡ none
    → IsDelivered net p value
unfolding push
push-IsDelivered net p value on done = elim (Option-cases (net.encode value)) [
  | inl e ↦ absurd (ground arith)
  | inr (body, e) ↦ elim (Option-cases (net.post (posted p body))) [
    | inl a ↦ absurd (ground arith)
    | inr (status, a) ↦ record {
      body = body;
      status = status;
      encoded = e;
      sent = ground arith;
      accepted = a;
      success = ground arith;
    }
  ]
]

-- A pusher without a URL or a token sends nothing and has no error; any other has no error only
-- if the snapshot was delivered.
pub push_lem :
    (net : VectorNet) (p : Pusher) (value : Snapshot)
    → (enabled (some p) ≡ false → push net (some p) value ≡ ([], none))
      × (enabled (some p) ≡ true → (push net (some p) value).1 ≡ none → IsDelivered net p value)
unfolding push
push_lem net p value = (λ off. ground arith, push-IsDelivered net p value)
