-- ===== src/Exporter/Retry/Outcome.antt =====
-- What the retries come to.
use xray_exporter.Common.{
  ℕ, zero, suc, ◌<◌, ◌≡◌, refl, ◌⊎◌, inl, inr, none, some, List, [], ◌∷◌, arith, take, Option-cases,
}
use xray_exporter.Text.{Text}
use xray_exporter.Exporter.Retry.{
  Reply, replied, call_error, Endpoint, Retried, answered, call_failed, cancelled, max_retries,
  delay, call_with_retry,
}

-- 100 ms and 200 ms, in nanoseconds.
abbrev pub backoff : List ℕ
backoff = 100_000_000 ∷ 200_000_000 ∷ []

module _ {ℓ} {A : Type ℓ} where
  Reply-cases : (r : Reply A) → ((v : A) × (r ≡ replied v)) ⊎ ((e : Text) × (r ≡ call_error e))
  Reply-cases (replied v) = inl (v, refl)
  Reply-cases (call_error e) = inr (e, refl)

  -- Attempts below `n` failed, and their delays passed before the context was done.
  abbrev pub Passed : Endpoint A → ℕ → Type ℓ
  Passed net zero = Unit
  Passed net (suc n) =
      ((e : Text) × (net.call n ≡ call_error e)) × (net.wait n (delay n) ≡ none) × Passed net n

  -- What made a run end as it did, with the attempt it ended in.
  pub data Ended (net : Endpoint A) : List ℕ → Retried A → Type ℓ where
    by_reply :
        (n : ℕ) (v : A)
        → n < max_retries
        → Passed net n
        → net.call n ≡ replied v
        → Ended net (take n backoff) (answered v)
    by_error :
        (e : Text) → Passed net 2 → net.call 2 ≡ call_error e → Ended net backoff (call_failed e)
    by_context :
        (n : ℕ) (e d : Text)
        → n < 2
        → Passed net n
        → net.call n ≡ call_error e
        → net.wait n (delay n) ≡ some d
        → Ended net (take (suc n) backoff) (cancelled d)

  -- A run ends in one of three ways: with the first reply, once every earlier attempt failed and its
  -- delay passed; with the error of the third attempt; or with the error of the context that was
  -- done in one of the delays. The timers are set to 100 ms and then 200 ms.
  pub call_with_retry-Ended :
      (net : Endpoint A) → Ended net (call_with_retry net).0 (call_with_retry net).1
  unfolding call_with_retry
  call_with_retry-Ended net = elim (Reply-cases (net.call 0)) [
    | inl (v, r) ↦ rw r (by_reply 0 v (omega arith) tt r)
    | inr (e, r) ↦ elim (Option-cases (net.wait 0 (delay 0))) [
      | inr (d, w) ↦ rw (r, w) (by_context 0 e d (omega arith) tt r w)
      | inl w ↦ elim (Reply-cases (net.call 1)) [
        | inl (v, s) ↦ rw (r, w, s) (by_reply 1 v (omega arith) ((e, r), w, tt) s)
        | inr (f, s) ↦ elim (Option-cases (net.wait 1 (delay 1))) [
          | inr (d, x) ↦ rw (r, w, s, x) (by_context 1 f d (omega arith) ((e, r), w, tt) s x)
          | inl x ↦ elim (Reply-cases (net.call 2)) [
            | inl (v, t) ↦
                rw (r, w, s, x, t) (by_reply 2 v (omega arith) ((f, s), x, ((e, r), w, tt)) t)
            | inr (g, t) ↦ rw (r, w, s, x, t) (by_error g ((f, s), x, ((e, r), w, tt)) t)
          ]
        ]
      ]
    ]
  ]
