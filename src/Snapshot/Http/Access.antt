-- ===== src/Snapshot/Http/Access.antt =====
-- Who may read the stored snapshots, and how much of them at once.
use xray_exporter.Common.{
  ℕ, ◌≤◌, ◌≡◌, ◌≢◌, refl, ◌⊎◌, inl, inr, true, false, List, [], ◌∷◌, Bool-cases, ◌++◌, arith,
  length, length-take, suc, zero, ◌<◌,
}
use xray_exporter.Text.{Text, codes, text_eq, has_prefix}
use xray_exporter.GoMap.{text_eq_iff}
use xray_exporter.Snapshot.Types.{Time, Snapshot}
use xray_exporter.Snapshot.TimeText.{TimeText}
use xray_exporter.Snapshot.Store.{Store, latest}
use xray_exporter.Snapshot.Window.Page.{window-snapshots, limited}
use xray_exporter.Snapshot.Http.{
  Request, handler, authorized, request_window, page_limit, latest_response, page_body,
}

-- The test of the header, as an equation.
authorized_of :
    (a token : Text) → token ≢ [] → a ≡ codes "Bearer " ++ token → authorized a token ≡ true
unfolding authorized
authorized_of a [] set given = absurd (set refl)
authorized_of a (c ∷ token) set given = (text_eq_iff a (codes "Bearer " ++ c ∷ token)).1 given

not_authorized :
    (a token : Text) → (token ≡ []) ⊎ (a ≢ codes "Bearer " ++ token) → authorized a token ≡ false
unfolding authorized
not_authorized a [] h = refl
not_authorized a (c ∷ token) (inl h) = absurd (cc)
not_authorized a (c ∷ token) (inr h) =
    elim (Bool-cases (text_eq a (codes "Bearer " ++ c ∷ token))) [
      | inl e ↦ absurd (h ((text_eq_iff a (codes "Bearer " ++ c ∷ token)).0 e))
      | inr e ↦ e
    ]

page_limit_range : (text : Text) → (0 < page_limit text) × (page_limit text ≤ 1000)
unfolding page_limit
page_limit_range text = ground arith

limited-le : (n : ℕ) (xs : List Snapshot) → 0 < n → n ≤ 1000 → length (limited n xs) ≤ 1000
limited-le zero xs pos le = absurd (omega arith)
limited-le (suc n) xs pos le = omega (arith, length-take (suc n) xs)

module _ (texts : TimeText) (now : Time) (token : Text) (r : Request) where
  -- Without the exact header `Bearer ` and the configured token, or with no token configured, the
  -- answer is 401 or 404 and the same for any two stores, so it tells nothing of what is stored.
  pub handler-no_leak :
      (s t : Store)
      → (token ≡ []) ⊎ (r.authorization ≢ codes "Bearer " ++ token)
      → (handler texts now s token r ≡ handler texts now t token r)
        × (((handler texts now s token r).status ≡ 401)
            ⊎ ((handler texts now s token r).status ≡ 404))
  unfolding handler
  handler-no_leak s t closed = ground (arith, not_authorized r.authorization token closed)

  -- With the configured token, `latest` answers with the latest snapshot, or 404 when none is
  -- stored, and `window` answers 200 with the page of the query.
  pub handler-authorized :
      (s : Store)
      → token ≢ []
      → r.authorization ≡ codes "Bearer " ++ token
      → (r.path ≡ codes "/v1/snapshots/latest"
          → handler texts now s token r ≡ latest_response (latest s))
        × (r.path ≡ codes "/v1/snapshots/window"
            → handler texts now s token r
              ≡ record { status = 200; body = page_body (request_window texts now s r) })
  unfolding handler has_prefix text_eq
  handler-authorized s set given =
      let ok = authorized_of r.authorization token set given in
      (λ e. rw (e, ok) refl, λ e. rw (e, ok) refl)

  -- A page of the API has at most 1000 snapshots, whatever limit the query asks for.
  pub request_window-le : (s : Store) → length (request_window texts now s r).snapshots ≤ 1000
  unfolding request_window
  request_window-le s =
      let range = page_limit_range r.limit in
      rw window-snapshots (limited-le (page_limit r.limit) _ range.0 range.1)
