-- ===== src/LogParser/Ring/Batches.antt =====
-- What a batch of timestamps leaves in the buffer.
use xray_exporter.Common.{
  ℕ, zero, suc, ◌+◌, ◌-◌, ◌<◌, ◌≤◌, ◌≡◌, refl, sym, ap, ◌∙◌, inl, inr, some, List, [], ◌∷◌, ◌++◌,
  ltb, ltb→lt, ltb-eq-false, length-drop, arith, length, drop, length-append, Bool-cases,
}
use native.Mathlib.Nat.{suc-add}
use mathlib.Core.List.{append_assoc, append-nil}
use xray_exporter.LogParser.Ring.{Time, Ring, add_all}
use xray_exporter.LogParser.Ring.Window.{IsRing, contents}
use xray_exporter.LogParser.Ring.Adding.{push_window, length-contents, add-push_window}

-- The last `n` of a list.
abbrev pub keep_last : ℕ → List Time → List Time
keep_last n xs = drop (length xs - n) xs

drop-append : (n : ℕ) (xs ys : List Time) → n ≤ length xs → drop n xs ++ ys ≡ drop n (xs ++ ys)
drop-append zero xs ys h = refl
drop-append (suc n) [] ys h = absurd (omega arith)
drop-append (suc n) (x ∷ xs) ys h = drop-append n xs ys (omega arith)

drop_nil : (n : ℕ) → drop {A = Time} n [] ≡ []
drop_nil zero = refl
drop_nil (suc n) = refl

drop-drop : (n m : ℕ) (xs : List Time) → drop n (drop m xs) ≡ drop (m + n) xs
drop-drop n zero xs = ap (λ (k : ℕ). drop k xs) (omega arith)
drop-drop n (suc m) [] = drop_nil n ∙ sym (drop_nil (suc m + n))
drop-drop n (suc m) (x ∷ xs) = drop-drop n m xs ∙ (rw (suc-add m n) refl)

-- To keep the last `n` at every step is to keep the last `n` in the end.
keep_last-append :
    (n : ℕ) (xs ys : List Time) → keep_last n (keep_last n xs ++ ys) ≡ keep_last n (xs ++ ys)
keep_last-append n xs ys =
    let m = length xs - n in
    let e = drop-append m xs ys (omega arith) in
    rw (e, drop-drop (length (drop m (xs ++ ys)) - n) m (xs ++ ys))
      (ap (λ (k : ℕ). drop k (xs ++ ys))
        (omega (arith, length-drop m (xs ++ ys), length-append xs ys)))

push_window-keep_last :
    (n : ℕ) (q : List Time) (ts : Time)
    → 0 < n
    → length q ≤ n
    → push_window n q ts ≡ keep_last n (q ++ ts ∷ [])
unfolding push_window
push_window-keep_last n q ts pos h = elim (Bool-cases (ltb (length q) n)) [
  | inl e ↦ rw e (
      ap (λ (k : ℕ). drop k (q ++ ts ∷ [])) {x = 0}
        (omega (arith, ltb→lt (length q) n e, length-append q (ts ∷ []))))
  | inr e ↦ rw e (
      drop-append 1 q (ts ∷ []) (omega (arith, ltb-eq-false (length q) n e))
      ∙ ap (λ (k : ℕ). drop k (q ++ ts ∷ [])) {x = 1}
          (omega (arith, ltb-eq-false (length q) n e, length-append q (ts ∷ []))))
]

-- Adding a batch to a well-formed buffer does not panic, and leaves the last `cap` of what was held
-- and what was added, in that order.
pub add_all-keep_last :
    (r : Ring) (batch : List Time)
    → IsRing r
    → (r' : Ring) × (add_all r batch ≡ some r')
      × IsRing r'
      × (r'.cap ≡ r.cap)
      × (contents r' ≡ keep_last r.cap (contents r ++ batch))
unfolding add_all
add_all-keep_last r [] v = (
  r,
  refl,
  v,
  refl,
  rw (append-nil (contents r))
      (ap (λ (k : ℕ). drop k (contents r)) {x = 0} (omega (arith, length-contents r))),
)
add_all-keep_last r (ts ∷ batch) v =
    let (r1, e1, v1, c1, k1) = add-push_window r ts v in
    let (r', e, v', c, k) = add_all-keep_last r1 batch v1 in
    (
      r',
      rw (add_all, e1) e,
      v',
      c ∙ c1,
      k
          ∙ (rw
              (
                c1,
                k1,
                push_window-keep_last r.cap (contents r) ts v.room
                    (omega (arith, length-contents r)),
              )
              (keep_last-append r.cap (contents r ++ ts ∷ []) batch
                ∙ ap (keep_last r.cap) (append_assoc (contents r) (ts ∷ []) batch))),
    )
