-- ===== src/Snapshot/Window/Ascending.antt =====
-- Lists of snapshots in strict order of collection.
use xray_exporter.Common.{
  ℕ, zero, suc, ◌<◌, ◌≡◌, refl, subst, inl, inr, Bool, some, List, [], ◌∷◌, arith, Bool-cases,
  select, take, drop, All,
}
use xray_exporter.Common.Members.{last?}
use xray_exporter.Snapshot.Types.{Time, Snapshot}
use xray_exporter.Snapshot.Window.{is_after}

abbrev pub IsNewer : Time → Snapshot → Type 0
IsNewer t x = t < x.collected_at

abbrev pub IsAscending : List Snapshot → Type 0
IsAscending [] = Unit
IsAscending (x ∷ xs) = All (IsNewer x.collected_at) xs × IsAscending xs

abbrev pub newer : Time → Snapshot → Bool
newer t x = is_after x.collected_at t

All-select :
    (P : Snapshot → Type 0) (p : Snapshot → Bool) (xs : List Snapshot)
    → All P xs
    → All P (select p xs)
All-select P p [] h = tt
All-select P p (x ∷ xs) h = elim (Bool-cases (p x)) [
  | inl e ↦ rw e (h.0, All-select P p xs h.1)
  | inr e ↦ rw e (All-select P p xs h.1)
]

pub IsAscending-select :
    (p : Snapshot → Bool) (xs : List Snapshot) → IsAscending xs → IsAscending (select p xs)
IsAscending-select p [] h = tt
IsAscending-select p (x ∷ xs) h = elim (Bool-cases (p x)) [
  | inl e ↦ rw e (All-select (IsNewer x.collected_at) p xs h.0, IsAscending-select p xs h.1)
  | inr e ↦ rw e (IsAscending-select p xs h.1)
]

pub last-take-All :
    (P : Snapshot → Type 0) (n : ℕ) (xs : List Snapshot) {y : Snapshot}
    → All P xs
    → last? (take n xs) ≡ some y
    → P y
unfolding last?
last-take-All P zero xs h e = absurd (ground arith)
last-take-All P (suc n) [] h e = absurd (ground arith)
last-take-All P (suc zero) (x ∷ xs) {y} h e = let q : x ≡ y = cc in rw (← q) h.0
last-take-All P (suc (suc n)) (x ∷ []) {y} h e = let q : x ≡ y = cc in rw (← q) h.0
last-take-All P (suc (suc n)) (x ∷ z ∷ xs) h e = last-take-All P (suc n) (z ∷ xs) h.1 e

select-newer : (t : Time) (xs : List Snapshot) → All (IsNewer t) xs → select (newer t) xs ≡ xs
select-newer t [] h = refl
select-newer t (x ∷ xs) h = ground (arith, select-newer t xs h.1)

newer_rest :
    (x : Snapshot) (xs : List Snapshot)
    → All (IsNewer x.collected_at) xs
    → select (newer x.collected_at) (x ∷ xs) ≡ xs
newer_rest x xs h = ground (arith, select-newer x.collected_at xs h)

-- Past the last of the first `n`, what is newer is the rest.
pub select-newer_last :
    (n : ℕ) (xs : List Snapshot) {y : Snapshot}
    → IsAscending xs
    → last? (take n xs) ≡ some y
    → select (newer y.collected_at) xs ≡ drop n xs
unfolding last?
select-newer_last zero xs h e = absurd (ground arith)
select-newer_last (suc n) [] h e = absurd (ground arith)
select-newer_last (suc zero) (x ∷ xs) {y} h e =
    let q : x ≡ y = cc in
    subst (λ (z : Snapshot). select (newer z.collected_at) (x ∷ xs) ≡ xs) q (newer_rest x xs h.0)
select-newer_last (suc (suc n)) (x ∷ []) {y} h e =
    let q : x ≡ y = cc in
    subst (λ (z : Snapshot). select (newer z.collected_at) (x ∷ []) ≡ []) q (newer_rest x [] tt)
select-newer_last (suc (suc n)) (x ∷ z ∷ xs) {y} h e =
    let lt : x.collected_at < y.collected_at =
      last-take-All (IsNewer x.collected_at) (suc n) (z ∷ xs) h.0 e in
    ground (arith, lt, select-newer_last (suc n) (z ∷ xs) h.1 e)
