-- ===== src/LogParser/Ring/Expiring.antt =====
-- Expiring drops the old timestamps at the front, and nothing else.
use xray_exporter.Common.{
  ℕ, zero, suc, ◌+◌, ◌-◌, ◌<◌, ◌≤◌, ◌≡◌, refl, sym, ap, inl, inr, some, List, [], ◌∷◌, ltb, arith,
  if◌then◌else◌, length, get_elem?, get_or, select, All, Bool-cases,
}
use xray_exporter.LogParser.Ring.{Time, Ring, expire, expire_from}
use xray_exporter.LogParser.Ring.Window.{IsRing, wrap, read, contents, tail_index-wrap}
use xray_exporter.LogParser.Ring.Adding.{length-contents}

-- The timestamps from the first one after the cutoff on.
unfoldable pub drop_expired : Time → List Time → List Time
drop_expired cutoff [] = []
drop_expired cutoff (t ∷ ts) = if ltb cutoff t then t ∷ ts else drop_expired cutoff ts

abbrev sized : Ring → ℕ → Ring
sized r n = record r { size = n }

sized-IsRing : (r : Ring) (n : ℕ) → IsRing r → n ≤ r.size → IsRing (sized r n)
sized-IsRing r n v h = record {
  room = v.room;
  fits = v.fits;
  held = omega arith;
  inside = v.inside;
  growing = v.growing;
}

get_elem?-get_or : (ts : List Time) (i : ℕ) → i < length ts → get_elem? ts i ≡ some (get_or ts i 0)
get_elem?-get_or [] i h = absurd (omega arith)
get_elem?-get_or (t ∷ ts) zero h = refl
get_elem?-get_or (t ∷ ts) (suc i) h = get_elem?-get_or ts i (omega arith)

tail_in_use :
    (r : Ring) (n : ℕ)
    → IsRing r
    → suc n ≤ r.size
    → wrap r.cap (r.head + r.cap - suc n) < length r.timestamps
tail_in_use r n v h = elim (Bool-cases (ltb (length r.timestamps) r.cap)) [
  | inl e ↦ let g = v.growing (ground arith) in ground arith
  | inr e ↦ ground arith
]

-- The oldest timestamp comes first.
contents-sized :
    (r : Ring) (n : ℕ)
    → IsRing r
    → suc n ≤ r.size
    → contents (sized r (suc n))
      ≡ get_or r.timestamps (wrap r.cap (r.head + r.cap - suc n)) 0 ∷ contents (sized r n)
unfolding contents
contents-sized r n v h =
    ap
      (λ (s : ℕ).
        get_or r.timestamps (wrap r.cap (r.head + r.cap - suc n)) 0 ∷ read r.timestamps r.cap s n)
      (omega arith)

expire_from-drop_expired :
    (r : Ring) (cutoff n : ℕ)
    → IsRing r
    → n ≤ r.size
    → (m : ℕ) × (m ≤ n)
      × (expire_from r cutoff n ≡ some (sized r m))
      × (contents (sized r m) ≡ drop_expired cutoff (contents (sized r n)))
unfolding expire_from drop_expired
expire_from-drop_expired r cutoff zero v h = (0, omega arith, refl, unfold contents in refl)
expire_from-drop_expired r cutoff (suc n) v h =
    let k = wrap r.cap (r.head + r.cap - suc n) in
    let ts = get_or r.timestamps k 0 in
    let at = tail_index-wrap r.head (suc n) r.cap v.inside (omega arith) in
    let found = get_elem?-get_or r.timestamps k (tail_in_use r n v h) in
    let oldest = contents-sized r n v h in
    elim (Bool-cases (ltb cutoff ts)) [
      | inl e ↦ (suc n, omega arith, rw (expire_from, at, found, e) refl, rw (oldest, e) refl)
      | inr e ↦
          let (m, le, run, kept) = expire_from-drop_expired r cutoff n v (omega arith) in
          (m, omega arith, rw (expire_from, at, found, e) run, rw (oldest, e) kept)
    ]

-- On a well-formed buffer expiring does not panic and keeps the buffer well formed: what is left are
-- the timestamps from the first one after the cutoff on, and the size is their number.
pub expire-drop_expired :
    (r : Ring) (cutoff : Time)
    → IsRing r
    → (r' : Ring) × (expire r cutoff ≡ some r')
      × IsRing r'
      × (contents r' ≡ drop_expired cutoff (contents r))
      × (r'.size ≡ length (contents r'))
unfolding expire
expire-drop_expired r cutoff v =
    let (m, le, run, kept) = expire_from-drop_expired r cutoff r.size v (omega arith) in
    (sized r m, run, sized-IsRing r m v le, kept, sym (length-contents (sized r m)))

-- In order of time, each at most the next.
abbrev pub IsChronological : List Time → Type 0
IsChronological [] = Unit
IsChronological (t ∷ ts) = All (λ u. t ≤ u) ts × IsChronological ts

select-All :
    (cutoff t : Time) (ts : List Time)
    → cutoff < t
    → All (λ u. t ≤ u) ts
    → select (ltb cutoff) ts ≡ ts
select-All cutoff t [] h a = refl
select-All cutoff t (u ∷ ts) h a = ground (arith, select-All cutoff t ts h a.1)

-- Where the timestamps came in order, what is left are exactly those after the cutoff.
pub drop_expired-select :
    (cutoff : Time) (ts : List Time)
    → IsChronological ts
    → drop_expired cutoff ts ≡ select (ltb cutoff) ts
unfolding drop_expired
drop_expired-select cutoff [] h = refl
drop_expired-select cutoff (t ∷ ts) h =
    ground
      (arith, λ (e : cutoff < t). select-All cutoff t ts e h.0, drop_expired-select cutoff ts h.1)
