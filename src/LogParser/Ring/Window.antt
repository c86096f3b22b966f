-- ===== src/LogParser/Ring/Window.antt =====
-- What a ring stands for: its timestamps, the oldest first.
use xray_exporter.Common.{
  ℕ, zero, suc, ◌+◌, ◌-◌, ◌%◌, ◌<◌, ◌≤◌, ◌≡◌, refl, ap, ap₂, ◌∙◌, List, [], ◌∷◌, ◌++◌, ltb, arith,
  if◌then◌else◌, length, get_or,
}
use xray_exporter.LogParser.Ring.{Time, Ring, tail_index}
use native.Mathlib.Nat.{mod-eq_of_lt, mod-eq-sub-mod, add-zero, add-suc, suc-add}

-- The buffer grows to its capacity first, and then is written round and round.
pub record IsRing (r : Ring) : Type 0 where
  pub room : 0 < r.cap
  pub fits : length r.timestamps ≤ r.cap
  pub held : r.size ≤ length r.timestamps
  pub inside : r.head < r.cap
  pub growing : length r.timestamps < r.cap → r.head ≡ length r.timestamps

-- An index below twice the capacity, brought into the buffer.
abbrev pub wrap : ℕ → ℕ → ℕ
wrap width k = if ltb k width then k else k - width

-- `n` slots from an index on.
unfoldable pub read : List Time → ℕ → ℕ → ℕ → List Time
read ts width start zero = []
read ts width start (suc n) = get_or ts (wrap width start) 0 ∷ read ts width (suc start) n

unfoldable pub contents : Ring → List Time
unfolding read
contents r = read r.timestamps r.cap (r.head + r.cap - r.size) r.size

pub length-read : (ts : List Time) (width start n : ℕ) → length (read ts width start n) ≡ n
unfolding read
length-read ts width start zero = refl
length-read ts width start (suc n) = ap suc (length-read ts width (suc start) n)

-- Two readings with the same slots are equal.
pub read_ext :
    (ts us : List Time) (width s t n : ℕ)
    → ((i : ℕ) → i < n → get_or ts (wrap width (s + i)) 0 ≡ get_or us (wrap width (t + i)) 0)
    → read ts width s n ≡ read us width t n
unfolding read
read_ext ts us width s t zero h = refl
read_ext ts us width s t (suc n) h =
    let first : get_or ts (wrap width s) 0 ≡ get_or us (wrap width t) 0 =
      rw (← add-zero s, ← add-zero t) (h 0 (omega arith)) in
    ap₂ ◌∷◌ first (
      read_ext ts us width (suc s) (suc t) n (λ i lt.
        rw (suc-add s i, ← add-suc s i, suc-add t i, ← add-suc t i) (h (suc i) (omega arith))))

pub read-suc :
    (ts : List Time) (width s n : ℕ)
    → read ts width s (suc n) ≡ read ts width s n ++ get_or ts (wrap width (s + n)) 0 ∷ []
unfolding read
read-suc ts width s zero = rw (add-zero s) refl
read-suc ts width s (suc n) =
    ap (◌∷◌ (get_or ts (wrap width s) 0))
      (read-suc ts width (suc s) n ∙ (rw (suc-add s n, add-suc s n) refl))

pub mod-wrap : (width k : ℕ) → k < width + width → k % width ≡ wrap width k
mod-wrap width k h = grind (arith, mod-eq_of_lt, mod-eq-sub-mod)

pub tail_index-wrap :
    (head size width : ℕ)
    → head < width
    → size ≤ width
    → tail_index head size width ≡ wrap width (head + width - size)
unfolding tail_index
tail_index-wrap head size width h k = ground (
  arith,
  mod-wrap width (head - size) (omega arith),
  mod-wrap width (head - size + width) (omega arith),
  mod-wrap width (size - head) (omega arith),
  mod-wrap width (width - (size - head)) (omega arith),
  mod-wrap width width (omega arith),
)
