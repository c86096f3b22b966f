-- ===== src/LogParser/Ring/Slots.antt =====
-- One write to the buffer: the slots that it changes, and the well-formedness that it keeps.
use xray_exporter.Common.{
  ℕ, suc, ◌+◌, ◌-◌, ◌%◌, ◌<◌, ◌≡◌, ◌≢◌, sym, inl, inr, some, List, [], ◌∷◌, ◌++◌, ltb, arith,
  if◌then◌else◌, length, set, get_or, length-append, length-set, Bool-cases, get_or-append_left,
  get_or-append_last, get_or-set_self, get_or-set_ne,
}
use xray_exporter.LogParser.Ring.{Time, Ring, add_connection_timestamp, written, advanced}
use xray_exporter.LogParser.Ring.Window.{IsRing, wrap, mod-wrap}

-- What the write leaves of the backing slice, on the branch that runs.
unfoldable pub slots : Ring → Time → List Time
slots r ts =
    if ltb (length r.timestamps) r.cap then r.timestamps ++ ts ∷ [] else set r.timestamps r.head ts

pub written-slots : (r : Ring) (ts : Time) → IsRing r → written r ts ≡ some (slots r ts)
unfolding written slots
written-slots r ts v = elim (Bool-cases (ltb (length r.timestamps) r.cap)) [
  | inl e ↦ let g = v.growing (ground arith) in ground arith
  | inr e ↦ ground arith
]

unfoldable pub added : Ring → Time → Ring
added r ts = record r {
  timestamps = slots r ts;
  head = (r.head + 1) % r.cap;
  size = if ltb r.size r.cap then r.size + 1 else r.size;
}

pub add-added :
    (r : Ring) (ts : Time) → IsRing r → add_connection_timestamp r ts ≡ some (added r ts)
unfolding add_connection_timestamp added
add-added r ts v = rw (written-slots r ts v, advanced) (ground arith)

pub length-slots :
    (r : Ring) (ts : Time)
    → IsRing r
    → length (slots r ts)
      ≡ (if ltb (length r.timestamps) r.cap then length r.timestamps + 1 else r.cap)
unfolding slots
length-slots r ts v =
    ground (arith, length-append r.timestamps (ts ∷ []), length-set r.timestamps r.head ts)

pub next_head : (r : Ring) → IsRing r → (r.head + 1) % r.cap ≡ wrap r.cap (r.head + 1)
next_head r v = mod-wrap r.cap (r.head + 1) (omega arith)

pub added-IsRing : (r : Ring) (ts : Time) → IsRing r → IsRing (added r ts)
unfolding added
added-IsRing r ts v = elim (Bool-cases (ltb (length r.timestamps) r.cap)) [
  | inl e ↦
      let g = v.growing (ground arith) in
      record {
        room = v.room;
        fits = ground (arith, length-slots r ts v);
        held = ground (arith, length-slots r ts v);
        inside = ground (arith, next_head r v);
        growing = λ h. ground (arith, length-slots r ts v, next_head r v);
      }
  | inr e ↦ record {
    room = v.room;
    fits = ground (arith, length-slots r ts v);
    held = ground (arith, length-slots r ts v);
    inside = ground (arith, next_head r v);
    growing = λ h. absurd (ground (arith, length-slots r ts v));
  }
]

-- The new timestamp is in the slot of the old head.
pub slots_new : (r : Ring) (ts : Time) → IsRing r → get_or (slots r ts) r.head 0 ≡ ts
unfolding slots
slots_new r ts v = elim (Bool-cases (ltb (length r.timestamps) r.cap)) [
  | inl e ↦ let g = v.growing (ground arith) in rw (e, g) (get_or-append_last r.timestamps ts 0)
  | inr e ↦ rw e (get_or-set_self r.timestamps r.head ts 0 (ground arith))
]

-- No other slot that is in use has changed.
pub slots_old :
    (r : Ring) (ts : Time) (k : ℕ)
    → IsRing r
    → k < length r.timestamps
    → k ≢ r.head
    → get_or (slots r ts) k 0 ≡ get_or r.timestamps k 0
unfolding slots
slots_old r ts k v h n = elim (Bool-cases (ltb (length r.timestamps) r.cap)) [
  | inl e ↦ rw e (get_or-append_left r.timestamps (ts ∷ []) k 0 h)
  | inr e ↦ rw e (get_or-set_ne r.timestamps ts 0 (λ q. n (sym q)))
]

-- A slot of the window is in use, and is not the one that is written next.
pub in_use :
    (r : Ring) (i : ℕ)
    → IsRing r
    → r.size < r.cap
    → i < r.size
    → wrap r.cap (r.head + r.cap - r.size + i) < length r.timestamps
in_use r i v room h = elim (Bool-cases (ltb (length r.timestamps) r.cap)) [
  | inl e ↦ let g = v.growing (ground arith) in ground arith
  | inr e ↦ ground arith
]

pub not_head :
    (r : Ring) (i : ℕ)
    → IsRing r
    → r.size < r.cap
    → i < r.size
    → wrap r.cap (r.head + r.cap - r.size + i) ≢ r.head
not_head r i v room h q = ground arith

-- Below capacity the buffer's timestamps move up by none: the window's slots keep their content.
pub slot_below :
    (r : Ring) (ts : Time) (i : ℕ)
    → IsRing r
    → r.size < r.cap
    → i < r.size
    → get_or (slots r ts) (wrap r.cap ((r.head + 1) % r.cap + r.cap - (r.size + 1) + i)) 0
      ≡ get_or r.timestamps (wrap r.cap (r.head + r.cap - r.size + i)) 0
slot_below r ts i v room h =
    let k = wrap r.cap (r.head + r.cap - r.size + i) in
    let same : wrap r.cap ((r.head + 1) % r.cap + r.cap - (r.size + 1) + i) ≡ k =
      ground (arith, next_head r v) in
    let inside : k < length r.timestamps = in_use r i v room h in
    let other : k ≢ r.head = not_head r i v room h in rw same (slots_old r ts k v inside other)

pub slot_full :
    (r : Ring) (ts : Time) (i : ℕ)
    → IsRing r
    → r.size ≡ r.cap
    → suc i < r.cap
    → get_or (slots r ts) (wrap r.cap ((r.head + 1) % r.cap + r.cap - r.cap + i)) 0
      ≡ get_or r.timestamps (wrap r.cap (suc (r.head + r.cap - r.cap) + i)) 0
slot_full r ts i v full h =
    let k = wrap r.cap (suc (r.head + r.cap - r.cap) + i) in
    let same : wrap r.cap ((r.head + 1) % r.cap + r.cap - r.cap + i) ≡ k =
      ground (arith, next_head r v) in
    let inside : k < length r.timestamps = ground arith in
    let other : k ≢ r.head = λ q. ground arith in rw same (slots_old r ts k v inside other)
