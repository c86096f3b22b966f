-- ===== src/LogParser/Ring/Adding.antt =====
-- Adding a timestamp keeps the buffer well formed and drops at most the oldest one.
use xray_exporter.Common.{
  ℕ, suc, ◌+◌, ◌-◌, ◌%◌, ◌<◌, ◌≡◌, refl, sym, ap, ap₂, ◌∙◌, inl, inr, false, some, List, [], ◌∷◌,
  ◌++◌, ltb, lt→ltb, arith, if◌then◌else◌, length, drop, get_or, Bool-cases,
}
use native.Mathlib.Numerals.{add-one}
use xray_exporter.LogParser.Ring.{Time, Ring, add_connection_timestamp}
use xray_exporter.LogParser.Ring.Window.{
  IsRing, wrap, read, contents, length-read, read_ext, read-suc,
}
use xray_exporter.LogParser.Ring.Slots.{
  slots, added, add-added, next_head, added-IsRing, slots_new, slot_below, slot_full,
}

-- The window that holds the last `cap` timestamps.
unfoldable pub push_window : ℕ → List Time → Time → List Time
push_window cap q ts = if ltb (length q) cap then q ++ ts ∷ [] else drop 1 q ++ ts ∷ []

contents-added_below :
    (r : Ring) (ts : Time)
    → IsRing r
    → r.size < r.cap
    → contents (added r ts) ≡ contents r ++ ts ∷ []
unfolding contents added
contents-added_below r ts v room =
    let last : wrap r.cap ((r.head + 1) % r.cap + r.cap - (r.size + 1) + r.size) ≡ r.head =
      ground (arith, next_head r v) in
    let old =
      read_ext (slots r ts) r.timestamps r.cap ((r.head + 1) % r.cap + r.cap - (r.size + 1))
        (r.head + r.cap - r.size) r.size (λ i h. slot_below r ts i v room h) in
    let start = (r.head + 1) % r.cap + r.cap - (r.size + 1) in
    rw (lt→ltb r.size r.cap room) (
      ap (λ (n : ℕ). read (slots r ts) r.cap start n) (add-one r.size)
      ∙ read-suc (slots r ts) r.cap start r.size
      ∙ ap₂ (λ (a : List Time) (b : Time). a ++ b ∷ []) old
          (ap (λ (k : ℕ). get_or (slots r ts) k 0) last ∙ slots_new r ts v))

contents-added_full :
    (r : Ring) (ts : Time) (m : ℕ)
    → IsRing r
    → r.size ≡ r.cap
    → r.cap ≡ suc m
    → contents (added r ts) ≡ drop 1 (contents r) ++ ts ∷ []
unfolding contents added slots
contents-added_full r ts m v full e =
    let start = (r.head + 1) % r.cap + r.cap - r.cap in
    let last : wrap r.cap (start + m) ≡ r.head = ground (arith, next_head r v) in
    let old =
      read_ext (slots r ts) r.timestamps r.cap start (suc (r.head + r.cap - r.cap)) m
        (λ i h. slot_full r ts i v full (omega arith)) in
    let whole : ltb r.size r.cap ≡ false = ground arith in
    rw (whole, full)
      (ap (λ (n : ℕ). read (slots r ts) r.cap start n) e
        ∙ read-suc (slots r ts) r.cap start m
        ∙ ap₂ (λ (a : List Time) (b : Time). a ++ b ∷ []) old
            (ap (λ (k : ℕ). get_or (slots r ts) k 0) last ∙ slots_new r ts v)
        ∙ ap (λ (n : ℕ). drop 1 (read r.timestamps r.cap (r.head + r.cap - r.cap) n) ++ ts ∷ [])
            (sym e))

pub length-contents : (r : Ring) → length (contents r) ≡ r.size
unfolding contents
length-contents r = length-read r.timestamps r.cap (r.head + r.cap - r.size) r.size

contents-added :
    (r : Ring) (ts : Time) → IsRing r → contents (added r ts) ≡ push_window r.cap (contents r) ts
unfolding push_window
contents-added r ts v = elim (Bool-cases (ltb r.size r.cap)) [
  | inl e ↦ rw (length-contents, e) (contents-added_below r ts v (ground arith))
  | inr e ↦
      rw (length-contents, e) (contents-added_full r ts (r.cap - 1) v (ground arith) (omega arith))
]

-- On a well-formed buffer, adding a timestamp does not panic and keeps the buffer well formed; the
-- timestamp becomes the newest, and the oldest is dropped exactly when the buffer held `cap` of them.
pub add-push_window :
    (r : Ring) (ts : Time)
    → IsRing r
    → (r' : Ring) × (add_connection_timestamp r ts ≡ some r')
      × IsRing r'
      × (r'.cap ≡ r.cap)
      × (contents r' ≡ push_window r.cap (contents r) ts)
unfolding added
add-push_window r ts v =
    (added r ts, add-added r ts v, added-IsRing r ts v, refl, contents-added r ts v)
