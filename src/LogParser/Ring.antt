-- ===== src/LogParser/Ring.antt =====
-- The circular buffer of connection timestamps in internal/logparser/parser.go: the four fields
-- ConnectionTimestamps and ConnectionsBuf* of `MetricsData`. `none` is a panic of the program, an
-- index out of range or a division by zero.
pub mod Window
pub mod Slots
pub mod Adding
pub mod Batches
pub mod Expiring
use xray_exporter.Common.{
  ℕ, zero, suc, ◌+◌, ◌-◌, ◌%◌, Bool, true, false, ◌&&◌, Option, none, some, List, [], ◌∷◌, ◌++◌,
  ltb, leb, ◌==◌, if◌then◌else◌, length, get_elem?, set,
}

-- Nanoseconds since year 1.
abbrev pub Time : Type 0
Time = ℕ

pub record Ring : Type 0 where
  pub timestamps : List Time
  pub head : ℕ
  pub size : ℕ
  pub cap : ℕ

-- p.metrics.ConnectionTimestamps[i] = ts
pub store_at : Ring → ℕ → Time → Option (List Time)
store_at r i ts = if ltb i (length r.timestamps) then some (set r.timestamps i ts) else none

pub written : Ring → Time → Option (List Time)
unfolding store_at
written r ts =
    if r.head == length r.timestamps && ltb (length r.timestamps) r.cap
    then some (r.timestamps ++ ts ∷ [])
    else store_at r r.head ts

pub advanced : Ring → Option (List Time) → Option Ring
advanced r none = none
advanced r (some timestamps) =
    if r.cap == 0
    then none
    else some (record r {
      timestamps = timestamps;
      head = (r.head + 1) % r.cap;
      size = if ltb r.size r.cap then r.size + 1 else r.size;
    })

unfoldable pub add_connection_timestamp : Ring → Time → Option Ring
unfolding written advanced
add_connection_timestamp r ts = advanced r (written r ts)

-- the loop of `mergeDelta` over the timestamps of a batch
unfoldable pub add_all : Ring → List Time → Option Ring
unfolding add_connection_timestamp
add_all r [] = some r
add_all r (ts ∷ rest) = elim (add_connection_timestamp r ts) [
  | none ↦ none
  | some r' ↦ add_all r' rest
]

-- ((head - size) % cap + cap) % cap, where Go's `%` of a negative number is negative or zero.
unfoldable pub tail_index : ℕ → ℕ → ℕ → ℕ
tail_index head size width =
    if leb size head
    then ((head - size) % width + width) % width
    else (width - (size - head) % width) % width

-- The loop of `GetMetrics`, from a size down; a timestamp after the cutoff ends it.
pub expire_from : Ring → Time → ℕ → Option Ring
unfolding tail_index
expire_from r cutoff zero = some (record r { size = 0 })
expire_from r cutoff (suc n) =
    let shorter = expire_from r cutoff n in
    elim (get_elem? r.timestamps (tail_index r.head (suc n) r.cap)) [
      | none ↦ none
      | some ts ↦ if ltb cutoff ts then some (record r { size = suc n }) else shorter
    ]

unfoldable pub expire : Ring → Time → Option Ring
unfolding expire_from
expire r cutoff = expire_from r cutoff r.size
