-- ===== src/Snapshot/Window.antt =====
-- The method `Window` of internal/snapshot/store.go: one page of the stored snapshots.
pub mod Page
pub mod Ascending
pub mod Paging
use xray_exporter.Common.{
  ℕ, Bool, true, false, ◌&&◌, ◌||◌, not, Option, none, some, List, [], ◌∷◌, ◌++◌, ltb, ◌==◌,
  if◌then◌else◌, length,
}
use xray_exporter.Common.Members.{last?}
use xray_exporter.Text.{Text}
use xray_exporter.Snapshot.Types.{Time, Snapshot, WindowPage}
use xray_exporter.Snapshot.Store.{Store, before, clone_snapshot}

-- a.After(b)
abbrev pub is_after : Time → Time → Bool
is_after a b = before b a

abbrev pub past_cursor : Option Time → Time → Bool
past_cursor none at = true
past_cursor (some c) at = is_after at c

-- The two `continue` tests of both loops, negated. `UTC()` keeps the instant.
unfoldable pub in_window : Time → Time → Option Time → Snapshot → Bool
in_window start end cursor item =
    not (before item.collected_at start || is_after item.collected_at end)
    && past_cursor cursor item.collected_at

module _ (start end : Time) (cursor : Option Time) where
  -- The first loop; `page` is `page.Snapshots`.
  unfoldable pub collect_page : ℕ → List Snapshot → List Snapshot → List Snapshot
  collect_page limit page [] = page
  collect_page limit page (item ∷ items) =
      let page' = page ++ clone_snapshot item ∷ [] in
      let skipped = collect_page limit page items in
      let taken = collect_page limit page' items in
      if in_window start end cursor item
      then (if ltb 0 limit && length page' == limit then page' else taken)
      else skipped

  -- The second loop finds an item of the window after the page's last.
  unfoldable pub find_more : Time → List Snapshot → Bool
  find_more last [] = false
  find_more last (item ∷ items) =
      if in_window start end cursor item && is_after item.collected_at last
      then true
      else find_more last items

-- HasMore and NextCursor
unfoldable pub more_after : (Time → Text) → Option Snapshot → (Time → Bool) → Bool × Text
more_after format none found = (false, [])
more_after format (some last) found =
    if found last.collected_at then (true, format last.collected_at) else (false, [])

pub continuation : (Time → Text) → ℕ → Option Snapshot → (Time → Bool) → Bool × Text
unfolding more_after
continuation format limit last found =
    if ltb 0 limit then more_after format last found else (false, [])

page_of : List Snapshot → Bool × Text → WindowPage
page_of [] (more, next) = record {
  node_id = [];
  env = [];
  snapshots = [];
  has_more = more;
  next_cursor = next;
}
page_of (s ∷ rest) (more, next) = record {
  node_id = s.node_id;
  env = s.env;
  snapshots = s ∷ rest;
  has_more = more;
  next_cursor = next;
}

-- `format` writes a time as RFC 3339 with nanoseconds.
unfoldable pub window : (Time → Text) → Store → Time → Time → ℕ → Option Time → WindowPage
unfolding collect_page find_more continuation page_of
window format s since until limit cursor =
    let page = collect_page since until cursor limit [] s.items in
    page_of page
      (continuation format limit (last? page) (λ last. find_more since until cursor last s.items))
