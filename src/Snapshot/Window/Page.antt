-- ===== src/Snapshot/Window/Page.antt =====
-- What one page holds.
use xray_exporter.Common.{
  ℕ, zero, suc, ◌+◌, ◌≡◌, refl, sym, Bool, Option, List, [], ◌∷◌, ◌++◌, arith, select, any, take,
  fun_ext, lt→ltb, length, length-append,
}
use mathlib.Core.List.{append-nil, append_assoc}
use xray_exporter.Common.Members.{last?}
use xray_exporter.Text.{Text}
use xray_exporter.Snapshot.Types.{Time, Snapshot}
use xray_exporter.Snapshot.Store.{Store}
use xray_exporter.Snapshot.Window.{
  window, in_window, is_after, collect_page, find_more, page_of, more_after,
}

-- The first `limit` of a list; all of it at 0.
abbrev pub limited : ℕ → List Snapshot → List Snapshot
limited zero xs = xs
limited (suc n) xs = take (suc n) xs

module _ (start end : Time) (cursor : Option Time) where
  abbrev pub windowed : List Snapshot → List Snapshot
  windowed = select (in_window start end cursor)

  -- With room for `room` more, the loop appends the first `room` items of the window.
  collect_page-take :
      (limit room : ℕ) (page items : List Snapshot)
      → length page + suc room ≡ limit
      → collect_page start end cursor limit page items ≡ page ++ take (suc room) (windowed items)
  unfolding collect_page
  collect_page-take limit room page [] h = sym (append-nil page)
  collect_page-take limit zero page (item ∷ items) h =
      ground (arith, length-append page (item ∷ []), collect_page-take limit zero page items h)
  collect_page-take limit (suc room) page (item ∷ items) h =
      let e = length-append page (item ∷ []) in
      ground (
        arith,
        e,
        append_assoc page (item ∷ []) (take (suc room) (windowed items)),
        collect_page-take limit (suc room) page items h,
        collect_page-take limit room (page ++ item ∷ []) items (omega (arith, e)),
      )

  -- Without a limit it takes them all.
  collect_page-all :
      (page items : List Snapshot)
      → collect_page start end cursor 0 page items ≡ page ++ windowed items
  unfolding collect_page
  collect_page-all page [] = sym (append-nil page)
  collect_page-all page (item ∷ items) = ground (
    arith,
    append_assoc page (item ∷ []) (windowed items),
    collect_page-all page items,
    collect_page-all (page ++ item ∷ []) items,
  )

  pub collect_page-limited :
      (limit : ℕ) (items : List Snapshot)
      → collect_page start end cursor limit [] items ≡ limited limit (windowed items)
  collect_page-limited zero items = collect_page-all [] items
  collect_page-limited (suc n) items = collect_page-take (suc n) n [] items (omega arith)

  pub find_more-any :
      (last : Time) (items : List Snapshot)
      → find_more start end cursor last items
        ≡ any (λ i. is_after i.collected_at last) (windowed items)
  unfolding find_more
  find_more-any last [] = refl
  find_more-any last (item ∷ items) = ground (arith, find_more-any last items)

snapshots-page_of : (xs : List Snapshot) (next : Bool × Text) → (page_of xs next).snapshots ≡ xs
unfolding page_of
snapshots-page_of [] next = refl
snapshots-page_of (s ∷ rest) next = refl

parts-page_of :
    (xs : List Snapshot) (next : Bool × Text)
    → ((page_of xs next).has_more ≡ next.0) × ((page_of xs next).next_cursor ≡ next.1)
unfolding page_of
parts-page_of [] next = (refl, refl)
parts-page_of (s ∷ rest) next = (refl, refl)

module _ (format : Time → Text) (s : Store) (since until : Time) (cursor : Option Time) where
  -- A page holds the first `limit` snapshots of the window, all of them at limit 0, in stored order.
  pub window-snapshots :
      (limit : ℕ)
      → (window format s since until limit cursor).snapshots
        ≡ limited limit (windowed since until cursor s.items)
  unfolding window
  window-snapshots limit =
      rw (snapshots-page_of, collect_page-limited since until cursor limit s.items) refl

  -- With a limit, the page says that there is more, and from where, by its last snapshot.
  pub window-more_after :
      (n : ℕ)
      → let p = window format s since until (suc n) cursor in
        let w = windowed since until cursor s.items in
        let next =
          more_after format
            (last? (take (suc n) w))
            (λ t. any (λ i. is_after i.collected_at t) w) in
        (p.has_more ≡ next.0) × (p.next_cursor ≡ next.1)
  unfolding window
  window-more_after n =
      let found = fun_ext (λ t. find_more-any since until cursor t s.items) in
      rw
        (
          (parts-page_of _ _).0,
          (parts-page_of _ _).1,
          collect_page-limited since until cursor (suc n) s.items,
          lt→ltb 0 (suc n) (omega arith),
          found,
        )
        (refl, refl)
