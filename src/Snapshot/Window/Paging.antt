-- ===== src/Snapshot/Window/Paging.antt =====
-- Following the cursor from page to page reads the whole window.
use xray_exporter.Common.{
  ℕ, zero, suc, ◌<◌, ◌≡◌, refl, ap, sym, ◌∙◌, inl, inr, Bool, true, false, Option, none, some, List,
  [], ◌∷◌, ◌++◌, arith, not, Option-cases, Bool-cases, select, any, take, drop, length, All,
  if◌then◌else◌, length-drop, take-append-drop,
}
use mathlib.Core.Bool.{false≢true}
use mathlib.Core.List.{append-nil, mem-cons_self}
use xray_exporter.Common.Members.{last?, last?-ne-none}
use xray_exporter.Text.{Text}
use xray_exporter.Snapshot.Types.{Time, Snapshot, WindowPage}
use xray_exporter.Snapshot.TimeText.{TimeText}
use xray_exporter.Snapshot.Store.{Store}
use xray_exporter.Snapshot.Window.{window, in_window, past_cursor, more_after}
use xray_exporter.Snapshot.Window.Page.{windowed, window-snapshots, window-more_after}
use xray_exporter.Snapshot.Window.Ascending.{
  IsAscending, newer, IsAscending-select, last-take-All, select-newer_last,
}

module _ (texts : TimeText) (s : Store) (since until : Time) (limit : ℕ) where
  -- A client that asks for pages until one has no more, and joins them.
  unfoldable pub follow : ℕ → Option Time → List Snapshot
  follow zero cursor = []
  follow (suc fuel) cursor =
      let page = window texts.format s since until limit cursor in
      let rest = λ (c : Time). follow fuel (some c) in
      if page.has_more
      then page.snapshots ++ (elim (texts.parse page.next_cursor) [ none ↦ [] | some c ↦ rest c ])
      else page.snapshots

module _ (start end : Time) (cursor : Option Time) where
  selected_past_cursor :
      (items : List Snapshot)
      → All (λ x. past_cursor cursor x.collected_at ≡ true) (windowed start end cursor items)
  unfolding in_window
  selected_past_cursor [] = tt
  selected_past_cursor (x ∷ items) = elim (Bool-cases (in_window start end cursor x)) [
    | inl e ↦ rw e (ground arith, selected_past_cursor items)
    | inr e ↦ rw e (selected_past_cursor items)
  ]

  windowed-newer :
      (c : Time) (items : List Snapshot)
      → past_cursor cursor c ≡ true
      → windowed start end (some c) items ≡ select (newer c) (windowed start end cursor items)
  unfolding in_window
  windowed-newer c [] past = refl
  windowed-newer c (x ∷ items) past = ground (arith, windowed-newer c items past)

  -- The window past the last snapshot of a page is the window's rest.
  windowed-drop :
      (n : ℕ) (items : List Snapshot) {y : Snapshot}
      → IsAscending items
      → last? (take n (windowed start end cursor items)) ≡ some y
      → windowed start end (some y.collected_at) items ≡ drop n (windowed start end cursor items)
  windowed-drop n items {y} asc e =
      let w = windowed start end cursor items in
      let past =
        last-take-All (λ x. past_cursor cursor x.collected_at ≡ true) n w
          (selected_past_cursor items) e in
      windowed-newer y.collected_at items past
      ∙ select-newer_last n w (IsAscending-select (in_window start end cursor) items asc) e

is_nil : List Snapshot → Bool
is_nil [] = true
is_nil (x ∷ xs) = false

any-select : (p : Snapshot → Bool) (xs : List Snapshot) → any p xs ≡ not (is_nil (select p xs))
unfolding is_nil
any-select p [] = refl
any-select p (x ∷ xs) = ground (arith, any-select p xs)

take_of_drop-nil : (n : ℕ) (xs : List Snapshot) → is_nil (drop n xs) ≡ true → take n xs ≡ xs
unfolding is_nil
take_of_drop-nil n xs h = ground (arith, take-append-drop n xs, append-nil (take n xs))

module _ (format : Time → Text) (s : Store) (since until : Time) (n : ℕ)
    (cursor : Option Time) where
  abbrev the_page : WindowPage
  the_page = window format s since until (suc n) cursor

  abbrev the_window : List Snapshot
  the_window = windowed since until cursor s.items

  window-empty : last? (take (suc n) the_window) ≡ none → the_page.has_more ≡ false
  unfolding more_after
  window-empty e = (window-more_after format s since until cursor n).0 ∙ (rw e refl)

  window-last :
      (y : Snapshot)
      → last? (take (suc n) the_window) ≡ some y
      → any (newer y.collected_at) the_window ≡ false
      → the_page.has_more ≡ false
  unfolding more_after
  window-last y e more =
      (window-more_after format s since until cursor n).0 ∙ (rw (e, more_after, more) refl)

  window-more :
      (y : Snapshot)
      → last? (take (suc n) the_window) ≡ some y
      → any (newer y.collected_at) the_window ≡ true
      → (the_page.has_more ≡ true) × (the_page.next_cursor ≡ format y.collected_at)
  unfolding more_after
  window-more y e more =
      let (h, c) = window-more_after format s since until cursor n in
      (h ∙ (rw (e, more_after, more) refl), c ∙ (rw (e, more_after, more) refl))

take_nothing : (n : ℕ) (xs : List Snapshot) → last? (take (suc n) xs) ≡ none → xs ≡ []
unfolding last?
take_nothing n [] e = refl
take_nothing n (x ∷ xs) e = absurd (last?-ne-none x (x ∷ take n xs) mem-cons_self e)

dropped_fewer :
    (n : ℕ) (xs : List Snapshot) (fuel : ℕ)
    → is_nil (drop (suc n) xs) ≡ false
    → length xs < suc fuel
    → length (drop (suc n) xs) < fuel
unfolding is_nil
dropped_fewer n [] fuel left h = absurd (false≢true (sym left))
dropped_fewer n (x ∷ xs) fuel left h = omega (arith, length-drop n xs)

module _ (texts : TimeText) (s : Store) (since until : Time) (n : ℕ) where
  -- When no two stored snapshots have the same time, following `next_cursor` from page to page reads
  -- exactly the snapshots of the window, each once and in order; more rounds than snapshots suffice.
  pub follow-windowed :
      (fuel : ℕ) (cursor : Option Time)
      → IsAscending s.items
      → length (windowed since until cursor s.items) < fuel
      → follow texts s since until (suc n) fuel cursor ≡ windowed since until cursor s.items
  unfolding follow
  follow-windowed zero cursor asc h = absurd (omega arith)
  follow-windowed (suc fuel) cursor asc h =
      let w = windowed since until cursor s.items in
      let shown = window-snapshots texts.format s since until cursor (suc n) in
      elim (Option-cases (last? (take (suc n) w))) [
        | inl e ↦
            rw (window-empty texts.format s since until n cursor e, shown, take_nothing n w e) refl
        | inr (y, e) ↦
            let rest = windowed-drop since until cursor (suc n) s.items asc e in
            let asc' = IsAscending-select (in_window since until cursor) s.items asc in
            let found =
              any-select (newer y.collected_at) w
              ∙ ap (λ l. not (is_nil l)) (select-newer_last (suc n) w asc' e) in
            elim (Bool-cases (is_nil (drop (suc n) w))) [
              | inl done ↦
                  rw
                    (
                      window-last texts.format s since until n cursor y e (found ∙ ap not done),
                      shown,
                    )
                    (take_of_drop-nil (suc n) w done)
              | inr left ↦
                  let page =
                    window-more texts.format s since until n cursor y e (found ∙ ap not left) in
                  let fewer : length (drop (suc n) w) < fuel = dropped_fewer n w fuel left h in
                  rw
                    (
                      page.0,
                      page.1,
                      shown,
                      texts.parse-format,
                      follow-windowed fuel (some y.collected_at) asc (rw rest fewer),
                      rest,
                    )
                    (take-append-drop (suc n) w)
            ]
      ]
