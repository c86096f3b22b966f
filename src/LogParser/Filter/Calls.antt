-- ===== src/LogParser/Filter/Calls.antt =====
-- internal/logparser/filter.go: a call of `ShouldFilter` among the calls of other goroutines.
use xray_exporter.Common.{
  ℕ, ◌≤◌, ◌≡◌, refl, ap, inl, inr, Bool, Option, none, some, List, [], ◌∷◌, arith, length,
  Option-cases,
}
use xray_exporter.Text.{Text}
use xray_exporter.GoMap.{lookup}
use xray_exporter.LogParser.Filter.{IpText, Rules, should_filter_internal}
use xray_exporter.LogParser.Filter.Cache.{Cache, find, keep, new_cache}
use xray_exporter.LogParser.Filter.Sound.{IsSound, find-IsSound}
use xray_exporter.LogParser.Filter.Keeping.{keep-IsSound}

-- A locked section of another call, for some address.
pub data Section : Type 0 where
  looking storing : Text → Section

module _ (answer : Text → Bool) where
  run_section : Section → Cache → Option Cache
  run_section (looking ip) c = elim (find ip c) [ none ↦ none | some (next, b) ↦ some next ]
  run_section (storing ip) c = keep ip (answer ip) c

  unfoldable pub run_sections : List Section → Cache → Option Cache
  unfolding run_section
  run_sections [] c = some c
  run_sections (s ∷ rest) c = elim (run_section s c) [
    | none ↦ none
    | some next ↦ run_sections rest next
  ]

  -- The rest of a call that has not found its address: what other calls do, the answer, its storing.
  answer_and_keep : List Section → Text → Cache → Option (Cache × Bool)
  unfolding run_sections
  answer_and_keep between ip c = elim (run_sections between c) [
    | none ↦ none
    | some during ↦ elim (keep ip (answer ip) during) [
      | none ↦ none
      | some next ↦ some (next, answer ip)
    ]
  ]

  -- A call, with the sections of other calls between its own two.
  unfoldable pub should_filter : List Section → Text → Cache → Option (Cache × Bool)
  unfolding answer_and_keep
  should_filter between ip c = elim (find ip c) [
    | none ↦ none
    | some (next, some b) ↦ some (next, b)
    | some (next, none) ↦ answer_and_keep between ip next
  ]

  module _ (size : ℕ) where
    run_sections-IsSound :
        (sections : List Section) (c : Cache)
        → IsSound answer size c
        → (next : Cache) × (run_sections sections c ≡ some next) × IsSound answer size next
    unfolding run_sections run_section
    run_sections-IsSound [] c v = (c, refl, v)
    run_sections-IsSound (looking ip ∷ rest) c v =
        let (b, mid, run, sound, _) = find-IsSound answer size ip c v in
        let (next, runs, good) = run_sections-IsSound rest mid sound in
        (next, rw (run_sections, run_section, run, runs) refl, good)
    run_sections-IsSound (storing ip ∷ rest) c v =
        let (mid, run, sound) = keep-IsSound answer size ip c v in
        let (next, runs, good) = run_sections-IsSound rest mid sound in
        (next, rw (run_sections, run_section, run, runs) refl, good)

    pub should_filter-IsSound :
        (between : List Section) (ip : Text) (c : Cache)
        → IsSound answer size c
        → (next : Cache) × (should_filter between ip c ≡ some (next, answer ip))
          × IsSound answer size next
    unfolding should_filter answer_and_keep
    should_filter-IsSound between ip c v =
        let (found, next, run, sound, right) = find-IsSound answer size ip c v in
        elim (Option-cases found) [
          | inl e ↦
              let (during, runs, good) = run_sections-IsSound between next sound in
              let (last, keeps, done) = keep-IsSound answer size ip during good in
              (last, rw (should_filter, run, e, answer_and_keep, runs, keeps) refl, done)
          | inr (b, e) ↦
              (next, rw (should_filter, run, e) (ap (λ r. some (next, r)) (right b e)), sound)
        ]

pub new_cache-IsSound : (answer : Text → Bool) → IsSound answer 100_000 new_cache
unfolding new_cache lookup
new_cache-IsSound answer = record {
  entries = record {
    distinct = tt;
    apart = λ j k x y p q same. absurd (ground (arith, p));
    used = λ j x p. absurd (ground (arith, p));
    right = λ j x p. absurd (ground (arith, p));
  };
  limit = refl;
  agrees = λ j. refl;
  room = omega arith;
}

-- Whatever calls came before on a filter's new cache, and whatever sections of other calls come
-- between the two locked sections of this one: no call panics on the element it finds, and this one
-- answers what `shouldFilterInternal` answers without a cache, with at most 100,000 entries kept.
pub should_filter-should_filter_internal :
    (texts : IpText) (rules : Rules) (before between : List Section) (ip : Text)
    → (c next : Cache) × (run_sections (should_filter_internal texts rules) before new_cache
        ≡ some c)
      × (should_filter (should_filter_internal texts rules) between ip c
          ≡ some (next, should_filter_internal texts rules ip))
      × (length next.lru ≤ 100_000)
should_filter-should_filter_internal texts rules before between ip =
    let answer : Text → Bool = should_filter_internal texts rules in
    let (c, runs, sound) =
      run_sections-IsSound answer 100_000 before new_cache (new_cache-IsSound answer) in
    let (next, call, good) = should_filter-IsSound answer 100_000 between ip c sound in
    (c, next, runs, call, good.room)
