-- ===== src/LogParser/Loop/Exact.antt =====
-- What the loop has counted of a log that is only appended to.
use mathlib.Core.List.{append-nil, map-append}
use xray_exporter.Common.{
  ℕ, ◌+◌, ◌-◌, ◌≤◌, ◌≡◌, ◌≢◌, refl, sym, ap, ◌∙◌, ◌⊎◌, inl, inr, true, none, List, [], ◌++◌, map,
  arith, length, drop, Bool-cases,
}
use xray_exporter.Common.Sort.{Sorting}
use xray_exporter.Text.{Text}
use xray_exporter.GoMap.{lookup, Distinct}
use xray_exporter.GoMap.Keys.{has_text}
use xray_exporter.GoMap.Size.{length-le}
use xray_exporter.LogParser.Ring.{Time}
use xray_exporter.LogParser.Counts.{
  Counts, CountMaps, more_often, keep_top_n, need_cleanup, trim_to_top_n, check_emergency_cleanup,
}
use xray_exporter.LogParser.Follow.{Position, raw_lines, trim_line}
use xray_exporter.LogParser.Batch.{Setting}
use xray_exporter.LogParser.Batch.Tally.{increased}
use xray_exporter.LogParser.Batch.Requested.{
  Kind, of_domains, of_ips, of_outbounds, counts_of, requests, requests-append, increased-add,
  lookup-counted, counted-Distinct,
}
use xray_exporter.LogParser.Loop.{Phase, waiting, checking, checked, cleanup_ticked, ticked}
use xray_exporter.LogParser.Loop.Core.{Core, core_react, counted}
use xray_exporter.LogParser.Loop.Growing.{Calls, log_file, IsAt, IsAt-append, parse_log_file-IsAt}

-- How many keys of a kind a trim keeps.
abbrev pub tracked : Kind → ℕ
tracked of_domains = 20
tracked of_ips = 20
tracked of_outbounds = 10

-- The complete lines of a log.
abbrev pub log_lines : Text → List Text
log_lines bytes = map trim_line (raw_lines [] bytes)

keep_top_n-few :
    (sorting : Sorting more_often) (m : Counts) (n : ℕ) → length m ≤ n → keep_top_n sorting m n ≡ m
unfolding keep_top_n
keep_top_n-few sorting m n h = ground arith

trim-few :
    (sorting : Sorting more_often) (kind : Kind) (m : CountMaps)
    → length (counts_of kind m) ≤ tracked kind
    → counts_of kind (trim_to_top_n sorting m) ≡ counts_of kind m
unfolding trim_to_top_n
trim-few sorting of_domains m h = keep_top_n-few sorting m.domains 20 h
trim-few sorting of_ips m h = keep_top_n-few sorting m.ips 20 h
trim-few sorting of_outbounds m h = keep_top_n-few sorting m.outbounds 10 h

check-few :
    (sorting : Sorting more_often) (kind : Kind) (m : CountMaps)
    → length (counts_of kind m) ≤ tracked kind
    → counts_of kind (check_emergency_cleanup sorting m) ≡ counts_of kind m
unfolding check_emergency_cleanup
check-few sorting kind m h = elim (Bool-cases (need_cleanup m)) [
  | inl e ↦ rw e (trim-few sorting kind m h)
  | inr e ↦ rw e refl
]

requests-trimmed :
    (kind : Kind) (s : Setting) (k : Text) (a b : List Text)
    → requests kind s k (map trim_line (a ++ b))
      ≡ requests kind s k (map trim_line a) + requests kind s k (map trim_line b)
requests-trimmed kind s k a b =
    ap (requests kind s k) (map-append trim_line a b)
    ∙ requests-append kind s k (map trim_line a) (map trim_line b)

-- Every name that the lines of a log ask for is known.
abbrev pub AllKnown : Kind → Setting → List Text → Text → Type 0
AllKnown kind s known bytes =
    (k : Text) → requests kind s k (log_lines bytes) ≢ 0 → has_text k known ≡ true

abbrev pub IsLive : Phase → Type 0
IsLive phase = (phase ≡ waiting) ⊎ (phase ≡ checking)

module _ (sorting : Sorting more_often) (kind : Kind) (s : Setting) (inode : ℕ) where
  -- The goroutine has begun and goes on, stands in the log behind the lines, and has counted them.
  pub record IsExact (bytes : Text) (lines : List Text) (c : Core) : Type 0 where
    pub live : IsLive c.phase
    pub same : c.setting ≡ s
    pub place : IsAt inode bytes lines c.position
    pub distinct : Distinct (counts_of kind c.counts)
    pub tally :
        (k : Text)
        → lookup k (counts_of kind c.counts)
          ≡ increased none (requests kind s k (map trim_line lines))

  IsExact-recount :
      (bytes : Text) (lines : List Text) (c : Core) (m : CountMaps) (phase : Phase)
      → IsExact bytes lines c
      → counts_of kind m ≡ counts_of kind c.counts
      → IsLive phase
      → IsExact bytes lines (record c { counts = m; phase = phase })
  IsExact-recount bytes lines c m phase v same live = record {
    live = live;
    same = v.same;
    place = v.place;
    distinct = rw same v.distinct;
    tally = λ k. rw same (v.tally k);
  }

  pub IsExact-append :
      (bytes t : Text) (lines : List Text) (c : Core)
      → IsExact bytes lines c
      → IsExact (bytes ++ t) lines c
  IsExact-append bytes t lines c v = record {
    live = v.live;
    same = v.same;
    place = IsAt-append inode bytes t lines c.position v.place;
    distinct = v.distinct;
    tally = v.tally;
  }

  pub IsExact-counted :
      (bytes : Text) (lines more : List Text) (c : Core) (cutoff : Time) (position : Position)
      → IsExact bytes lines c
      → (after : Text) → IsAt inode after (lines ++ more) position
      → IsExact after (lines ++ more) (record c {
        position = position;
        counts = counted c.setting cutoff (map trim_line more) c.counts;
        phase = checking;
      })
  IsExact-counted bytes lines more c cutoff position v after place = record {
    live = inr refl;
    same = v.same;
    place = place;
    distinct = counted-Distinct kind c.setting cutoff (map trim_line more) c.counts v.distinct;
    tally = λ k.
        let old = requests kind s k (map trim_line lines) in
        let new = requests kind s k (map trim_line more) in
        lookup-counted kind c.setting cutoff (map trim_line more) c.counts k
        ∙ ap
            (λ t.
              increased (lookup k (counts_of kind c.counts))
                (requests kind t k (map trim_line more)))
            v.same
        ∙ ap (λ o. increased o new) (v.tally k)
        ∙ increased-add old new
        ∙ ap (increased none) (sym (requests-trimmed kind s k lines more));
  }

  module _ (known : List Text) (few : length known ≤ tracked kind) where
    few_counts :
        (bytes t : Text) (lines : List Text) (c : Core)
        → IsExact bytes lines c
        → AllKnown kind s known (bytes ++ t)
        → length (counts_of kind c.counts) ≤ tracked kind
    few_counts bytes t lines c v all =
        let fits : length (counts_of kind c.counts) ≤ length known =
          length-le (counts_of kind c.counts) known v.distinct (λ k there.
            all k (λ nowhere. there (v.tally k ∙ ap (increased none) (none_earlier k nowhere)))) in
        omega (arith, fits, few)
      where
        none_earlier :
            (k : Text)
            → requests kind s k (log_lines (bytes ++ t)) ≡ 0
            → requests kind s k (map trim_line lines) ≡ 0
        none_earlier k nowhere =
            let rest = raw_lines [] (drop c.position.last_pos (bytes ++ t)) in
            let parts = ap (λ ls. requests kind s k (map trim_line ls)) (v.place.split t) in
            omega (arith, requests-trimmed kind s k lines rest, parts, nowhere)

    module _ (bytes late : Text) (lines : List Text) (c : Core) (v : IsExact bytes lines c) where
      pub react-passed :
          (phase : Phase) (calls : Calls) (now : Time)
          → (more : List Text) × IsExact
              (bytes ++ late)
              (lines ++ more)
              (core_react sorting phase (ticked (λ path. log_file inode calls bytes late) now) c)
      unfolding core_react
      react-passed waiting calls now =
          let (more, handed, at) =
            parse_log_file-IsAt inode calls bytes late lines c.position v.place in
          (
            more,
            rw handed
                (IsExact-counted bytes lines more c (now - c.time_window) _ v (bytes ++ late) at),
          )
      react-passed phase calls now =
          ([], rw (append-nil lines) (IsExact-append bytes late lines c v))

      pub react-rechecked :
          (phase : Phase)
          → AllKnown kind s known (bytes ++ late)
          → IsExact bytes lines (core_react sorting phase checked c)
      unfolding core_react
      react-rechecked checking all =
          IsExact-recount bytes lines c (check_emergency_cleanup sorting c.counts) waiting v
            (check-few sorting kind c.counts (few_counts bytes late lines c v all)) (inl refl)
      react-rechecked phase all = v

      pub react-trimmed :
          (phase : Phase)
          → AllKnown kind s known (bytes ++ late)
          → IsExact bytes lines (core_react sorting phase cleanup_ticked c)
      unfolding core_react
      react-trimmed waiting all =
          IsExact-recount bytes lines c (trim_to_top_n sorting c.counts) c.phase v
            (trim-few sorting kind c.counts (few_counts bytes late lines c v all)) v.live
      react-trimmed phase all = v
