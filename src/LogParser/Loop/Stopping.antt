-- ===== src/LogParser/Loop/Stopping.antt =====
-- How the loop ends: by `Stop`, and for good.
use xray_exporter.Common.{
  ◌≡◌, ◌≢◌, refl, ap, ◌∙◌, ◌⊎◌, inl, inr, Bool, true, false, some, List, [], ◌∷◌, arith, ◌||◌,
  Bool-cases, subst, sym,
}
use xray_exporter.Common.Sort.{Sorting}
use xray_exporter.LogParser.Counts.{more_often}
use xray_exporter.LogParser.Metrics.Run.{new_metrics-IsSound}
use xray_exporter.LogParser.Batch.{Setting}
use xray_exporter.LogParser.Loop.{
  Phase, created, waiting, checking, returned, Config, Parser, Event, done, cleanup_ticked, checked,
  stop_called, ticked, scraped, new_parser, start, parse_loop,
}
use xray_exporter.LogParser.Loop.Core.{Core, core, core_react, core_run, parse_loop-core}

-- Whether `Stop` is among the events.
abbrev pub stops : List Event → Bool
stops [] = false
stops (stop_called ∷ es) = true
stops (done ∷ es) = stops es
stops (cleanup_ticked ∷ es) = stops es
stops (checked ∷ es) = stops es
stops (ticked disk now ∷ es) = stops es
stops (scraped now ∷ es) = stops es

stops-cons : (e : Event) (es : List Event) → stops (e ∷ es) ≡ (stops (e ∷ []) || stops es)
stops-cons stop_called es = refl
stops-cons _ es = refl

-- What events leave as it was; `stop` is that a `Stop` is among them.
record IsStep (c c' : Core) (stop : Bool) : Type 0 where
  begun : c.phase ≢ created → c'.phase ≢ created
  resting :
      c.phase ≡ returned
      → (c'.phase ≡ returned) × (c'.position ≡ c.position) × (c'.counts ≡ c.counts)
  asked : c'.phase ≡ returned → (c.phase ≡ returned) ⊎ (c.cancelled ≡ true) ⊎ (stop ≡ true)
  stopped : c.cancelled ≡ true → c'.cancelled ≡ true
  only : c'.cancelled ≡ true → (c.cancelled ≡ true) ⊎ (stop ≡ true)
  heard : stop ≡ true → c'.cancelled ≡ true

IsStep-trans :
    (a b c : Core) (first second : Bool)
    → IsStep a b first
    → IsStep b c second
    → IsStep a c (first || second)
IsStep-trans a b c first second u v = record {
  begun = λ h. v.begun (u.begun h);
  resting = λ h.
      let (here, place, same) = u.resting h in
      let (there, place', same') = v.resting here in (there, place' ∙ place, same' ∙ same);
  asked = λ h. elim (v.asked h) [
    | inl r ↦ ground (arith, u.asked r)
    | inr (inl r) ↦ ground (arith, u.only r)
    | inr (inr r) ↦ inr (inr (ground arith))
  ];
  stopped = λ h. v.stopped (u.stopped h);
  only = λ h. elim (v.only h) [ inl r ↦ ground (arith, u.only r) | inr r ↦ inr (ground arith) ];
  heard =
      λ h. elim (Bool-cases first) [ inl e ↦ v.stopped (u.heard e) | inr e ↦ v.heard (rw e at h) ];
}

module _ (sorting : Sorting more_often) where
  core_react-IsStep :
      (phase : Phase) (e : Event) (c : Core)
      → c.phase ≡ phase
      → IsStep c (core_react sorting phase e c) (stops (e ∷ []))
  unfolding core_react
  core_react-IsStep _ stop_called c h = ground arith
  core_react-IsStep _ (scraped now) c h = ground arith
  core_react-IsStep waiting done c h = ground arith
  core_react-IsStep waiting cleanup_ticked c h = ground arith
  core_react-IsStep waiting (ticked disk now) c h = ground arith
  core_react-IsStep checking checked c h = ground arith
  core_react-IsStep _ _ c h = ground arith

  core_run-IsStep : (es : List Event) (c : Core) → IsStep c (core_run sorting es c) (stops es)
  unfolding core_run
  core_run-IsStep [] c = ground arith
  core_run-IsStep (e ∷ es) c =
      let c1 = core_react sorting c.phase e c in
      rw (stops-cons e es) (
        IsStep-trans c c1 (core_run sorting es c1) (stops (e ∷ [])) (stops es)
          (core_react-IsStep c.phase e c refl) (core_run-IsStep es c1))

  -- What is still to come until the loop has returned: its check, and the context's case.
  abbrev leaving : List Event
  leaving = checked ∷ done ∷ []

  leaving-returned :
      (c : Core)
      → c.phase ≢ created
      → c.cancelled ≡ true
      → (core_run sorting leaving c).phase ≡ returned
  unfolding core_run core_react
  leaving-returned c h stop = ground arith

  -- From a started parser on no events panic. Where the loop has returned there was a `Stop`, and
  -- whatever comes after, it stays returned, reads nothing more of the log and counts nothing more;
  -- and after a `Stop` the check, where it is pending, and the case of the context end the loop.
  pub parse_loop-stopped :
      (s : Setting) (config : Config) (before after : List Event)
      → (p q r : Parser) × (parse_loop sorting before (start (new_parser s config)) ≡ some p)
        × (parse_loop sorting after p ≡ some q)
        × (parse_loop sorting leaving p ≡ some r)
        × (p.phase ≡ returned
            → (stops before ≡ true)
              × (q.phase ≡ returned)
              × (q.position ≡ p.position)
              × (q.metrics.counts ≡ p.metrics.counts))
        × (stops before ≡ true → r.phase ≡ returned)
  unfolding start new_parser
  parse_loop-stopped s config before after =
      let first = start (new_parser s config) in
      let sound = new_metrics-IsSound sorting config.time_window in
      let (p, run, v, same) = parse_loop-core sorting before first sound in
      let (q, run', v', same') = parse_loop-core sorting after p v in
      let (r, run'', v'', same'') = parse_loop-core sorting leaving p v in
      let past = core_run-IsStep before (core first) in
      let here = subst (λ c. IsStep (core first) c (stops before)) (sym same) past in
      let next =
        subst (λ c. IsStep (core p) c (stops after)) (sym same') (core_run-IsStep after (core p)) in
      (
        p,
        q,
        r,
        run,
        run',
        run'',
        λ h.
            let (still, place, counts) = next.resting h in
            (ground (arith, here.asked h), still, place, counts),
        λ h.
            ap (λ (c : Core). c.phase) same''
            ∙ leaving-returned (core p) (here.begun (λ e. ground arith)) (here.heard h),
      )
