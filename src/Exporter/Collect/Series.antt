-- ===== src/Exporter/Collect/Series.antt =====
-- The series of a count map among what `Collect` sends.
use mathlib.Core.List.{
  Mem, Mem-prop, mem-append, mem-cons, mem-cons_self, mem-cons_of_mem, mem-map_of_mem, not-mem-nil,
}
use mathlib.Core.List.Perm
use mathlib.Core.Logic.Or
use mathlib.Core.Option.{some-injective}
use xray_exporter.Common.{
  ℕ, zero, suc, ◌≤◌, ◌≡◌, ◌≢◌, refl, ap, ap₂, ◌∙◌, subst, inl, inr, Bool, true, false, ◌&&◌, ◌||◌,
  not, none, some, List, [], ◌∷◌, arith, min, take, length, Bool-cases,
}
use xray_exporter.Common.Float64.{Float64, float_of_int64}
use xray_exporter.Common.Members.{length-perm}
use xray_exporter.Common.Sort.{Sorting}
use xray_exporter.Text.{Text, codes, text_eq}
use xray_exporter.GoMap.{lookup, keys, text_eq→eq}
use xray_exporter.GoMap.Keys.{Mem→has_text, lookup-none-has_text}
use xray_exporter.LogParser.Counts.{
  Counts, CountEntry, CountMaps, more_often, max_tracked_domains, max_tracked_ips,
  max_tracked_outbounds,
}
use xray_exporter.LogParser.Batch.Requested.{Kind, of_domains, of_ips, of_outbounds, counts_of}
use xray_exporter.LogParser.Loop.Exact.{tracked}
use xray_exporter.LogParser.Metrics.{MetricsData}
use xray_exporter.LogParser.Metrics.Run.{IsSound}
use xray_exporter.Exporter.Metrics.{
  Metric, NewConstMetric, Sent, counted, then_send, top_n, collect_domain_metrics,
  collect_outbound_metrics,
}
use xray_exporter.Exporter.Collect.{Scrape, collected, core, collect}
use xray_exporter.Exporter.Collect.Quiet.{
  NeedsUtf8, all_keys, labels_of_counts, counted-panics, then_send-panics,
  collect_log_metrics-quiet,
}

abbrev pub requested : Text
requested = codes "requested_domain_ip_total"

abbrev pub outbound_requests : Text
outbound_requests = codes "outbound_requests_total"

lookup-Mem : (k : Text) (c : ℕ) (m : Counts) → lookup k m ≡ some c → Mem (k, c) m
unfolding lookup
lookup-Mem k c [] h = absurd (ground arith)
lookup-Mem k c ((j, v) ∷ m) h = elim (Bool-cases (text_eq j k)) [
  | inl e ↦
      let same : v ≡ c = some-injective v c (rw e at h) in rw (text_eq→eq j k e, same) mem-cons_self
  | inr e ↦ mem-cons_of_mem (j, v) (lookup-Mem k c m (rw e at h))
]

take-whole {ℓ} : {A : Type ℓ} (n : ℕ) (xs : List A) → length xs ≤ n → take n xs ≡ xs
take-whole zero [] h = refl
take-whole (suc n) [] h = refl
take-whole zero (x ∷ xs) h = absurd (omega arith)
take-whole (suc n) (x ∷ xs) h = ap (◌∷◌ x) (take-whole n xs (omega arith))

mem-top_n :
    (sorting : Sorting more_often) (x : CountEntry) (counts : Counts) (n : ℕ)
    → length counts ≤ n
    → Mem x counts
    → Mem x (top_n sorting counts n)
unfolding top_n
mem-top_n sorting x counts n few m =
    let xs = sorting.sort counts in
    let same = length-perm xs counts (sorting.sort-perm counts) in
    rw (take-whole (min n (length xs)) xs (omega (arith, same)))
      ((Perm.mem_iff (sorting.sort-perm counts)).1 m)

-- Labels before one that is refused are sent; here none is.
mem-counted :
    (valid : Text → Bool) (accepts : NewConstMetric) (name label : Text) (k : Text) (c : ℕ)
    (entries : List CountEntry)
    → NeedsUtf8 valid accepts name label
    → all_keys valid entries ≡ true
    → Mem (k, c) entries
    → Mem
        (record { name = name; value = float_of_int64 c; labels = k ∷ [] })
        (counted accepts name label entries).0
unfolding counted all_keys
mem-counted valid accepts name label k c [] h all m = absurd (not-mem-nil m)
mem-counted valid accepts name label k c ((j, d) ∷ entries) h all m =
    let here : valid j ≡ true = ground (arith, all) in
    let rest : all_keys valid entries ≡ true = ground (arith, all) in
    rw (h j, here)
      (Or.elim Mem-prop (mem-cons.0 m)
        (λ (e : (k, c) ≡ (j, d)).
          rw (ap (λ (x : CountEntry). x.0) e, ap (λ (x : CountEntry). x.1) e) mem-cons_self)
        (λ t. mem-cons_of_mem _ (mem-counted valid accepts name label k c entries h rest t)))

mem_first : (x : Metric) (a b : Sent) → Mem x a.0 → Mem x (then_send a b).0
unfolding then_send
mem_first x (sent, true) b m = m
mem_first x (sent, false) b m = mem-append.1 (Or.inl m)

mem_second : (x : Metric) (a b : Sent) → a.1 ≡ false → Mem x b.0 → Mem x (then_send a b).0
unfolding then_send
mem_second x (sent, true) b h m = absurd (ground arith)
mem_second x (sent, false) b h m = (mem-append {s = sent} {t = b.0}).1 (Or.inr m)

all_keys-take :
    (valid : Text → Bool) (n : ℕ) (entries : List CountEntry)
    → ((x : CountEntry) → Mem x entries → valid x.0 ≡ true)
    → all_keys valid (take n entries) ≡ true
unfolding all_keys
all_keys-take valid zero entries h = refl
all_keys-take valid (suc n) [] h = refl
all_keys-take valid (suc n) ((k, c) ∷ entries) h =
    rw (h (k, c) mem-cons_self)
      (all_keys-take valid n entries (λ x m. h x (mem-cons_of_mem (k, c) m)))

lookup-of_mem : (k : Text) (c : ℕ) (m : Counts) → Mem (k, c) m → lookup k m ≢ none
lookup-of_mem k c m t h = cc (
  Mem→has_text k (keys m) (mem-map_of_mem (λ (e : CountEntry). e.0) t),
  lookup-none-has_text k m h,
)

-- Where every key of a map is UTF-8, so is every one that is exported.
pub all_keys-top_n :
    (valid : Text → Bool) (sorting : Sorting more_often) (counts : Counts) (n : ℕ)
    → ((k : Text) → lookup k counts ≢ none → valid k ≡ true)
    → all_keys valid (top_n sorting counts n) ≡ true
unfolding top_n
all_keys-top_n valid sorting counts n h =
    let xs = sorting.sort counts in
    all_keys-take valid (min n (length xs)) xs
      (λ x m. h x.0 (lookup-of_mem x.0 x.1 counts ((Perm.mem_iff (sorting.sort-perm counts)).0 m)))

-- The series of a key of a kind.
abbrev pub series_of : Kind → Text → Float64 → Metric
series_of of_domains k c = record { name = requested; value = c; labels = k ∷ [] }
series_of of_ips k c = record { name = requested; value = c; labels = k ∷ [] }
series_of of_outbounds k c = record { name = outbound_requests; value = c; labels = k ∷ [] }

all_parts : (a b c : Bool) → a && b && c ≡ true → (a ≡ true) × (b ≡ true) × (c ≡ true)
all_parts true true c h = (refl, refl, h)
all_parts true false c h = absurd (ground arith)
all_parts false b c h = absurd (ground arith)

module _ (valid : Text → Bool) (s : Scrape)
    (targets : NeedsUtf8 valid s.accepts (codes "requested_domain_ip_total") (codes "target"))
    (outbounds : NeedsUtf8 valid s.accepts
      (codes "outbound_requests_total")
      (codes "outbound")) where
  quiet_counts :
      (name label : Text) (entries : List CountEntry)
      → NeedsUtf8 valid s.accepts name label
      → all_keys valid entries ≡ true
      → (counted s.accepts name label entries).1 ≡ false
  quiet_counts name label entries h all =
      counted-panics valid s.accepts name label entries h ∙ ap not all

  parts :
      (m : CountMaps)
      → labels_of_counts valid s (some m) ≡ true
      → (all_keys valid (top_n s.sorting m.domains max_tracked_domains) ≡ true)
        × (all_keys valid (top_n s.sorting m.ips max_tracked_ips) ≡ true)
        × (all_keys valid (top_n s.sorting m.outbounds max_tracked_outbounds) ≡ true)
  parts m ok =
      all_parts (all_keys valid (top_n s.sorting m.domains max_tracked_domains))
        (all_keys valid (top_n s.sorting m.ips max_tracked_ips))
        (all_keys valid (top_n s.sorting m.outbounds max_tracked_outbounds)) ok

  mem-series :
      (kind : Kind) (k : Text) (c : ℕ) (m : CountMaps) (rest : Sent)
      → labels_of_counts valid s (some m) ≡ true
      → length (counts_of kind m) ≤ tracked kind
      → lookup k (counts_of kind m) ≡ some c
      → Mem
          (series_of kind k (float_of_int64 c))
          (then_send
            (collect_domain_metrics s.accepts s.sorting (some m))
            (then_send (collect_outbound_metrics s.accepts s.sorting (some m)) rest)).0
  unfolding collect_domain_metrics collect_outbound_metrics
  mem-series of_domains k c m rest ok few h =
      let (ok_domains, ok_ips, ok_outbounds) = parts m ok in
      mem_first _ _ _ (
        mem_first _ _ _ (
          mem-counted valid s.accepts requested (codes "target") k c _ targets ok_domains (
            mem-top_n s.sorting (k, c) m.domains max_tracked_domains few
              (lookup-Mem k c m.domains h))))
  mem-series of_ips k c m rest ok few h =
      let (ok_domains, ok_ips, ok_outbounds) = parts m ok in
      mem_first _ _ _ (
        mem_second _ _ _ (quiet_counts requested (codes "target") _ targets ok_domains) (
          mem-counted valid s.accepts requested (codes "target") k c _ targets ok_ips
            (mem-top_n s.sorting (k, c) m.ips max_tracked_ips few (lookup-Mem k c m.ips h))))
  mem-series of_outbounds k c m rest ok few h =
      let (ok_domains, ok_ips, ok_outbounds) = parts m ok in
      let domains =
        counted s.accepts requested (codes "target")
          (top_n s.sorting m.domains max_tracked_domains) in
      let ips =
        counted s.accepts requested (codes "target") (top_n s.sorting m.ips max_tracked_ips) in
      let quiet =
        then_send-panics domains ips
        ∙ ap₂ (λ a b. a || b) (quiet_counts requested (codes "target") _ targets ok_domains)
            (quiet_counts requested (codes "target") _ targets ok_ips) in
      mem_second _ _ _ quiet (
        mem_first _ _ _ (
          mem-counted valid s.accepts outbound_requests (codes "outbound") k c _ outbounds
            ok_outbounds
            (mem-top_n s.sorting (k, c) m.outbounds max_tracked_outbounds few
              (lookup-Mem k c m.outbounds h))))

  mem-core : (x : Metric) (total : ℕ) (sent : Sent) → Mem x sent.0 → Mem x (core s total sent)
  unfolding core
  mem-core x total (sent, true) m = mem-append.1 (Or.inl m)
  mem-core x total (sent, false) m =
      mem-append.1 (Or.inl (mem-append.1 (Or.inl (mem-append.1 (Or.inl m)))))

  -- A count of a well-formed parser that has no more keys of the kind than are exported is sent,
  -- where no label is refused.
  pub mem-collect :
      (kind : Kind) (k : Text) (c : ℕ) (m : CountMaps) (parser : MetricsData) (total : ℕ)
      → s.counts ≡ some m
      → IsSound parser
      → labels_of_counts valid s (some m) ≡ true
      → length (counts_of kind m) ≤ tracked kind
      → lookup k (counts_of kind m) ≡ some c
      → Mem (series_of kind k (float_of_int64 c)) (collect s (some parser) total).sent
  unfolding collect collected
  mem-collect kind k c m parser total read sound ok few h =
      let quiet =
        collect_log_metrics-quiet s (some parser)
          (λ n e. subst IsSound (some-injective parser n e) sound) in
      mem-core _ _ (collected s (some parser)) (
        mem_second _ _ _ refl (mem_second _ _ _ quiet (rw read (mem-series kind k c m _ ok few h))))
