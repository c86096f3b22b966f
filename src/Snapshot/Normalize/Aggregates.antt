-- ===== src/Snapshot/Normalize/Aggregates.antt =====
-- What the map of aggregates holds after the loop over the counters.
use xray_exporter.Common.{
  ℕ, ◌+◌, ◌%◌, ◌<◌, ◌≡◌, refl, inl, inr, Bool, true, false, Option, none, some, List, [], ◌∷◌,
  arith, if◌then◌else◌, any, Bool-cases,
}
use xray_exporter.Common.Int64.{modulus}
use xray_exporter.Text.{Text, codes, text_eq, trim_space}
use xray_exporter.GoMap.{GoMap, lookup, lookup-insert, text_eq_iff}
use xray_exporter.Snapshot.Types.{RawCounter, Identity}
use xray_exporter.Snapshot.Normalize.{
  Aggregate, account_of, is_uplink, is_downlink, add_counter, fresh, entry_or_fresh, count_for,
  aggregate_all,
}
use xray_exporter.Snapshot.Normalize.Spec.{names, email_or, belongs, total, first_email}

-- The two sums are below 2 ^ 64, as every int64 is.
pub record IsWord (a : Aggregate) : Type 0 where
  pub up : a.uplink < modulus
  pub down : a.downlink < modulus

-- An uplink counter is no downlink counter.
up-not-down : (c : RawCounter) → is_uplink c ≡ true → is_downlink c ≡ false
unfolding text_eq
up-not-down c h = let e = (text_eq_iff (trim_space c.direction) (codes "uplink")).0 h in rw e refl

abbrev gain : Bool → RawCounter → ℕ
gain b c = if b then c.value else 0

abbrev grown : RawCounter → Aggregate → Aggregate
grown c a = record a {
  uplink = (a.uplink + gain (is_uplink c) c) % modulus;
  downlink = (a.downlink + gain (is_downlink c) c) % modulus;
}

add_counter-grown : (c : RawCounter) (a : Aggregate) → IsWord a → add_counter c a ≡ grown c a
unfolding add_counter
add_counter-grown c a w = ground (arith, up-not-down c)

grown-IsWord : (c : RawCounter) (a : Aggregate) → IsWord (grown c a)
grown-IsWord c a = omega arith

fresh-IsWord : (uuid email : Text) → IsWord (fresh uuid email)
unfolding fresh
fresh-IsWord uuid email = omega arith

-- One round of the loop, as `lookup` sees it.
lookup-count_for :
    (u : Text) (account : Option (Text × Text)) (c : RawCounter) (m : GoMap Aggregate)
    → lookup u (count_for account c m) ≡ (
        if names u account
        then some (add_counter c (entry_or_fresh (lookup u m) u (email_or account [])))
        else lookup u m)
unfolding count_for
lookup-count_for u none c m = refl
lookup-count_for u (some (w, e)) c m = elim (Bool-cases (text_eq w u)) [
  | inl p ↦ rw (lookup-insert, p, (text_eq_iff w u).0 p) refl
  | inr p ↦ rw (lookup-insert, p) refl
]

module _ (unicode_lower : ℕ → ℕ) (identities : GoMap Identity) (u : Text) where
  abbrev up : List RawCounter → ℕ
  up = total unicode_lower identities u is_uplink

  abbrev down : List RawCounter → ℕ
  down = total unicode_lower identities u is_downlink

  -- From an entry for `u`, the loop adds the sums of the counters that are left.
  lookup-aggregate_some :
      (m : GoMap Aggregate) (cs : List RawCounter) (a : Aggregate)
      → lookup u m ≡ some a
      → IsWord a
      → lookup u (aggregate_all unicode_lower identities m cs)
        ≡ some (record a {
          uplink = (a.uplink + up cs) % modulus;
          downlink = (a.downlink + down cs) % modulus;
        })
  unfolding aggregate_all total
  lookup-aggregate_some m [] a h w = ground arith
  lookup-aggregate_some m (c ∷ cs) a h w =
      elim (Bool-cases (belongs unicode_lower identities u c)) [
        | inl p ↦
            let next =
              lookup-aggregate_some (count_for (account_of unicode_lower identities c) c m) cs
                (grown c a)
                (rw (lookup-count_for, p, h, entry_or_fresh, add_counter-grown c a w) refl)
                (grown-IsWord c a) in
            rw (p, next) (ground arith)
        | inr p ↦
            let next =
              lookup-aggregate_some (count_for (account_of unicode_lower identities c) c m) cs a
                (rw (lookup-count_for, p) h) w in
            rw (p, next) (ground arith)
      ]

  -- With no entry for `u`, the first counter of the account makes one, with its email.
  pub lookup-aggregate_none :
      (m : GoMap Aggregate) (cs : List RawCounter)
      → lookup u m ≡ none
      → lookup u (aggregate_all unicode_lower identities m cs) ≡ (
          if any (belongs unicode_lower identities u) cs
          then some (record {
            uuid = u;
            email = first_email unicode_lower identities u cs;
            uplink = up cs % modulus;
            downlink = down cs % modulus;
          })
          else none)
  unfolding aggregate_all total first_email
  lookup-aggregate_none m [] h = h
  lookup-aggregate_none m (c ∷ cs) h = elim (Bool-cases (belongs unicode_lower identities u c)) [
    | inl p ↦
        let e = email_or (account_of unicode_lower identities c) [] in
        let next =
          lookup-aggregate_some (count_for (account_of unicode_lower identities c) c m) cs
            (grown c (fresh u e))
            (rw
              (
                lookup-count_for,
                p,
                h,
                entry_or_fresh,
                add_counter-grown c (fresh u e) (fresh-IsWord u e),
              )
              refl)
            (grown-IsWord c (fresh u e)) in
        rw (p, next) (unfold fresh in ground arith)
    | inr p ↦
        let next =
          lookup-aggregate_none (count_for (account_of unicode_lower identities c) c m) cs
            (rw (lookup-count_for, p) h) in
        rw (p, next) (ground arith)
  ]
