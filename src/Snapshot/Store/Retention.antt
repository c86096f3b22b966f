-- ===== src/Snapshot/Store/Retention.antt =====
-- The order and the retention of the stored snapshots.
use mathlib.Core.List.{Mem, Pairwise}
use mathlib.Core.List.Perm
use mathlib.Core.Logic.Or
use xray_exporter.Common.{
  ℕ, zero, suc, ◌+◌, ◌<◌, ◌≤◌, ◌≡◌, ◌↔◌, ◌∨₁◌, refl, inl, inr, true, some, List, [], ◌∷◌, ◌++◌,
  arith, Option-cases, select,
}
use mathlib.Core.Logic.Iff
use xray_exporter.Common.Members.{
  mem-select, mem-snoc, last?, last?-mem, last?-ne-none, last?-max, Bool-path_prop,
}
use xray_exporter.Common.Sort.{Sorting, InOrder}
use xray_exporter.Snapshot.Types.{Time, Snapshot}
use xray_exporter.Snapshot.Store.{Store, older, save_items, latest, is_kept}

Snapshot-set : IsSet Snapshot
Snapshot-set = hlevel

-- The test of the loop, as an order.
is_kept_iff :
    (retention : ℕ) (at : Time) (x : Snapshot)
    → (is_kept retention at x ≡ true) ↔ (0 < retention → at ≤ x.collected_at + retention)
is_kept_iff zero at x = (λ h pos. omega arith, λ h. ground arith)
is_kept_iff (suc r) at x = (λ h pos. ground arith, λ h. ground (arith, h (omega arith)))

module _ (sorting : Sorting older) (s : Store) (snapshot : Snapshot) where
  abbrev after : List Snapshot
  after = (save_items sorting s snapshot).items

  -- After a save the items are in order of collection.
  pub save_items-ordered : Pairwise (InOrder older) after
  unfolding save_items
  save_items-ordered = sorting.sort-ordered _

  -- A save keeps exactly the snapshots, old ones and the new one, that are not older than the
  -- retention before the new one; a retention of 0 keeps all.
  pub mem-save_items :
      (x : Snapshot)
      → Mem x after ↔ (
          (Mem x s.items ∨₁ (x ≡ snapshot))
          × (0 < s.retention → snapshot.collected_at ≤ x.collected_at + s.retention))
  unfolding save_items
  mem-save_items x =
      let p = is_kept s.retention snapshot.collected_at in
      let all = s.items ++ snapshot ∷ [] in
      let stay = is_kept_iff s.retention snapshot.collected_at x in
      let m = mem-snoc x snapshot s.items in
      Iff.trans (Perm.mem_iff (sorting.sort-perm (select p all)))
        (Iff.trans (mem-select p x all) (λ h. (m.0 h.0, stay.0 h.1), λ h. (m.1 h.0, stay.1 h.1)))

  mem-save_items_new : Mem snapshot after
  mem-save_items_new = (mem-save_items snapshot).1 (Or.inr refl, λ pos. omega arith)

  module _ (newest : (x : Snapshot) → Mem x s.items → x.collected_at < snapshot.collected_at) where
    last_is_new : (y : Snapshot) → last? after ≡ some y → y ≡ snapshot
    last_is_new y e =
        let max =
          last?-max (InOrder older) (λ a b. Bool-path_prop _ _) (λ a. ground arith) after
            save_items-ordered e snapshot mem-save_items_new in
        Or.elim (Snapshot-set _ _) ((mem-save_items y).0 (last?-mem after e)).0
          (λ m. absurd (ground (arith, newest y m))) (λ q. q)

    -- A snapshot that is newer than all stored ones is the latest after it is saved.
    pub latest-save_items : latest (save_items sorting s snapshot) ≡ some snapshot
    unfolding latest save_items
    latest-save_items = elim (Option-cases (last? after)) [
      | inl e ↦ absurd (last?-ne-none snapshot after (mem-save_items_new) e)
      | inr (y, e) ↦ rw (e, last_is_new y e) refl
    ]
