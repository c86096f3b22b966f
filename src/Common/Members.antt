-- ===== src/Common/Members.antt =====
-- Membership in a selection, and the last element of a list.
use mathlib.Core.Bool.{Bool-discrete}
use mathlib.Core.HLevel.{hedberg, ×_prop}
use mathlib.Core.List.{
  List, [], ◌∷◌, Perm, Permᴰ, Mem, Mem-prop, Pairwise, mem-append, ◌++◌, mem-cons, mem-cons_self,
  mem-cons_of_mem, not-mem-nil,
}
use mathlib.Core.Logic.Or
use mathlib.Core.Logic.{◌↔◌, ◌≢◌, ◌∨₁◌, ∨₁_prop, ∥∥₁_elim, inl, inr}
use mathlib.Core.Bool.{Bool, true}
use mathlib.Core.Option.{Option, none, some}
use mathlib.Core.Path.{◌≡◌, refl, ap, ◌∙◌}
use Prim.Native.Nat.{suc}
use native.Mathlib.Nat.{ℕ_set}
use native.Mathlib.Omega.{arith}
use xray_exporter.Common.Lists.{select, length}
use xray_exporter.Common.Tests.{Bool-cases}

pub Bool-path_prop : (a b : Bool) → IsProp (a ≡ b)
Bool-path_prop a b = hedberg Bool-discrete a b

module _ {ℓ} {A : Type ℓ} where
  mem_of_select :
      (p : A → Bool) (x : A) (xs : List A) → Mem x (select p xs) → Mem x xs × (p x ≡ true)
  mem_of_select p x [] m = absurd (not-mem-nil m)
  mem_of_select p x (y ∷ xs) m = elim (Bool-cases (p y)) [
    | inl e ↦
        let m' : Mem x (y ∷ select p xs) = rw e at m in
        Or.elim (×_prop Mem-prop (Bool-path_prop _ _)) (mem-cons.0 m')
          (λ (q : x ≡ y). (rw q mem-cons_self, rw q e))
          (λ t. let r = mem_of_select p x xs t in (mem-cons_of_mem y r.0, r.1))
    | inr e ↦ let r = mem_of_select p x xs (rw e at m) in (mem-cons_of_mem y r.0, r.1)
  ]

  select_of_mem : (p : A → Bool) (x : A) (xs : List A) → Mem x xs → p x ≡ true → Mem x (select p xs)
  select_of_mem p x [] m h = absurd (not-mem-nil m)
  select_of_mem p x (y ∷ xs) m h =
      Or.elim Mem-prop (mem-cons.0 m) (λ (q : x ≡ y). rw (← q, h) mem-cons_self)
        (λ t. elim (Bool-cases (p y)) [
          | inl e ↦ rw e (mem-cons_of_mem y (select_of_mem p x xs t h))
          | inr e ↦ rw e (select_of_mem p x xs t h)
        ])

  pub mem-select :
      (p : A → Bool) (x : A) (xs : List A) → Mem x (select p xs) ↔ (Mem x xs × (p x ≡ true))
  mem-select p x xs = (mem_of_select p x xs, λ h. select_of_mem p x xs h.0 h.1)

  pub mem-snoc : (x y : A) (xs : List A) → Mem x (xs ++ y ∷ []) ↔ (Mem x xs ∨₁ (x ≡ y))
  mem-snoc x y xs = (
    λ m. Or.elim ∨₁_prop (mem-append.0 m) Or.inl (λ (t : Mem x (y ∷ [])).
        Or.elim ∨₁_prop (mem-cons.0 t) Or.inr (λ n. absurd (not-mem-nil n))),
    λ d.
        Or.elim Mem-prop d (λ m. mem-append.1 (Or.inl m))
          (λ (e : x ≡ y). (mem-append {s = xs} {t = y ∷ []}).1 (Or.inr (rw e mem-cons_self))),
  )

  unfoldable pub last? : List A → Option A
  last? [] = none
  last? (x ∷ []) = some x
  last? (x ∷ y ∷ ys) = last? (y ∷ ys)

  pub last?-mem : (l : List A) {y : A} → last? l ≡ some y → Mem y l
  unfolding last?
  last?-mem [] h = absurd (ground arith)
  last?-mem (x ∷ []) {y} h = let e : x ≡ y = ground arith in rw e mem-cons_self
  last?-mem (x ∷ z ∷ l) h = mem-cons_of_mem x (last?-mem (z ∷ l) h)

  pub last?-ne-none : (x : A) (l : List A) → Mem x l → last? l ≢ none
  unfolding last?
  last?-ne-none x [] m h = absurd (not-mem-nil m)
  last?-ne-none x (y ∷ []) m h = ground arith
  last?-ne-none x (y ∷ z ∷ l) m h = last?-ne-none z (z ∷ l) mem-cons_self h

  -- In a list in order, nothing comes after the last element.
  pub last?-max {κ} :
      (R : A → A → Type κ) (prop : (a b : A) → IsProp (R a b)) (rfl : (a : A) → R a a) (l : List A)
      {y : A}
      → Pairwise R l
      → last? l ≡ some y
      → (x : A) → Mem x l
      → R x y
  unfolding last?
  last?-max R prop rfl [] s h x m = absurd (not-mem-nil m)
  last?-max R prop rfl (z ∷ []) {y} s h x m =
      let e : z ≡ y = ground arith in
      Or.elim (prop x y) (mem-cons.0 m) (λ (q : x ≡ z). rw (q, e) (rfl y))
        (λ t. absurd (not-mem-nil t))
  last?-max R prop rfl (z ∷ w ∷ l) {y} (Pairwise.cons below s) h x m =
      Or.elim (prop x y) (mem-cons.0 m) (λ (q : x ≡ z). rw q (below y (last?-mem (w ∷ l) h)))
        (last?-max R prop rfl (w ∷ l) s h x)

length-Permᴰ {ℓ} : {A : Type ℓ} {xs ys : List A} → Permᴰ xs ys → length xs ≡ length ys
length-Permᴰ Permᴰ.nil = refl
length-Permᴰ (Permᴰ.cons e p) = ap suc (length-Permᴰ p)
length-Permᴰ (Permᴰ.swap e f) = refl
length-Permᴰ (Permᴰ.trans p q) = length-Permᴰ p ∙ length-Permᴰ q

pub length-perm {ℓ} : {A : Type ℓ} (xs ys : List A) → Perm xs ys → length xs ≡ length ys
length-perm xs ys p = ∥∥₁_elim p (ℕ_set (length xs) (length ys)) length-Permᴰ
