-- ===== src/Common/Sort.antt =====
-- What the program relies on of `slices.SortFunc`, `sort.Slice` and `sort.Strings`: the result is a
-- permutation of the input, in order. Go's sorts are unstable, so the order of ties is left open:
-- every sort that meets the laws is allowed. `insertion` is one that does.
use mathlib.Core.Path.{◌≡◌}
use mathlib.Core.Logic.{inl, inr}
use mathlib.Core.Bool.{Bool, true, false}
use mathlib.Core.HLevel.{hedberg}
use mathlib.Core.Bool.{Bool-discrete}
use mathlib.Core.List.{List, [], ◌∷◌, Perm, Pairwise, Mem, Pairwise-singleton, forall_mem-cons}
use mathlib.Core.List.Perm
use xray_exporter.Common.Tests.{if◌then◌else◌, Bool-cases}

-- `a` may stand before `b`: `b` is not less than `a`.
abbrev pub InOrder {ℓ} : {A : Type ℓ} → (A → A → Bool) → A → A → Type 0
InOrder less a b = less b a ≡ false

pub record Sorting {ℓ} {A : Type ℓ} (less : A → A → Bool) : Type ℓ where
  pub sort : List A → List A
  pub sort-perm : (xs : List A) → Perm (sort xs) xs
  pub sort-ordered : (xs : List A) → Pairwise (InOrder less) (sort xs)

-- A strict weak order, as `sort.Interface` asks for.
pub record Order {ℓ} {A : Type ℓ} (less : A → A → Bool) : Type ℓ where
  pub asym : (a b : A) → less a b ≡ true → less b a ≡ false
  pub trans : (a b c : A) → less b a ≡ false → less c b ≡ false → less c a ≡ false

module _ {ℓ} {A : Type ℓ} (less : A → A → Bool) where
  insert_sorted : A → List A → List A
  insert_sorted x [] = x ∷ []
  insert_sorted x (y ∷ ys) = if less y x then y ∷ insert_sorted x ys else x ∷ y ∷ ys

  unfoldable pub insertion_sort : List A → List A
  unfolding insert_sorted
  insertion_sort [] = []
  insertion_sort (x ∷ xs) = insert_sorted x (insertion_sort xs)

  order_prop : (a b : A) → IsProp (InOrder less a b)
  order_prop a b = hedberg Bool-discrete _ _

  insert_sorted-perm : (x : A) (l : List A) → Perm (insert_sorted x l) (x ∷ l)
  unfolding insert_sorted
  insert_sorted-perm x [] = Perm.rfl
  insert_sorted-perm x (y ∷ ys) = elim (Bool-cases (less y x)) [
    | inl p ↦ rw p (Perm.trans (Perm.cons y (insert_sorted-perm x ys)) (Perm.swap x y ys))
    | inr p ↦ rw p Perm.rfl
  ]

  pub insertion_sort-perm : (xs : List A) → Perm (insertion_sort xs) xs
  unfolding insertion_sort
  insertion_sort-perm [] = Perm.rfl
  insertion_sort-perm (x ∷ xs) =
      Perm.trans (insert_sorted-perm x (insertion_sort xs)) (Perm.cons x (insertion_sort-perm xs))

  module _ (o : Order less) where
    below_all :
        {x y : A} {ys : List A}
        → InOrder less x y
        → ((a : A) → Mem a ys → InOrder less y a)
        → (a : A) → Mem a (y ∷ ys)
        → InOrder less x a
    below_all {x} {y} h below =
        (forall_mem-cons (order_prop x)).1 (h, λ a m. o.trans x y a h (below a m))

    insert_sorted-ordered :
        (x : A) {l : List A}
        → Pairwise (InOrder less) l
        → Pairwise (InOrder less) (insert_sorted x l)
    unfolding insert_sorted
    insert_sorted-ordered x Pairwise.nil = Pairwise-singleton _ x
    insert_sorted-ordered x (Pairwise.cons {a = y} {l = ys} below s) =
        elim (Bool-cases (less y x)) [
          | inl p ↦ rw p (
              Pairwise.cons
                (λ a m.
                  (forall_mem-cons (order_prop y)).1 (o.asym y x p, below) a
                    ((Perm.mem_iff (insert_sorted-perm x ys)).0 m))
                (insert_sorted-ordered x s))
          | inr p ↦ rw p (Pairwise.cons (below_all p below) (Pairwise.cons below s))
        ]

    pub insertion_sort-ordered : (xs : List A) → Pairwise (InOrder less) (insertion_sort xs)
    unfolding insertion_sort
    insertion_sort-ordered [] = Pairwise.nil
    insertion_sort-ordered (x ∷ xs) = insert_sorted-ordered x (insertion_sort-ordered xs)

    abbrev pub insertion : Sorting less
    insertion = record {
      sort = insertion_sort;
      sort-perm = insertion_sort-perm;
      sort-ordered = insertion_sort-ordered;
    }
