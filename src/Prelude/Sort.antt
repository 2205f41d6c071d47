-- ===== src/Prelude/Sort.antt =====
-- `sorted(xs, key=...)`: a stable sort, by the order that the key gives.
use mathlib.Core.Path.{◌≡◌, refl}
use mathlib.Core.Bool.{Bool, ◌&&◌, ◌||◌}
use mathlib.Core.Logic.{inl, inr}
use mathlib.Core.List.{List, [], ◌∷◌}
use mathlib.Core.List.Perm
use mathlib.Core.List.{Perm}
use native.Mathlib.Omega.{arith}
use Prim.Native.Nat.{suc}
use bare_binary_analysis.Prelude.Tests.{if◌then◌else◌, Bool-cases}
use bare_binary_analysis.Prelude.Lists.{length, truthy, All, all_of, any_of, count_where}

module _ {ℓ} {A : Type ℓ} (lt : A → A → Bool) where
  -- In front of the first element that is not before it, so that equal keys keep their order.
  unfoldable pub insert_by : A → List A → List A
  insert_by x [] = x ∷ []
  insert_by x (y ∷ ys) = let rest = insert_by x ys in if lt y x then y ∷ rest else x ∷ y ∷ ys

  unfoldable pub sort_by : List A → List A
  unfolding insert_by
  sort_by [] = []
  sort_by (x ∷ xs) = insert_by x (sort_by xs)

  pub length-insert_by : (x : A) (ys : List A) → length (insert_by x ys) ≡ suc (length ys)
  unfolding insert_by
  length-insert_by x [] = refl
  length-insert_by x (y ∷ ys) = ground (arith, length-insert_by x ys)

  pub length-sort_by : (xs : List A) → length (sort_by xs) ≡ length xs
  unfolding sort_by
  length-sort_by [] = refl
  length-sort_by (x ∷ xs) = omega (arith, length-insert_by x (sort_by xs), length-sort_by xs)

  module _ {κ} (P : A → Type κ) where
    pub All-insert_by : (x : A) (ys : List A) → P x → All P ys → All P (insert_by x ys)
    unfolding insert_by
    All-insert_by x [] h k = (h, tt)
    All-insert_by x (y ∷ ys) h k = elim (Bool-cases (lt y x)) [
      | inl e ↦ rw e (k.0, All-insert_by x ys h k.1)
      | inr e ↦ rw e (h, k)
    ]

    pub All-of_insert_by : (x : A) (ys : List A) → All P (insert_by x ys) → P x × All P ys
    unfolding insert_by
    All-of_insert_by x [] h = (h.0, tt)
    All-of_insert_by x (y ∷ ys) h = elim (Bool-cases (lt y x)) [
      | inl e ↦
          let k : P y × All P (insert_by x ys) = rw e at h in
          let (px, rest) = All-of_insert_by x ys k.1 in (px, (k.0, rest))
      | inr e ↦ let k : P x × All P (y ∷ ys) = rw e at h in (k.0, k.1)
    ]

    -- What holds of every element holds of every element of the sorted list, and conversely.
    pub All-sort_by : (xs : List A) → All P xs → All P (sort_by xs)
    unfolding sort_by
    All-sort_by [] h = tt
    All-sort_by (x ∷ xs) h = All-insert_by x (sort_by xs) h.0 (All-sort_by xs h.1)

    pub All-of_sort_by : (xs : List A) → All P (sort_by xs) → All P xs
    unfolding sort_by
    All-of_sort_by [] h = tt
    All-of_sort_by (x ∷ xs) h =
        let (px, rest) = All-of_insert_by x (sort_by xs) h in (px, All-of_sort_by xs rest)

  insert_by-perm : (x : A) (ys : List A) → Perm (insert_by x ys) (x ∷ ys)
  unfolding insert_by
  insert_by-perm x [] = Perm.refl (x ∷ [])
  insert_by-perm x (y ∷ ys) = elim (Bool-cases (lt y x)) [
    | inl e ↦ rw e (Perm.trans (Perm.cons y (insert_by-perm x ys)) (Perm.swap x y ys))
    | inr e ↦ rw e (Perm.refl (x ∷ y ∷ ys))
  ]

  pub sort_by-perm : (xs : List A) → Perm (sort_by xs) xs
  unfolding sort_by
  sort_by-perm [] = Perm.refl []
  sort_by-perm (x ∷ xs) = Perm.trans (insert_by-perm x (sort_by xs)) (Perm.cons x (sort_by-perm xs))

  -- What is asked of all elements, or counted, does not depend on the order.
  all_of-insert_by :
      (test : A → Bool) (x : A) (ys : List A)
      → all_of test (insert_by x ys) ≡ (test x && all_of test ys)
  unfolding insert_by all_of
  all_of-insert_by test x [] = refl
  all_of-insert_by test x (y ∷ ys) = ground (arith, all_of-insert_by test x ys)

  pub all_of-sort_by : (test : A → Bool) (xs : List A) → all_of test (sort_by xs) ≡ all_of test xs
  unfolding sort_by all_of
  all_of-sort_by test [] = refl
  all_of-sort_by test (x ∷ xs) =
      ground (arith, all_of-insert_by test x (sort_by xs), all_of-sort_by test xs)

  any_of-insert_by :
      (test : A → Bool) (x : A) (ys : List A)
      → any_of test (insert_by x ys) ≡ (test x || any_of test ys)
  unfolding insert_by any_of
  any_of-insert_by test x [] = refl
  any_of-insert_by test x (y ∷ ys) = ground (arith, any_of-insert_by test x ys)

  pub any_of-sort_by : (test : A → Bool) (xs : List A) → any_of test (sort_by xs) ≡ any_of test xs
  unfolding sort_by any_of
  any_of-sort_by test [] = refl
  any_of-sort_by test (x ∷ xs) =
      ground (arith, any_of-insert_by test x (sort_by xs), any_of-sort_by test xs)

  count_where-insert_by :
      (test : A → Bool) (x : A) (ys : List A)
      → count_where test (insert_by x ys) ≡ count_where test (x ∷ ys)
  unfolding insert_by count_where
  count_where-insert_by test x [] = refl
  count_where-insert_by test x (y ∷ ys) = ground (arith, count_where-insert_by test x ys)

  pub count_where-sort_by :
      (test : A → Bool) (xs : List A) → count_where test (sort_by xs) ≡ count_where test xs
  unfolding sort_by count_where
  count_where-sort_by test [] = refl
  count_where-sort_by test (x ∷ xs) =
      ground (arith, count_where-insert_by test x (sort_by xs), count_where-sort_by test xs)

  pub truthy-sort_by : (xs : List A) → truthy (sort_by xs) ≡ truthy xs
  unfolding sort_by
  truthy-sort_by [] = refl
  truthy-sort_by (x ∷ xs) = ground (arith, length-sort_by (x ∷ xs))
