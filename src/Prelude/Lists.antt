-- ===== src/Prelude/Lists.antt =====
-- Lists measured by native numbers, and predicates over lists.
use Prim.Native.Nat.{ℕ, zero, suc, ◌+◌}
use mathlib.Core.Path.{◌≡◌, refl}
use mathlib.Core.Logic.{inl, inr}
use mathlib.Core.Bool.{Bool, true, false, not, ◌&&◌, ◌||◌}
use mathlib.Core.List.{List, [], ◌∷◌, ◌++◌, map}
use native.Mathlib.Omega.{arith}
use bare_binary_analysis.Prelude.Tests.{Eq, ◌==◌, if◌then◌else◌, Bool-cases}

module _ {ℓ} {A : Type ℓ} where
  abbrev pub length : List A → ℕ
  length [] = 0
  length (x ∷ xs) = suc (length xs)

  -- `bool(xs)` of a sequence.
  abbrev pub truthy : List A → Bool
  truthy [] = false
  truthy (x ∷ xs) = true

  -- `[x for x in xs if test(x)]`
  unfoldable pub select : (A → Bool) → List A → List A
  select test [] = []
  select test (x ∷ xs) = let rest = select test xs in if test x then x ∷ rest else rest

  -- `all(test(x) for x in xs)`, `any(test(x) for x in xs)`
  unfoldable pub all_of : (A → Bool) → List A → Bool
  all_of test [] = true
  all_of test (x ∷ xs) = test x && all_of test xs

  unfoldable pub any_of : (A → Bool) → List A → Bool
  any_of test [] = false
  any_of test (x ∷ xs) = test x || any_of test xs

  -- xs[:n]
  unfoldable pub take : ℕ → List A → List A
  take zero xs = []
  take (suc n) [] = []
  take (suc n) (x ∷ xs) = x ∷ take n xs

  -- xs[n:]
  unfoldable pub drop : ℕ → List A → List A
  drop zero xs = xs
  drop (suc n) [] = []
  drop (suc n) (x ∷ xs) = drop n xs

  -- sum(test(x) for x in xs)
  unfoldable pub count_where : (A → Bool) → List A → ℕ
  count_where test [] = 0
  count_where test (x ∷ xs) = (if test x then 1 else 0) + count_where test xs

  pub count_where-select :
      (test keep : A → Bool) (xs : List A)
      → count_where test (select keep xs) ≡ count_where (λ x. keep x && test x) xs
  unfolding count_where select
  count_where-select test keep [] = refl
  count_where-select test keep (x ∷ xs) = ground (arith, count_where-select test keep xs)

  pub any_of-append :
      (test : A → Bool) (xs ys : List A)
      → any_of test (xs ++ ys) ≡ (any_of test xs || any_of test ys)
  unfolding any_of
  any_of-append test [] ys = refl
  any_of-append test (x ∷ xs) ys = ground (arith, any_of-append test xs ys)

  pub any_of-select :
      (test keep : A → Bool) (xs : List A)
      → any_of test (select keep xs) ≡ any_of (λ x. keep x && test x) xs
  unfolding any_of select
  any_of-select test keep [] = refl
  any_of-select test keep (x ∷ xs) = ground (arith, any_of-select test keep xs)

  pub any_of_mono :
      (p q : A → Bool) (xs : List A)
      → ((x : A) → p x ≡ true → q x ≡ true)
      → any_of p xs ≡ true
      → any_of q xs ≡ true
  unfolding any_of
  any_of_mono p q [] f h = h
  any_of_mono p q (x ∷ xs) f h = ground (arith, f x, any_of_mono p q xs f)

  pub all_of-eq-not-any_of :
      (test : A → Bool) (xs : List A) → all_of test xs ≡ not (any_of (λ x. not (test x)) xs)
  unfolding all_of any_of
  all_of-eq-not-any_of test [] = refl
  all_of-eq-not-any_of test (x ∷ xs) = ground (arith, all_of-eq-not-any_of test xs)

  pub truthy-append : (xs ys : List A) → truthy (xs ++ ys) ≡ (truthy xs || truthy ys)
  truthy-append [] ys = refl
  truthy-append (x ∷ xs) ys = refl

  pub length-append : (xs ys : List A) → length (xs ++ ys) ≡ length xs + length ys
  length-append [] ys = omega arith
  length-append (x ∷ xs) ys = omega (arith, length-append xs ys)

  pub count_where-append :
      (test : A → Bool) (xs ys : List A)
      → count_where test (xs ++ ys) ≡ count_where test xs + count_where test ys
  unfolding count_where
  count_where-append test [] ys = omega arith
  count_where-append test (x ∷ xs) ys = omega (arith, count_where-append test xs ys)

  abbrev pub All {κ} : (A → Type κ) → List A → Type κ
  All P [] = Unit
  All P (x ∷ xs) = P x × All P xs

  pub All-append {κ} : (P : A → Type κ) (xs ys : List A) → All P xs → All P ys → All P (xs ++ ys)
  All-append P [] ys h k = k
  All-append P (x ∷ xs) ys h k = (h.0, All-append P xs ys h.1 k)

  pub All-of_append {κ} : (P : A → Type κ) (xs ys : List A) → All P (xs ++ ys) → All P xs × All P ys
  All-of_append P [] ys h = (tt, h)
  All-of_append P (x ∷ xs) ys h =
      let (first, second) = All-of_append P xs ys h.1 in ((h.0, first), second)

  pub All-every {κ} : (P : A → Type κ) → ((x : A) → P x) → (xs : List A) → All P xs
  All-every P f [] = tt
  All-every P f (x ∷ xs) = (f x, All-every P f xs)

  pub All-imp {κ μ} :
      (P : A → Type κ) (Q : A → Type μ) (xs : List A) → ((x : A) → P x → Q x) → All P xs → All Q xs
  All-imp P Q [] f h = tt
  All-imp P Q (x ∷ xs) f h = (f x h.0, All-imp P Q xs f h.1)

  -- Every element is found in the list, by a test that holds of an element and itself.
  pub All-within :
      (test : A → A → Bool) (xs : List A)
      → ((x : A) → test x x ≡ true)
      → All (λ x. any_of (test x) xs ≡ true) xs
  unfolding any_of
  All-within test [] r = tt
  All-within test (x ∷ xs) r = (
    rw (r x) refl,
    All-imp (λ y. any_of (test y) xs ≡ true) (λ y. (test y x || any_of (test y) xs) ≡ true) xs
        (λ y h. ground (arith, h)) (All-within test xs r),
  )

  pub All-select : (test : A → Bool) (xs : List A) → All (λ x. test x ≡ true) (select test xs)
  unfolding select
  All-select test [] = tt
  All-select test (x ∷ xs) = elim (Bool-cases (test x)) [
    | inl e ↦ rw (e, select) (e, All-select test xs)
    | inr e ↦ rw (e, select) (All-select test xs)
  ]

module _ {ℓ κ} {A : Type ℓ} {B : Type κ} where
  pub All-map {μ} :
      (P : B → Type μ) (g : A → B) (xs : List A) → ((x : A) → P (g x)) → All P (map g xs)
  All-map P g [] f = tt
  All-map P g (x ∷ xs) f = (f x, All-map P g xs f)

  pub All-of_map {μ} :
      (P : B → Type μ) (g : A → B) (xs : List A) → All P (map g xs) → All (λ x. P (g x)) xs
  All-of_map P g [] h = tt
  All-of_map P g (x ∷ xs) h = (h.0, All-of_map P g xs h.1)

  pub any_of-map :
      (test : B → Bool) (g : A → B) (xs : List A)
      → any_of test (map g xs) ≡ any_of (λ x. test (g x)) xs
  unfolding any_of
  any_of-map test g [] = refl
  any_of-map test g (x ∷ xs) = ground (arith, any_of-map test g xs)

  pub all_of-map :
      (test : B → Bool) (g : A → B) (xs : List A)
      → all_of test (map g xs) ≡ all_of (λ x. test (g x)) xs
  unfolding all_of
  all_of-map test g [] = refl
  all_of-map test g (x ∷ xs) = ground (arith, all_of-map test g xs)

  pub count_where-map :
      (test : B → Bool) (g : A → B) (xs : List A)
      → count_where test (map g xs) ≡ count_where (λ x. test (g x)) xs
  unfolding count_where
  count_where-map test g [] = refl
  count_where-map test g (x ∷ xs) = ground (arith, count_where-map test g xs)

module _ {ℓ} {A : Type ℓ} ⦃e : Eq A⦄ where
  -- xs[:len(ps)] == ps
  unfoldable pub is_prefix : List A → List A → Bool
  is_prefix [] xs = true
  is_prefix (p ∷ ps) [] = false
  is_prefix (p ∷ ps) (x ∷ xs) = p == x && is_prefix ps xs

  pub is_prefix-append :
      (ps qs xs : List A) → is_prefix (ps ++ qs) xs ≡ true → is_prefix ps xs ≡ true
  unfolding is_prefix
  is_prefix-append [] qs xs h = refl
  is_prefix-append (p ∷ ps) qs [] h = h
  is_prefix-append (p ∷ ps) qs (x ∷ xs) h = ground (arith, is_prefix-append ps qs xs)

  pub is_prefix_self : (ps qs : List A) → is_prefix ps (ps ++ qs) ≡ true
  unfolding is_prefix
  is_prefix_self [] qs = refl
  is_prefix_self (p ∷ ps) qs = ground (arith, is_prefix_self ps qs, (e.beq_iff p p).1 refl)

  -- Python's `in` for `bytes`.
  unfoldable pub is_infix : List A → List A → Bool
  unfolding is_prefix
  is_infix ps [] = is_prefix ps []
  is_infix ps (x ∷ xs) = is_prefix ps (x ∷ xs) || is_infix ps xs

  -- `a in xs`
  unfoldable pub contains : List A → A → Bool
  contains [] a = false
  contains (x ∷ xs) a = x == a || contains xs a

  pub contains-truthy : (xs : List A) (a : A) → contains xs a ≡ true → truthy xs ≡ true
  unfolding contains
  contains-truthy [] a h = h
  contains-truthy (x ∷ xs) a h = refl
