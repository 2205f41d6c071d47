-- ===== src/Prelude/Perms.antt =====
-- What is asked of all elements, or counted, is the same for every order of a list.
use mathlib.Core.Path.{◌≡◌, refl, ◌∙◌}
use mathlib.Core.Bool.{Bool}
use mathlib.Core.Logic.{∥∥₁_elim}
use mathlib.Core.List.{List, Perm, Permᴰ}
use native.Mathlib.Nat.{ℕ_set}
use native.Mathlib.Omega.{arith}
use bare_binary_analysis.Prelude.Lists.{all_of, count_where}

Bool-set : IsSet Bool
Bool-set = hlevel

module _ {ℓ} {A : Type ℓ} (test : A → Bool) where
  all_of-permᴰ : {xs ys : List A} → Permᴰ xs ys → all_of test xs ≡ all_of test ys
  unfolding all_of
  all_of-permᴰ Permᴰ.nil = refl
  all_of-permᴰ (Permᴰ.cons e d) = let ih = all_of-permᴰ d in cc
  all_of-permᴰ (Permᴰ.swap {a = a} {b = b} e₁ e₂) = rw (← e₁, ← e₂) (ground arith)
  all_of-permᴰ (Permᴰ.trans d₁ d₂) = all_of-permᴰ d₁ ∙ all_of-permᴰ d₂

  count_where-permᴰ : {xs ys : List A} → Permᴰ xs ys → count_where test xs ≡ count_where test ys
  unfolding count_where
  count_where-permᴰ Permᴰ.nil = refl
  count_where-permᴰ (Permᴰ.cons e d) = let ih = count_where-permᴰ d in rw e (ground arith)
  count_where-permᴰ (Permᴰ.swap {a = a} {b = b} e₁ e₂) = rw (← e₁, ← e₂) (ground arith)
  count_where-permᴰ (Permᴰ.trans d₁ d₂) = count_where-permᴰ d₁ ∙ count_where-permᴰ d₂

  pub all_of-perm : {xs ys : List A} → Perm xs ys → all_of test xs ≡ all_of test ys
  all_of-perm p = ∥∥₁_elim p (Bool-set _ _) all_of-permᴰ

  pub count_where-perm : {xs ys : List A} → Perm xs ys → count_where test xs ≡ count_where test ys
  count_where-perm p = ∥∥₁_elim p (ℕ_set _ _) count_where-permᴰ
