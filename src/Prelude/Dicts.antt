-- ===== src/Prelude/Dicts.antt =====
-- Python's `dict`, with its insertion order, and `set` as the list of its elements.
use Prim.Native.Nat.{ℕ, ◌+◌}
use mathlib.Core.Path.{◌≡◌, refl}
use mathlib.Core.Bool.{Bool, false, ◌||◌}
use mathlib.Core.Option.{Option, none, some}
use mathlib.Core.List.{List, [], ◌∷◌}
use native.Mathlib.Omega.{arith}
use mathlib.Core.Path.{subst}
use mathlib.Core.Logic.{◌⊎◌, inl, inr}
use bare_binary_analysis.Prelude.Lists.{All}
use bare_binary_analysis.Prelude.Tests.{Eq, ◌==◌, if◌then◌else◌, Bool-cases}

abbrev pub Dict {ℓ κ} : Type ℓ → Type κ → Type (ℓ ⊔ κ)
Dict K V = List (K × V)

module _ {ℓ κ} {K : Type ℓ} {V : Type κ} ⦃e : Eq K⦄ where
  -- d.get(k)
  unfoldable pub get : K → Dict K V → Option V
  get k [] = none
  get k ((j, v) ∷ d) = if j == k then some v else get k d

  -- d[k] = v; a key that is there keeps its place.
  unfoldable pub put : K → V → Dict K V → Dict K V
  put k v [] = (k, v) ∷ []
  put k v ((j, w) ∷ d) = let rest = put k v d in if j == k then (j, v) ∷ d else (j, w) ∷ rest

  -- d.pop(k, None)
  unfoldable pub remove : K → Dict K V → Dict K V
  remove k [] = []
  remove k ((j, w) ∷ d) = let rest = remove k d in if j == k then rest else (j, w) ∷ rest

  -- k in d
  unfoldable pub has_key : K → Dict K V → Bool
  has_key k [] = false
  has_key k ((j, v) ∷ d) = j == k || has_key k d

  -- list(d)
  unfoldable pub keys : Dict K V → List K
  keys [] = []
  keys ((j, v) ∷ d) = j ∷ keys d

  pub get-put :
      (k j : K) (v : V) (d : Dict K V) → get j (put k v d) ≡ (if k == j then some v else get j d)
  unfolding get put
  get-put k j v [] = refl
  get-put k j v ((i, w) ∷ d) =
      ground (arith, e.beq_iff k j, e.beq_iff i k, e.beq_iff i j, get-put k j v d)

module _ {ℓ κ} {K : Type ℓ} {V : Type κ} ⦃e : Eq K⦄ where
  pub get-remove : (k j : K) (d : Dict K V) → (k == j) ≡ false → get j (remove k d) ≡ get j d
  unfolding get remove
  get-remove k j [] h = refl
  get-remove k j ((i, w) ∷ d) h =
      ground (arith, e.beq_iff k j, e.beq_iff i k, e.beq_iff i j, get-remove k j d h)

-- What holds at every key holds wherever a lookup succeeds.
module _ {ℓ κ μ} {K : Type ℓ} {V : Type κ} ⦃e : Eq K⦄ (P : K → Type μ) where
  pub at_key : (d : Dict K V) → All P (keys d) → (k : K) → (get k d ≡ none) ⊎ P k
  unfolding get keys
  at_key [] h k = inl refl
  at_key ((j, v) ∷ d) h k = elim (Bool-cases (j == k)) [
    | inl e₁ ↦ inr (subst P ((e.beq_iff j k).0 e₁) h.0)
    | inr e₁ ↦ rw e₁ (at_key d h.1 k)
  ]

  pub All-keys-put :
      (k : K) (v : V) (d : Dict K V) → P k → All P (keys d) → All P (keys (put k v d))
  unfolding put keys
  All-keys-put k v [] p h = (p, tt)
  All-keys-put k v ((j, w) ∷ d) p h = elim (Bool-cases (j == k)) [
    | inl e₁ ↦ rw e₁ h
    | inr e₁ ↦ rw e₁ (h.0, All-keys-put k v d p h.1)
  ]

-- d[k] of a `defaultdict(int)`
abbrev pub or_zero : Option ℕ → ℕ
or_zero none = 0
or_zero (some n) = n

module _ {ℓ} {K : Type ℓ} ⦃e : Eq K⦄ where
  -- d[k] += 1
  unfoldable pub tally : K → Dict K ℕ → Dict K ℕ
  unfolding get put
  tally k d = put k (or_zero (get k d) + 1) d

  -- sum(d.values())
  unfoldable pub sum_values : Dict K ℕ → ℕ
  sum_values [] = 0
  sum_values ((j, n) ∷ d) = n + sum_values d

  pub get-tally :
      (k j : K) (d : Dict K ℕ)
      → get j (tally k d) ≡ (if k == j then some (or_zero (get k d) + 1) else get j d)
  unfolding tally
  get-tally k j d = get-put k j _ d

  pub or_zero-tally :
      (k j : K) (d : Dict K ℕ)
      → or_zero (get j (tally k d)) ≡ (if k == j then 1 else 0) + or_zero (get j d)
  or_zero-tally k j d = elim (Bool-cases (k == j)) [
    | inl s ↦
        let k≡j : k ≡ j = (e.beq_iff k j).0 s in rw (get-tally k j d, s) (rw k≡j (omega arith))
    | inr s ↦ rw (get-tally k j d, s) (omega arith)
  ]

  -- Counting adds one to the sum.
  pub sum_values-tally : (k : K) (d : Dict K ℕ) → sum_values (tally k d) ≡ sum_values d + 1
  unfolding tally sum_values get put
  sum_values-tally k [] = refl
  sum_values-tally k ((j, n) ∷ d) = ground (arith, sum_values-tally k d)
