-- ===== src/Prelude/Groups.antt =====
-- `defaultdict(list)`: values collected under their keys, in the order in which they come.
use bare_binary_analysis.Prelude.Dicts.{Dict, get, put}
use Prim.Native.Nat.{◌≤◌}
use mathlib.Core.Path.{◌≡◌, refl, sym, subst, ap, ◌∙◌}
use mathlib.Core.Bool.{Bool, true, false, ◌&&◌, ◌||◌}
use mathlib.Core.Logic.{inl, inr}
use mathlib.Core.Option.{Option, none, some}
use mathlib.Core.List.{List, [], ◌∷◌, ◌++◌, append-nil, append_assoc}
use native.Mathlib.Omega.{arith}
use bare_binary_analysis.Prelude.Tests.{Eq, ◌==◌, if◌then◌else◌, Bool-cases}
use bare_binary_analysis.Prelude.Lists.{
  All, All-append, All-every, any_of, any_of-append, count_where, select,
}
use bare_binary_analysis.Prelude.Dicts.{get-put}

or-none : (b c : Bool) → b ≡ (b || (false && c))
or-none b c = ground arith

module _ {ℓ κ} {K : Type ℓ} {V : Type κ} ⦃e : Eq K⦄ (k : K) where
  count_keys-put-other :
      (j : K) (v : V) (d : Dict K V)
      → (j == k) ≡ false
      → count_where (λ p. p.0 == k) (put j v d) ≡ count_where (λ p. p.0 == k) d
  unfolding count_where put
  count_keys-put-other j v [] h = ground arith
  count_keys-put-other j v ((i, w) ∷ d) h = ground (arith, count_keys-put-other j v d h)

  count_keys-put-same :
      (j : K) (v : V) (d : Dict K V)
      → (j == k) ≡ true
      → count_where (λ p. p.0 == k) d ≤ 1
      → count_where (λ p. p.0 == k) (put j v d) ≤ 1
  unfolding count_where put
  count_keys-put-same j v [] h le = ground arith
  count_keys-put-same j v ((i, w) ∷ d) h le =
      ground (arith, count_keys-put-same j v d h, e.beq_iff i k, e.beq_iff j k, e.beq_iff i j)

  -- Storing under a key keeps the keys distinct.
  pub count_keys-put :
      (j : K) (v : V) (d : Dict K V)
      → count_where (λ p. p.0 == k) d ≤ 1
      → count_where (λ p. p.0 == k) (put j v d) ≤ 1
  count_keys-put j v d h = elim (Bool-cases (j == k)) [
    | inl t ↦ count_keys-put-same j v d t h
    | inr t ↦ rw (count_keys-put-other j v d t) h
  ]

abbrev pub or_nil {ℓ} : {A : Type ℓ} → Option (List A) → List A
or_nil none = []
or_nil (some xs) = xs

module _ {ℓ κ} {K : Type ℓ} {V : Type κ} ⦃e : Eq K⦄ where
  -- d[k].append(v)
  unfoldable pub append_at : K → V → Dict K (List V) → Dict K (List V)
  unfolding get put
  append_at k v d = put k (or_nil (get k d) ++ v ∷ []) d

  get-append_at :
      (k j : K) (v : V) (d : Dict K (List V))
      → or_nil (get j (append_at k v d))
        ≡ (if k == j then or_nil (get j d) ++ v ∷ [] else or_nil (get j d))
  unfolding append_at
  get-append_at k j v d = elim (Bool-cases (k == j)) [
    | inl t ↦
        let same : k ≡ j = (e.beq_iff k j).0 t in
        rw (get-put k j (or_nil (get k d) ++ v ∷ []) d, t)
          (ap (λ i. or_nil (get i d) ++ v ∷ []) same)
    | inr t ↦ rw (get-put k j (or_nil (get k d) ++ v ∷ []) d, t) refl
  ]

  -- What the list of a key passes after one more value.
  pub any_of-append_at :
      (test : V → Bool) (k j : K) (v : V) (d : Dict K (List V))
      → any_of test (or_nil (get j (append_at k v d)))
        ≡ (any_of test (or_nil (get j d)) || (k == j && test v))
  unfolding any_of
  any_of-append_at test k j v d = elim (Bool-cases (k == j)) [
    | inl t ↦
        rw (get-append_at k j v d, t, any_of-append test (or_nil (get j d)) (v ∷ [])) (ground arith)
    | inr t ↦ rw (get-append_at k j v d, t) (or-none (any_of test (or_nil (get j d))) (test v))
  ]

  module _ (key : V → K) where
    -- for v in vs: d[key(v)].append(v)
    unfoldable pub group_into : List V → Dict K (List V) → Dict K (List V)
    unfolding append_at
    group_into [] d = d
    group_into (v ∷ vs) d = group_into vs (append_at (key v) v d)

    unfoldable pub group_by : List V → Dict K (List V)
    unfolding group_into
    group_by vs = group_into vs []

    get-group_into :
        (k : K) (vs : List V) (d : Dict K (List V))
        → or_nil (get k (group_into vs d)) ≡ or_nil (get k d) ++ select (λ v. key v == k) vs
    unfolding group_into select append_at
    get-group_into k [] d = sym (append-nil (or_nil (get k d)))
    get-group_into k (v ∷ vs) d = elim (Bool-cases (key v == k)) [
      | inl h ↦
          let same : key v ≡ k = (e.beq_iff (key v) k).0 h in
          rw
            (
              get-group_into k vs (append_at (key v) v d),
              get-put (key v) k (or_nil (get (key v) d) ++ v ∷ []) d,
              h,
            )
            (rw same (append_assoc (or_nil (get k d)) (v ∷ []) (select (λ v. key v == k) vs)))
      | inr h ↦
          rw
            (
              get-group_into k vs (append_at (key v) v d),
              get-put (key v) k (or_nil (get (key v) d) ++ v ∷ []) d,
              h,
            )
            refl
    ]

    -- A group holds the values with its key, in their order.
    pub get-group_by :
        (k : K) (vs : List V) → or_nil (get k (group_by vs)) ≡ select (λ v. key v == k) vs
    unfolding group_by get
    get-group_by k vs = get-group_into k vs []

    module _ {μ} (R : K → V → Type μ) where
      get-All :
          (k : K) (d : Dict K (List V))
          → All (λ p. All (R p.0) p.1) d
          → All (R k) (or_nil (get k d))
      unfolding get
      get-All k [] h = tt
      get-All k ((j, vs) ∷ d) h = elim (Bool-cases (j == k)) [
        | inl t ↦ rw t (subst (λ i. All (R i) vs) ((e.beq_iff j k).0 t) h.0)
        | inr t ↦ rw t (get-All k d h.1)
      ]

      put-All :
          (k : K) (vs : List V) (d : Dict K (List V))
          → All (R k) vs
          → All (λ p. All (R p.0) p.1) d
          → All (λ p. All (R p.0) p.1) (put k vs d)
      unfolding put
      put-All k vs [] p h = (p, tt)
      put-All k vs ((j, ws) ∷ d) p h = elim (Bool-cases (j == k)) [
        | inl t ↦ rw t (subst (λ i. All (R i) vs) (sym ((e.beq_iff j k).0 t)) p, h.1)
        | inr t ↦ rw t (h.0, put-All k vs d p h.1)
      ]

      group_into-All :
          (vs : List V) (d : Dict K (List V))
          → All (λ v. R (key v) v) vs
          → All (λ p. All (R p.0) p.1) d
          → All (λ p. All (R p.0) p.1) (group_into vs d)
      unfolding group_into append_at
      group_into-All [] d r h = h
      group_into-All (v ∷ vs) d r h =
          let new =
            All-append (R (key v)) (or_nil (get (key v) d)) (v ∷ []) (get-All (key v) d h)
              (r.0, tt) in
          group_into-All vs (append_at (key v) v d) r.1 (put-All (key v) _ d new h)

      -- What holds of the values and their keys holds in the groups.
      pub group_by-All :
          (vs : List V) → All (λ v. R (key v) v) vs → All (λ p. All (R p.0) p.1) (group_by vs)
      unfolding group_by
      group_by-All vs r = group_into-All vs [] r tt

    -- Every value is filed under its own key.
    pub group_by-filed : (vs : List V) → All (λ p. All (λ v. key v ≡ p.0) p.1) (group_by vs)
    group_by-filed vs =
        group_by-All (λ k v. key v ≡ k) vs (All-every (λ v. key v ≡ key v) (λ v. refl) vs)

    count_keys-group_into :
        (k : K) (vs : List V) (d : Dict K (List V))
        → count_where (λ p. p.0 == k) d ≤ 1
        → count_where (λ p. p.0 == k) (group_into vs d) ≤ 1
    unfolding group_into append_at
    count_keys-group_into k [] d h = h
    count_keys-group_into k (v ∷ vs) d h =
        count_keys-group_into k vs (append_at (key v) v d) (count_keys-put k (key v) _ d h)

    -- No key has two groups.
    pub count_keys-group_by : (k : K) (vs : List V) → count_where (λ p. p.0 == k) (group_by vs) ≤ 1
    unfolding group_by count_where
    count_keys-group_by k vs = count_keys-group_into k vs [] (omega arith)

  -- Some entry with the key has a value that passes the test.
  unfoldable pub holds_at : (V → Bool) → K → Dict K (List V) → Bool
  unfolding any_of
  holds_at test k d = any_of (λ p. p.0 == k && any_of test p.1) d

  put-other :
      (i j : K) (ws vs : List V) (d : Dict K (List V))
      → (j == i) ≡ false
      → put i ws ((j, vs) ∷ d) ≡ (j, vs) ∷ put i ws d
  unfolding put
  put-other i j ws vs d t = rw t refl

  append_at-other :
      (i j : K) (v : V) (vs : List V) (d : Dict K (List V))
      → (j == i) ≡ false
      → append_at i v ((j, vs) ∷ d) ≡ (j, vs) ∷ append_at i v d
  unfolding append_at get put
  append_at-other i j v vs d t =
      let skipped : get i ((j, vs) ∷ d) ≡ get i d = rw t refl in
      put-other i j (or_nil (get i ((j, vs) ∷ d)) ++ v ∷ []) vs d t
      ∙ ap (λ o. (j, vs) ∷ put i (or_nil o ++ v ∷ []) d) skipped

  holds_at-append_at :
      (test : V → Bool) (k i : K) (v : V) (d : Dict K (List V))
      → holds_at test k (append_at i v d) ≡ (holds_at test k d || (i == k && test v))
  unfolding holds_at append_at any_of get put
  holds_at-append_at test k i v [] = ground arith
  holds_at-append_at test k i v ((j, vs) ∷ d) = elim (Bool-cases (j == i)) [
    | inl t ↦
        let same : (i == k) ≡ (j == k) = ap (λ x. x == k) (sym ((e.beq_iff j i).0 t)) in
        rw (t, any_of-append test vs (v ∷ []), same) (ground arith)
    | inr t ↦ rw (append_at-other i j v vs d t) (ground (arith, holds_at-append_at test k i v d))
  ]

  holds_at-group_into :
      (test : V → Bool) (k : K) (key : V → K) (vs : List V) (d : Dict K (List V))
      → holds_at test k (group_into key vs d)
        ≡ (holds_at test k d || any_of (λ v. key v == k && test v) vs)
  unfolding group_into any_of
  holds_at-group_into test k key [] d = ground arith
  holds_at-group_into test k key (v ∷ vs) d = ground (
    arith,
    holds_at-group_into test k key vs (append_at (key v) v d),
    holds_at-append_at test k (key v) v d,
  )

  -- The groups hold what the values satisfied before they were grouped.
  pub holds_at-group_by :
      (test : V → Bool) (k : K) (key : V → K) (vs : List V)
      → holds_at test k (group_by key vs) ≡ any_of (λ v. key v == k && test v) vs
  unfolding group_by holds_at any_of
  holds_at-group_by test k key vs = holds_at-group_into test k key vs []

  module _ {μ} (P : K → Type μ) where
    put-All_keys :
        (k : K) (vs : List V) (d : Dict K (List V))
        → P k
        → All (λ p. P p.0) d
        → All (λ p. P p.0) (put k vs d)
    unfolding put
    put-All_keys k vs [] p h = (p, tt)
    put-All_keys k vs ((j, ws) ∷ d) p h = elim (Bool-cases (j == k)) [
      | inl t ↦ rw t h
      | inr t ↦ rw t (h.0, put-All_keys k vs d p h.1)
    ]

    group_into-All_keys :
        (key : V → K) (vs : List V) (d : Dict K (List V))
        → All (λ v. P (key v)) vs
        → All (λ p. P p.0) d
        → All (λ p. P p.0) (group_into key vs d)
    unfolding group_into append_at
    group_into-All_keys key [] d h k = k
    group_into-All_keys key (v ∷ vs) d h k =
        group_into-All_keys key vs (append_at (key v) v d) h.1 (put-All_keys (key v) _ d h.0 k)

    -- What holds of the keys of the values holds of the keys of the groups.
    pub group_by-All_keys :
        (key : V → K) (vs : List V) → All (λ v. P (key v)) vs → All (λ p. P p.0) (group_by key vs)
    unfolding group_by
    group_by-All_keys key vs h = group_into-All_keys key vs [] h tt
