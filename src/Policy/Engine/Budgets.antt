-- ===== src/Policy/Engine/Budgets.antt =====
-- The budget check fails exactly when some severity is over its limit.
use bare_binary_analysis.Policy.Engine.Ledger.{is_other}
use bare_binary_analysis.Policy.Engine.Reference.{within, severities}
use bare_binary_analysis.Policy.Engine.{
  budget_violations, check_budget, check_budgets, count_severities, over_budget, by_rank,
}
use bare_binary_analysis.Prelude.{
  Dict, List, ℕ, All, Bool, count_where, or_zero, tally, get, ◌<◌, ◌==◌, keys, ◌≡◌, ◌+◌, all_of,
  inl, ◌⊎◌, [], any_of, arith, sort_by, true, truthy, ◌∷◌, All-keys-put, at_key, inr, not, All-imp,
  All-sort_by, truthy-append, any_of-append, ◌∙◌, ap, All-every, all_of-sort_by, eq_of_iff, refl,
  or_zero-tally,
}
use bare_binary_analysis.Vocab.{Severity, severity_eq, critical, high, medium, low, info}
use bare_binary_analysis.Policy.Model.{GateFinding, is_degraded_scan}
use bare_binary_analysis.Policy.Document.{Policy, limit_for}

-- The findings of one severity.
abbrev pub count_of : Severity → List GateFinding → ℕ
count_of s fs = count_where (λ f. f.severity == s) fs

get-count_severities :
    (s : Severity) (fs : List GateFinding) (d : Dict Severity ℕ)
    → or_zero (get s (count_severities fs d)) ≡ count_of s fs + or_zero (get s d)
unfolding count_severities count_where
get-count_severities s [] d = omega arith
get-count_severities s (f ∷ fs) d =
    omega (arith, get-count_severities s fs (tally f.severity d), or_zero-tally f.severity s d)

-- Every key has been counted at least once.
abbrev IsCounted : Dict Severity ℕ → Type 0
IsCounted d = All (λ s. 0 < or_zero (get s d)) (keys d)

tally-IsCounted : (k : Severity) (d : Dict Severity ℕ) → IsCounted d → IsCounted (tally k d)
unfolding tally
tally-IsCounted k d h =
    All-keys-put Counted k (or_zero (get k d) + 1) d (counted k (inr refl))
      (All-imp (λ s. 0 < or_zero (get s d)) Counted (keys d) (λ s p. counted s (inl p)) h)
  where
    Counted : Severity → Type 0
    Counted s = 0 < or_zero (get s (tally k d))

    counted : (s : Severity) → (0 < or_zero (get s d)) ⊎ (k ≡ s) → Counted s
    counted s h = ground (arith, or_zero-tally k s d, severity_eq.beq_iff k s)

count_severities-IsCounted :
    (fs : List GateFinding) (d : Dict Severity ℕ) → IsCounted d → IsCounted (count_severities fs d)
unfolding count_severities
count_severities-IsCounted [] d h = h
count_severities-IsCounted (f ∷ fs) d h =
    count_severities-IsCounted fs (tally f.severity d) (tally-IsCounted f.severity d h)

module _ (p : Policy) (counts : Dict Severity ℕ) where
  abbrev fits : Severity → Bool
  fits s = within (limit_for p.budgets s) (or_zero (get s counts))

  check_budget-truthy :
      (s : Severity) → 0 < or_zero (get s counts) → truthy (check_budget p counts s) ≡ not (fits s)
  unfolding check_budget within
  check_budget-truthy s h = ground arith

  check_budgets-truthy :
      (ss : List Severity)
      → All (λ s. 0 < or_zero (get s counts)) ss
      → truthy (check_budgets p counts ss) ≡ not (all_of fits ss)
  unfolding check_budgets all_of
  check_budgets-truthy [] h = refl
  check_budgets-truthy (s ∷ ss) h = ground (
    arith,
    truthy-append (check_budget p counts s) (check_budgets p counts ss),
    check_budget-truthy s h.0,
    check_budgets-truthy ss h.1,
  )

  -- A violation of a budget is not the violation for an incomplete scan.
  check_budgets-other :
      (ss : List Severity)
      → any_of is_other (check_budgets p counts ss) ≡ truthy (check_budgets p counts ss)
  unfolding check_budgets check_budget over_budget any_of is_degraded_scan
  check_budgets-other [] = refl
  check_budgets-other (s ∷ ss) = ground (
    arith,
    truthy-append (check_budget p counts s) (check_budgets p counts ss),
    any_of-append is_other (check_budget p counts s) (check_budgets p counts ss),
    check_budgets-other ss,
  )

  all_of-holds : (ss : List Severity) → all_of fits ss ≡ true → All (λ s. fits s ≡ true) ss
  unfolding all_of
  all_of-holds [] h = tt
  all_of-holds (s ∷ ss) h = (ground arith, all_of-holds ss (ground arith))

  holds-all_of : (ss : List Severity) → All (λ s. fits s ≡ true) ss → all_of fits ss ≡ true
  unfolding all_of
  holds-all_of [] h = refl
  holds-all_of (s ∷ ss) h = ground (arith, holds-all_of ss h.1)

  -- To look at the keys is to look at every severity.
  fits_everywhere : All (λ s. fits s ≡ true) (keys counts) → (s : Severity) → fits s ≡ true
  unfolding within
  fits_everywhere h s = elim (at_key (λ s. fits s ≡ true) counts h s) [
    | inl absent ↦ rw absent refl
    | inr fine ↦ fine
  ]

  keys-severities : all_of fits (sort_by by_rank (keys counts)) ≡ all_of fits severities
  keys-severities = rw (all_of-sort_by by_rank fits (keys counts)) (eq_of_iff _ _ to from)
    where
      to : all_of fits (keys counts) ≡ true → all_of fits severities ≡ true
      to h =
          let each = fits_everywhere (all_of-holds (keys counts) h) in
          holds-all_of severities
            (each critical, (each high, (each medium, (each low, (each info, tt)))))

      each_key : All (λ s. fits s ≡ true) severities → (s : Severity) → fits s ≡ true
      each_key h = elim [
        | critical ↦ h.0
        | high ↦ h.1.0
        | medium ↦ h.1.1.0
        | low ↦ h.1.1.1.0
        | info ↦ h.1.1.1.1.0
      ]

      from : all_of fits severities ≡ true → all_of fits (keys counts) ≡ true
      from h =
          holds-all_of (keys counts)
            (All-every _ (each_key (all_of-holds severities h)) (keys counts))

-- The budgets are kept exactly when each severity is within its limit.
module _ (p : Policy) (fs : List GateFinding) where
  abbrev pub keeps_budgets : Bool
  keeps_budgets = all_of (λ s. within (limit_for p.budgets s) (count_of s fs)) severities

  counts_of : (s : Severity) → or_zero (get s (count_severities fs [])) ≡ count_of s fs
  unfolding get
  counts_of s = ground (arith, get-count_severities s fs [])

  pub budget_violations-truthy : truthy (budget_violations fs p) ≡ not keeps_budgets
  unfolding budget_violations keys all_of
  budget_violations-truthy =
      let counts = count_severities fs [] in
      check_budgets-truthy p counts (sort_by by_rank (keys counts))
        (All-sort_by by_rank _ (keys counts) (count_severities-IsCounted fs [] tt))
      ∙ ap not (keys-severities p counts)
      ∙ simp counts_of

  pub budget_violations-other :
      any_of is_other (budget_violations fs p) ≡ truthy (budget_violations fs p)
  unfolding budget_violations keys all_of
  budget_violations-other = check_budgets-other p (count_severities fs []) _
