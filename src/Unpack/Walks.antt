-- ===== src/Unpack/Walks.antt =====
-- The walk over the tree: it ends, stays within the depth, and stays inside the output directory.
use bare_binary_analysis.Unpack.Budget.Caps.{IsValid, check_depth-fine}
use bare_binary_analysis.Unpack.Archives.{extract_one-Extends}
use bare_binary_analysis.Unpack.Paths.{file_name, is_under, slugify}
use bare_binary_analysis.Unpack.Formats.{Extends}
use bare_binary_analysis.Unpack.Detect.{Container, should_unpack, detect}
use bare_binary_analysis.Unpack.Steps.{
  IsStep, IsStep-refl, IsStep-settle, IsStep-weaken, IsStep-trans, add_error-IsStep,
  add_node-IsStep, check_depth-IsStep,
}
use bare_binary_analysis.Unpack.Members.{written, over_budget, broken, Tools, Extraction, Outcome}
use bare_binary_analysis.Unpack.Budget.{
  fine, budget_exceeded, Checked, ExtractionBudget, check_depth, is_exhausted,
}
use bare_binary_analysis.Unpack.Extractor.{
  finished, file_missing, out_of_fuel, Ending, Walk, continue, on_outcome, visit_child,
  visit_children, child_node, add_node, on_depth, open_file, walk, extract_one, extract_tree,
}
use bare_binary_analysis.Prelude.{
  string_eq, list_eq, nat_eq, true, false, get, refl, zero, suc, Bool, List, String, ℕ, ◌+◌, ◌≡◌,
  ◌≤◌, ap, length, Option-cases, ◌∙◌, inl, ◌∷◌, [], arith, inr, Bool-cases, ◌++◌, is_prefix-append,
  All, subst, sym,
}

pub is_out_of_fuel : Ending → Bool
is_out_of_fuel out_of_fuel = true
is_out_of_fuel _ = false

module _ (tools : Tools) (output_root : List String) (deepest : ℕ) where
  -- A walk that has not run out of fuel, after a step that still owes for so many files.
  abbrev Ends : ℕ → Extraction → Ending × Extraction → Type 0
  Ends owed st r = IsStep output_root deepest 0 owed st r.1 × (is_out_of_fuel r.0 ≡ false)

  -- The walk of one level deeper.
  abbrev GoodWalk : Walk → ℕ → Type 0
  GoodWalk deeper depth =
      (source : List String) (path_in_tree : String) (st : Extraction)
      → st.budget.max_depth + 1 ≡ deepest
      → Ends 0 st (deeper source path_in_tree depth st)

  module _ (deeper : Walk) (destination : List String) (path_in_tree : String) (depth : ℕ)
      (format : Container) (good : GoodWalk deeper (depth + 1)) (fits : depth + 1 ≤ deepest) where
    visit_child-Ends :
        (child : List String) (st : Extraction)
        → st.budget.max_depth + 1 ≡ deepest
        → Ends 1 st
            (visit_child tools output_root deeper destination path_in_tree depth format child st)
    unfolding visit_child is_out_of_fuel child_node
    visit_child-Ends child st cap = elim (Option-cases (get child st.disk)) [
      | inl t ↦
          rw (t, visit_child)
            (
              IsStep-weaken output_root deepest 0 1 st st (omega arith) (omega arith)
                  (IsStep-refl output_root deepest st),
              refl,
            )
      | inr (bytes, t) ↦
          let node = child_node output_root destination path_in_tree depth format child bytes in
          let noted = add_node node st in
          let step = add_node-IsStep output_root deepest node st fits in
          elim (Bool-cases (should_unpack (detect (file_name child) bytes))) [
            | inl e ↦
                let (next, ended) =
                  good child node.path_in_tree noted (ap (λ n. n + 1) step.depth_cap ∙ cap) in
                rw (t, e, visit_child)
                  (IsStep-trans output_root deepest st noted _ step next, ended)
            | inr e ↦ rw (t, e, visit_child) (step, refl)
          ]
    ]

    continue-Ends :
        (owed : ℕ) (st : Extraction) (r : Ending × Extraction)
        (next : Extraction → Ending × Extraction)
        → st.budget.max_depth + 1 ≡ deepest
        → Ends 1 st r
        → ((st' : Extraction) → st'.budget.max_depth + 1 ≡ deepest → Ends owed st' (next st'))
        → Ends (suc owed) st (continue r next)
    unfolding continue is_out_of_fuel
    continue-Ends owed st (finished, st') next cap (step, ended) h =
        let (more_steps, ended') = h st' (ap (λ n. n + 1) step.depth_cap ∙ cap) in
        (
          IsStep-weaken output_root deepest 0 (suc owed) st (next st').1 (omega arith) (omega arith)
              (IsStep-trans output_root deepest st st' (next st').1 step more_steps),
          ended',
        )
    continue-Ends owed st (file_missing, st') next cap (step, ended) h = (
      IsStep-weaken output_root deepest 0 (suc owed) st st' (omega arith) (omega arith) step,
      refl,
    )
    continue-Ends owed st (out_of_fuel, st') next cap (step, ended) h = absurd (ground arith)

    visit_children-Ends :
        (cs : List (List String)) (st : Extraction)
        → st.budget.max_depth + 1 ≡ deepest
        → Ends
            (length cs)
            st
            (visit_children tools output_root deeper destination path_in_tree depth format cs st)
    unfolding visit_children is_out_of_fuel
    visit_children-Ends [] st cap = (IsStep-refl output_root deepest st, refl)
    visit_children-Ends (child ∷ cs) st cap =
        continue-Ends (length cs) st
          (visit_child tools output_root deeper destination path_in_tree depth format child st)
          (visit_children tools output_root deeper destination path_in_tree depth format cs) cap
          (visit_child-Ends child st cap) (visit_children-Ends cs)

    on_outcome-Ends :
        (st : Extraction) (r : Outcome × Extraction)
        → st.budget.max_depth + 1 ≡ deepest
        → Extends output_root deepest 0 st r
        → Ends 0 st (on_outcome tools output_root deeper destination path_in_tree depth format r)
    unfolding on_outcome is_out_of_fuel
    on_outcome-Ends st (written cs, st') cap (paid, step, few) =
        let (more_steps, ended) =
          visit_children-Ends cs st' (ap (λ n. n + 1) step.depth_cap ∙ cap) in
        (
          IsStep-settle output_root deepest st _ (omega arith)
              (IsStep-trans output_root deepest st st' _ step more_steps),
          ended,
        )
    on_outcome-Ends st (over_budget limit detail, st') cap (paid, step, few) = (
      IsStep-settle output_root deepest st _ (omega arith) (
          IsStep-trans output_root deepest st st' _ step
            (add_error-IsStep output_root deepest _ st')),
      refl,
    )
    on_outcome-Ends st (broken message, st') cap (paid, step, few) = (
      IsStep-settle output_root deepest st _ (omega arith) (
          IsStep-trans output_root deepest st st' _ step
            (add_error-IsStep output_root deepest _ st')),
      refl,
    )

  below_output :
      (slug : String) (p : List String)
      → is_under (output_root ++ slug ∷ []) p ≡ true
      → is_under output_root p ≡ true
  unfolding is_under
  below_output slug p h = is_prefix-append output_root (slug ∷ []) p h

  module _ (deeper : Walk) (depth : ℕ) where
    open_file-Ends :
        (source : List String) (path_in_tree : String) (bytes : List ℕ) (st : Extraction)
        → st.budget.max_depth + 1 ≡ deepest
        → depth + 1 ≤ deepest
        → GoodWalk deeper (depth + 1)
        → Ends 0 st (open_file tools output_root deeper source path_in_tree depth bytes st)
    unfolding open_file is_out_of_fuel
    open_file-Ends source path_in_tree bytes st cap fits good =
        let found = detect (file_name source) bytes in
        let slug = slugify tools.is_alnum path_in_tree depth in
        let destination = output_root ++ slug ∷ [] in
        elim (Bool-cases (should_unpack found)) [
          | inl e ↦
              rw (e, open_file)
                (on_outcome-Ends deeper destination path_in_tree depth found.container good fits st
                  (extract_one tools destination found.container (file_name source) bytes st) cap
                  (extract_one-Extends output_root deepest tools destination (below_output slug)
                    found.container (file_name source) bytes st))
          | inr e ↦ rw (e, open_file) (IsStep-refl output_root deepest st, refl)
        ]

    on_depth-Ends :
        (source : List String) (path_in_tree : String) (r : Checked × ExtractionBudget)
        (st : Extraction)
        → st.budget.max_depth + 1 ≡ deepest
        → (r.0 ≡ fine → (depth + 1 ≤ deepest) × GoodWalk deeper (depth + 1))
        → IsStep output_root deepest 0 0 st (record st { budget = r.1 })
        → Ends 0 st (on_depth tools output_root deeper source path_in_tree depth r st)
    unfolding on_depth is_out_of_fuel
    on_depth-Ends source path_in_tree (budget_exceeded limit detail, b) st cap fits step = (
      IsStep-trans output_root deepest st (record st { budget = b }) _ step
          (add_error-IsStep output_root deepest _ (record st { budget = b })),
      refl,
    )
    on_depth-Ends source path_in_tree (fine, b) st cap fits step =
        let checked : Extraction = record st { budget = b } in
        elim (Bool-cases (is_exhausted b)) [
          | inl e ↦ rw (e, on_depth) (step, refl)
          | inr e ↦ elim (Option-cases (get source st.disk)) [
            | inl t ↦ rw (e, t, on_depth) (step, refl)
            | inr (bytes, t) ↦
                let (next, ended) =
                  open_file-Ends source path_in_tree bytes checked
                    (ap (λ n. n + 1) step.depth_cap ∙ cap) (fits refl).0 (fits refl).1 in
                rw (e, t, on_depth) (IsStep-trans output_root deepest st checked _ step next, ended)
          ]
        ]

  walk-Ends :
      (fuel depth : ℕ)
      → deepest + 1 ≤ fuel + depth
      → depth ≤ deepest
      → GoodWalk (walk tools output_root fuel) depth
  unfolding walk
  walk-Ends zero depth enough fits source path_in_tree st cap = absurd (omega arith)
  walk-Ends (suc fuel) depth enough fits source path_in_tree st cap =
      on_depth-Ends (walk tools output_root fuel) depth source path_in_tree
        (check_depth depth st.budget) st cap
        (λ h.
          let allowed : depth + 1 ≤ deepest =
            omega (arith, cap, check_depth-fine depth st.budget h) in
          (allowed, walk-Ends fuel (depth + 1) (omega arith) allowed))
        (check_depth-IsStep output_root deepest depth st)

module _ (tools : Tools) (output_root artifact : List String) (root_name : String)
    (st : Extraction) where
  extract_tree-Ends :
      IsStep output_root
        (st.budget.max_depth + 1)
        0
        0
        st
        (extract_tree tools output_root artifact root_name st).1
      × (is_out_of_fuel (extract_tree tools output_root artifact root_name st).0 ≡ false)
  unfolding extract_tree
  extract_tree-Ends =
      walk-Ends tools output_root (st.budget.max_depth + 1) (st.budget.max_depth + 2) 0
        (omega arith) (omega arith) artifact root_name st refl

  -- The recursive extraction ends: however deep the archives are nested, as many levels as the
  -- depth cap and two more are enough for every walk.
  pub extract_tree-terminates :
      is_out_of_fuel (extract_tree tools output_root artifact root_name st).0 ≡ false
  extract_tree-terminates = extract_tree-Ends.1

  -- The extraction of a tree changes no file outside the output directory, whatever the names in
  -- the archives are.
  pub extract_tree-confined :
      (p : List String)
      → is_under output_root p ≡ false
      → get p (extract_tree tools output_root artifact root_name st).1.disk ≡ get p st.disk
  extract_tree-confined p h = extract_tree-Ends.0.confined p h

  -- From a valid budget and no nodes, the extraction of a tree ends with a valid budget, with at
  -- most as many nodes as files were paid for, and with no node deeper than one below the cap.
  pub extract_tree-IsValid :
      IsValid st.budget
      → st.nodes ≡ []
      → IsValid (extract_tree tools output_root artifact root_name st).1.budget
        × (length (extract_tree tools output_root artifact root_name st).1.nodes
            ≤ (extract_tree tools output_root artifact root_name st).1.budget.files_written)
        × All
            (λ n. n.depth ≤ st.budget.max_depth + 1)
            (extract_tree tools output_root artifact root_name st).1.nodes
  extract_tree-IsValid v none_yet =
      let step = extract_tree-Ends.0 in
      let counted = step.counted in
      let empty : length st.nodes ≡ 0 = ap length none_yet in
      (
        step.valid v,
        omega arith,
        step.shallow (subst (All (λ n. n.depth ≤ st.budget.max_depth + 1)) (sym none_yet) tt),
      )
