-- ===== src/Unpack/Steps.antt =====
-- A step of an extraction keeps the budget's caps, pays for the files it writes, adds no deep
-- node, and changes nothing outside a directory.
use bare_binary_analysis.Unpack.Budget.{fine, budget_exceeded, check_depth, note}
use bare_binary_analysis.Unpack.Budget.Caps.{
  IsValid, reserve-cases, reserve-max_depth, reserve-IsValid, check_depth-IsValid,
}
use bare_binary_analysis.Unpack.Extractor.{add_node}
use bare_binary_analysis.Unpack.Paths.{is_under}
use bare_binary_analysis.Unpack.Members.{Extraction, add_error, charge, write, ExtractedNode}
use bare_binary_analysis.Prelude.{
  string_eq, list_eq, nat_eq, get, refl, List, String, ℕ, arith, ◌+◌, ◌≡◌, ◌≤◌, length-append, true,
  ◌∙◌, false, get-put, length, remove, ◌∷◌, ◌⊎◌, All, [], get-remove, ◌==◌, All-append, Bool-cases,
  inl, sym, ap, inr,
}

-- A step that pays for `paid` more files than it needs, and needs `owed` that are paid already.
pub record IsStep (root : List String) (deepest paid owed : ℕ) (st st' : Extraction) : Type 0 where
  pub depth_cap : st'.budget.max_depth ≡ st.budget.max_depth
  pub valid : IsValid st.budget → IsValid st'.budget
  pub counted :
      length st'.nodes + paid + st.budget.files_written
      ≤ length st.nodes + owed + st'.budget.files_written
  pub shallow : All (λ n. n.depth ≤ deepest) st.nodes → All (λ n. n.depth ≤ deepest) st'.nodes
  pub confined : (p : List String) → is_under root p ≡ false → get p st'.disk ≡ get p st.disk

clash : true ≡ false → ⊥
clash h = ground arith

module _ (root : List String) (deepest : ℕ) where
  pub IsStep-refl : (st : Extraction) → IsStep root deepest 0 0 st st
  IsStep-refl st = record {
    depth_cap = refl;
    valid = λ v. v;
    counted = omega arith;
    shallow = λ h. h;
    confined = λ p h. refl;
  }

  pub IsStep-trans :
      {paid owed paid' owed' : ℕ} (a b c : Extraction)
      → IsStep root deepest paid owed a b
      → IsStep root deepest paid' owed' b c
      → IsStep root deepest (paid + paid') (owed + owed') a c
  IsStep-trans a b c s t =
      let first = s.counted in
      let second = t.counted in
      record {
        depth_cap = t.depth_cap ∙ s.depth_cap;
        valid = λ v. t.valid (s.valid v);
        counted = omega arith;
        shallow = λ h. t.shallow (s.shallow h);
        confined = λ p h. t.confined p h ∙ s.confined p h;
      }

  pub IsStep-weaken :
      {paid owed : ℕ} (paid' owed' : ℕ) (a b : Extraction)
      → paid' ≤ paid
      → owed ≤ owed'
      → IsStep root deepest paid owed a b
      → IsStep root deepest paid' owed' a b
  IsStep-weaken paid' owed' a b le ge s =
      let first = s.counted in
      record {
        depth_cap = s.depth_cap;
        valid = s.valid;
        counted = omega arith;
        shallow = s.shallow;
        confined = s.confined;
      }

  -- What is paid covers what is owed.
  pub IsStep-settle :
      {paid owed : ℕ} (a b : Extraction)
      → owed ≤ paid
      → IsStep root deepest paid owed a b
      → IsStep root deepest 0 0 a b
  IsStep-settle a b le s =
      let first = s.counted in
      record {
        depth_cap = s.depth_cap;
        valid = s.valid;
        counted = omega arith;
        shallow = s.shallow;
        confined = s.confined;
      }

  pub add_error-IsStep :
      (m : String) (st : Extraction) → IsStep root deepest 0 0 st (add_error m st)
  unfolding add_error
  add_error-IsStep m st = record {
    depth_cap = refl;
    valid = λ v. v;
    counted = omega arith;
    shallow = λ h. h;
    confined = λ p h. refl;
  }

  elsewhere :
      (path p : List String)
      → is_under root path ≡ true
      → is_under root p ≡ false
      → (path == p) ≡ false
  elsewhere path p h k = elim (Bool-cases (path == p)) [
    | inl e ↦
        let same : path ≡ p = (list_eq.beq_iff path p).0 e in
        absurd (clash (sym h ∙ (ap (is_under root) same ∙ k)))
    | inr e ↦ e
  ]

  pub write-IsStep :
      (path : List String) (bytes : List ℕ) (st : Extraction)
      → is_under root path ≡ true
      → IsStep root deepest 0 0 st (write path bytes st)
  unfolding write
  write-IsStep path bytes st h = record {
    depth_cap = refl;
    valid = λ v. v;
    counted = omega arith;
    shallow = λ h. h;
    confined = λ p k. rw (get-put path p bytes st.disk, elsewhere path p h k) refl;
  }

  pub remove-IsStep :
      (path : List String) (st : Extraction)
      → is_under root path ≡ true
      → IsStep root deepest 0 0 st (record st { disk = remove path st.disk })
  remove-IsStep path st h = record {
    depth_cap = refl;
    valid = λ v. v;
    counted = omega arith;
    shallow = λ h. h;
    confined = λ p k. get-remove path p st.disk (elsewhere path p h k);
  }

  -- Paying for a file, or being refused.
  pub charge-IsStep :
      (size : ℕ) (st : Extraction)
      → (((charge size st).0 ≡ fine) × IsStep root deepest 1 0 st (charge size st).1)
        ⊎ ((limit detail : String) × ((charge size st).0 ≡ budget_exceeded limit detail)
            × IsStep root deepest 0 0 st (charge size st).1)
  unfolding charge
  charge-IsStep size st = elim (reserve-cases size st.budget) [
    | inl (c, files) ↦ inl (
      c,
      record {
        depth_cap = reserve-max_depth size st.budget;
        valid = reserve-IsValid size st.budget;
        counted = rw files (omega arith);
        shallow = λ h. h;
        confined = λ p h. refl;
      },
    )
    | inr (limit, detail, c, files) ↦ inr (
      limit,
      detail,
      c,
      record {
        depth_cap = reserve-max_depth size st.budget;
        valid = reserve-IsValid size st.budget;
        counted = rw files (omega arith);
        shallow = λ h. h;
        confined = λ p h. refl;
      },
    )
  ]

  pub check_depth-IsStep :
      (depth : ℕ) (st : Extraction)
      → IsStep root deepest 0 0 st (record st { budget = (check_depth depth st.budget).1 })
  unfolding check_depth note
  check_depth-IsStep depth st = record {
    depth_cap = ground arith;
    valid = λ v. check_depth-IsValid depth st.budget v;
    counted = ground arith;
    shallow = λ h. h;
    confined = λ p h. refl;
  }

  pub add_node-IsStep :
      (n : ExtractedNode) (st : Extraction)
      → n.depth ≤ deepest
      → IsStep root deepest 0 1 st (add_node n st)
  unfolding add_node
  add_node-IsStep n st h = record {
    depth_cap = refl;
    valid = λ v. v;
    counted = rw (length-append st.nodes (n ∷ [])) (omega arith);
    shallow = λ k. All-append (λ m. m.depth ≤ deepest) st.nodes (n ∷ []) k (h, tt);
    confined = λ p k. refl;
  }
