-- ===== src/Unpack/Formats.antt =====
-- Every extractor pays for the files that it writes, and writes below its destination.
use Prim.Native.Char.{Char}
use bare_binary_analysis.Unpack.Steps.{
  IsStep, IsStep-trans, charge-IsStep, write-IsStep, IsStep-refl, add_error-IsStep, remove-IsStep,
}
use bare_binary_analysis.Unpack.Paths.{is_under, safe_join}
use bare_binary_analysis.Unpack.Members.{
  Extraction, and_then, on_member, reserve_member, Content, Outcome, written, charge, over_budget,
  visit_member, visit_members, broken, contents, corrupt, absent, Entry, add_error, collect_file,
  collect_files, run_tool, write_all, files_below, write, Tried, ToolRun, raised, ok, after_run,
  path_before, after_exit, ToolExit,
}
use bare_binary_analysis.Prelude.{
  string_eq, list_eq, nat_eq, true, false, none, some, List, String, ℕ, ◌≡◌, length, true, ◌≤◌,
  arith, ◌+◌, inl, inr, length-append, ◌∷◌, [], Bool, if◌then◌else◌, Bool-cases, is_prefix, not,
  subst, Option-cases, All, ltb, remove, ℤ, ◌++◌, Option, is_prefix_self, All-sort_by, select,
  All-select,
}

abbrev pub count_of : Outcome → ℕ
count_of (written ps) = length ps
count_of (over_budget limit detail) = 0
count_of (broken message) = 0

some-injective {ℓ} : {A : Type ℓ} {a b : A} → some a ≡ some b → a ≡ b
some-injective h = ground arith

guarded :
    (refused : Bool) (directory candidate target : List String)
    → (if refused then none else if is_prefix directory candidate then some candidate else none)
      ≡ some target
    → is_prefix directory target ≡ true
guarded true directory candidate target h = absurd (ground arith)
guarded false directory candidate target h = elim (Bool-cases (is_prefix directory candidate)) [
  | inl e ↦
      let same : some candidate ≡ some target = rw e at h in
      subst (λ p. is_prefix directory p ≡ true) (some-injective same) e
  | inr e ↦ let failed : none ≡ some target = rw e at h in absurd (ground arith)
]

module _ (root : List String) (deepest : ℕ) where
  -- With this many files written before, the step pays for those that it adds.
  abbrev pub Extends : ℕ → Extraction → Outcome × Extraction → Type 0
  Extends before st r =
      (paid : ℕ) × IsStep root deepest paid 0 st r.1 × (count_of r.0 ≤ before + paid)

  on_member-Extends :
      (target : List String) (done : List (List String)) (content : Content) (st : Extraction)
      → is_under root target ≡ true
      → IsStep root deepest 0 0 st (on_member target done content st).1
        × (count_of (on_member target done content st).0 ≤ length done + 1)
  unfolding on_member
  on_member-Extends target done (contents bytes) st h = (
    write-IsStep root deepest target bytes st h,
    rw (length-append done (target ∷ [])) (omega arith),
  )
  on_member-Extends target done absent st h = (IsStep-refl root deepest st, omega arith)
  on_member-Extends target done (corrupt message) st h = (IsStep-refl root deepest st, omega arith)

  pub reserve_member-Extends :
      (size : ℕ) (target : List String) (done : List (List String)) (content : Content)
      (st : Extraction)
      → is_under root target ≡ true
      → Extends (length done) st (reserve_member size target done content st)
  unfolding reserve_member
  reserve_member-Extends size target done content st h =
      let paid = (charge size st).1 in
      elim (charge-IsStep root deepest size st) [
        | inl (c, step) ↦
            let (next, few) = on_member-Extends target done content paid h in
            rw (c, reserve_member)
              (
                1,
                IsStep-trans root deepest st paid (on_member target done content paid).1 step next,
                few,
              )
        | inr (limit, detail, c, step) ↦ rw (c, reserve_member) (0, step, omega arith)
      ]

  pub and_then-Extends :
      (before : ℕ) (st : Extraction) (r : Outcome × Extraction)
      (next : List (List String) → Extraction → Outcome × Extraction)
      → Extends before st r
      → ((done : List (List String)) (st' : Extraction) → Extends (length done) st' (next done st'))
      → Extends before st (and_then r next)
  unfolding and_then
  and_then-Extends before st (written done, st') next (paid, step, le) h =
      let (more_paid, second, fits) = h done st' in
      (
        paid + more_paid,
        IsStep-trans root deepest st st' (next done st').1 step second,
        omega arith,
      )
  and_then-Extends before st (over_budget limit detail, st') next e h = e
  and_then-Extends before st (broken message, st') next e h = e

  pub skip-Extends :
      (done : List (List String)) (st st' : Extraction)
      → IsStep root deepest 0 0 st st'
      → Extends (length done) st (written done, st')
  skip-Extends done st st' step = (0, step, omega arith)

  module _ (destination : List String)
      (below : (p : List String) → is_under destination p ≡ true → is_under root p ≡ true) where
    pub safe_join-below :
        (is_alpha : Char → Bool) (member : String) (target : List String)
        → safe_join is_alpha destination member ≡ some target
        → is_under root target ≡ true
    unfolding safe_join is_under
    safe_join-below is_alpha member target h = below target (guarded _ destination _ target h)

    visit_member-Extends :
        (is_alpha : Char → Bool) (refusal : String) (e : Entry) (done : List (List String))
        (st : Extraction)
        → Extends (length done) st (visit_member is_alpha refusal destination e done st)
    unfolding visit_member
    visit_member-Extends is_alpha refusal e done st = elim (Bool-cases (not e.is_file)) [
      | inl h ↦ rw (h, visit_member) (skip-Extends done st st (IsStep-refl root deepest st))
      | inr h ↦ elim (Option-cases (safe_join is_alpha destination e.name)) [
        | inl t ↦
            rw (h, t, visit_member)
              (skip-Extends done st (add_error _ st) (add_error-IsStep root deepest _ st))
        | inr (target, t) ↦
            rw (h, t, visit_member)
              (reserve_member-Extends e.size target done e.content st
                (safe_join-below is_alpha e.name target t))
      ]
    ]

    pub visit_members-Extends :
        (is_alpha : Char → Bool) (refusal : String) (es : List Entry) (done : List (List String))
        (st : Extraction)
        → Extends (length done) st (visit_members is_alpha refusal destination es done st)
    unfolding visit_members
    visit_members-Extends is_alpha refusal [] done st =
        skip-Extends done st st (IsStep-refl root deepest st)
    visit_members-Extends is_alpha refusal (e ∷ es) done st =
        and_then-Extends (length done) st (visit_member is_alpha refusal destination e done st)
          (visit_members is_alpha refusal destination es)
          (visit_member-Extends is_alpha refusal e done st)
          (visit_members-Extends is_alpha refusal es)

    collect_file-Extends :
        (f : List String × List ℕ) (done : List (List String)) (st : Extraction)
        → is_under destination f.0 ≡ true
        → Extends (length done) st (collect_file f done st)
    unfolding collect_file
    collect_file-Extends (path, bytes) done st h =
        let paid = (charge (length bytes) st).1 in
        elim (Bool-cases (ltb (length bytes) 1)) [
          | inl e ↦ rw (e, collect_file) (skip-Extends done st st (IsStep-refl root deepest st))
          | inr e ↦ elim (charge-IsStep root deepest (length bytes) st) [
            | inl (c, step) ↦
                rw (e, c, collect_file) (1, step, rw (length-append done (path ∷ [])) (omega arith))
            | inr (limit, detail, c, step) ↦
                rw (e, c, collect_file)
                  (
                    0,
                    IsStep-trans root deepest st paid (record paid { disk = remove path paid.disk })
                        step (remove-IsStep root deepest path paid (below path h)),
                    omega arith,
                  )
          ]
        ]

    collect_files-Extends :
        (fs : List (List String × List ℕ)) (done : List (List String)) (st : Extraction)
        → All (λ f. is_under destination f.0 ≡ true) fs
        → Extends (length done) st (collect_files fs done st)
    unfolding collect_files
    collect_files-Extends [] done st h = skip-Extends done st st (IsStep-refl root deepest st)
    collect_files-Extends (f ∷ fs) done st h =
        and_then-Extends (length done) st (collect_file f done st) (collect_files fs)
          (collect_file-Extends f done st h.0) (λ more st'. collect_files-Extends fs more st' h.1)

    write_all-IsStep :
        (fs : List (List String × List ℕ)) (st : Extraction)
        → IsStep root deepest 0 0 st (write_all destination fs st)
    unfolding write_all is_under
    write_all-IsStep [] st = IsStep-refl root deepest st
    write_all-IsStep ((path, bytes) ∷ fs) st =
        let wrote = write (destination ++ path) bytes st in
        IsStep-trans root deepest st wrote (write_all destination fs wrote)
          (write-IsStep root deepest (destination ++ path) bytes st
            (below (destination ++ path) (is_prefix_self destination path)))
          (write_all-IsStep fs wrote)

    after_exit-Extends :
        (name : String) (failed : ℤ → Bool) (st wrote : Extraction) (x : Tried ToolExit)
        → IsStep root deepest 0 0 st wrote
        → Extends 0 st (after_exit name failed destination wrote x)
    unfolding after_exit files_below
    after_exit-Extends name failed st wrote (raised message) step = (0, step, omega arith)
    after_exit-Extends name failed st wrote (ok exit) step =
        let found = files_below destination wrote in
        elim (Bool-cases (failed exit.returncode)) [
          | inl e ↦ rw e (0, step, omega arith)
          | inr e ↦
              let below_it =
                All-sort_by (λ f g. path_before f.0 g.0) (λ f. is_under destination f.0 ≡ true)
                  (select (λ f. is_under destination f.0) wrote.disk)
                  (All-select (λ f. is_under destination f.0) wrote.disk) in
              let (paid, collected, few) = collect_files-Extends found [] wrote below_it in
              rw e (
                0 + paid,
                IsStep-trans root deepest st wrote (collect_files found [] wrote).1 step collected,
                omega arith,
              )
        ]

    after_run-Extends :
        (name : String) (failed : ℤ → Bool) (st : Extraction) (run : ToolRun)
        → Extends 0 st (after_run name failed destination st run)
    unfolding after_run
    after_run-Extends name failed st run =
        after_exit-Extends name failed st (write_all destination run.files st) run.exit
          (write_all-IsStep run.files st)

    pub run_tool-Extends :
        (name : String) (failed : ℤ → Bool) (tool : Option (List ℕ → ToolRun)) (source : List ℕ)
        (st : Extraction)
        → Extends 0 st (run_tool name failed tool destination source st)
    unfolding run_tool
    run_tool-Extends name failed none source st = (0, IsStep-refl root deepest st, omega arith)
    run_tool-Extends name failed (some tool) source st =
        after_run-Extends name failed st (tool source)
