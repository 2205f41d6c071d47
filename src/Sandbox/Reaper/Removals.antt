-- ===== src/Sandbox/Reaper/Removals.antt =====
-- What one pass of the reaper asks the runtime to remove, and what it reports.
use bare_binary_analysis.Sandbox.Reaper.{
  ReapReport, SandboxDriver, ManagedContainer, sweep, on_reason, reap_reason, liveness, on_removal,
  reap, active_set,
}
use bare_binary_analysis.Prelude.{
  List, String, ℤ, ℕ, ◌++◌, Bool, map, length, ltb_ℤ, sub_ℕ, ◌||◌, ◌≡◌, arith, if◌then◌else◌, ◌&&◌,
  not, ◌∷◌, [], contains, string_eq, Option, none, select, true, false, some, sym, append-nil, refl,
  ◌∙◌, ap, Bool-cases, inl, append_assoc, inr, any_of, map-append,
}
use bare_binary_analysis.Sandbox.Reaper.Sweep.{is_some_text}

-- A runtime that lists the given containers, that records the ids that it is asked to remove, and
-- that fails to remove those for which `fails` has an error.
unfoldable pub recording :
    List ManagedContainer → (String → Option String) → SandboxDriver (List String)
recording cs fails = record {
  list_managed = λ d. (cs, d);
  remove = λ id d. (fails id, d ++ id ∷ []);
}

-- The container's run is not active, and it is too old or the active runs are known.
unfoldable pub is_orphan : Option (List String) → ℕ → ℤ → ManagedContainer → Bool
is_orphan active now max_age c =
    not (contains (active_set active) c.run_id)
    && (ltb_ℤ max_age (sub_ℕ now c.created_at) || liveness active)

-- The container is past the maximal age, but its run is active.
unfoldable pub is_overdue : Option (List String) → ℕ → ℤ → ManagedContainer → Bool
is_overdue active now max_age c =
    ltb_ℤ max_age (sub_ℕ now c.created_at) && contains (active_set active) c.run_id

abbrev pub id_of : ManagedContainer → String
id_of c = c.container_id

module _ (all : List ManagedContainer) (fails : String → Option String) (max_age : ℤ)
    (active : Option (List String)) (now : ℕ) where
  abbrev here : List ManagedContainer → ReapReport → List String → ReapReport × List String
  here = sweep (recording all fails) max_age (active_set active) now (liveness active)

  abbrev visit : ManagedContainer → ReapReport → List String → ReapReport × List String
  visit c r d =
      on_reason (recording all fails) max_age c
        (reap_reason c (active_set active) now max_age (liveness active)) r d

  -- The report after an attempt to remove the container.
  report_of : ManagedContainer → Option String → ReapReport → ReapReport
  report_of c none r = record r { removed = r.removed ++ c.container_id ∷ [] }
  report_of c (some e) r = record r { failed = r.failed ++ (c.container_id, e) ∷ [] }

  abbrev reported : ManagedContainer → ReapReport → ReapReport
  reported c r = report_of c (fails c.container_id) r

  on_removal-report_of :
      (c : ManagedContainer) (r : ReapReport) (d : List String) (o : Option String)
      → on_removal (recording all fails) max_age c r (o, d) ≡ (report_of c o r, d)
  unfolding on_removal report_of
  on_removal-report_of c r d none = refl
  on_removal-report_of c r d (some e) = refl

  on_reason-reported :
      (c : ManagedContainer) (o : Option String) (r : ReapReport) (d : List String)
      → on_reason (recording all fails) max_age c o r d
        ≡ (if is_some_text o then (reported c r, d ++ c.container_id ∷ []) else (r, d))
  unfolding on_reason is_some_text recording
  on_reason-reported c none r d = refl
  on_reason-reported c (some reason) r d = on_removal-report_of c r _ (fails c.container_id)

  visit-orphan :
      (c : ManagedContainer) (r : ReapReport) (d : List String)
      → is_overdue active now max_age c ≡ false
      → visit c r d ≡ (
          if is_orphan active now max_age c
          then (reported c r, d ++ c.container_id ∷ [])
          else (r, d))
  unfolding is_overdue is_orphan reap_reason is_some_text
  visit-orphan c r d h = on_reason-reported c _ r d ∙ ground arith

  -- What a sweep leaves of the report and of the record.
  record IsSwept (cs : List ManagedContainer) (r : ReapReport) (d : List String)
      (out : ReapReport × List String) : Type 0 where
    asked : out.1 ≡ d ++ map id_of (select (is_orphan active now max_age) cs)
    gone :
        out.0.removed
        ≡ r.removed
          ++ select
              (λ id. not (is_some_text (fails id)))
              (map id_of (select (is_orphan active now max_age) cs))
    left :
        map (λ x. x.0) out.0.failed
        ≡ map (λ x. x.0) r.failed
          ++ select
              (λ id. is_some_text (fails id))
              (map id_of (select (is_orphan active now max_age) cs))

  IsSwept-nil : (r : ReapReport) (d : List String) → IsSwept [] r d (r, d)
  unfolding select
  IsSwept-nil r d = record {
    asked = sym (append-nil d);
    gone = sym (append-nil r.removed);
    left = sym (append-nil _);
  }

  IsSwept-skip :
      (c : ManagedContainer) (cs : List ManagedContainer) (r : ReapReport) (d : List String)
      (out : ReapReport × List String)
      → is_orphan active now max_age c ≡ false
      → IsSwept cs r d out
      → IsSwept (c ∷ cs) r d out
  unfolding select
  IsSwept-skip c cs r d out e h = record {
    asked = rw e h.asked;
    gone = rw e h.gone;
    left = rw e h.left;
  }

  removed-report_of :
      (c : ManagedContainer) (r : ReapReport) (o : Option String)
      → (report_of c o r).removed
        ≡ r.removed ++ (if not (is_some_text o) then c.container_id ∷ [] else [])
  unfolding report_of is_some_text
  removed-report_of c r none = refl
  removed-report_of c r (some e) = sym (append-nil r.removed)

  failed-report_of :
      (c : ManagedContainer) (r : ReapReport) (o : Option String)
      → map (λ x. x.0) (report_of c o r).failed
        ≡ map (λ x. x.0) r.failed ++ (if is_some_text o then c.container_id ∷ [] else [])
  unfolding report_of is_some_text
  failed-report_of c r none = sym (append-nil _)
  failed-report_of c r (some e) = map-append (λ x. x.0) r.failed ((c.container_id, e) ∷ [])

  select-cons :
      (test : String → Bool) (id : String) (ids : List String)
      → select test (id ∷ []) ++ select test ids ≡ select test (id ∷ ids)
  unfolding select
  select-cons test id ids = ground arith

  IsSwept-visit :
      (c : ManagedContainer) (cs : List ManagedContainer) (r : ReapReport) (d : List String)
      (out : ReapReport × List String)
      → is_orphan active now max_age c ≡ true
      → IsSwept cs (reported c r) (d ++ c.container_id ∷ []) out
      → IsSwept (c ∷ cs) r d out
  unfolding select
  IsSwept-visit c cs r d out e h =
      let ids = map id_of (select (is_orphan active now max_age) cs) in
      let gone_here = select (λ id. not (is_some_text (fails id))) in
      let left_here = select (λ id. is_some_text (fails id)) in
      let id = c.container_id in
      record {
        asked = rw e (h.asked ∙ append_assoc d (c.container_id ∷ []) ids);
        gone = rw e (
            h.gone
            ∙ ap (λ l. l ++ gone_here ids) (removed-report_of c r (fails id))
            ∙ append_assoc r.removed (gone_here (id ∷ [])) (gone_here ids)
            ∙ ap (λ l. r.removed ++ l) (select-cons (λ i. not (is_some_text (fails i))) id ids));
        left = rw e (
            h.left
            ∙ ap (λ l. l ++ left_here ids) (failed-report_of c r (fails id))
            ∙ append_assoc (map (λ x. x.0) r.failed) (left_here (id ∷ [])) (left_here ids)
            ∙ ap (λ l. map (λ x. x.0) r.failed ++ l)
                (select-cons (λ i. is_some_text (fails i)) id ids));
      }

  sweep-IsSwept :
      (cs : List ManagedContainer) (r : ReapReport) (d : List String)
      → any_of (is_overdue active now max_age) cs ≡ false
      → IsSwept cs r d (here cs r d)
  unfolding sweep any_of
  sweep-IsSwept [] r d h = IsSwept-nil r d
  sweep-IsSwept (c ∷ cs) r d h =
      let visited = visit-orphan c r d (ground arith) in
      elim (Bool-cases (is_orphan active now max_age c)) [
        | inl e ↦
            let step : visit c r d ≡ (reported c r, d ++ c.container_id ∷ []) =
              visited ∙ rw e refl in
            rw step (
              IsSwept-visit c cs r d _ e
                (sweep-IsSwept cs (reported c r) (d ++ c.container_id ∷ []) (ground arith)))
        | inr e ↦
            let step : visit c r d ≡ (r, d) = visited ∙ rw e refl in
            rw step (IsSwept-skip c cs r d _ e (sweep-IsSwept cs r d (ground arith)))
      ]

-- Where no container of an active run is past the maximal age, one pass asks the runtime to remove,
-- in the order of the list, exactly the containers whose run is not active, and which are past
-- that age or whose run is known to be over; so never one of an active run. It reports as removed
-- those for which the runtime raised nothing, and as failed the others.
pub reap-removed :
    (cs : List ManagedContainer) (fails : String → Option String) (max_age : ℤ)
    (active : Option (List String)) (now : ℕ)
    → any_of (is_overdue active now max_age) cs ≡ false
    → ((reap (recording cs fails) max_age active now []).1
        ≡ map id_of (select (is_orphan active now max_age) cs))
      × ((reap (recording cs fails) max_age active now []).0.removed
          ≡ select
              (λ id. not (is_some_text (fails id)))
              (map id_of (select (is_orphan active now max_age) cs)))
      × (map (λ x. x.0) (reap (recording cs fails) max_age active now []).0.failed
          ≡ select
              (λ id. is_some_text (fails id))
              (map id_of (select (is_orphan active now max_age) cs)))
unfolding reap recording
reap-removed cs fails max_age active now h =
    let swept =
      sweep-IsSwept cs fails max_age active now cs
        (record { inspected = length cs; removed = []; failed = [] }) [] h in
    (swept.asked, swept.gone, swept.left)
