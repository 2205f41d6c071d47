-- ===== src/Policy/Engine/Ledger.antt =====
-- The loop of `evaluate`: what it leaves in each list, in terms of the reference.
use bare_binary_analysis.Prelude.{
  String, ◌≡◌, refl, Bool, not, ◌||◌, Option, none, some, List, [], ◌∷◌, any_of, any_of-append,
  Dict, get, put, get-put, Date, arith, string_eq, if◌then◌else◌, truthy, all_of, false, select,
  ◌&&◌, ◌++◌, sym, true, truthy-append, append-nil, Bool-cases, inl, inr, ◌∙◌, ap, append_assoc,
}
use bare_binary_analysis.Policy.Model.{GateFinding, Waiver, Violation, is_degraded_scan}
use bare_binary_analysis.Policy.Document.{Policy}
use bare_binary_analysis.Policy.Engine.{
  Tally, rule, category, floor, violation, expired_violation, visit, index_waivers, Reason,
  blocking_reason, is_actionable, on_reason, on_waiver, visit_all, is_new_only, kind_of,
}
use bare_binary_analysis.Policy.Engine.Reference.{
  last_waiver, is_cleared, in_scope, is_waived, named_by, valid_on,
}

or_else : Option Waiver → Option Waiver → Option Waiver
or_else (some w) d = some w
or_else none d = d

-- The dictionary holds the last waiver of each id.
get-index_waivers :
    (id : String) (ws : List Waiver) (index : Dict String Waiver)
    → get id (index_waivers ws index) ≡ or_else (last_waiver id ws) (get id index)
unfolding index_waivers last_waiver or_else
get-index_waivers id [] index = refl
get-index_waivers id (w ∷ ws) index =
    ground
      (arith, get-index_waivers id ws (put w.finding_id w index), get-put w.finding_id id w index)

pub get-index_waivers_nil :
    (id : String) (ws : List Waiver) → get id (index_waivers ws []) ≡ last_waiver id ws
unfolding or_else get
get-index_waivers_nil id ws = ground (arith, get-index_waivers id ws [])

-- A violation other than the one for an incomplete scan.
abbrev pub is_other : Violation → Bool
is_other v = not (is_degraded_scan v.kind)

unfoldable pub is_some_reason : Option Reason → Bool
is_some_reason none = false
is_some_reason (some r) = true

pub blocking_reason-named_by :
    (f : GateFinding) (p : Policy) → is_some_reason (blocking_reason f p) ≡ named_by p f
unfolding blocking_reason named_by is_some_reason
blocking_reason-named_by f p = ground arith

-- The two guards of the loop together.
pub guards-in_scope :
    (f : GateFinding) (p : Policy)
    → (is_actionable f p && not (is_new_only p.baseline_mode && not f.is_new)) ≡ in_scope p f
unfolding is_actionable in_scope
guards-in_scope f p = ground arith

-- The findings that are left to the budgets.
abbrev pub is_unnamed : Policy → GateFinding → Bool
is_unnamed p f = in_scope p f && not (named_by p f)

module _ (p : Policy) (today : Date) where
  on_waiver-other :
      (f : GateFinding) (r : Reason) (t : Tally) (o : Option Waiver)
      → any_of is_other (on_waiver p today f r t o).violations
        ≡ (any_of is_other t.violations || not (valid_on today o))
  unfolding on_waiver valid_on violation expired_violation kind_of any_of is_degraded_scan
  on_waiver-other f rule t none = any_of-append is_other t.violations (violation f rule ∷ [])
  on_waiver-other f category t none =
      any_of-append is_other t.violations (violation f category ∷ [])
  on_waiver-other f floor t none = any_of-append is_other t.violations (violation f floor ∷ [])
  on_waiver-other f r t (some w) =
      ground (arith, any_of-append is_other t.violations (expired_violation f w ∷ []))

  on_waiver-truthy :
      (f : GateFinding) (r : Reason) (t : Tally) (o : Option Waiver)
      → truthy (on_waiver p today f r t o).violations
        ≡ (truthy t.violations || not (valid_on today o))
  unfolding on_waiver valid_on
  on_waiver-truthy f r t none = truthy-append t.violations (violation f r ∷ [])
  on_waiver-truthy f r t (some w) =
      ground (arith, truthy-append t.violations (expired_violation f w ∷ []))

  on_waiver-considered :
      (f : GateFinding) (r : Reason) (t : Tally) (o : Option Waiver)
      → (on_waiver p today f r t o).considered ≡ t.considered
  unfolding on_waiver
  on_waiver-considered f r t none = refl
  on_waiver-considered f r t (some w) = ground arith

  module _ (ws : List Waiver) where
    abbrev index : Dict String Waiver
    index = index_waivers ws []

    on_reason-other :
        (f : GateFinding) (t : Tally) (o : Option Reason)
        → any_of is_other (on_reason p today index f t o).violations
          ≡ (any_of is_other t.violations || (is_some_reason o && not (is_waived ws today f)))
    unfolding on_reason is_some_reason is_waived
    on_reason-other f t none = ground arith
    on_reason-other f t (some r) =
        rw (get-index_waivers_nil f.id ws) (on_waiver-other f r t (last_waiver f.id ws))

    on_reason-truthy :
        (f : GateFinding) (t : Tally) (o : Option Reason)
        → truthy (on_reason p today index f t o).violations
          ≡ (truthy t.violations || (is_some_reason o && not (is_waived ws today f)))
    unfolding on_reason is_some_reason is_waived
    on_reason-truthy f t none = ground arith
    on_reason-truthy f t (some r) =
        rw (get-index_waivers_nil f.id ws) (on_waiver-truthy f r t (last_waiver f.id ws))

    on_reason-considered :
        (f : GateFinding) (t : Tally) (o : Option Reason)
        → (on_reason p today index f t o).considered
          ≡ (if is_some_reason o then t.considered else t.considered ++ f ∷ [])
    unfolding on_reason is_some_reason
    on_reason-considered f t none = refl
    on_reason-considered f t (some r) = on_waiver-considered f r t _

    visit-other :
        (f : GateFinding) (t : Tally)
        → any_of is_other (visit p today index f t).violations
          ≡ (any_of is_other t.violations || not (is_cleared p ws today f))
    unfolding visit is_cleared
    visit-other f t = ground (
      arith,
      on_reason-other f t (blocking_reason f p),
      guards-in_scope f p,
      blocking_reason-named_by f p,
    )

    visit-truthy :
        (f : GateFinding) (t : Tally)
        → truthy (visit p today index f t).violations
          ≡ (truthy t.violations || not (is_cleared p ws today f))
    unfolding visit is_cleared
    visit-truthy f t = ground (
      arith,
      on_reason-truthy f t (blocking_reason f p),
      guards-in_scope f p,
      blocking_reason-named_by f p,
    )

    visit-considered :
        (f : GateFinding) (t : Tally)
        → (visit p today index f t).considered
          ≡ (if is_unnamed p f then t.considered ++ f ∷ [] else t.considered)
    unfolding visit
    visit-considered f t = ground (
      arith,
      on_reason-considered f t (blocking_reason f p),
      guards-in_scope f p,
      blocking_reason-named_by f p,
    )

    pub visit_all-other :
        (fs : List GateFinding) (t : Tally)
        → any_of is_other (visit_all p today index fs t).violations
          ≡ (any_of is_other t.violations || not (all_of (is_cleared p ws today) fs))
    unfolding visit_all all_of
    visit_all-other [] t = ground arith
    visit_all-other (f ∷ fs) t =
        ground (arith, visit_all-other fs (visit p today index f t), visit-other f t)

    pub visit_all-truthy :
        (fs : List GateFinding) (t : Tally)
        → truthy (visit_all p today index fs t).violations
          ≡ (truthy t.violations || not (all_of (is_cleared p ws today) fs))
    unfolding visit_all all_of
    visit_all-truthy [] t = ground arith
    visit_all-truthy (f ∷ fs) t =
        ground (arith, visit_all-truthy fs (visit p today index f t), visit-truthy f t)

    pub visit_all-considered :
        (fs : List GateFinding) (t : Tally)
        → (visit_all p today index fs t).considered ≡ t.considered ++ select (is_unnamed p) fs
    unfolding visit_all select
    visit_all-considered [] t = sym (append-nil t.considered)
    visit_all-considered (f ∷ fs) t = elim (Bool-cases (is_unnamed p f)) [
      | inl e ↦
          visit_all-considered fs (visit p today index f t)
          ∙ ap (λ c. c ++ select (is_unnamed p) fs) (visit-considered f t)
          ∙ rw (e, append_assoc)
      | inr e ↦
          visit_all-considered fs (visit p today index f t)
          ∙ ap (λ c. c ++ select (is_unnamed p) fs) (visit-considered f t)
          ∙ rw e
    ]
