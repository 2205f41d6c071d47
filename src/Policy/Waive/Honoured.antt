-- ===== src/Policy/Waive/Honoured.antt =====
-- A new waiver, and what the gate does with it on the same day.
use bare_binary_analysis.Policy.Engine.Reports.{evaluate-waived_and_inherited, is_excused}
use bare_binary_analysis.Policy.Engine.Ledger.{get-index_waivers_nil}
use bare_binary_analysis.Policy.Engine.Reference.{
  in_scope, last_waiver, named_by, is_waived, valid_on,
}
use bare_binary_analysis.Policy.Engine.{waiver_exceeds_ttl, index_waivers, evaluate, by_severity}
use bare_binary_analysis.Policy.Model.{is_expired, Waiver, GateFinding}
use bare_binary_analysis.Policy.Waive.{build_waiver, is_finding_id}
use bare_binary_analysis.Policy.Document.{Policy}
use bare_binary_analysis.Prelude.{
  string_eq, arith, ok, Date, ◌≡◌, true, ◌&&◌, ◌==◌, false, String, some, ◌∷◌, [], refl, Bool, List,
  any_of, get, sort_by, sym, ◌∙◌, any_of-map, ap, select, Bool-cases, any_of-select, any_of-sort_by,
  inl, eq_iff, inr, ◌||◌,
}

-- A waiver for a full id, which has what the policy requires, which is not expired on the day and
-- does not run past the policy's maximum.
pub record IsHonoured (p : Policy) (today : Date) (w : Waiver) : Type 0 where
  pub full : is_finding_id w.finding_id ≡ true
  pub reasoned : (p.require_waiver_reason && w.reason == "") ≡ false
  pub owned : (p.require_waiver_owner && w.owner == "") ≡ false
  pub lasting : is_expired w today ≡ false
  pub short : waiver_exceeds_ttl w p today ≡ false

build_waiver-fields :
    (id reason owner : String) (expires : Date) (p : Policy) (today : Date) (w : Waiver)
    → build_waiver id reason owner expires p today ≡ ok w
    → IsHonoured p today w
unfolding build_waiver is_expired waiver_exceeds_ttl
build_waiver-fields id reason owner expires p today w h = ground arith

-- Named and in scope.
abbrev pub is_concerned : Policy → String → GateFinding → Bool
is_concerned p id f = f.id == id && (in_scope p f && named_by p f)

any_of-is_excused :
    (p : Policy) (waivers : List Waiver) (today : Date) (w : Waiver) (fs : List GateFinding)
    → is_expired w today ≡ false
    → last_waiver w.finding_id waivers ≡ some w
    → any_of (λ f. is_excused p waivers today f && f.id == w.finding_id) fs
      ≡ any_of (is_concerned p w.finding_id) fs
unfolding any_of
any_of-is_excused p waivers today w [] lasting found = refl
any_of-is_excused p waivers today w (f ∷ fs) lasting found =
    rw (any_of-is_excused p waivers today w fs lasting found)
      (ap (λ b. b || any_of (is_concerned p w.finding_id) fs) here)
  where
    here : (is_excused p waivers today f && f.id == w.finding_id) ≡ is_concerned p w.finding_id f
    here = elim (Bool-cases (f.id == w.finding_id)) [
      | inl e ↦
          let same : f.id ≡ w.finding_id = ground (arith, eq_iff f.id w.finding_id) in
          unfold is_excused is_waived valid_on in rw (same, found, lasting) (ground arith)
      | inr e ↦ rw e (ground arith)
    ]

-- A waiver that `build_waiver` makes is for a full id, and has the reason and the owner that the
-- policy requires. On the same day, where it is the waiver that the gate looks up for its id, the
-- verdict lists the id as waived exactly when the findings have one of that id which is in scope
-- and which a clause of the policy names.
pub build_waiver-IsHonoured :
    (id reason owner : String) (expires : Date) (p : Policy) (today : Date) (w : Waiver)
    (waivers : List Waiver) (fs : List GateFinding) (stages : List String)
    → build_waiver id reason owner expires p today ≡ ok w
    → get w.finding_id (index_waivers waivers []) ≡ some w
    → IsHonoured p today w
      × (any_of (λ x. x.finding_id == w.finding_id) (evaluate fs p waivers stages today).waived
          ≡ any_of (is_concerned p w.finding_id) fs)
build_waiver-IsHonoured id reason owner expires p today w waivers fs stages h found =
    let honoured = build_waiver-fields id reason owner expires p today w h in
    let is_its : String → Bool = λ i. i == w.finding_id in
    let sorted = sort_by by_severity fs in
    let looked_up : last_waiver w.finding_id waivers ≡ some w =
      sym (get-index_waivers_nil w.finding_id waivers) ∙ found in
    (
      honoured,
      sym (any_of-map is_its (λ x. x.finding_id) (evaluate fs p waivers stages today).waived)
          ∙ ap (any_of is_its) (evaluate-waived_and_inherited fs p waivers stages today).0
          ∙ any_of-map is_its (λ f. f.id) (select (is_excused p waivers today) sorted)
          ∙ any_of-select (λ f. f.id == w.finding_id) (is_excused p waivers today) sorted
          ∙ any_of-sort_by by_severity _ fs
          ∙ any_of-is_excused p waivers today w fs honoured.lasting looked_up,
    )
