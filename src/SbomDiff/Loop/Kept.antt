-- ===== src/SbomDiff/Loop/Kept.antt =====
-- What `diff_sboms` returns, of two documents and of a document and itself.
use bare_binary_analysis.SbomDiff.Loop.Classes.{
  IsComparison, compare_groups-IsComparison, is_for, is_added, is_removed, has_other_versions,
  has_other_licences,
}
use bare_binary_analysis.SbomDiff.Loop.{
  diff_sboms, Changes, diff_of, compare_groups, given_or_label, inventory_complete,
}
use bare_binary_analysis.SbomDiff.{
  SbomDiff, Group, groups_of, document_fields, add_components, component_items, ComponentChange,
  add_component, has_changes, same_set,
}
use bare_binary_analysis.Prelude.{
  null, arr, arith, string_eq, none, some, ok, >>=-eq-ok, nil, cons, obj, Value, Dict, String, ◌≡◌,
  subst, sym, Fields, List, any_of, ap, Items, all_of, field_or, ok-injective, ℕ, arr, contains, [],
  false, ◌+◌, true, truthy, ◌∷◌, eq_iff, refl, Bool, Option, ◌==◌, ◌||◌, ◌∙◌, get,
}

-- The comparison in a result.
pub changes_of : SbomDiff → Changes
changes_of d = record {
  added = d.added;
  removed = d.removed;
  version_changed = d.version_changed;
  licence_changed = d.licence_changed;
  unchanged = d.unchanged;
}

-- A comparison of the groups of the two documents.
pub record IsDiffOf (before after : Value) (d : SbomDiff) : Type 0 where
  pub old : Dict String Group
  pub new : Dict String Group
  pub old_read : groups_of before "before" ≡ ok old
  pub new_read : groups_of after "after" ≡ ok new
  pub compared : changes_of d ≡ compare_groups old new
  pub classes : IsComparison old new (changes_of d)

-- The lists of a diff are for exactly the identities of their kind: in the new document only, in
-- the old one only, in both with other versions, in both with other licences; and `unchanged`
-- counts those in both with the same of both.
pub diff_sboms-IsDiffOf :
    (before after : Value) (before_label after_label : String) (d : SbomDiff)
    → diff_sboms before after before_label after_label ≡ ok d
    → IsDiffOf before after d
unfolding diff_sboms diff_of changes_of
diff_sboms-IsDiffOf before after before_label after_label d h =
    let (old, ho, h1) = >>=-eq-ok (groups_of before "before") _ d h in
    let (new, hn, h2) = >>=-eq-ok (groups_of after "after") _ d h1 in
    let (before_fields, _, h3) = >>=-eq-ok (document_fields before "before") _ d h2 in
    let (after_fields, _, h4) = >>=-eq-ok (document_fields after "after") _ d h3 in
    let (lb, _, h5) = >>=-eq-ok (given_or_label before_label before_fields "before") _ d h4 in
    let (la, _, h6) = >>=-eq-ok (given_or_label after_label after_fields "after") _ d h5 in
    let (cb, _, h7) = >>=-eq-ok (inventory_complete before_fields) _ d h6 in
    let (ca, _, h8) = >>=-eq-ok (inventory_complete after_fields) _ d h7 in
    let same : changes_of d ≡ compare_groups old new = sym (ap changes_of (ok-injective _ d h8)) in
    record {
      old = old;
      new = new;
      old_read = ho;
      new_read = hn;
      compared = same;
      classes = subst (IsComparison old new) (sym same) (compare_groups-IsComparison old new);
    }

-- The groups do not depend on which document it is, but for the text of an error.
add_components-which :
    (w v : String) (index : ℕ) (xs : Items) (start groups : Dict String Group)
    → add_components w index xs start ≡ ok groups
    → add_components v index xs start ≡ ok groups
unfolding add_components
add_components-which w v index nil start groups h = h
add_components-which w v index (cons (obj component) rest) start groups h =
    let (more, hm, k) =
      >>=-eq-ok (add_component component start) (add_components w (index + 1) rest) groups h in
    rw hm (add_components-which w v (index + 1) rest more groups k)
add_components-which w v index (cons _ rest) start groups h = absurd (ground arith)

component_items-which :
    (w v : String) (x : Value) (items : Items)
    → component_items w x ≡ ok items
    → component_items v x ≡ ok items
unfolding component_items
component_items-which w v null items h = h
component_items-which w v (arr xs) items h = h
component_items-which w v _ items h = absurd (ground arith)

document_fields-which :
    (w v : String) (x : Value) (fs : Fields)
    → document_fields x w ≡ ok fs
    → document_fields x v ≡ ok fs
unfolding document_fields
document_fields-which w v (obj gs) fs h = ground arith
document_fields-which w v _ fs h = absurd (ground arith)

groups_of-which :
    (w v : String) (x : Value) (groups : Dict String Group)
    → groups_of x w ≡ ok groups
    → groups_of x v ≡ ok groups
unfolding groups_of
groups_of-which w v x groups h =
    let (fs, hf, h1) = >>=-eq-ok (document_fields x w) _ groups h in
    let (items, hi, h2) =
      >>=-eq-ok (component_items w (field_or "components" (arr nil) fs)) _ groups h1 in
    rw (document_fields-which w v x fs hf, component_items-which w v _ items hi)
      (add_components-which w v 0 items [] groups h2)

or_true : (b : Bool) → (b || true) ≡ true
or_true true = refl
or_true false = refl

none_for :
    (cs : List ComponentChange) → ((j : String) → any_of (is_for j) cs ≡ false) → truthy cs ≡ false
unfolding any_of
none_for [] h = refl
none_for (c ∷ cs) h = absurd (ground (arith, h c.key, (eq_iff c.key c.key).1 refl))

all_of-contains :
    (xs ys : List String)
    → ((x : String) → contains xs x ≡ true → contains ys x ≡ true)
    → all_of (contains ys) xs ≡ true
unfolding all_of contains
all_of-contains [] ys h = refl
all_of-contains (x ∷ xs) ys h =
    ground (
      arith,
      h x,
      (eq_iff x x).1 refl,
      all_of-contains xs ys (λ y k. h y (rw k (or_true (x == y)))),
    )

same_set_refl : (xs : List String) → same_set xs xs ≡ true
unfolding same_set
same_set_refl xs = rw (all_of-contains xs xs (λ x h. h)) refl

-- Nothing of a document is in another class than itself.
unmoved :
    (g : Option Group)
    → (is_added g g ≡ false)
      × (is_removed g g ≡ false)
      × (has_other_versions g g ≡ false)
      × (has_other_licences g g ≡ false)
unmoved none = (refl, refl, refl, refl)
unmoved (some g) = (refl, refl, rw (same_set_refl g.versions), rw (same_set_refl g.licences))

-- A document differs in nothing from itself.
pub diff_sboms-same :
    (document : Value) (before_label after_label : String) (d : SbomDiff)
    → diff_sboms document document before_label after_label ≡ ok d
    → has_changes d ≡ false
unfolding has_changes changes_of
diff_sboms-same document before_label after_label d h =
    let r = diff_sboms-IsDiffOf document document before_label after_label d h in
    let same : r.old ≡ r.new =
      ok-injective r.old r.new
        (sym (groups_of-which "before" "after" document r.old r.old_read) ∙ r.new_read) in
    let at_old = λ (j : String). unmoved (get j r.old) in
    let classes : IsComparison r.old r.old (changes_of d) =
      subst (λ new. IsComparison r.old new (changes_of d)) (sym same) r.classes in
    let added = none_for d.added (λ j. classes.added j ∙ (at_old j).0) in
    let removed = none_for d.removed (λ j. classes.removed j ∙ (at_old j).1) in
    let versions = none_for d.version_changed (λ j. classes.other_versions j ∙ (at_old j).2) in
    let licences = none_for d.licence_changed (λ j. classes.other_licences j ∙ (at_old j).3) in
    rw (added, removed, versions, licences) refl
