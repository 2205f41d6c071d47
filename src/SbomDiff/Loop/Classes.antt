-- ===== src/SbomDiff/Loop/Classes.antt =====
-- Which identities the lists of a comparison are for.
use bare_binary_analysis.SbomDiff.{ComponentChange, Group, same_set}
use bare_binary_analysis.SbomDiff.Loop.{
  Changes, on_key, change, on_both, on_versions, on_licences, sorted_texts, compare_keys, is_same,
  all_keys, compare_groups, no_changes,
}
use bare_binary_analysis.Prelude.{
  arith, string_eq, none, some, Bool, Option, String, any_of, List, ◌&&◌, ◌||◌, false, not, true,
  ◌++◌, ◌==◌, ◌≡◌, refl, ◌∷◌, [], any_of-append, ◌∙◌, ap, Dict, Bool-cases, get, count_where, inl,
  sym, eq_iff, inr, ◌+◌, has_key, if◌then◌else◌, keys, select, sort_by, str_lt, any_of-sort_by,
  count_where-sort_by,
}

-- What a key is, from its groups in the old and in the new document.
abbrev pub is_added : Option Group → Option Group → Bool
is_added none (some b) = true
is_added _ _ = false

abbrev pub is_removed : Option Group → Option Group → Bool
is_removed (some a) none = true
is_removed _ _ = false

abbrev pub has_other_versions : Option Group → Option Group → Bool
has_other_versions (some a) (some b) = not (same_set a.versions b.versions)
has_other_versions _ _ = false

abbrev pub has_other_licences : Option Group → Option Group → Bool
has_other_licences (some a) (some b) = not (same_set a.licences b.licences)
has_other_licences _ _ = false

abbrev pub is_unchanged : Option Group → Option Group → Bool
is_unchanged (some a) (some b) = same_set a.versions b.versions && same_set a.licences b.licences
is_unchanged _ _ = false

abbrev pub is_for : String → ComponentChange → Bool
is_for k c = c.key == k

-- One list of the changes gets the keys of one class.
abbrev Collects : (Changes → List ComponentChange) → (Option Group → Option Group → Bool) → Type 0
Collects pick class =
    (k j : String) (a b : Option Group) (c : Changes)
    → any_of (is_for j) (pick (on_key k a b c))
      ≡ (any_of (is_for j) (pick c) || (k == j && class a b))

or_false : (b : Bool) → (b || false) ≡ b
or_false true = refl
or_false false = refl

and_false : (b : Bool) → (b && false) ≡ false
and_false true = refl
and_false false = refl

and_true : (b : Bool) → (b && true) ≡ b
and_true true = refl
and_true false = refl

any_of-snoc :
    (j : String) (xs : List ComponentChange) (x : ComponentChange)
    → any_of (is_for j) (xs ++ x ∷ []) ≡ (any_of (is_for j) xs || x.key == j)
unfolding any_of
any_of-snoc j xs x =
    any_of-append (is_for j) xs (x ∷ []) ∙ ap (λ b. any_of (is_for j) xs || b) (or_false _)

added-Collects : Collects (λ c. c.added) is_added
unfolding on_key change on_both on_versions on_licences
added-Collects k j none none c = rw (and_false (k == j), or_false)
added-Collects k j none (some b) c = rw (and_true (k == j)) (any_of-snoc j c.added _)
added-Collects k j (some a) none c = rw (and_false (k == j), or_false)
added-Collects k j (some a) (some b) c =
    ground (arith, and_false (k == j), or_false (any_of (is_for j) c.added))

removed-Collects : Collects (λ c. c.removed) is_removed
unfolding on_key change on_both on_versions on_licences
removed-Collects k j none b c =
    let e : is_removed none b ≡ false = ground arith in
    ground (arith, and_false (k == j), or_false (any_of (is_for j) c.removed))
removed-Collects k j (some a) none c = rw (and_true (k == j)) (any_of-snoc j c.removed _)
removed-Collects k j (some a) (some b) c =
    ground (arith, and_false (k == j), or_false (any_of (is_for j) c.removed))

versions-Collects : Collects (λ c. c.version_changed) has_other_versions
unfolding on_key change on_both on_versions on_licences
versions-Collects k j none b c =
    ground (arith, and_false (k == j), or_false (any_of (is_for j) c.version_changed))
versions-Collects k j (some a) none c = rw (and_false (k == j), or_false)
versions-Collects k j (some a) (some b) c = ground (
  arith,
  and_false (k == j),
  and_true (k == j),
  or_false (any_of (is_for j) c.version_changed),
  any_of-snoc j c.version_changed
      (change k b.name (sorted_texts a.versions) (sorted_texts b.versions)),
)

licences-Collects : Collects (λ c. c.licence_changed) has_other_licences
unfolding on_key change on_both on_versions on_licences
licences-Collects k j none b c =
    ground (arith, and_false (k == j), or_false (any_of (is_for j) c.licence_changed))
licences-Collects k j (some a) none c = rw (and_false (k == j), or_false)
licences-Collects k j (some a) (some b) c = ground (
  arith,
  and_false (k == j),
  and_true (k == j),
  or_false (any_of (is_for j) c.licence_changed),
  any_of-snoc j c.licence_changed
      (change k b.name (sorted_texts a.licences) (sorted_texts b.licences)),
)

on_key-unchanged :
    (k : String) (a b : Option Group) (c : Changes)
    → (on_key k a b c).unchanged ≡ c.unchanged + (if is_unchanged a b then 1 else 0)
unfolding on_key on_both on_versions on_licences is_same
on_key-unchanged k none none c = omega arith
on_key-unchanged k none (some b) c = omega arith
on_key-unchanged k (some a) none c = omega arith
on_key-unchanged k (some a) (some b) c = ground arith

any_of-keys : (d : Dict String Group) (j : String) → any_of (λ k. k == j) (keys d) ≡ has_key j d
unfolding any_of keys has_key
any_of-keys [] j = refl
any_of-keys ((k, g) ∷ d) j = ground (arith, any_of-keys d j)

get-none_of_absent : (d : Dict String Group) (j : String) → has_key j d ≡ false → get j d ≡ none
unfolding has_key get
get-none_of_absent [] j h = refl
get-none_of_absent ((k, g) ∷ d) j h = ground (arith, get-none_of_absent d j)

any_of-new_keys :
    (d : Dict String Group) (j : String) (ks : List String)
    → any_of (λ k. k == j) (select (λ k. not (has_key k d)) ks)
      ≡ (not (has_key j d) && any_of (λ k. k == j) ks)
unfolding any_of select
any_of-new_keys d j [] = sym (and_false (not (has_key j d)))
any_of-new_keys d j (k ∷ ks) = elim (Bool-cases (k == j)) [
  | inl e ↦
      rw ((eq_iff k j).0 e)
        (ground (arith, any_of-new_keys d j ks, and_true (not (has_key j d)), (eq_iff j j).1 refl))
  | inr e ↦ ground (arith, any_of-new_keys d j ks)
]

module _ (old new : Dict String Group) where
  abbrev at : (Option Group → Option Group → Bool) → String → Bool
  at class k = class (get k old) (get k new)

  same_key_class :
      (class : Option Group → Option Group → Bool) (k j : String)
      → (k == j && at class k) ≡ (k == j && at class j)
  same_key_class class k j = elim (Bool-cases (k == j)) [
    | inl e ↦ rw ((eq_iff k j).0 e) refl
    | inr e ↦ rw e refl
  ]

  compare_keys-Collects :
      (pick : Changes → List ComponentChange) (class : Option Group → Option Group → Bool)
      → Collects pick class
      → (j : String) (ks : List String) (c : Changes)
      → any_of (is_for j) (pick (compare_keys old new ks c))
        ≡ (any_of (is_for j) (pick c) || (any_of (λ k. k == j) ks && at class j))
  unfolding compare_keys any_of
  compare_keys-Collects pick class h j [] c = sym (or_false _)
  compare_keys-Collects pick class h j (k ∷ ks) c = ground (
    arith,
    compare_keys-Collects pick class h j ks (on_key k (get k old) (get k new) c),
    h k j (get k old) (get k new) c,
    same_key_class class k j,
  )

  compare_keys-unchanged :
      (ks : List String) (c : Changes)
      → (compare_keys old new ks c).unchanged ≡ c.unchanged + count_where (at is_unchanged) ks
  unfolding compare_keys count_where
  compare_keys-unchanged [] c = omega arith
  compare_keys-unchanged (k ∷ ks) c = omega (
    arith,
    compare_keys-unchanged ks (on_key k (get k old) (get k new) c),
    on_key-unchanged k (get k old) (get k new) c,
  )

  -- The keys gone through are those of the two documents.
  any_of-all_keys :
      (j : String) → any_of (λ k. k == j) (all_keys old new) ≡ (has_key j old || has_key j new)
  unfolding all_keys
  any_of-all_keys j = ground (
    arith,
    any_of-append (λ k. k == j) (keys old) (select (λ k. not (has_key k old)) (keys new)),
    any_of-new_keys old j (keys new),
    any_of-keys old j,
    any_of-keys new j,
  )

  -- A class to which no key belongs that is in neither document.
  key_class :
      (class : Option Group → Option Group → Bool)
      → class none none ≡ false
      → (j : String) → (any_of (λ k. k == j) (all_keys old new) && at class j) ≡ at class j
  key_class class h j = elim (Bool-cases (has_key j old || has_key j new)) [
    | inl e ↦ rw (any_of-all_keys j, e) refl
    | inr e ↦
        let a : has_key j old ≡ false = ground arith in
        let b : has_key j new ≡ false = ground arith in
        rw (get-none_of_absent old j a, get-none_of_absent new j b, h) (and_false _)
  ]

  compare_groups-Collects :
      (pick : Changes → List ComponentChange) (class : Option Group → Option Group → Bool)
      → Collects pick class
      → pick no_changes ≡ []
      → class none none ≡ false
      → (j : String) → any_of (is_for j) (pick (compare_groups old new)) ≡ at class j
  unfolding compare_groups any_of
  compare_groups-Collects pick class h e n j =
      compare_keys-Collects pick class h j (sort_by str_lt (all_keys old new)) no_changes
      ∙ rw (e, any_of-sort_by str_lt (λ k. k == j) (all_keys old new)) (key_class class n j)

  -- Each list of a comparison is for exactly the identities of its class.
  pub record IsComparison (c : Changes) : Type 0 where
    pub added : (j : String) → any_of (is_for j) c.added ≡ is_added (get j old) (get j new)
    pub removed : (j : String) → any_of (is_for j) c.removed ≡ is_removed (get j old) (get j new)
    pub other_versions :
        (j : String)
        → any_of (is_for j) c.version_changed ≡ has_other_versions (get j old) (get j new)
    pub other_licences :
        (j : String)
        → any_of (is_for j) c.licence_changed ≡ has_other_licences (get j old) (get j new)
    pub unchanged :
        c.unchanged ≡ count_where (λ k. is_unchanged (get k old) (get k new)) (all_keys old new)

  pub compare_groups-IsComparison : IsComparison (compare_groups old new)
  unfolding compare_groups
  compare_groups-IsComparison = record {
    added = compare_groups-Collects (λ c. c.added) is_added added-Collects refl refl;
    removed = compare_groups-Collects (λ c. c.removed) is_removed removed-Collects refl refl;
    other_versions =
        compare_groups-Collects (λ c. c.version_changed) has_other_versions versions-Collects refl
          refl;
    other_licences =
        compare_groups-Collects (λ c. c.licence_changed) has_other_licences licences-Collects refl
          refl;
    unchanged = omega (
      arith,
      compare_keys-unchanged (sort_by str_lt (all_keys old new)) no_changes,
      count_where-sort_by str_lt (at is_unchanged) (all_keys old new),
    );
  }
