-- ===== src/Correlator/Coverage.antt =====
-- No evidence is lost between the analyzers and the findings.
use bare_binary_analysis.Correlator.Model.{first_at, FindingLocation, Rule, Finding, location_place}
use bare_binary_analysis.Prelude.{
  List, String, any_of, string_eq, pair_eq, option_eq, nat_eq, Option, contains, Bool, ℕ, ◌&&◌,
  ◌||◌, ◌≡◌, true, ◌==◌, map, string_eq, ◌++◌, ◌∷◌, [], any_of_mono, arith, any_of-append,
  Bool-cases, ◌∙◌, any_of-map, inl, subst, inr, refl, sym, ap, Dict, get, some,
}

-- The pack has the rule, and it is enabled.
unfoldable pub has_rule : List Rule → String → Bool
has_rule pack rule_id = any_of (λ r. r.enabled && r.id == rule_id) pack

abbrev pub Known : Dict String Rule → String → Type 0
Known rules rule_id = (rule : Rule) × (get rule_id rules ≡ some rule)

-- A location of the finding with this id, at the place.
unfoldable pub is_location : String → String × Option ℕ → FindingLocation → Bool
is_location finding_id place l = l.finding_id == finding_id && location_place l == place

-- A finding of the rule with a location at the place.
unfoldable pub has_location : String → String × Option ℕ → List FindingLocation → Finding → Bool
has_location rule_id place ls f = f.rule_id == rule_id && any_of (is_location f.id place) ls

-- Some finding of the rule has a location at the place.
unfoldable pub is_reported : String → String × Option ℕ → List Finding → List FindingLocation → Bool
is_reported rule_id place fs ls = any_of (has_location rule_id place ls) fs

module _ (rule_id : String) (place : String × Option ℕ) where
  pub is_reported-append :
      (fs fs' : List Finding) (ls ls' : List FindingLocation)
      → is_reported rule_id place fs ls ≡ true
      → is_reported rule_id place (fs ++ fs') (ls ++ ls') ≡ true
  unfolding is_reported has_location
  is_reported-append fs fs' ls ls' h =
      let more =
        any_of_mono (has_location rule_id place ls) (has_location rule_id place (ls ++ ls')) fs
          (λ f k. ground (arith, any_of-append (is_location f.id place) ls ls', k)) h in
      ground (arith, any_of-append (has_location rule_id place (ls ++ ls')) fs fs', more)

  pub is_reported-appended :
      (fs fs' : List Finding) (ls ls' : List FindingLocation)
      → is_reported rule_id place fs' ls' ≡ true
      → is_reported rule_id place (fs ++ fs') (ls ++ ls') ≡ true
  unfolding is_reported has_location
  is_reported-appended fs fs' ls ls' h =
      let more =
        any_of_mono (has_location rule_id place ls') (has_location rule_id place (ls ++ ls')) fs'
          (λ f k. ground (arith, any_of-append (is_location f.id place) ls ls', k)) h in
      ground (arith, any_of-append (has_location rule_id place (ls ++ ls')) fs fs', more)

-- One finding alone, of the rule and with a location at the place.
pub is_reported-one :
    (rule_id : String) (place : String × Option ℕ) (f : Finding) (ls : List FindingLocation)
    → f.rule_id ≡ rule_id
    → any_of (is_location f.id place) ls ≡ true
    → is_reported rule_id place (f ∷ []) ls ≡ true
unfolding is_reported has_location any_of
is_reported-one rule_id place f ls h k =
    let same : (f.rule_id == rule_id) ≡ true = (string_eq.beq_iff f.rule_id rule_id).1 h in
    rw (same, k) refl

pub has_location-parts :
    (rule_id : String) (place : String × Option ℕ) (ls : List FindingLocation) (f : Finding)
    → has_location rule_id place ls f ≡ true
    → (f.rule_id ≡ rule_id) × (any_of (is_location f.id place) ls ≡ true)
unfolding has_location
has_location-parts rule_id place ls f h =
    ((string_eq.beq_iff f.rule_id rule_id).0 (ground arith), ground arith)

pub is_location-place :
    (id : String) (place : String × Option ℕ) (l : FindingLocation)
    → is_location id place l ≡ true
    → (location_place l == place) ≡ true
unfolding is_location
is_location-place id place l h = ground arith

or-known : (a b c : Bool) → (b ≡ true → a ≡ true) → (a || c) ≡ (a || (b || c))
or-known a b c f = ground (arith, f)

or-shift : (a b c d : Bool) → ((b || a) || c) ≡ ((b || a) || d) → (a || (b || c)) ≡ (a || (b || d))
or-shift a b c d h = ground arith

-- The places that are dropped are among those seen.
first_at-place {ℓ} :
    {A : Type ℓ} (place : A → String × Option ℕ) (p : String × Option ℕ)
    (seen : List (String × Option ℕ)) (xs : List A)
    → (contains seen p || any_of (λ x. place x == p) (first_at place seen xs))
      ≡ (contains seen p || any_of (λ x. place x == p) xs)
unfolding first_at any_of contains
first_at-place place p seen [] = refl
first_at-place place p seen (x ∷ xs) = elim (Bool-cases (contains seen (place x))) [
  | inl t ↦
      let known : (place x == p) ≡ true → contains seen p ≡ true =
        λ q. subst (λ i. contains seen i ≡ true) ((pair_eq.beq_iff (place x) p).0 q) t in
      rw (t, first_at-place place p seen xs)
        (or-known (contains seen p) (place x == p) (any_of (λ y. place y == p) xs) known)
  | inr t ↦ rw t (
      or-shift (contains seen p) (place x == p)
        (any_of (λ y. place y == p) (first_at place (place x ∷ seen) xs))
        (any_of (λ y. place y == p) xs) (first_at-place place p (place x ∷ seen) xs))
]

is_location-at :
    (l : FindingLocation) (id : String) (p q : String × Option ℕ)
    → l.finding_id ≡ id
    → location_place l ≡ q
    → (q == p) ≡ true
    → is_location id p l ≡ true
unfolding is_location
is_location-at l id p q f g k =
    let same : (l.finding_id == id) ≡ true = (string_eq.beq_iff l.finding_id id).1 f in
    let there : (location_place l == p) ≡ true = subst (λ r. (r == p) ≡ true) (sym g) k in
    ap (λ b. b && (location_place l == p)) same ∙ there

-- Locations made at the places of a list are at those places, under the finding's id.
pub any_of-placed {ℓ} :
    {A : Type ℓ} (place : A → String × Option ℕ) (make : A → FindingLocation) (id : String)
    (p : String × Option ℕ) (xs : List A)
    → ((x : A) → (make x).finding_id ≡ id)
    → ((x : A) → location_place (make x) ≡ place x)
    → any_of (λ x. place x == p) xs ≡ true
    → any_of (is_location id p) (map make (first_at place [] xs)) ≡ true
unfolding any_of contains
any_of-placed place make id p xs f g h =
    let kept : any_of (λ x. place x == p) (first_at place [] xs) ≡ true =
      first_at-place place p [] xs ∙ h in
    any_of-map (is_location id p) make (first_at place [] xs)
    ∙ any_of_mono (λ x. place x == p) (λ x. is_location id p (make x)) (first_at place [] xs)
        (λ x k. is_location-at (make x) id p (place x) (f x) (g x) k) kept
