-- ===== src/Tokens/Revoked.antt =====
-- A revoked token stays dead.
use bare_binary_analysis.Tokens.Table.{is_valid_table, any_of_mono, collides}
use bare_binary_analysis.Prelude.{
  Bool, String, any_of, List, ◌==◌, string_eq, ◌&&◌, ◌≡◌, false, true, ◌∷◌, arith, eq_iff, some,
  ◌++◌, Bool-cases, [], inl, refl, inr, any_of-append, ℕ,
}
use bare_binary_analysis.Tokens.{
  ApiToken, first_where, clashes, update_first, is_unrevoked, mark_revoked,
}

abbrev pub hash_is : String → ApiToken → Bool
hash_is hash t = t.token_hash == hash

abbrev pub is_live : String → ApiToken → Bool
is_live hash t = t.token_hash == hash && is_unrevoked t

-- The row has the id and the hash of `t`.
abbrev pub is_row : ApiToken → ApiToken → Bool
is_row t u = u.id == t.id && u.token_hash == t.token_hash

-- A row has the hash, and no row with the hash is unrevoked.
abbrev pub IsDead : String → List ApiToken → Type 0
IsDead hash ts = (any_of (hash_is hash) ts ≡ true) × (any_of (is_live hash) ts ≡ false)

pub first_where-live :
    (hash : String) (ts : List ApiToken) (t : ApiToken)
    → any_of (is_live hash) ts ≡ false
    → first_where (hash_is hash) ts ≡ some t
    → is_unrevoked t ≡ false
unfolding first_where any_of
first_where-live hash [] t h e = absurd (ground arith)
first_where-live hash (u ∷ ts) t h e = elim (Bool-cases (u.token_hash == hash)) [
  | inl s ↦ let same : some u ≡ some t = rw s at e in ground arith
  | inr s ↦ first_where-live hash ts t (ground arith) (rw s at e)
]

pub any_of-kept :
    (p : ApiToken → Bool) (test : ApiToken → Bool) (change : ApiToken → ApiToken)
    (ts : List ApiToken)
    → ((t : ApiToken) → p (change t) ≡ p t)
    → any_of p (update_first test change ts) ≡ any_of p ts
unfolding any_of update_first
any_of-kept p test change [] k = refl
any_of-kept p test change (t ∷ ts) k = ground (arith, k t, any_of-kept p test change ts k)

pub any_of-lost :
    (p : ApiToken → Bool) (test : ApiToken → Bool) (change : ApiToken → ApiToken)
    (ts : List ApiToken)
    → ((t : ApiToken) → p t ≡ false → p (change t) ≡ false)
    → any_of p ts ≡ false
    → any_of p (update_first test change ts) ≡ false
unfolding any_of update_first
any_of-lost p test change [] k h = refl
any_of-lost p test change (t ∷ ts) k h = ground (arith, k t, any_of-lost p test change ts k)

pub no_common :
    (p q : ApiToken → Bool) (ts : List ApiToken)
    → ((t : ApiToken) → p t ≡ true → q t ≡ true)
    → any_of p ts ≡ true
    → any_of q ts ≡ false
    → ⊥
no_common p q ts k h e = let none_p = any_of_mono p q ts k e in ground arith

module _ (sha256 : String → String) where
  same_hash-clashes :
      (t u : ApiToken) (hash : String)
      → (t.token_hash == hash) ≡ true
      → hash_is hash u ≡ true
      → clashes sha256 t u ≡ true
  unfolding clashes
  same_hash-clashes t u hash e k =
      let t≡h : t.token_hash ≡ hash = (eq_iff t.token_hash hash).0 e in rw (t≡h, k) (ground arith)

  pub IsDead-append :
      (hash : String) (t : ApiToken) (ts : List ApiToken)
      → IsDead hash ts
      → any_of (clashes sha256 t) ts ≡ false
      → IsDead hash (ts ++ t ∷ [])
  unfolding any_of
  IsDead-append hash t ts (has, live) c = elim (Bool-cases (t.token_hash == hash)) [
    | inl e ↦ absurd (
        no_common (hash_is hash) (clashes sha256 t) ts (λ u k. same_hash-clashes t u hash e k) has
          c)
    | inr e ↦ (
      rw (any_of-append (hash_is hash) ts (t ∷ []), has) refl,
      rw (any_of-append (is_live hash) ts (t ∷ []), live, e) refl,
    )
  ]

  same_id-collides :
      (t u v : ApiToken) → (u.id == t.id) ≡ true → is_row t v ≡ true → collides sha256 u v ≡ true
  unfolding collides clashes
  same_id-collides t u v e k = ground (arith, eq_iff u.id t.id, eq_iff v.id t.id, eq_iff v.id u.id)

  same_hash-collides :
      (hash : String) (u v : ApiToken)
      → (u.token_hash == hash) ≡ true
      → hash_is hash v ≡ true
      → collides sha256 u v ≡ true
  unfolding collides
  same_hash-collides hash u v e k = rw (same_hash-clashes u v hash e k) refl

  -- Revoking the row of an id leaves no live row with its hash.
  pub update_first-live :
      (now : ℕ) (t : ApiToken) (ts : List ApiToken)
      → is_valid_table sha256 ts ≡ true
      → any_of (is_row t) ts ≡ true
      → any_of (is_live t.token_hash) (update_first (λ u. u.id == t.id) (mark_revoked now) ts)
        ≡ false
  unfolding any_of update_first is_valid_table mark_revoked
  update_first-live now t [] v h = refl
  update_first-live now t (u ∷ ts) v h =
      let fresh : any_of (collides sha256 u) ts ≡ false = ground arith in
      let rest : is_valid_table sha256 ts ≡ true = ground arith in
      elim (Bool-cases (u.id == t.id)) [
        | inl e ↦ elim (Bool-cases (u.token_hash == t.token_hash)) [
          | inl s ↦
              let none_live =
                any_of_mono (is_live t.token_hash) (collides sha256 u) ts
                  (λ w k. same_hash-collides t.token_hash u w s (ground arith)) fresh in
              rw e (ground (arith, none_live))
          | inr s ↦
              let later : any_of (is_row t) ts ≡ true = rw (e, s) at h in
              absurd (
                no_common (is_row t) (collides sha256 u) ts (λ w. same_id-collides t u w e) later
                  fresh)
        ]
        | inr e ↦
            let later : any_of (is_row t) ts ≡ true = rw e at h in
            elim (Bool-cases (u.token_hash == t.token_hash)) [
              | inl s ↦ absurd (
                  no_common (is_row t) (collides sha256 u) ts
                    (λ w k. same_hash-collides t.token_hash u w s (ground arith)) later fresh)
              | inr s ↦ rw (e, s) (update_first-live now t ts rest later)
            ]
      ]
