-- ===== src/Tokens/Revocation.antt =====
-- A call of `revoke_token` kills a token for good.
use bare_binary_analysis.Auth.{hash_token}
use bare_binary_analysis.Tokens.Table.{
  is_valid_table, Harmless, db_of, run_commands, Command, run_command, create, create_token-cases,
  revoke, verify, bootstrap, ensure_bootstrap_token-db,
}
use bare_binary_analysis.Tokens.Revoked.{
  is_row, IsDead, any_of-kept, hash_is, any_of-lost, no_common, update_first-live, is_live,
  IsDead-append, first_where-live,
}
use bare_binary_analysis.Prelude.{
  Bool, List, String, Option, any_of, ◌≡◌, some, true, ℕ, arith, none, ◌∷◌, Bool-cases, inl, eq_iff,
  inr, [], refl, sym, ◌==◌, ◌∙◌, string_eq, subst, Option-cases, any_of-sort_by,
}
use bare_binary_analysis.Tokens.{
  TokenDb, ApiToken, find_revocable, first_where, refused, revoke_found, mark_revoked, done,
  or_else, is_unrevoked, update_first, TokenError, TokenRequest, revoke_token, verify_found,
  verify_token, create_token, has_hash, is_active, mark_used, new_token, bootstrap_request,
}

first_where-is_row :
    (test : ApiToken → Bool) (ts : List ApiToken) (t : ApiToken)
    → first_where test ts ≡ some t
    → any_of (is_row t) ts ≡ true
unfolding first_where any_of
first_where-is_row test [] t h = absurd (ground arith)
first_where-is_row test (u ∷ ts) t h = elim (Bool-cases (test u)) [
  | inl e ↦
      let same : some u ≡ some t = rw e at h in
      let u≡t : u ≡ t = ground arith in
      rw u≡t (ground (arith, eq_iff t.id t.id, eq_iff t.token_hash t.token_hash))
  | inr e ↦ let later = first_where-is_row test ts t (rw e at h) in ground arith
]

has_hash_of :
    (t : ApiToken) (ts : List ApiToken)
    → any_of (is_row t) ts ≡ true
    → any_of (hash_is t.token_hash) ts ≡ true
has_hash_of t ts h = elim (Bool-cases (any_of (hash_is t.token_hash) ts)) [
  | inl e ↦ e
  | inr e ↦ absurd (no_common (is_row t) (hash_is t.token_hash) ts (λ u k. ground arith) h e)
]

or_else-is_row :
    (ts : List ApiToken) (t : ApiToken) (a b : Option ApiToken)
    → (a ≡ some t → any_of (is_row t) ts ≡ true)
    → (b ≡ some t → any_of (is_row t) ts ≡ true)
    → or_else a b ≡ some t
    → any_of (is_row t) ts ≡ true
or_else-is_row ts t none b k l h = l h
or_else-is_row ts t (some u) b k l h = k h

find_revocable-is_row :
    (key : String) (ts : List ApiToken) (t : ApiToken)
    → find_revocable key ts ≡ some t
    → any_of (is_row t) ts ≡ true
unfolding find_revocable
find_revocable-is_row key ts t h =
    or_else-is_row ts t _ _ (first_where-is_row _ ts t)
      (or_else-is_row ts t _ _ (first_where-is_row _ ts t)
        (λ e. (sym (any_of-sort_by _ (is_row t) ts)) ∙ first_where-is_row _ _ t e))
      h

pub done-inj : {A : Type 0} (x y : A × TokenDb) → done x ≡ done y → (x.0 ≡ y.0) × (x.1 ≡ y.1)
done-inj x y h =
    let same : x ≡ y = ground arith in
    (subst (λ p. x.0 ≡ p.0) same refl, subst (λ p. x.1 ≡ p.1) same refl)

pub refused-done : {A : Type 0} (e : TokenError) (x : A × TokenDb) → refused e ≡ done x → ⊥
refused-done e x h = ground arith

module _ (sha256 : String → String) where
  -- The hash of the row that was revoked is dead in the new table.
  revoke_found-IsDead :
      (now : ℕ) (identifier actor : String) (found : Option ApiToken) (db db' : TokenDb)
      (r : ApiToken)
      → is_valid_table sha256 db.tokens ≡ true
      → ((t : ApiToken) → found ≡ some t → any_of (is_row t) db.tokens ≡ true)
      → revoke_found now identifier actor found db ≡ done (r, db')
      → IsDead r.token_hash db'.tokens
  unfolding revoke_found mark_revoked
  revoke_found-IsDead now identifier actor none db db' r v k h = absurd (ground arith)
  revoke_found-IsDead now identifier actor (some t) db db' r v k h =
      elim (Bool-cases (is_unrevoked t)) [
        | inl e ↦
            let (r≡, db≡) = done-inj _ _ (rw e at h) in
            let row = k t refl in
            rw (← r≡, ← db≡)
              (
                any_of-kept (hash_is t.token_hash) (λ u. u.id == t.id) (mark_revoked now) db.tokens
                      (λ u. refl)
                    ∙ has_hash_of t db.tokens row,
                update_first-live sha256 now t db.tokens v row,
              )
        | inr e ↦ absurd (refused-done _ _ (rw e at h))
      ]

  IsDead-update_first :
      (hash : String) (test : ApiToken → Bool) (change : ApiToken → ApiToken) (ts : List ApiToken)
      → Harmless sha256 change
      → IsDead hash ts
      → IsDead hash (update_first test change ts)
  IsDead-update_first hash test change ts k (has, live) = (
    any_of-kept (hash_is hash) test change ts (λ u. rw (k u).1 refl) ∙ has,
    any_of-lost (is_live hash) test change ts
        (λ u h. let (i, same, n, r) = k u in rw same (ground (arith, r))) live,
  )

  create_token-IsDead :
      (hash : String) (now : ℕ) (q : TokenRequest) (db : TokenDb)
      → IsDead hash db.tokens
      → IsDead hash (db_of db (create_token sha256 now q db)).tokens
  create_token-IsDead hash now q db d = elim (create_token-cases sha256 now q db) [
    | inl (e, r) ↦ rw r d
    | inr (expires_at, r, c, a) ↦
        rw r (IsDead-append sha256 hash (new_token sha256 now q expires_at) db.tokens d c)
  ]

  revoke_found-keeps :
      (hash : String) (now : ℕ) (identifier actor : String) (found : Option ApiToken) (db : TokenDb)
      → IsDead hash db.tokens
      → IsDead hash (db_of db (revoke_found now identifier actor found db)).tokens
  unfolding revoke_found mark_revoked
  revoke_found-keeps hash now identifier actor none db d = d
  revoke_found-keeps hash now identifier actor (some t) db d = elim (Bool-cases (is_unrevoked t)) [
    | inl e ↦ rw e (
        IsDead-update_first hash (λ u. u.id == t.id) (mark_revoked now) db.tokens
          (λ u. (refl, refl, refl, inl refl)) d)
    | inr e ↦ rw e d
  ]

  verify_found-keeps :
      (hash : String) (now : ℕ) (plaintext : String) (found : Option ApiToken) (db : TokenDb)
      → IsDead hash db.tokens
      → IsDead hash (verify_found sha256 now plaintext found db).1.tokens
  unfolding verify_found
  verify_found-keeps hash now plaintext none db d = d
  verify_found-keeps hash now plaintext (some t) db d = elim (Bool-cases (is_active t now)) [
    | inl e ↦ rw e (
        IsDead-update_first hash (has_hash sha256 plaintext) (mark_used sha256 now) db.tokens
          (λ u. (refl, refl, refl, inr refl)) d)
    | inr e ↦ rw e d
  ]

  verify_token-keeps :
      (hash : String) (now : ℕ) (plaintext : String) (db : TokenDb)
      → IsDead hash db.tokens
      → IsDead hash (verify_token sha256 now plaintext db).1.tokens
  unfolding verify_token
  verify_token-keeps hash now plaintext db d = elim (Bool-cases (plaintext == "")) [
    | inl e ↦ rw e d
    | inr e ↦ rw e (verify_found-keeps hash now plaintext _ db d)
  ]

  run_commands-IsDead :
      (hash : String) (cs : List Command) (db : TokenDb)
      → IsDead hash db.tokens
      → IsDead hash (run_commands sha256 cs db).tokens
  unfolding run_commands run_command revoke_token
  run_commands-IsDead hash [] db d = d
  run_commands-IsDead hash (create now q ∷ cs) db d =
      run_commands-IsDead hash cs _ (create_token-IsDead hash now q db d)
  run_commands-IsDead hash (revoke now identifier actor ∷ cs) db d =
      run_commands-IsDead hash cs _ (revoke_found-keeps hash now identifier actor _ db d)
  run_commands-IsDead hash (verify now plaintext ∷ cs) db d =
      run_commands-IsDead hash cs _ (verify_token-keeps hash now plaintext db d)
  run_commands-IsDead hash (bootstrap now entropy id ∷ cs) db d =
      run_commands-IsDead hash cs _ (elim (ensure_bootstrap_token-db sha256 now entropy id db) [
        | inl e ↦ rw e d
        | inr e ↦ rw e (create_token-IsDead hash now (bootstrap_request sha256 entropy id) db d)
      ])

  verify_token-dead :
      (now : ℕ) (plaintext : String) (db : TokenDb)
      → IsDead (hash_token sha256 plaintext) db.tokens
      → (verify_token sha256 now plaintext db).0 ≡ none
  unfolding verify_token verify_found has_hash is_active
  verify_token-dead now plaintext db (has, live) = elim (Bool-cases (plaintext == "")) [
    | inl e ↦ rw e refl
    | inr e ↦ elim (Option-cases (first_where (has_hash sha256 plaintext) db.tokens)) [
      | inl none_found ↦ rw (e, none_found) refl
      | inr (t, found) ↦
          let revoked = first_where-live _ db.tokens t live found in rw (e, found, revoked) refl
    ]
  ]

  -- After a successful `revoke_token` on a table without collisions, the plaintext of the token is
  -- refused at every later moment, whatever calls come in between.
  pub revoke_token-verify_token :
      (now : ℕ) (identifier actor : String) (db db' : TokenDb) (r : ApiToken) (plaintext : String)
      (cs : List Command) (later : ℕ)
      → is_valid_table sha256 db.tokens ≡ true
      → revoke_token now identifier actor db ≡ done (r, db')
      → r.token_hash ≡ hash_token sha256 plaintext
      → (verify_token sha256 later plaintext (run_commands sha256 cs db')).0 ≡ none
  unfolding revoke_token
  revoke_token-verify_token now identifier actor db db' r plaintext cs later v h same =
      let dead : IsDead r.token_hash db'.tokens =
        revoke_found-IsDead now identifier actor _ db db' r v
          (λ t e. find_revocable-is_row _ db.tokens t e) h in
      verify_token-dead later plaintext _ (
        subst (λ k. IsDead k (run_commands sha256 cs db').tokens) same
          (run_commands-IsDead r.token_hash cs db' dead))
