-- ===== src/Tokens/Minted.antt =====
-- A minted token works, and the bootstrap token is minted once.
use bare_binary_analysis.Tokens.Revocation.{done-inj, refused-done}
use bare_binary_analysis.Tokens.Table.{
  any_of_mono, with_token, create_token-cases, first_where-append, run_commands, Command, db_of,
  run_command, create, revoke, verify, bootstrap, ensure_bootstrap_token-db,
}
use bare_binary_analysis.Auth.{Scope, generate_token, token_prefix_text}
use bare_binary_analysis.Prelude.{
  Option, String, List, any_of, fstring, some, none, ℕ, ◌==◌, ◌≡◌, false, string_eq, arith, refl,
  true, ◌++◌, ◌∷◌, [], Bool-cases, Bool, eq_iff, inl, inr, truthy, sym, truthy-append, ◌∙◌,
}
use text.Mathlib.TextLemmas.{append-eq-nil_iff}
use bare_binary_analysis.Tokens.{
  TokenDb, ApiToken, clashes, minted_of, verify_token, new_token, verify_found, has_hash,
  TokenRequest, is_active, MintedToken, is_unexpired, create_token, done, first_where,
  ensure_bootstrap_token, revoke_found, some_minted, tokens_exist, update_first, TokenResult,
  is_unrevoked, mark_used, refused, revoke_token, mark_revoked, bootstrap_request,
}

-- Whom a presented token identifies.
abbrev pub identity : Option ApiToken → Option (String × Scope)
identity none = none
identity (some t) = some (t.id, t.scope)

clashes-hash :
    (sha256 : String → String) (t : ApiToken) (ts : List ApiToken)
    → any_of (clashes sha256 t) ts ≡ false
    → any_of (λ u. u.token_hash == t.token_hash) ts ≡ false
unfolding clashes
clashes-hash sha256 t ts h = any_of_mono _ (clashes sha256 t) ts (λ u k. ground arith) h

module _ (sha256 : String → String) where
  prefix_not_empty : (token_prefix_text == "") ≡ false
  prefix_not_empty = refl

  token_not_empty : (entropy : String) → (generate_token entropy == "") ≡ false
  unfolding generate_token fstring
  token_not_empty entropy = elim (Bool-cases (generate_token entropy == "")) [
    | inl e ↦
        let no : token_prefix_text ≡ "" = ((append-eq-nil_iff).0 ((eq_iff _ _).0 e)).0 in
        let empty : (token_prefix_text == "") ≡ true = (eq_iff _ _).1 no in
        absurd (ground (arith, prefix_not_empty))
    | inr e ↦ e
  ]

  verify_new :
      (now later : ℕ) (q : TokenRequest) (expires_at : Option ℕ) (db : TokenDb)
      → any_of (clashes sha256 (new_token sha256 now q expires_at)) db.tokens ≡ false
      → is_unexpired expires_at later ≡ true
      → identity
          (verify_token sha256 later
            (generate_token q.entropy)
            (with_token sha256 db (new_token sha256 now q expires_at))).0
        ≡ some (q.id, q.scope)
  unfolding verify_token verify_found has_hash is_active new_token
  verify_new now later q expires_at db c u =
      let t = new_token sha256 now q expires_at in
      let fresh = clashes-hash sha256 t db.tokens c in
      let found : first_where (has_hash sha256 (generate_token q.entropy)) (db.tokens ++ t ∷ [])
          ≡ some t =
        first_where-append (has_hash sha256 (generate_token q.entropy)) db.tokens t fresh
          (ground (arith, eq_iff t.token_hash t.token_hash)) in
      rw (token_not_empty q.entropy, found, u) refl

  -- If `create_token` succeeds, then the plaintext that it returns is accepted in the new table at
  -- every moment before the expiry that it reports, as the token with the id and the scope that it
  -- reports.
  pub create_token-verify_token :
      (now later : ℕ) (q : TokenRequest) (db db' : TokenDb) (minted : MintedToken)
      → create_token sha256 now q db ≡ done (minted, db')
      → is_unexpired minted.expires_at later ≡ true
      → identity (verify_token sha256 later minted.token db').0
        ≡ some (minted.record_id, minted.scope)
  unfolding minted_of new_token
  create_token-verify_token now later q db db' minted h u =
      elim (create_token-cases sha256 now q db) [
        | inl (e, r) ↦ absurd (refused-done e _ (sym r ∙ h))
        | inr (expires_at, r, c, a) ↦
            let (m≡, db≡) = done-inj _ _ (sym r ∙ h) in
            let v : is_unexpired expires_at later ≡ true = rw (← m≡) at u in
            rw (← m≡, ← db≡) (verify_new now later q expires_at db c v)
      ]

  truthy-update_first :
      (test : ApiToken → Bool) (change : ApiToken → ApiToken) (ts : List ApiToken)
      → truthy (update_first test change ts) ≡ truthy ts
  unfolding update_first
  truthy-update_first test change [] = refl
  truthy-update_first test change (t ∷ ts) = ground arith

  created-exist :
      (now : ℕ) (q : TokenRequest) (db db' : TokenDb) (minted : MintedToken)
      → create_token sha256 now q db ≡ done (minted, db')
      → tokens_exist sha256 db' ≡ true
  unfolding tokens_exist
  created-exist now q db db' minted h = elim (create_token-cases sha256 now q db) [
    | inl (e, r) ↦ absurd (refused-done e _ (sym r ∙ h))
    | inr (expires_at, r, c, a) ↦
        let (m≡, db≡) = done-inj _ _ (sym r ∙ h) in
        rw (← db≡)
          (rw (truthy-append db.tokens (new_token sha256 now q expires_at ∷ [])) (ground arith))
  ]

  create_token-exist :
      (now : ℕ) (q : TokenRequest) (db : TokenDb)
      → tokens_exist sha256 db ≡ true
      → tokens_exist sha256 (db_of db (create_token sha256 now q db)) ≡ true
  unfolding tokens_exist
  create_token-exist now q db h = elim (create_token-cases sha256 now q db) [
    | inl (e, r) ↦ rw r h
    | inr (expires_at, r, c, a) ↦
        rw r (rw (truthy-append db.tokens (new_token sha256 now q expires_at ∷ []), h) refl)
  ]

  revoke_found-exist :
      (now : ℕ) (identifier actor : String) (found : Option ApiToken) (db : TokenDb)
      → tokens_exist sha256 db ≡ true
      → tokens_exist sha256 (db_of db (revoke_found now identifier actor found db)) ≡ true
  unfolding revoke_found tokens_exist
  revoke_found-exist now identifier actor none db h = h
  revoke_found-exist now identifier actor (some t) db h = elim (Bool-cases (is_unrevoked t)) [
    | inl e ↦ rw e (truthy-update_first (λ u. u.id == t.id) (mark_revoked now) db.tokens ∙ h)
    | inr e ↦ rw e h
  ]

  verify_found-exist :
      (now : ℕ) (plaintext : String) (found : Option ApiToken) (db : TokenDb)
      → tokens_exist sha256 db ≡ true
      → tokens_exist sha256 (verify_found sha256 now plaintext found db).1 ≡ true
  unfolding verify_found tokens_exist
  verify_found-exist now plaintext none db h = h
  verify_found-exist now plaintext (some t) db h = elim (Bool-cases (is_active t now)) [
    | inl e ↦
        rw e (truthy-update_first (has_hash sha256 plaintext) (mark_used sha256 now) db.tokens ∙ h)
    | inr e ↦ rw e h
  ]

  verify_token-exist :
      (now : ℕ) (plaintext : String) (db : TokenDb)
      → tokens_exist sha256 db ≡ true
      → tokens_exist sha256 (verify_token sha256 now plaintext db).1 ≡ true
  unfolding verify_token
  verify_token-exist now plaintext db h = elim (Bool-cases (plaintext == "")) [
    | inl e ↦ rw e h
    | inr e ↦ rw e (verify_found-exist now plaintext _ db h)
  ]

  run_commands-exist :
      (cs : List Command) (db : TokenDb)
      → tokens_exist sha256 db ≡ true
      → tokens_exist sha256 (run_commands sha256 cs db) ≡ true
  unfolding run_commands run_command revoke_token
  run_commands-exist [] db h = h
  run_commands-exist (create now q ∷ cs) db h =
      run_commands-exist cs _ (create_token-exist now q db h)
  run_commands-exist (revoke now identifier actor ∷ cs) db h =
      run_commands-exist cs _ (revoke_found-exist now identifier actor _ db h)
  run_commands-exist (verify now plaintext ∷ cs) db h =
      run_commands-exist cs _ (verify_token-exist now plaintext db h)
  run_commands-exist (bootstrap now entropy id ∷ cs) db h =
      run_commands-exist cs _ (elim (ensure_bootstrap_token-db sha256 now entropy id db) [
        | inl e ↦ rw e h
        | inr e ↦ rw e (create_token-exist now (bootstrap_request sha256 entropy id) db h)
      ])

  some_minted-exist :
      (result : TokenResult (MintedToken × TokenDb)) (o : Option MintedToken) (db' : TokenDb)
      → ((m : MintedToken) (d : TokenDb) → result ≡ done (m, d) → tokens_exist sha256 d ≡ true)
      → some_minted sha256 result ≡ done (o, db')
      → tokens_exist sha256 db' ≡ true
  unfolding some_minted
  some_minted-exist (refused e) o db' k h = absurd (refused-done e _ h)
  some_minted-exist (done (m, d)) o db' k h =
      let (o≡, db≡) = done-inj _ _ h in rw (← db≡) (k m d refl)

  -- After a call of `ensure_bootstrap_token` that succeeds, no later call of it mints a token or
  -- changes the table, whatever calls come in between.
  pub ensure_bootstrap_token-once :
      (now later : ℕ) (entropy id entropy' id' : String) (db db' : TokenDb)
      (minted : Option MintedToken) (cs : List Command)
      → ensure_bootstrap_token sha256 now entropy id db ≡ done (minted, db')
      → ensure_bootstrap_token sha256 later entropy' id' (run_commands sha256 cs db')
        ≡ done (none, run_commands sha256 cs db')
  unfolding ensure_bootstrap_token
  ensure_bootstrap_token-once now later entropy id entropy' id' db db' minted cs h =
      let start : tokens_exist sha256 db' ≡ true = elim (Bool-cases (tokens_exist sha256 db)) [
        | inl e ↦ let (o≡, db≡) = done-inj _ _ (rw e at h) in rw (← db≡) e
        | inr e ↦ some_minted-exist _ minted db' (λ m d. created-exist now _ db d m) (rw e at h)
      ] in
      rw (run_commands-exist cs db' start) refl
