-- ===== src/Tokens/Table.antt =====
-- The table of tokens over any sequence of calls: its unique columns, and the active names.
use bare_binary_analysis.Prelude.{
  String, any_of, ℕ, Bool, List, ◌≡◌, false, none, true, ◌||◌, ◌∷◌, [], arith, not, ◌++◌, ◌==◌, ◌⊎◌,
  any_of-append, refl, some, ◌&&◌, eq_iff, string_eq, Bool-cases, Option, inl, inr, strip,
}
use bare_binary_analysis.Tokens.{
  TokenDb, ApiToken, TokenResult, first_where, TokenRequest, clashes, create_token, refused,
  update_first, done, is_unrevoked, revoke_token, is_active_name, verify_token,
  ensure_bootstrap_token, create_unnamed, revoke_found, verify_found, create_at, mark_revoked,
  insert_token, is_active, has_hash, mark_used, MintedToken, bootstrap_request, created_row,
  new_token, some_minted, TokenError, integrity_error, minted_of, no_name, tokens_exist,
}

-- Two rows of the table may not share an id or a hash, nor a name while both are unrevoked.
unfoldable pub collides : (String → String) → ApiToken → ApiToken → Bool
collides sha256 t u = clashes sha256 t u || (t.name == u.name && is_unrevoked t && is_unrevoked u)

unfoldable pub is_valid_table : (String → String) → List ApiToken → Bool
unfolding collides
is_valid_table sha256 [] = true
is_valid_table sha256 (t ∷ ts) = not (any_of (collides sha256 t) ts) && is_valid_table sha256 ts

-- What a caller may ask for, with the moment at which it does.
pub data Command : Type 0 where
  create : ℕ → TokenRequest → Command
  revoke : ℕ → String → String → Command
  verify : ℕ → String → Command
  bootstrap : ℕ → String → String → Command

abbrev pub db_of : {A : Type 0} → TokenDb → TokenResult (A × TokenDb) → TokenDb
db_of db (refused e) = db
db_of db (done (a, db')) = db'

str_beq_comm : (a b : String) → (a == b) ≡ (b == a)
str_beq_comm a b = ground (arith, eq_iff a b, eq_iff b a)

pub first_where-none :
    (test : ApiToken → Bool) (ts : List ApiToken)
    → first_where test ts ≡ none
    → any_of test ts ≡ false
unfolding first_where any_of
first_where-none test [] h = refl
first_where-none test (t ∷ ts) h = ground (arith, first_where-none test ts)

pub first_where-append :
    (test : ApiToken → Bool) (ts : List ApiToken) (t : ApiToken)
    → any_of test ts ≡ false
    → test t ≡ true
    → first_where test (ts ++ t ∷ []) ≡ some t
unfolding first_where any_of
first_where-append test [] t h e = ground arith
first_where-append test (u ∷ ts) t h e = ground (arith, first_where-append test ts t)

pub any_of_mono :
    (p q : ApiToken → Bool) (ts : List ApiToken)
    → ((t : ApiToken) → p t ≡ true → q t ≡ true)
    → any_of q ts ≡ false
    → any_of p ts ≡ false
unfolding any_of
any_of_mono p q [] h e = refl
any_of_mono p q (t ∷ ts) h e = ground (arith, h t, any_of_mono p q ts h)

module _ (sha256 : String → String) where
  unfoldable pub run_command : Command → TokenDb → TokenDb
  run_command (create now q) db = db_of db (create_token sha256 now q db)
  run_command (revoke now identifier actor) db = db_of db (revoke_token now identifier actor db)
  run_command (verify now plaintext) db = (verify_token sha256 now plaintext db).1
  run_command (bootstrap now entropy id) db =
      db_of db (ensure_bootstrap_token sha256 now entropy id db)

  unfoldable pub run_commands : List Command → TokenDb → TokenDb
  run_commands [] db = db
  run_commands (c ∷ cs) db = run_commands cs (run_command c db)

  collides-new :
      (t u : ApiToken)
      → clashes sha256 t u ≡ false
      → is_active_name t.name u ≡ false
      → collides sha256 u t ≡ false
  unfolding collides clashes
  collides-new t u c a =
      rw (str_beq_comm t.id u.id, str_beq_comm t.token_hash u.token_hash) (ground arith)

  is_valid_table-append :
      (ts : List ApiToken) (t : ApiToken)
      → is_valid_table sha256 ts ≡ true
      → any_of (clashes sha256 t) ts ≡ false
      → any_of (is_active_name t.name) ts ≡ false
      → is_valid_table sha256 (ts ++ t ∷ []) ≡ true
  unfolding is_valid_table any_of
  is_valid_table-append [] t h c a = refl
  is_valid_table-append (u ∷ ts) t h c a =
      rw (any_of-append (collides sha256 u) ts (t ∷ []))
        (ground (arith, collides-new t u, is_valid_table-append ts t))

  -- A change of the first row that keeps the unique columns, and revokes at most.
  abbrev pub HarmlessAt : ApiToken → ApiToken → Type 0
  HarmlessAt t t' =
      (t'.id ≡ t.id)
      × (t'.token_hash ≡ t.token_hash)
      × (t'.name ≡ t.name)
      × ((is_unrevoked t' ≡ false) ⊎ (is_unrevoked t' ≡ is_unrevoked t))

  abbrev pub Harmless : (ApiToken → ApiToken) → Type 0
  Harmless change = (t : ApiToken) → HarmlessAt t (change t)

  collides-change :
      (u t t' : ApiToken)
      → HarmlessAt t t'
      → collides sha256 u t ≡ false
      → collides sha256 u t' ≡ false
  unfolding collides clashes
  collides-change u t t' (i, h, n, r) c =
      let c' : (t.id == u.id || t.token_hash == u.token_hash)
            || (u.name == t.name && is_unrevoked u && is_unrevoked t)
          ≡ false =
        c in
      rw (i, h, n) (ground (arith, c', r))

  change-collides :
      (t t' u : ApiToken)
      → HarmlessAt t t'
      → collides sha256 t' u ≡ true
      → collides sha256 t u ≡ true
  unfolding collides clashes
  change-collides t t' u (i, h, n, r) c =
      let c' : (u.id == t.id || u.token_hash == t.token_hash)
            || (t.name == u.name && is_unrevoked t' && is_unrevoked u)
          ≡ true =
        rw (i, h, n) at c in
      ground (arith, c', r)

  any_of-update_first :
      (u : ApiToken) (test : ApiToken → Bool) (change : ApiToken → ApiToken) (ts : List ApiToken)
      → Harmless change
      → any_of (collides sha256 u) ts ≡ false
      → any_of (collides sha256 u) (update_first test change ts) ≡ false
  unfolding any_of update_first
  any_of-update_first u test change [] k h = refl
  any_of-update_first u test change (t ∷ ts) k h =
      ground (arith, collides-change u t (change t) (k t), any_of-update_first u test change ts k)

  is_valid_table-update_first :
      (test : ApiToken → Bool) (change : ApiToken → ApiToken) (ts : List ApiToken)
      → Harmless change
      → is_valid_table sha256 ts ≡ true
      → is_valid_table sha256 (update_first test change ts) ≡ true
  unfolding is_valid_table update_first
  is_valid_table-update_first test change [] k h = refl
  is_valid_table-update_first test change (t ∷ ts) k h = ground (
    arith,
    any_of-update_first t test change ts k,
    any_of_mono (collides sha256 (change t)) (collides sha256 t) ts
        (λ u. change-collides t (change t) u (k t)),
    is_valid_table-update_first test change ts k,
  )

  abbrev pub with_token : TokenDb → ApiToken → TokenDb
  with_token db t = record {
    tokens = db.tokens ++ t ∷ [];
    audit = db.audit ++ created_row sha256 t ∷ [];
  }

  -- A call of `create_token` adds a row with a free id, a free hash and a name that is not active.
  abbrev pub Created : ℕ → TokenRequest → TokenDb → TokenResult (MintedToken × TokenDb) → Type 0
  Created now q db result =
      (expires_at : Option ℕ) × (result
        ≡ done (
          minted_of sha256 q (new_token sha256 now q expires_at),
          with_token db (new_token sha256 now q expires_at),
        ))
      × (any_of (clashes sha256 (new_token sha256 now q expires_at)) db.tokens ≡ false)
      × (any_of (is_active_name (strip q.name)) db.tokens ≡ false)

  abbrev pub Refused : TokenResult (MintedToken × TokenDb) → Type 0
  Refused result = (e : TokenError) × (result ≡ refused e)

  create_at-cases :
      (now : ℕ) (q : TokenRequest) (expires : TokenResult (Option ℕ)) (db : TokenDb)
      → any_of (is_active_name (strip q.name)) db.tokens ≡ false
      → Refused (create_at sha256 now q expires db)
        ⊎ Created now q db (create_at sha256 now q expires db)
  unfolding create_at insert_token
  create_at-cases now q (refused e) db a = inl (e, refl)
  create_at-cases now q (done expires_at) db a =
      elim (Bool-cases (any_of (clashes sha256 (new_token sha256 now q expires_at)) db.tokens)) [
        | inl e ↦ inl (integrity_error, rw e refl)
        | inr e ↦ inr (expires_at, rw e refl, e, a)
      ]

  create_unnamed-cases :
      (now : ℕ) (q : TokenRequest) (found : Option ApiToken) (db : TokenDb)
      → first_where (is_active_name (strip q.name)) db.tokens ≡ found
      → Refused (create_unnamed sha256 now q found db)
        ⊎ Created now q db (create_unnamed sha256 now q found db)
  unfolding create_unnamed
  create_unnamed-cases now q (some t) db h = inl (_, refl)
  create_unnamed-cases now q none db h = create_at-cases now q _ db (first_where-none _ db.tokens h)

  pub create_token-cases :
      (now : ℕ) (q : TokenRequest) (db : TokenDb)
      → Refused (create_token sha256 now q db) ⊎ Created now q db (create_token sha256 now q db)
  unfolding create_token
  create_token-cases now q db = elim (Bool-cases (strip q.name == "")) [
    | inl e ↦ inl (no_name, rw e refl)
    | inr e ↦ rw e (create_unnamed-cases now q _ db refl)
  ]

  create_token-is_valid :
      (now : ℕ) (q : TokenRequest) (db : TokenDb)
      → is_valid_table sha256 db.tokens ≡ true
      → is_valid_table sha256 (db_of db (create_token sha256 now q db)).tokens ≡ true
  unfolding new_token
  create_token-is_valid now q db h = elim (create_token-cases now q db) [
    | inl (e, r) ↦ rw r h
    | inr (expires_at, r, c, a) ↦
        rw r (is_valid_table-append db.tokens (new_token sha256 now q expires_at) h c a)
  ]

  verify_found-is_valid :
      (now : ℕ) (plaintext : String) (found : Option ApiToken) (db : TokenDb)
      → is_valid_table sha256 db.tokens ≡ true
      → is_valid_table sha256 (verify_found sha256 now plaintext found db).1.tokens ≡ true
  unfolding verify_found
  verify_found-is_valid now plaintext none db h = h
  verify_found-is_valid now plaintext (some t) db h = elim (Bool-cases (is_active t now)) [
    | inl e ↦ rw e (
        is_valid_table-update_first (has_hash sha256 plaintext) (mark_used sha256 now) db.tokens
          (λ u. (refl, refl, refl, inr refl)) h)
    | inr e ↦ rw e h
  ]

  revoke_found-is_valid :
      (now : ℕ) (identifier actor : String) (found : Option ApiToken) (db : TokenDb)
      → is_valid_table sha256 db.tokens ≡ true
      → is_valid_table sha256 (db_of db (revoke_found now identifier actor found db)).tokens ≡ true
  unfolding revoke_found mark_revoked
  revoke_found-is_valid now identifier actor none db h = h
  revoke_found-is_valid now identifier actor (some t) db h = elim (Bool-cases (is_unrevoked t)) [
    | inl e ↦ rw e (
        is_valid_table-update_first (λ u. u.id == t.id) (mark_revoked now) db.tokens
          (λ u. (refl, refl, refl, inl refl)) h)
    | inr e ↦ rw e h
  ]

  revoke_token-is_valid :
      (now : ℕ) (identifier actor : String) (db : TokenDb)
      → is_valid_table sha256 db.tokens ≡ true
      → is_valid_table sha256 (db_of db (revoke_token now identifier actor db)).tokens ≡ true
  unfolding revoke_token
  revoke_token-is_valid now identifier actor db h =
      revoke_found-is_valid now identifier actor _ db h

  verify_token-is_valid :
      (now : ℕ) (plaintext : String) (db : TokenDb)
      → is_valid_table sha256 db.tokens ≡ true
      → is_valid_table sha256 (verify_token sha256 now plaintext db).1.tokens ≡ true
  unfolding verify_token
  verify_token-is_valid now plaintext db h = elim (Bool-cases (plaintext == "")) [
    | inl e ↦ rw e h
    | inr e ↦ rw e (verify_found-is_valid now plaintext _ db h)
  ]

  some_minted-db :
      (db : TokenDb) (result : TokenResult (MintedToken × TokenDb))
      → db_of db (some_minted sha256 result) ≡ db_of db result
  unfolding some_minted
  some_minted-db db (refused e) = refl
  some_minted-db db (done (minted, db')) = refl

  pub ensure_bootstrap_token-db :
      (now : ℕ) (entropy id : String) (db : TokenDb)
      → (db_of db (ensure_bootstrap_token sha256 now entropy id db) ≡ db)
        ⊎ (db_of db (ensure_bootstrap_token sha256 now entropy id db)
            ≡ db_of db (create_token sha256 now (bootstrap_request sha256 entropy id) db))
  unfolding ensure_bootstrap_token
  ensure_bootstrap_token-db now entropy id db = elim (Bool-cases (tokens_exist sha256 db)) [
    | inl e ↦ inl (rw e refl)
    | inr e ↦ rw e (inr (some_minted-db db _))
  ]

  run_command-is_valid :
      (c : Command) (db : TokenDb)
      → is_valid_table sha256 db.tokens ≡ true
      → is_valid_table sha256 (run_command c db).tokens ≡ true
  unfolding run_command
  run_command-is_valid (create now q) db h = create_token-is_valid now q db h
  run_command-is_valid (revoke now identifier actor) db h =
      revoke_token-is_valid now identifier actor db h
  run_command-is_valid (verify now plaintext) db h = verify_token-is_valid now plaintext db h
  run_command-is_valid (bootstrap now entropy id) db h =
      elim (ensure_bootstrap_token-db now entropy id db) [
        | inl e ↦ rw e h
        | inr e ↦ rw e (create_token-is_valid now (bootstrap_request sha256 entropy id) db h)
      ]

  -- No sequence of calls gives a table with two rows of the same id or hash, or with two unrevoked
  -- rows of the same name, if there are none in it at the start.
  pub run_commands-is_valid :
      (cs : List Command) (db : TokenDb)
      → is_valid_table sha256 db.tokens ≡ true
      → is_valid_table sha256 (run_commands cs db).tokens ≡ true
  unfolding run_commands
  run_commands-is_valid [] db h = h
  run_commands-is_valid (c ∷ cs) db h = run_commands-is_valid cs _ (run_command-is_valid c db h)
