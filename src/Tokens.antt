-- ===== src/Tokens.antt =====
-- core/pipeline/tokens.py: the life of an API token in the database.
pub mod Table
pub mod Revoked
pub mod Revocation
pub mod Minted
mod Samples
use bare_binary_analysis.Prelude.{
  Bool, List, Option, String, ℕ, if◌then◌else◌, none, some, sort_by, strip, true, truthy, ℤ, ◌==◌,
  ◌∷◌, [], any_of, false, ltb, not, pos, string_eq, ◌&&◌, ◌++◌, ◌+◌, ◌||◌, leb, select, suc, ◌*◌,
  negsuc, zero,
}
use bare_binary_analysis.Auth.{Scope, admin, generate_token, hash_token, redact}

-- The table `api_tokens`. Moments are whole seconds.
pub record ApiToken : Type 0 where
  pub id : String
  pub name : String
  pub token_hash : String
  pub token_prefix : String
  pub scope : Scope
  pub created_by : String
  pub created_at : ℕ
  pub expires_at : Option ℕ
  pub revoked_at : Option ℕ
  pub last_used_at : Option ℕ
  pub use_count : ℕ

pub data TokenAction : Type 0 where
  token_created token_revoked : TokenAction

-- Of an audit row, what both actions write; a creation also writes the scope and the expiry.
pub record TokenAudit : Type 0 where
  pub action : TokenAction
  pub actor : String
  pub token_id : String
  pub token_name : String
  pub token_prefix : String

-- The rows in the order in which they were added, which is the order of a query without one.
pub record TokenDb : Type 0 where
  pub tokens : List ApiToken
  pub audit : List TokenAudit

-- One constructor for each message of `TokenError`, with what the message shows, and the
-- database's refusal of a row whose id or hash is there already.
pub data TokenError : Type 0 where
  no_name : TokenError
  name_taken : String → String → TokenError
  bad_expiry : TokenError
  overflow_error : TokenError
  no_match : String → TokenError
  already_revoked : String → TokenError
  integrity_error : TokenError

pub data TokenResult (A : Type 0) : Type 0 where
  refused : TokenError → TokenResult A
  done : A → TokenResult A

pub record MintedToken : Type 0 where
  pub token : String
  pub record_id : String
  pub name : String
  pub scope : Scope
  pub expires_at : Option ℕ

abbrev is_unset : Option ℕ → Bool
is_unset none = true
is_unset (some n) = false

abbrev pub is_unrevoked : ApiToken → Bool
is_unrevoked t = is_unset t.revoked_at

pub is_unexpired : Option ℕ → ℕ → Bool
is_unexpired none now = true
is_unexpired (some at) now = not (leb at now)

pub is_active : ApiToken → ℕ → Bool
is_active t now = if is_unrevoked t then is_unexpired t.expires_at now else false

-- `session.scalars(select(ApiToken).where(...)).first()`
pub first_where : (ApiToken → Bool) → List ApiToken → Option ApiToken
first_where test [] = none
first_where test (t ∷ ts) = if test t then some t else first_where test ts

-- What an assignment to the fields of the row that `first_where` finds does to the table.
pub update_first : (ApiToken → Bool) → (ApiToken → ApiToken) → List ApiToken → List ApiToken
update_first test change [] = []
update_first test change (t ∷ ts) =
    let rest = update_first test change ts in if test t then change t ∷ ts else t ∷ rest

abbrev pub is_active_name : String → ApiToken → Bool
is_active_name label t = t.name == label && is_unrevoked t

-- The first second after the last year of a datetime, 9999, in seconds since 1970.
abbrev end_of_time : ℕ
end_of_time = 253_402_300_800

-- `expires_in_days` as a moment; `refused` where it is not positive, and the OverflowError of
-- `timedelta` or of the sum where it lies past the year 9999.
expiry : ℕ → Option ℤ → TokenResult (Option ℕ)
expiry now none = done none
expiry now (some (pos zero)) = refused bad_expiry
expiry now (some (pos (suc n))) =
    let at = now + suc n * 86400 in
    if ltb at end_of_time then done (some at) else refused overflow_error
expiry now (some (negsuc n)) = refused bad_expiry

-- What the caller of `create_token` gives, with the random text and the new row's id.
pub record TokenRequest : Type 0 where
  pub name : String
  pub scope : Scope
  pub created_by : String
  pub expires_in_days : Option ℤ
  pub entropy : String
  pub id : String

module _ (sha256 : String → String) where
  pub new_token : ℕ → TokenRequest → Option ℕ → ApiToken
  new_token now q expires_at =
      let plaintext = generate_token q.entropy in
      record {
        id = q.id;
        name = strip q.name;
        token_hash = hash_token sha256 plaintext;
        token_prefix = redact plaintext;
        scope = q.scope;
        created_by = q.created_by;
        created_at = now;
        expires_at = expires_at;
        revoked_at = none;
        last_used_at = none;
        use_count = 0;
      }

  pub created_row : ApiToken → TokenAudit
  created_row t = record {
    action = token_created;
    actor = t.created_by;
    token_id = t.id;
    token_name = t.name;
    token_prefix = t.token_prefix;
  }

  pub minted_of : TokenRequest → ApiToken → MintedToken
  minted_of q t = record {
    token = generate_token q.entropy;
    record_id = t.id;
    name = t.name;
    scope = t.scope;
    expires_at = t.expires_at;
  }

  -- The unique columns: the primary key and the hash.
  pub clashes : ApiToken → ApiToken → Bool
  clashes t u = u.id == t.id || u.token_hash == t.token_hash

  -- `session.add` and `flush`, then the audit row.
  insert_token : TokenRequest → ApiToken → TokenDb → TokenResult (MintedToken × TokenDb)
  insert_token q t db =
      if any_of (clashes t) db.tokens
      then refused integrity_error
      else done (
        minted_of q t,
        record { tokens = db.tokens ++ t ∷ []; audit = db.audit ++ created_row t ∷ [] },
      )

  create_at :
      ℕ → TokenRequest → TokenResult (Option ℕ) → TokenDb → TokenResult (MintedToken × TokenDb)
  create_at now q (refused e) db = refused e
  create_at now q (done expires_at) db = insert_token q (new_token now q expires_at) db

  create_unnamed :
      ℕ → TokenRequest → Option ApiToken → TokenDb → TokenResult (MintedToken × TokenDb)
  create_unnamed now q (some existing) db =
      refused (name_taken (strip q.name) existing.token_prefix)
  create_unnamed now q none db = create_at now q (expiry now q.expires_in_days) db

  pub create_token : ℕ → TokenRequest → TokenDb → TokenResult (MintedToken × TokenDb)
  create_token now q db =
      let label = strip q.name in
      if label == ""
      then refused no_name
      else create_unnamed now q (first_where (is_active_name label) db.tokens) db

  abbrev pub mark_used : ℕ → ApiToken → ApiToken
  mark_used now t = record t { last_used_at = some now; use_count = t.use_count + 1 }

  pub has_hash : String → ApiToken → Bool
  has_hash plaintext t = t.token_hash == hash_token sha256 plaintext

  verify_found : ℕ → String → Option ApiToken → TokenDb → Option ApiToken × TokenDb
  verify_found now plaintext none db = (none, db)
  verify_found now plaintext (some t) db =
      if is_active t now
      then (
        some (mark_used now t),
        record db { tokens = update_first (has_hash plaintext) (mark_used now) db.tokens },
      )
      else (none, db)

  pub verify_token : ℕ → String → TokenDb → Option ApiToken × TokenDb
  verify_token now plaintext db =
      if plaintext == ""
      then (none, db)
      else verify_found now plaintext (first_where (has_hash plaintext) db.tokens) db

  pub tokens_exist : TokenDb → Bool
  tokens_exist db = truthy db.tokens

  pub bootstrap_request : String → String → TokenRequest
  bootstrap_request entropy id = record {
    name = "bootstrap";
    scope = admin;
    created_by = "bootstrap";
    expires_in_days = none;
    entropy = entropy;
    id = id;
  }

  -- `done none` where a token exists.
  some_minted : TokenResult (MintedToken × TokenDb) → TokenResult (Option MintedToken × TokenDb)
  some_minted (refused e) = refused e
  some_minted (done (minted, db)) = done (some minted, db)

  pub ensure_bootstrap_token :
      ℕ → String → String → TokenDb → TokenResult (Option MintedToken × TokenDb)
  ensure_bootstrap_token now entropy id db =
      if tokens_exist db
      then done (none, db)
      else some_minted (create_token now (bootstrap_request entropy id) db)

-- The row that `revoke_token` works on: by id, else an unrevoked one by name, else the newest by
-- name.
abbrev or_else : Option ApiToken → Option ApiToken → Option ApiToken
or_else none other = other
or_else (some t) other = some t

pub find_revocable : String → List ApiToken → Option ApiToken
find_revocable key tokens = or_else (first_where (λ t. t.id == key) tokens) (
    or_else (first_where (is_active_name key) tokens)
      (first_where (λ t. t.name == key) (sort_by (λ t u. ltb u.created_at t.created_at) tokens)))

pub revoked_row : String → ApiToken → TokenAudit
revoked_row actor t = record {
  action = token_revoked;
  actor = actor;
  token_id = t.id;
  token_name = t.name;
  token_prefix = t.token_prefix;
}

pub mark_revoked : ℕ → ApiToken → ApiToken
mark_revoked now t = record t { revoked_at = some now }

revoke_found : ℕ → String → String → Option ApiToken → TokenDb → TokenResult (ApiToken × TokenDb)
revoke_found now identifier actor none db = refused (no_match identifier)
revoke_found now identifier actor (some t) db =
    if is_unrevoked t
    then done (
      mark_revoked now t,
      record {
        tokens = update_first (λ u. u.id == t.id) (mark_revoked now) db.tokens;
        audit = db.audit ++ revoked_row actor t ∷ [];
      },
    )
    else refused (already_revoked t.name)

pub revoke_token : ℕ → String → String → TokenDb → TokenResult (ApiToken × TokenDb)
revoke_token now identifier actor db =
    revoke_found now identifier actor (find_revocable (strip identifier) db.tokens) db

pub list_tokens : Bool → TokenDb → List ApiToken
list_tokens include_revoked db =
    let ordered = sort_by (λ t u. ltb t.created_at u.created_at) db.tokens in
    if include_revoked then ordered else select is_unrevoked ordered
