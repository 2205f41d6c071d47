-- ===== src/Tokens/Samples.antt =====
-- An empty table and one with a token, and the theorems at them.
use bare_binary_analysis.Tokens.Revocation.{revoke_token-verify_token}
use bare_binary_analysis.Tokens.Minted.{
  identity, create_token-verify_token, ensure_bootstrap_token-once,
}
use bare_binary_analysis.Auth.{ci, generate_token, hash_token, redact}
use bare_binary_analysis.Tokens.Table.{
  is_valid_table, with_token, Command, run_commands, create, run_commands-is_valid, verify, revoke,
  collides,
}
use bare_binary_analysis.Prelude.{
  List, String, [], some, ◌≡◌, pos, true, ◌∷◌, refl, none, fstring, take_text, strip, lstrip,
  rstrip, is_space, any_of, after_prefix,
}
use bare_binary_analysis.Tokens.{
  TokenDb, MintedToken, TokenRequest, minted_of, new_token, ensure_bootstrap_token, mark_revoked,
  verify_token, clashes, created_row, done, create_token, revoked_row, create_unnamed, create_at,
  insert_token, first_where, update_first, expiry, is_unexpired, is_active, has_hash, verify_found,
  tokens_exist, some_minted, find_revocable, revoke_found, revoke_token,
}

-- The parameter `sha256` at the identity.
abbrev digest : String → String
digest t = t

abbrev empty : TokenDb
empty = record { tokens = []; audit = [] }

abbrev request : TokenRequest
request = record {
  name = "release pipeline ";
  scope = ci;
  created_by = "ana";
  expires_in_days = some (pos 30);
  entropy = "k1";
  id = "t1";
}

abbrev used : List Command
used =
    create 100 request
    ∷ verify 200 "bare_k1"
    ∷ revoke 300 "release pipeline" "ana"
    ∷ create 400 (record request { entropy = "k2"; id = "t2" })
    ∷ []

run_commands-is_valid_example : is_valid_table digest (run_commands digest used empty).tokens ≡ true
unfolding is_valid_table
run_commands-is_valid_example = run_commands-is_valid digest used empty refl

abbrev minted : MintedToken
minted = minted_of digest request (new_token digest 100 request (some 2_592_100))

abbrev one_token : TokenDb
one_token = with_token digest empty (new_token digest 100 request (some 2_592_100))

program : Unit {0}
unfolding is_valid_table collides clashes create_token create_unnamed create_at insert_token
    new_token created_row minted_of generate_token hash_token redact after_prefix fstring take_text
    strip lstrip rstrip is_space first_where update_first any_of expiry is_unexpired is_active
    has_hash verify_found verify_token tokens_exist ensure_bootstrap_token some_minted
    find_revocable revoke_found revoke_token mark_revoked revoked_row
program = tt

abbrev revoked_table : TokenDb
revoked_table = record {
  tokens = mark_revoked 300 (new_token digest 100 request (some 2_592_100)) ∷ [];
  audit =
      created_row digest (new_token digest 100 request (some 2_592_100))
      ∷ revoked_row "ana" (new_token digest 100 request (some 2_592_100))
      ∷ [];
}

create_token-verify_token_example :
    identity (verify_token digest 2_592_099 "bare_k1" one_token).0 ≡ some ("t1", ci)
unfolding program
create_token-verify_token_example =
    create_token-verify_token digest 100 2_592_099 request empty one_token minted refl refl

revoke_token-verify_token_example :
    (verify_token digest 500 "bare_k1" (run_commands digest used revoked_table)).0 ≡ none
unfolding program
revoke_token-verify_token_example =
    revoke_token-verify_token digest 300 " t1" "ana" one_token revoked_table
      (mark_revoked 300 (new_token digest 100 request (some 2_592_100))) "bare_k1" used 500 refl
      refl refl

ensure_bootstrap_token-once_example :
    ensure_bootstrap_token digest 900 "k9" "t9" (run_commands digest used one_token)
    ≡ done (none, run_commands digest used one_token)
unfolding program
ensure_bootstrap_token-once_example =
    ensure_bootstrap_token-once digest 100 900 "k1" "t1" "k9" "t9" one_token one_token none used
      refl
