-- ===== src/Auth.antt =====
-- core/auth.py: scopes, the stored form of a token, and the header that presents one.
use Prim.Native.Char.{code}
use bare_binary_analysis.Prelude.{after_prefix, or_whole}
use bare_binary_analysis.Prelude.{
  Bool, Option, String, is_space, ℕ, fstring, if◌then◌else◌, leb, lstrip, some, strip, lower, none,
  ◌==◌, ◌∷◌, [], string_eq, take_text,
}

pub data Scope : Type 0 where
  ci admin : Scope

pub scope_rank : Scope → ℕ
scope_rank ci = 0
scope_rank admin = 1

-- Whether a token with the first scope may do what needs the second.
unfoldable pub satisfies : Scope → Scope → Bool
unfolding scope_rank
satisfies scope required = leb (scope_rank required) (scope_rank scope)

abbrev pub token_prefix_text : String
token_prefix_text = "bare_"

-- `secrets.token_urlsafe(TOKEN_ENTROPY_BYTES)` is the argument.
unfoldable pub generate_token : String → String
generate_token entropy = fstring (token_prefix_text ∷ entropy ∷ [])

-- SHA-256 of a text, in hexadecimal, is the first argument.
unfoldable pub hash_token : (String → String) → String → String
hash_token sha256 token = sha256 (strip token)

unfoldable pub redact : String → String
unfolding after_prefix
redact token =
    let body = or_whole (after_prefix token_prefix_text token) token in
    if token == "" then "<empty>" else fstring (token_prefix_text ∷ take_text 8 body ∷ "…" ∷ [])

-- `value.split(None, 1)`, of a text without white space around it: the first word, and what
-- follows the white space after it, if there is any.
unfoldable pub split_once : String → String × Option String
unfolding is_space lstrip
split_once String.[] = ("", none)
split_once (String.◌∷◌ c s) =
    let (word, rest) = split_once s in
    if is_space (code c) then ("", some (lstrip s)) else (String.◌∷◌ c word, rest)

-- `text or None`
abbrev pub or_none : String → Option String
or_none text = if text == "" then none else some text

bearer_parts : String × Option String → Option String
bearer_parts (word, some rest) = if lower word == "bearer" then or_none (strip rest) else none
bearer_parts (word, none) = if lower word == "bearer" then none else or_none word

pub parse_bearer : Option String → Option String
parse_bearer none = none
parse_bearer (some header_value) =
    let value = strip header_value in if value == "" then none else bearer_parts (split_once value)
