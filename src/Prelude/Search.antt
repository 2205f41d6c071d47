-- ===== src/Prelude/Search.antt =====
-- Searching in texts: `startswith`, `endswith`, `in`, `removeprefix` and `replace` of one character.
use Prim.Native.Char.{Char, code}
use Prim.Native.String.{String}
use mathlib.Core.Bool.{Bool, true, false, ◌||◌}
use mathlib.Core.Option.{Option, none, some}
use bare_binary_analysis.Prelude.Tests.{nat_beq, ◌==◌, string_eq, if◌then◌else◌}

-- The text after the prefix, where it starts with it.
unfoldable pub after_prefix : String → String → Option String
after_prefix String.[] s = some s
after_prefix (String.◌∷◌ p ps) String.[] = none
after_prefix (String.◌∷◌ p ps) (String.◌∷◌ c s) =
    let rest = after_prefix ps s in if nat_beq (code p) (code c) then rest else none

is_given : Option String → Bool
is_given none = false
is_given (some s) = true

-- s.startswith(p)
unfoldable pub starts_with : String → String → Bool
unfolding after_prefix is_given
starts_with s p = is_given (after_prefix p s)

-- p in s
unfoldable pub has_part : String → String → Bool
unfolding starts_with
has_part String.[] p = p == ""
has_part (String.◌∷◌ c s) p = starts_with (String.◌∷◌ c s) p || has_part s p

-- s.endswith(p)
unfoldable pub ends_with : String → String → Bool
ends_with String.[] p = p == ""
ends_with (String.◌∷◌ c s) p = String.◌∷◌ c s == p || ends_with s p

-- s.replace(a, b) of one character by another
unfoldable pub replace_char : Char → Char → String → String
replace_char a b String.[] = ""
replace_char a b (String.◌∷◌ c s) =
    let rest = replace_char a b s in
    if nat_beq (code c) (code a) then String.◌∷◌ b rest else String.◌∷◌ c rest

-- text.removeprefix(p) with the outcome of `after_prefix`
abbrev pub or_whole : Option String → String → String
or_whole none whole = whole
or_whole (some rest) whole = rest
