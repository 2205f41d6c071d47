-- ===== src/Prelude/Text.antt =====
-- The parts of Python's `str` that the source uses.
use Prim.Native.Nat.{ℕ, zero, suc, ◌-◌, ◌/◌, ◌%◌, Ordering}
use Prim.Native.Char.{code}
use Prim.Native.String.{String, compare, char_at}
use Prim.Native.String
use mathlib.Core.Bool.{Bool, true, false, ◌&&◌, ◌||◌}
use mathlib.Core.List.{List, [], ◌∷◌}
use bare_binary_analysis.Prelude.Tests.{ltb, leb, nat_beq, ◌==◌, string_eq, if◌then◌else◌}
use bare_binary_analysis.Prelude.Int.{ℤ, pos, negsuc}

-- The pieces of an f-string, in order.
unfoldable pub fstring : List String → String
fstring [] = ""
fstring (s ∷ ss) = String.◌++◌ s (fstring ss)

-- sep.join(ss)
unfoldable pub join : String → List String → String
join sep [] = ""
join sep (s ∷ []) = s
join sep (s ∷ t ∷ ss) = String.◌++◌ s (String.◌++◌ sep (join sep (t ∷ ss)))

-- Python compares texts by code points.
abbrev pub str_lt : String → String → Bool
str_lt a b = elim (compare a b) [ Ordering.lt ↦ true | _ ↦ false ]

-- s[:n]
unfoldable pub take_text : ℕ → String → String
take_text zero s = ""
take_text (suc n) String.[] = ""
take_text (suc n) (String.◌∷◌ c s) = String.◌∷◌ c (take_text n s)

show_digits : ℕ → ℕ → String → String
show_digits zero n acc = acc
show_digits (suc fuel) n acc =
    let out = String.◌∷◌ (char_at "0123456789" (n % 10)) acc in
    let rest = show_digits fuel (n / 10) out in if ltb n 10 then out else rest

-- str(n); a number below 10 ^ (n + 1) has at most n + 1 digits.
unfoldable pub show : ℕ → String
unfolding show_digits
show n = show_digits (suc n) n ""

unfoldable pub show_ℤ : ℤ → String
unfolding show
show_ℤ (pos n) = show n
show_ℤ (negsuc n) = String.◌++◌ "-" (show (suc n))

-- The characters for which `str.isspace` holds, which `str.strip` removes.
unfoldable pub is_space : ℕ → Bool
is_space c =
    (leb 9 c && leb c 13)
    || (leb 28 c && leb c 32)
    || nat_beq c 133
    || nat_beq c 160
    || nat_beq c 5760
    || (leb 8192 c && leb c 8202)
    || nat_beq c 8232
    || nat_beq c 8233
    || nat_beq c 8239
    || nat_beq c 8287
    || nat_beq c 12288

unfoldable pub lstrip : String → String
unfolding is_space
lstrip String.[] = ""
lstrip (String.◌∷◌ c s) = let rest = lstrip s in if is_space (code c) then rest else String.◌∷◌ c s

unfoldable pub rstrip : String → String
unfolding is_space
rstrip String.[] = ""
rstrip (String.◌∷◌ c s) =
    let rest = rstrip s in if rest == "" && is_space (code c) then "" else String.◌∷◌ c rest

unfoldable pub strip : String → String
unfolding lstrip rstrip
strip s = rstrip (lstrip s)

-- `str.lower` on the ASCII letters. The source compares the result with texts that no letter
-- outside ASCII is lowered into, so the tests agree with Python's on every text.
unfoldable pub lower : String → String
lower String.[] = ""
lower (String.◌∷◌ c s) =
    String.◌∷◌
      (if leb 65 (code c) && leb (code c) 90
        then char_at "abcdefghijklmnopqrstuvwxyz" (code c - 65)
        else c)
      (lower s)
