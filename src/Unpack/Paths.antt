-- ===== src/Unpack/Paths.antt =====
-- core/unpack/extractor.py: paths inside the output directory. A path is the list of its
-- components; no directory on it is a symbolic link.
use Prim.Native.Char.{Char, code}
use bare_binary_analysis.Prelude.{
  string_eq, zero, suc, none, some, Bool, List, String, ℕ, Option, if◌then◌else◌, is_prefix, join,
  suc, take_text, ◌||◌, ◌∷◌, [], drop, fstring, nat_beq, replace_char, ◌==◌, length, show, ◌&&◌,
  ◌++◌, starts_with,
}

-- text.split("/"), with the part read so far.
unfoldable pub split_slash : String → String → List String
split_slash part String.[] = part ∷ []
split_slash part (String.◌∷◌ c s) =
    let next = split_slash "" s in
    let longer = split_slash (fstring (part ∷ String.◌∷◌ c "" ∷ [])) s in
    if nat_beq (code c) 47 then part ∷ next else longer

unfoldable pub without_last : List String → List String
without_last [] = []
without_last (p ∷ []) = []
without_last (p ∷ q ∷ ps) = p ∷ without_last (q ∷ ps)

-- `(base / parts).resolve()`
unfoldable pub resolve : List String → List String → List String
resolve base [] = base
resolve base (p ∷ ps) =
    if p == "" || p == "."
    then resolve base ps
    else if p == ".."
    then resolve (without_last base) ps
    else resolve (base ++ p ∷ []) ps

unfoldable pub lstrip_slash : String → String
lstrip_slash String.[] = ""
lstrip_slash (String.◌∷◌ c s) =
    let rest = lstrip_slash s in if nat_beq (code c) 47 then rest else String.◌∷◌ c s

unfoldable pub without_drive : (Char → Bool) → String → String
without_drive is_alpha (String.◌∷◌ c (String.◌∷◌ d s)) =
    if nat_beq (code d) 58 && is_alpha c then s else String.◌∷◌ c (String.◌∷◌ d s)
without_drive is_alpha s = s

-- `_safe_join`, by `str.isalpha` of one character.
unfoldable pub safe_join : (Char → Bool) → List String → String → Option (List String)
safe_join is_alpha root member =
    let cleaned = lstrip_slash (without_drive is_alpha (replace_char "\\" "/" member)) in
    let candidate = resolve root (split_slash "" cleaned) in
    if cleaned == "" || cleaned == "." || cleaned == ".."
    then none
    else if is_prefix root candidate
    then some candidate
    else none

-- path_in_tree.split(" → ")[-1], with the part read so far and the characters left to skip.
unfoldable pub last_part : ℕ → String → String → String
last_part skip part String.[] = part
last_part (suc skip) part (String.◌∷◌ c s) = last_part skip part s
last_part zero part (String.◌∷◌ c s) =
    let next = last_part 2 "" s in
    let longer = last_part 0 (fstring (part ∷ String.◌∷◌ c "" ∷ [])) s in
    if starts_with (String.◌∷◌ c s) " → " then next else longer

unfoldable pub safe_chars : (Char → Bool) → String → String
safe_chars is_alnum String.[] = ""
safe_chars is_alnum (String.◌∷◌ c s) =
    let kept = is_alnum c || nat_beq (code c) 46 || nat_beq (code c) 95 || nat_beq (code c) 45 in
    String.◌∷◌ (if kept then c else "_") (safe_chars is_alnum s)

-- `_slugify`, by `str.isalnum` of one character.
unfoldable pub slugify : (Char → Bool) → String → ℕ → String
slugify is_alnum path_in_tree depth =
    let safe = take_text 60 (safe_chars is_alnum (last_part 0 "" path_in_tree)) in
    fstring ("d" ∷ show depth ∷ "_" ∷ (if safe == "" then "node" else safe) ∷ [])

-- The path is the directory or below it.
unfoldable pub is_under : List String → List String → Bool
is_under root p = is_prefix root p

unfoldable pub file_name : List String → String
file_name [] = ""
file_name (p ∷ []) = p
file_name (p ∷ q ∷ ps) = file_name (q ∷ ps)

-- `path.relative_to(root).as_posix()`, of a path below the root.
unfoldable pub relative_to : List String → List String → String
relative_to root p = join "/" (drop (length root) p)
