-- ===== src/SbomDiff.antt =====
-- reporting/sbom_diff.py: what changed between two builds, as told by their SBOMs. A set is the
-- list of its elements, without repetition.
pub mod Loop
pub mod Render
use bare_binary_analysis.Prelude.{
  ok, err, ◌>>=◌, null, obj, arr, string, nil, cons, string_eq, Bool, Fields, Items, List, Option,
  String, Value, Dict, Result, [], all_of, field_or, if◌then◌else◌, none, some, strip, truthy, ℕ,
  ◌==◌, ◌∷◌, contains, false, fstring, is_true, nat_beq, py_str, starts_with, ◌++◌, ◌+◌, ◌||◌, get,
  show, ◌&&◌, put,
}
use Prim.Native.String
use Prim.Native.Char.{Char, code}

pub data SbomDiffError : Type 0 where
  sbom_diff_error : String → SbomDiffError
  type_error : SbomDiffError

pub record ComponentChange : Type 0 where
  pub key : String
  pub name : String
  pub before : List String
  pub after : List String

pub record SbomDiff : Type 0 where
  pub before_label : String
  pub after_label : String
  pub added : List ComponentChange
  pub removed : List ComponentChange
  pub version_changed : List ComponentChange
  pub licence_changed : List ComponentChange
  pub unchanged : ℕ
  pub incomplete : List String

pub has_changes : SbomDiff → Bool
has_changes d =
    truthy d.added || truthy d.removed || truthy d.version_changed || truthy d.licence_changed

-- `_Group`
pub record Group : Type 0 where
  pub name : String
  pub versions : List String
  pub licences : List String

-- s.add(x)
add_text : String → List String → List String
add_text x xs = if contains xs x then xs else xs ++ x ∷ []

add_texts : List String → List String → List String
add_texts [] xs = xs
add_texts (y ∷ ys) xs = add_texts ys (add_text y xs)

-- a == b
pub same_set : List String → List String → Bool
same_set a b = all_of (contains b) a && all_of (contains a) b

-- The text before the character, and the text after it if it is there.
cut : Char → String → String × Option String
cut c String.[] = ("", none)
cut c (String.◌∷◌ x s) =
    let rest = cut c s in
    if nat_beq (code x) (code c) then ("", some s) else (String.◌∷◌ x rest.0, rest.1)

-- s.rpartition(c), without the separator: the head is `none` if the character is not there.
last_cut : Char → String → Option String × String
last_cut c String.[] = (none, "")
last_cut c (String.◌∷◌ x s) =
    let (head, tail) = last_cut c s in
    elim head [
      | some before ↦ (some (String.◌∷◌ x before), tail)
      | none ↦ if nat_beq (code x) (code c) then (some "", tail) else (none, String.◌∷◌ x tail)
    ]

-- v or w
or_else : String → String → String
or_else s t = if s == "" then t else s

-- `str(d.get(key) or "")`
given_text : String → Fields → String
given_text key fs = let v = field_or key null fs in if is_true v then py_str v else ""

given_head : Option String → String
given_head none = ""
given_head (some head) = head

after_at : Option String → String
after_at none = ""
after_at (some version) = version

-- The key and the version of a Package URL, whose version the component's own one precedes.
purl_identity : String → String → String × String
purl_identity purl version =
    let base = (cut "?" (cut "#" purl).0).0 in
    let (head, last) = last_cut "/" base in
    let (tail, purl_version) = cut "@" last in
    (
      if given_head head == "" then tail else fstring (given_head head ∷ "/" ∷ tail ∷ []),
      or_else version (after_at purl_version),
    )

is_purl : Value → Option String
is_purl (string s) = if starts_with s "pkg:" then some s else none
is_purl v = none

named_identity : String → String → String → Result SbomDiffError (String × String)
named_identity group name version =
    if name == ""
    then err (sbom_diff_error "a component has neither a purl nor a name")
    else ok (
      if group == ""
          then fstring ("name:" ∷ name ∷ [])
          else fstring ("name:" ∷ group ∷ "/" ∷ name ∷ []),
      version,
    )

pub identity : Fields → Result SbomDiffError (String × String)
identity component =
    let name = strip (py_str (field_or "name" (string "") component)) in
    let version = strip (given_text "version" component) in
    elim (is_purl (field_or "purl" null component)) [
      | some purl ↦ ok (purl_identity purl version)
      | none ↦ named_identity (strip (py_str (field_or "group" (string "") component))) name version
    ]

-- What a loop over `v or []` goes through; of a text or a mapping it gets texts only.
looped : Value → Result SbomDiffError Items
looped (arr xs) = ok xs
looped (string s) = ok nil
looped (obj fs) = ok nil
looped v = if is_true v then err type_error else ok nil

text_in : Value → List String
text_in (string s) = strip s ∷ []
text_in v = []

licence_value : Value → List String
licence_value (obj fs) =
    let id = field_or "id" null fs in text_in (if is_true id then id else field_or "name" null fs)
licence_value v = []

entry_licences : Value → List String
entry_licences (obj fs) =
    text_in (field_or "expression" null fs) ++ licence_value (field_or "license" null fs)
entry_licences v = []

all_licences : Items → List String
all_licences nil = []
all_licences (cons v rest) = entry_licences v ++ all_licences rest

-- `_licences`
licences : Fields → Result SbomDiffError (List String)
licences component = looped (field_or "licenses" null component) >>= λ xs. ok (all_licences xs)

group_or : Option Group → String → Group
group_or none name = record { name = name; versions = []; licences = [] }
group_or (some g) name = g

-- The body of the loop of `_groups`, for a component that is a mapping.
add_component : Fields → Dict String Group → Result SbomDiffError (Dict String Group)
add_component component groups = do
  identified ← identity component
  found ← licences component
  let key = identified.0
  let name = or_else (py_str (field_or "name" (string "") component)) key
  let g = group_or (get key groups) name
  ok (
      put key
        (record g {
          versions = add_text identified.1 g.versions;
          licences = add_texts found g.licences;
        })
        groups)

add_components : String → ℕ → Items → Dict String Group → Result SbomDiffError (Dict String Group)
add_components which index nil groups = ok groups
add_components which index (cons (obj component) rest) groups =
    add_component component groups >>= add_components which (index + 1) rest
add_components which index (cons v rest) groups = err (
    sbom_diff_error (
      fstring
        ("the " ∷ which ∷ " document's components[" ∷ show index ∷ "] is not an object" ∷ [])))

component_items : String → Value → Result SbomDiffError Items
component_items which null = ok nil
component_items which (arr xs) = ok xs
component_items which v =
    err (sbom_diff_error (fstring ("the " ∷ which ∷ " document's 'components' is not a list" ∷ [])))

is_cyclonedx : Value → Bool
is_cyclonedx (string s) = s == "CycloneDX"
is_cyclonedx v = false

pub document_fields : Value → String → Result SbomDiffError Fields
document_fields (obj fs) which =
    if is_cyclonedx (field_or "bomFormat" null fs)
    then ok fs
    else err (sbom_diff_error (fstring ("the " ∷ which ∷ " document is not a CycloneDX SBOM" ∷ [])))
document_fields v which =
    err (sbom_diff_error (fstring ("the " ∷ which ∷ " document is not a CycloneDX SBOM" ∷ [])))

-- `_groups`
pub groups_of : Value → String → Result SbomDiffError (Dict String Group)
groups_of document which = do
  fs ← document_fields document which
  components ← component_items which (field_or "components" (arr nil) fs)
  add_components which 0 components []
