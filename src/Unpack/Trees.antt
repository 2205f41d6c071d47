-- ===== src/Unpack/Trees.antt =====
-- Archives in archives, and the theorems of the walk at them.
use bare_binary_analysis.Unpack.Budget.{
  reserve, check_depth, note, is_exhausted, bytes_remaining, files_remaining, files_message,
  bytes_message,
}
use bare_binary_analysis.Unpack.Detect.{
  is_container, container_value, should_unpack, detected, bytes_of, magic_table, zip_family,
  extension_only, from_little, last_suffix, ends_in_dot, suffix, or_container, of_family,
  match_magic, detect,
}
use bare_binary_analysis.Unpack.Extractor.{
  Ending, extract_tree, on_listing, extract_zip, extract_tar, extract_one, child_node, add_node,
  continue, visit_child, visit_children, exceeded_message, failed_message, on_outcome, open_file,
  on_depth, walk,
}
use bare_binary_analysis.Unpack.Budget.Caps.{IsValid}
use bare_binary_analysis.Unpack.Paths.{
  is_under, split_slash, without_last, resolve, lstrip_slash, without_drive, safe_join, last_part,
  safe_chars, slugify, file_name, relative_to,
}
use bare_binary_analysis.Unpack.Walks.{
  is_out_of_fuel, extract_tree-terminates, extract_tree-confined, extract_tree-IsValid,
}
use Prim.Native.Char.{Char, code}
use bare_binary_analysis.Unpack.Members.{
  ok, raised, no_more, contents, Tools, Entry, Extraction, ExtractedNode, add_error, write, charge,
  on_member, and_then, reserve_member, visit_member, visit_members,
}
use bare_binary_analysis.Prelude.{
  string_eq, list_eq, nat_eq, true, false, none, some, get, put, refl, Bool, List, String, ℕ,
  is_prefix, leb, length, ◌∷◌, ◌≡◌, [], if◌then◌else◌, ◌&&◌, ◌≤◌, All, ◌==◌, arith, contains, take,
  drop, fstring, join, show, take_text, lower, starts_with, ends_with, after_prefix, replace_char,
}

-- Sixteen bytes and more with the signature of a zip, told apart by one byte.
abbrev archive : ℕ → List ℕ
archive n = 0x50 ∷ 0x4b ∷ 3 ∷ 4 ∷ n ∷ 0 ∷ 0 ∷ 0 ∷ 0 ∷ 0 ∷ 0 ∷ 0 ∷ 0 ∷ 0 ∷ 0 ∷ 0 ∷ []

abbrev member : String → List ℕ → Entry
member name bytes = record {
  name = name;
  is_file = true;
  size = length bytes;
  content = contents bytes;
}

-- Two installers that each hold an `app.zip` with a `config` of its own.
listing : List ℕ → List Entry
listing bytes =
    if bytes == archive 1
    then member "one.zip" (archive 2)
      ∷ member "../../etc/passwd" (archive 9)
      ∷ member "two.zip" (archive 3)
      ∷ []
    else if bytes == archive 2
    then member "app.zip" (archive 4) ∷ []
    else if bytes == archive 3
    then member "app.zip" (archive 5) ∷ []
    else if bytes == archive 4
    then member "config" (1 ∷ []) ∷ []
    else if bytes == archive 5
    then member "config" (2 ∷ []) ∷ []
    else []

is_ascii_letter : Char → Bool
is_ascii_letter c = leb 97 (code c) && leb (code c) 122

abbrev tools : Tools
tools = record {
  open_zip = λ bytes. ok (listing bytes);
  is_tar = λ bytes. false;
  open_tar = λ bytes. raised "not a tar";
  gunzip = λ bytes. raised "not a gzip";
  asar_directory = λ bytes. ok no_more;
  seven_zip = none;
  unsquashfs = none;
  is_alpha = is_ascii_letter;
  is_alnum = is_ascii_letter;
}

abbrev fresh : ℕ → Extraction
fresh max_files = record {
  disk = ("in" ∷ "setup.zip" ∷ [], archive 1) ∷ [];
  budget = record {
    max_depth = 3;
    max_files = max_files;
    max_total_bytes = 1000;
    files_written = 0;
    bytes_written = 0;
    exceeded = [];
  };
  nodes = [];
  errors = [];
}

abbrev run : ℕ → Ending × Extraction
run max_files =
    extract_tree tools ("out" ∷ []) ("in" ∷ "setup.zip" ∷ []) "setup.zip" (fresh max_files)

paths_of : List ExtractedNode → List String
paths_of [] = []
paths_of (n ∷ ns) = n.relative_path ∷ paths_of ns

program : Unit {0}
unfolding is_container container_value should_unpack detected bytes_of magic_table zip_family
    extension_only from_little last_suffix ends_in_dot suffix or_container of_family match_magic
    detect split_slash without_last resolve lstrip_slash without_drive safe_join last_part
    safe_chars slugify is_under file_name relative_to add_error write charge on_member and_then
    reserve_member visit_member visit_members on_listing extract_zip extract_tar extract_one
    child_node add_node continue visit_child visit_children exceeded_message failed_message
    on_outcome open_file on_depth walk extract_tree reserve check_depth note is_exhausted
    bytes_remaining files_remaining files_message bytes_message contains listing is_ascii_letter get
    put take drop is_prefix fstring join show take_text lower starts_with ends_with after_prefix
    replace_char paths_of
program = tt

-- The directory of an archive's files goes by its depth and its own name, so that two nodes name
-- one `config`, which the second `app.zip` wrote over.
same_directory :
    paths_of (run 10).1.nodes
    ≡ "d0_setup.zip/one.zip" ∷ "d1_one.zip/app.zip" ∷ "d2_app.zip/config" ∷ "d0_setup.zip/two.zip"
      ∷ "d1_two.zip/app.zip" ∷ "d2_app.zip/config" ∷ []
unfolding program
same_directory = refl

overwritten : get ("out" ∷ "d2_app.zip" ∷ "config" ∷ []) (run 10).1.disk ≡ some (2 ∷ [])
unfolding program
overwritten = refl

refused_path : (run 10).1.errors ≡ "refused path-traversing zip entry '../../etc/passwd'" ∷ []
unfolding program
refused_path = refl

stopped : length (run 2).1.nodes ≡ 2
unfolding program
stopped = refl

extract_tree-terminates_example : is_out_of_fuel (run 10).0 ≡ false
extract_tree-terminates_example =
    extract_tree-terminates tools ("out" ∷ []) ("in" ∷ "setup.zip" ∷ []) "setup.zip" (fresh 10)

extract_tree-confined_example :
    get ("in" ∷ "setup.zip" ∷ []) (run 10).1.disk ≡ get ("in" ∷ "setup.zip" ∷ []) (fresh 10).disk
unfolding is_under is_prefix
extract_tree-confined_example =
    extract_tree-confined tools ("out" ∷ []) ("in" ∷ "setup.zip" ∷ []) "setup.zip" (fresh 10)
      ("in" ∷ "setup.zip" ∷ []) refl

extract_tree-IsValid_example :
    IsValid (run 2).1.budget
    × (length (run 2).1.nodes ≤ (run 2).1.budget.files_written)
    × All (λ n. n.depth ≤ 4) (run 2).1.nodes
extract_tree-IsValid_example =
    extract_tree-IsValid tools ("out" ∷ []) ("in" ∷ "setup.zip" ∷ []) "setup.zip" (fresh 2)
      (record { files_fit = omega arith; bytes_fit = omega arith }) refl
