-- ===== src/Unpack/Archives.antt =====
-- Whatever the format, an extraction pays for the files that it writes below its destination.
use bare_binary_analysis.Unpack.Steps.{IsStep-refl, add_error-IsStep}
use bare_binary_analysis.Unpack.Formats.{
  Extends, run_tool-Extends, reserve_member-Extends, visit_members-Extends, skip-Extends,
  safe_join-below, and_then-Extends,
}
use bare_binary_analysis.Unpack.Extractor.{
  extract_asar, extract_gzip, extract_one, on_directory, on_listing, extract_tar, extract_zip,
  extract_with_7z, extract_squashfs, visit_asar, walk_asar, child_of, on_asar_target,
}
use bare_binary_analysis.Unpack.Paths.{is_under, safe_join}
use bare_binary_analysis.Unpack.Detect.{
  zip, jar, apk, tar, gzip, asar, pyinstaller, sevenzip, rar, cab, msi, iso, nsis, xz, bzip2, dmg,
  cpio, inno, squashfs, no_container, Container,
}
use bare_binary_analysis.Unpack.Members.{
  no_more, more, Tools, Extraction, Tried, AsarEntries, Entry, raised, ok, AsarEntry, asar_file,
  add_error, asar_folder, Content,
}
use bare_binary_analysis.Prelude.{
  string_eq, list_eq, nat_eq, true, none, some, refl, List, String, ℕ, ◌≡◌, ◌++◌, ◌∷◌, [],
  Bool-cases, is_prefix_self, inl, ltb, inr, length, arith, take, Option,
}

module _ (root : List String) (deepest : ℕ) (tools : Tools) (destination : List String)
    (below : (p : List String) → is_under destination p ≡ true → is_under root p ≡ true) where
  on_listing-Extends :
      (refusal : String) (st : Extraction) (t : Tried (List Entry))
      → Extends root deepest 0 st (on_listing tools destination refusal st t)
  unfolding on_listing
  on_listing-Extends refusal st (raised message) = (0, IsStep-refl root deepest st, omega arith)
  on_listing-Extends refusal st (ok es) =
      visit_members-Extends root deepest destination below tools.is_alpha refusal es [] st

  in_destination : (name : String) → is_under root (destination ++ name ∷ []) ≡ true
  unfolding is_under
  in_destination name = below (destination ++ name ∷ []) (is_prefix_self destination (name ∷ []))

  extract_gzip-Extends :
      (name : String) (source : List ℕ) (st : Extraction)
      → Extends root deepest 0 st (extract_gzip tools destination name source st)
  unfolding extract_gzip extract_tar
  extract_gzip-Extends name source st = elim (Bool-cases (tools.is_tar source)) [
    | inl e ↦ rw (e, extract_gzip) (on_listing-Extends _ st (tools.open_tar source))
    | inr e ↦
        rw (e, extract_gzip)
          (reserve_member-Extends root deepest _ (destination ++ _ ∷ []) [] _ st (in_destination _))
  ]

  on_asar_target-Extends :
      (child_path : String) (size : ℕ) (content : Content) (done : List (List String))
      (st : Extraction) (o : Option (List String))
      → ((target : List String) → o ≡ some target → is_under root target ≡ true)
      → Extends root deepest
          (length done)
          st
          (on_asar_target tools destination child_path size content done st o)
  unfolding on_asar_target
  on_asar_target-Extends child_path size content done st none h =
      skip-Extends root deepest done st (add_error _ st) (add_error-IsStep root deepest _ st)
  on_asar_target-Extends child_path size content done st (some target) h =
      reserve_member-Extends root deepest size target done content st (h target refl)

  module _ (file : List ℕ) (base_offset : ℕ) where
    mutual
      unfolding visit_asar walk_asar

      visit_asar-Extends :
          (e : AsarEntry) (before : String) (done : List (List String)) (st : Extraction)
          → Extends root deepest
              (length done)
              st
              (visit_asar tools destination file base_offset e before done st)
      visit_asar-Extends (asar_file name size offset) before done st =
          on_asar_target-Extends _ size _ done st
            (safe_join tools.is_alpha destination (child_of before name))
            (safe_join-below root deepest destination below tools.is_alpha (child_of before name))
      visit_asar-Extends (asar_folder name es) before done st =
          walk_asar-Extends es (child_of before name) done st

      walk_asar-Extends :
          (es : AsarEntries) (before : String) (done : List (List String)) (st : Extraction)
          → Extends root deepest
              (length done)
              st
              (walk_asar tools destination file base_offset es before done st)
      walk_asar-Extends no_more before done st =
          skip-Extends root deepest done st st (IsStep-refl root deepest st)
      walk_asar-Extends (more e es) before done st =
          and_then-Extends root deepest (length done) st
            (visit_asar tools destination file base_offset e before done st)
            (walk_asar tools destination file base_offset es before)
            (visit_asar-Extends e before done st) (walk_asar-Extends es before)

  on_directory-Extends :
      (source : List ℕ) (base_offset : ℕ) (st : Extraction) (t : Tried AsarEntries)
      → Extends root deepest 0 st (on_directory tools destination source base_offset st t)
  unfolding on_directory
  on_directory-Extends source base_offset st (raised message) =
      (0, IsStep-refl root deepest st, omega arith)
  on_directory-Extends source base_offset st (ok es) =
      walk_asar-Extends source base_offset es "" [] st

  extract_asar-Extends :
      (source : List ℕ) (st : Extraction)
      → Extends root deepest 0 st (extract_asar tools destination source st)
  unfolding extract_asar
  extract_asar-Extends source st = elim (Bool-cases (ltb (length (take 16 source)) 16)) [
    | inl e ↦ rw (e, extract_asar) (0, IsStep-refl root deepest st, omega arith)
    | inr e ↦ rw (e, extract_asar) (on_directory-Extends source _ st (tools.asar_directory _))
  ]

  -- Every format.
  pub extract_one-Extends :
      (format : Container) (name : String) (source : List ℕ) (st : Extraction)
      → Extends root deepest 0 st (extract_one tools destination format name source st)
  unfolding extract_one extract_zip extract_tar extract_with_7z extract_squashfs
  extract_one-Extends zip name source st = on_listing-Extends _ st (tools.open_zip source)
  extract_one-Extends jar name source st = on_listing-Extends _ st (tools.open_zip source)
  extract_one-Extends apk name source st = on_listing-Extends _ st (tools.open_zip source)
  extract_one-Extends tar name source st = on_listing-Extends _ st (tools.open_tar source)
  extract_one-Extends gzip name source st = extract_gzip-Extends name source st
  extract_one-Extends asar name source st = extract_asar-Extends source st
  extract_one-Extends squashfs name source st =
      run_tool-Extends root deepest destination below _ _ tools.unsquashfs source st
  extract_one-Extends no_container name source st = (0, IsStep-refl root deepest st, omega arith)
  extract_one-Extends sevenzip name source st =
      run_tool-Extends root deepest destination below _ _ tools.seven_zip source st
  extract_one-Extends bzip2 name source st =
      run_tool-Extends root deepest destination below _ _ tools.seven_zip source st
  extract_one-Extends xz name source st =
      run_tool-Extends root deepest destination below _ _ tools.seven_zip source st
  extract_one-Extends rar name source st =
      run_tool-Extends root deepest destination below _ _ tools.seven_zip source st
  extract_one-Extends cab name source st =
      run_tool-Extends root deepest destination below _ _ tools.seven_zip source st
  extract_one-Extends msi name source st =
      run_tool-Extends root deepest destination below _ _ tools.seven_zip source st
  extract_one-Extends iso name source st =
      run_tool-Extends root deepest destination below _ _ tools.seven_zip source st
  extract_one-Extends nsis name source st =
      run_tool-Extends root deepest destination below _ _ tools.seven_zip source st
  extract_one-Extends inno name source st =
      run_tool-Extends root deepest destination below _ _ tools.seven_zip source st
  extract_one-Extends cpio name source st =
      run_tool-Extends root deepest destination below _ _ tools.seven_zip source st
  extract_one-Extends dmg name source st =
      run_tool-Extends root deepest destination below _ _ tools.seven_zip source st
  extract_one-Extends pyinstaller name source st =
      run_tool-Extends root deepest destination below _ _ tools.seven_zip source st
