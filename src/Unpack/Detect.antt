-- ===== src/Unpack/Detect.antt =====
-- core/unpack/detect.py: the container format of a file, from its bytes and its name.
use bare_binary_analysis.Prelude.{
  string_eq, nat_eq, none, some, get, take, drop, Bool, Dict, List, String, ℕ, Option, [],
  ends_with, false, if◌then◌else◌, lower, suc, ◌&&◌, ◌*◌, ◌∷◌, is_infix, is_prefix, leb, ltb, max,
  true, ◌++◌, ◌+◌, length, nat_beq, ◌==◌, not, ◌-◌, ◌||◌, zero,
}
use Prim.Native.Char.{code}

pub data Container : Type 0 where
  zip sevenzip tar gzip bzip2 xz rar cab msi iso nsis inno squashfs cpio dmg asar : Container
  pyinstaller jar apk no_container : Container

unfoldable pub is_container : Container → Bool
is_container no_container = false
is_container _ = true

-- The text of the `StrEnum` member.
unfoldable pub container_value : Container → String
container_value zip = "zip"
container_value sevenzip = "7z"
container_value tar = "tar"
container_value gzip = "gzip"
container_value bzip2 = "bzip2"
container_value xz = "xz"
container_value rar = "rar"
container_value cab = "cab"
container_value msi = "msi"
container_value iso = "iso"
container_value nsis = "nsis"
container_value inno = "inno"
container_value squashfs = "squashfs"
container_value cpio = "cpio"
container_value dmg = "dmg"
container_value asar = "asar"
container_value pyinstaller = "pyinstaller"
container_value jar = "jar"
container_value apk = "apk"
container_value no_container = "none"

-- The confidence is in hundredths; the reason is for the log.
pub record Detection : Type 0 where
  pub container : Container
  pub confidence : ℕ

unfoldable pub should_unpack : Detection → Bool
should_unpack d = is_container d.container && leb 50 d.confidence

unfoldable pub detected : Container → ℕ → Detection
detected c n = record { container = c; confidence = n }

-- The bytes of an ASCII text.
unfoldable pub bytes_of : String → List ℕ
bytes_of String.[] = []
bytes_of (String.◌∷◌ c s) = code c ∷ bytes_of s

unfoldable pub magic_table : List (ℕ × List ℕ × Container)
magic_table =
    (0, 0x37 ∷ 0x7a ∷ 0xbc ∷ 0xaf ∷ 0x27 ∷ 0x1c ∷ [], sevenzip)
    ∷ (0, bytes_of "Rar!" ++ 0x1a ∷ 0x07 ∷ [], rar)
    ∷ (0, bytes_of "MSCF", cab)
    ∷ (0, bytes_of "hsqs", squashfs)
    ∷ (0, bytes_of "sqsh", squashfs)
    ∷ (0, 0xfd ∷ bytes_of "7zXZ" ++ 0x00 ∷ [], xz)
    ∷ (0, bytes_of "BZh", bzip2)
    ∷ (0, 0x1f ∷ 0x8b ∷ [], gzip)
    ∷ (0, 0xd0 ∷ 0xcf ∷ 0x11 ∷ 0xe0 ∷ 0xa1 ∷ 0xb1 ∷ 0x1a ∷ 0xe1 ∷ [], msi)
    ∷ (0, bytes_of "070701", cpio)
    ∷ (0, bytes_of "070707", cpio)
    ∷ (257, bytes_of "ustar", tar)
    ∷ (0x8001, bytes_of "CD001", iso)
    ∷ (0, bytes_of "PK" ++ 0x03 ∷ 0x04 ∷ [], zip)
    ∷ (0, bytes_of "PK" ++ 0x05 ∷ 0x06 ∷ [], zip)
    ∷ []

unfoldable pub zip_family : Dict String Container
zip_family =
    (".jar", jar)
    ∷ (".war", jar)
    ∷ (".ear", jar)
    ∷ (".apk", apk)
    ∷ (".aab", apk)
    ∷ (".ipa", zip)
    ∷ (".whl", zip)
    ∷ (".nupkg", zip)
    ∷ (".vsix", zip)
    ∷ (".xpi", zip)
    ∷ (".docx", zip)
    ∷ (".xlsx", zip)
    ∷ (".pptx", zip)
    ∷ (".appx", zip)
    ∷ []

unfoldable pub extension_only : Dict String Container
extension_only =
    (".asar", asar) ∷ (".tgz", gzip) ∷ (".tbz2", bzip2) ∷ (".txz", xz) ∷ (".dmg", dmg) ∷ []

unfoldable pub installer_markers : List (List ℕ × Container)
installer_markers =
    (bytes_of "Nullsoft", nsis)
    ∷ (bytes_of "NullsoftInst", nsis)
    ∷ (bytes_of "Inno Setup", inno)
    ∷ (bytes_of "JR.Inno.Setup", inno)
    ∷ (bytes_of "_MEIPASS", pyinstaller)
    ∷ (bytes_of "MEI" ++ 0x0c ∷ 0x0b ∷ 0x0a ∷ 0x0b ∷ 0x0e ∷ [], pyinstaller)
    ∷ (bytes_of "PyInstaller", pyinstaller)
    ∷ []

abbrev sniff_bytes : ℕ
sniff_bytes = 0x8100

abbrev tail_bytes : ℕ
tail_bytes = 512 * 1024

abbrev overlay_bytes : ℕ
overlay_bytes = 256 * 1024

-- `int.from_bytes(bs, "little")`
unfoldable pub from_little : List ℕ → ℕ
from_little [] = 0
from_little (b ∷ bs) = b + 256 * from_little bs

-- bs[a : a + n]
unfoldable pub slice : ℕ → ℕ → List ℕ → List ℕ
slice a n bs = take n (drop a bs)

-- The end of the raw data of the sections, for so many entries of the table.
unfoldable pub sections_end : ℕ → List ℕ → ℕ → ℕ
sections_end zero table end = end
sections_end (suc count) table end =
    let raw_size = from_little (slice 16 4 table) in
    let raw_offset = from_little (slice 20 4 table) in
    let grown = max end (raw_offset + raw_size) in
    let next = if raw_offset == 0 || raw_size == 0 then end else grown in
    let rest = sections_end count (drop 40 table) next in
    if ltb (length (take 40 table)) 40 then end else rest

-- `_overlay_offset` of a file whose first bytes are `header`.
unfoldable pub overlay_offset : List ℕ → List ℕ → Option ℕ
overlay_offset file header =
    let pe_offset = from_little (slice 0x3c 4 header) in
    let coff = slice pe_offset 24 file in
    let section_count = from_little (slice 6 2 coff) in
    let optional_size = from_little (slice 20 2 coff) in
    let table = slice (pe_offset + 24 + optional_size) (40 * section_count) file in
    let end = sections_end section_count table 0 in
    if ltb (length header) 0x40 || not (is_prefix (bytes_of "MZ") header)
    then none
    else if pe_offset == 0 || ltb (length file) pe_offset
    then none
    else if ltb (length coff) 24 || not (is_prefix (bytes_of "PE" ++ 0 ∷ 0 ∷ []) coff)
    then none
    else if section_count == 0 || ltb 96 section_count
    then none
    else if ltb 0 end && ltb end (length file)
    then some end
    else none

-- `suffix` of a name: from its last dot, unless that is its first or last character. The first
-- argument says whether a character stands before.
unfoldable pub last_suffix : Bool → String → Option String
last_suffix inside String.[] = none
last_suffix inside (String.◌∷◌ c s) =
    let later = last_suffix true s in
    elim later [
      | some t ↦ some t
      | none ↦
          if inside && nat_beq (code c) 46 && not (s == "") then some (String.◌∷◌ c s) else none
    ]

unfoldable pub ends_in_dot : String → Bool
ends_in_dot name = ends_with name "."

unfoldable pub suffix : String → String
suffix name =
    if ends_in_dot name then "" else elim (last_suffix false name) [ none ↦ "" | some t ↦ t ]

unfoldable pub or_container : Option Container → Container → Container
or_container none c = c
or_container (some d) c = d

-- A zip with the extension of a format that is a zip.
unfoldable pub of_family : String → Container → Container
of_family ext zip = or_container (get ext zip_family) zip
of_family ext c = c

-- The loop over the magic numbers.
unfoldable pub match_magic : String → List ℕ → List (ℕ × List ℕ × Container) → Option Detection
match_magic ext head [] = none
match_magic ext head ((offset, magic, c) ∷ rest) =
    let later = match_magic ext head rest in
    if is_prefix magic (drop offset head) then some (detected (of_family ext c) 95) else later

unfoldable pub match_marker : List ℕ → List (List ℕ × Container) → Detection
match_marker haystack [] = detected no_container 90
match_marker haystack ((marker, c) ∷ rest) =
    let later = match_marker haystack rest in
    if is_infix marker haystack then detected c 85 else later

-- The bytes after the first window, and those of the overlay.
unfoldable pub tail_of : List ℕ → List ℕ
tail_of file = if ltb sniff_bytes (length file) then drop (length file - tail_bytes) file else []

unfoldable pub overlay_of : List ℕ → List ℕ → List ℕ
overlay_of file head = elim (overlay_offset file head) [
  | none ↦ []
  | some start ↦ slice start overlay_bytes file
]

-- `detect`, of a file that can be read.
unfoldable pub detect : String → List ℕ → Detection
detect name file =
    let head = take sniff_bytes file in
    let ext = lower (suffix name) in
    if ltb (length file) 16 then detected no_container 100 else elim (get ext extension_only) [
      | some c ↦ detected c 70
      | none ↦ elim (match_magic ext head magic_table) [
        | some d ↦ d
        | none ↦
            if is_prefix (bytes_of "MZ") head
            then match_marker ((head ++ overlay_of file head) ++ tail_of file) installer_markers
            else detected no_container 80
      ]
    ]
