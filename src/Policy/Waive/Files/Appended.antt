-- ===== src/Policy/Waive/Files/Appended.antt =====
-- What the text of a waiver file is, after an entry was added to it.
use bare_binary_analysis.Policy.Engine.{index_waivers}
use bare_binary_analysis.Policy.Loader.{by_expiry}
use bare_binary_analysis.Policy.Document.{Policy}
use bare_binary_analysis.Policy.Waive.{WaiveError, render_entry}
use bare_binary_analysis.Policy.Waive.Files.{
  check_new, same_waivers, or_empty, waiver_key, append_checked, append_waiver, is_blank, load,
  item_indent, split_lines, prepared,
}
use bare_binary_analysis.Policy.Model.{Waiver}
use bare_binary_analysis.Prelude.{
  arith, ok, err, >>=-eq-ok, nat_eq, string_eq, pair_eq, list_eq, List, String, Result, any_of, map,
  ◌≡◌, Value, true, ◌==◌, false, list_beq_iff, sort_by, ◌∷◌, [], ◌++◌, ap, fstring, refl, length,
  ◌+◌, length-sort_by, subst, ◌∙◌, length-append, All, Bool, Option, if◌then◌else◌, Dict, get, some,
  Bool-cases, any_of-append, eq_iff, inl, All-sort_by, put, any_of-sort_by, get-put, inr,
}

waiver_key-injective : (a b : Waiver) → waiver_key a ≡ waiver_key b → a ≡ b
waiver_key-injective a b h = ground arith

map_key-injective : (xs ys : List Waiver) → map waiver_key xs ≡ map waiver_key ys → xs ≡ ys
map_key-injective [] [] h = refl
map_key-injective [] (y ∷ ys) h = absurd (ground arith)
map_key-injective (x ∷ xs) [] h = absurd (ground arith)
map_key-injective (x ∷ xs) (y ∷ ys) h =
    ground (arith, waiver_key-injective x y, map_key-injective xs ys)

same_waivers→eq : (xs ys : List Waiver) → same_waivers xs ys ≡ true → xs ≡ ys
unfolding same_waivers
same_waivers→eq xs ys h =
    map_key-injective xs ys ((list_beq_iff (map waiver_key xs) (map waiver_key ys)).0 h)

check_new-fresh :
    (ws : List Waiver) (id source : String)
    → check_new ws id source ≡ ok tt
    → any_of (λ w. w.finding_id == id) ws ≡ false
unfolding check_new any_of
check_new-fresh [] id source h = refl
check_new-fresh (w ∷ ws) id source h = ground (arith, check_new-fresh ws id source)

or_empty-ok :
    (r : Result WaiveError (List Waiver)) (w : Waiver) (ws : List Waiver)
    → or_empty r ≡ sort_by by_expiry (ws ++ w ∷ [])
    → r ≡ ok (sort_by by_expiry (ws ++ w ∷ []))
unfolding or_empty
or_empty-ok (ok xs) w ws h = ap ok h
or_empty-ok (err e) w ws h =
    let n : length (sort_by by_expiry (ws ++ w ∷ [])) ≡ length ws + 1 =
      length-sort_by by_expiry (ws ++ w ∷ []) ∙ length-append ws (w ∷ []) in
    let m : 0 ≡ length (sort_by by_expiry (ws ++ w ∷ [])) = ap length h in absurd (omega arith)

if_same : (b : Bool) (x : Option Waiver) → (if b then x else x) ≡ x
if_same true x = refl
if_same false x = refl

-- The waiver is the only one for its finding.
abbrev IsOnly : Waiver → Waiver → Type 0
IsOnly w x = (x.finding_id == w.finding_id) ≡ true → x ≡ w

IsOnly-fresh :
    (ws : List Waiver) (w : Waiver)
    → any_of (λ x. x.finding_id == w.finding_id) ws ≡ false
    → All (IsOnly w) (ws ++ w ∷ [])
unfolding any_of
IsOnly-fresh [] w h = (λ _. refl, tt)
IsOnly-fresh (x ∷ ws) w h = (λ e. absurd (ground arith), IsOnly-fresh ws w (ground arith))

get-index_waivers :
    (ws : List Waiver) (w : Waiver) (index : Dict String Waiver)
    → All (IsOnly w) ws
    → get w.finding_id (index_waivers ws index)
      ≡ (if any_of (λ x. x.finding_id == w.finding_id) ws then some w else get w.finding_id index)
unfolding index_waivers any_of
get-index_waivers [] w index only = refl
get-index_waivers (x ∷ ws) w index only = elim (Bool-cases (x.finding_id == w.finding_id)) [
  | inl e ↦
      get-index_waivers ws w (put x.finding_id x index) only.1
      ∙ rw (get-put x.finding_id w.finding_id x index, e, only.0 e) (if_same _ (some w))
  | inr e ↦
      get-index_waivers ws w (put x.finding_id x index) only.1
      ∙ rw (get-put x.finding_id w.finding_id x index, e) refl
]

-- The gate's index has the new waiver under its finding.
found_in_index :
    (ws : List Waiver) (w : Waiver)
    → any_of (λ x. x.finding_id == w.finding_id) ws ≡ false
    → get w.finding_id (index_waivers (sort_by by_expiry (ws ++ w ∷ [])) []) ≡ some w
unfolding any_of
found_in_index ws w h =
    let there : any_of (λ x. x.finding_id == w.finding_id) (ws ++ w ∷ []) ≡ true =
      any_of-append (λ x. x.finding_id == w.finding_id) ws (w ∷ [])
      ∙ rw (h, (eq_iff w.finding_id w.finding_id).1 refl) refl in
    get-index_waivers (sort_by by_expiry (ws ++ w ∷ [])) w []
      (All-sort_by by_expiry (IsOnly w) (ws ++ w ∷ []) (IsOnly-fresh ws w h))
    ∙ rw (any_of-sort_by by_expiry (λ x. x.finding_id == w.finding_id) (ws ++ w ∷ []), there) refl

module _ (safe_load : String → Result String Value) where
  -- A text that loads as the waivers of the old one and the new one, in the order of expiry.
  pub record IsAppended (old new : String) (w : Waiver) (p : Policy) (source : String)
      : Type 0 where
    pub existing : List Waiver
    pub loaded : load safe_load old p source ≡ ok existing
    pub fresh : any_of (λ x. x.finding_id == w.finding_id) existing ≡ false
    pub appended : load safe_load new p source ≡ ok (sort_by by_expiry (existing ++ w ∷ []))
    pub indexed :
        get w.finding_id (index_waivers (sort_by by_expiry (existing ++ w ∷ [])) []) ≡ some w

  append_checked-appended :
      (ready : String) (existing : List Waiver) (w : Waiver) (p : Policy) (source new : String)
      → append_checked safe_load ready existing w p source ≡ ok new
      → load safe_load new p source ≡ ok (sort_by by_expiry (existing ++ w ∷ []))
  unfolding append_checked
  append_checked-appended ready existing w p source new h =
      let candidate = fstring (ready ∷ render_entry w (item_indent (split_lines ready)) ∷ []) in
      let expected = sort_by by_expiry (existing ++ w ∷ []) in
      let after = or_empty (load safe_load candidate p source) in
      let same : same_waivers after expected ≡ true = ground arith in
      let written : candidate ≡ new = ground arith in
      subst (λ s. load safe_load s p source ≡ ok expected) written
        (or_empty-ok _ w existing (same_waivers→eq after expected same))

  -- When an entry is added to a file that is not blank, the old text loads, none of its waivers
  -- is for the same finding, and the new text loads as exactly those and the new one, which the
  -- gate's index then has under its finding.
  pub append_waiver-IsAppended :
      (old new : String) (w : Waiver) (p : Policy) (source : String)
      → is_blank old ≡ false
      → append_waiver safe_load old w p source ≡ ok new
      → IsAppended old new w p source
  unfolding append_waiver
  append_waiver-IsAppended old new w p source filled h =
      let (existing, loaded, k) = >>=-eq-ok (load safe_load old p source) _ new h in
      let (_, checked, k') = >>=-eq-ok (check_new existing w.finding_id source) _ new k in
      let (ready, _, k'') =
        >>=-eq-ok (prepared safe_load old)
          (λ ready. append_checked safe_load ready existing w p source) new (rw filled at k') in
      record {
        existing = existing;
        loaded = loaded;
        fresh = check_new-fresh existing w.finding_id source checked;
        indexed = found_in_index existing w (check_new-fresh existing w.finding_id source checked);
        appended = append_checked-appended ready existing w p source new k'';
      }
