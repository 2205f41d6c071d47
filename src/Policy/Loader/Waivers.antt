-- ===== src/Policy/Loader/Waivers.antt =====
-- What a waiver file that loads guarantees.
use bare_binary_analysis.Policy.Model.{Waiver}
use bare_binary_analysis.Policy.Loader.{
  parse_waiver, parse_item, require_mapping, entries_of, parse_entries, parse_waivers, arr,
  by_expiry, obj, string, end, is_absent,
}
use bare_binary_analysis.Policy.Document.{Policy}
use bare_binary_analysis.Prelude.{
  arith, null, ◌>>=◌, ok, Items, nil, cons, Bool, ℕ, Value, suc, List, ◌==◌, String, ◌≡◌, contains,
  false, >>=-eq-ok, ◌&&◌, refl, string_eq, Fields, All, [], count_where, field_or, length, sort_by,
  subst, ◌∷◌, eq_iff, fstring, ◌+◌, ◌≤◌, All-sort_by, if◌then◌else◌, show, length-sort_by, ◌∙◌,
  count_where-sort_by, not, py_str, true, strip, ◌||◌,
}

-- A waiver that names a finding, and has what the policy requires.
pub record IsComplete (p : Policy) (w : Waiver) : Type 0 where
  pub named : (w.finding_id == "") ≡ false
  pub reasoned : (p.require_waiver_reason && w.reason == "") ≡ false
  pub owned : (p.require_waiver_owner && w.owner == "") ≡ false

unfoldable pub count_items : Items → ℕ
count_items nil = 0
count_items (cons v rest) = suc (count_items rest)

unfoldable pub all_items : (Value → Bool) → Items → Bool
all_items test nil = true
all_items test (cons v rest) = test v && all_items test rest

-- The keys of an entry; a null entry has none.
unfoldable pub fields_of : Value → Fields
fields_of (obj fs) = fs
fields_of _ = end

unfoldable pub is_text : Value → Bool
is_text (string s) = true
is_text _ = false

-- The id, the reason and the owner of the entry are texts, where they are given.
unfoldable pub is_textual : Value → Bool
is_textual entry =
    is_text (field_or "finding_id" (string "") (fields_of entry))
    && is_text (field_or "reason" (string "") (fields_of entry))
    && is_text (field_or "owner" (string "") (fields_of entry))

unfoldable pub is_filled_text : Value → Bool
is_filled_text (string s) = not (strip s == "")
is_filled_text _ = false

-- The entry has a text that is not blank under the key.
unfoldable pub is_given : String → Value → Bool
is_given key entry = is_filled_text (field_or key (string "") (fields_of entry))

-- The entry says what it is for, and has what the policy requires, and a date.
unfoldable pub is_filled : Policy → Value → Bool
is_filled p entry =
    is_given "finding_id" entry
    && (not p.require_waiver_reason || is_given "reason" entry)
    && (not p.require_waiver_owner || is_given "owner" entry)
    && not (is_absent (field_or "expires" null (fields_of entry)))

is_filled_text-strip :
    (v : Value) → is_text v ≡ true → is_filled_text v ≡ not (strip (py_str v) == "")
unfolding is_text is_filled_text py_str
is_filled_text-strip (string s) h = refl
is_filled_text-strip _ h = absurd (ground arith)

parse_item-filled :
    (item : Fields) (seen : List String) (p : Policy) (place : String) (w : Waiver)
    → is_textual (obj item) ≡ true
    → parse_item item seen p place ≡ ok w
    → is_filled p (obj item) ≡ true
unfolding parse_item is_textual is_filled is_given fields_of
parse_item-filled item seen p place w texts h = ground (
  arith,
  is_filled_text-strip (field_or "finding_id" (string "") item),
  is_filled_text-strip (field_or "reason" (string "") item),
  is_filled_text-strip (field_or "owner" (string "") item),
)

parse_waiver-filled :
    (entry : Value) (seen : List String) (p : Policy) (place : String) (w : Waiver)
    → is_textual entry ≡ true
    → parse_waiver entry seen p place ≡ ok w
    → is_filled p entry ≡ true
unfolding parse_waiver require_mapping is_textual fields_of is_filled is_given
parse_waiver-filled (obj item) seen p place w texts h =
    parse_item-filled item seen p place w texts h
parse_waiver-filled null seen p place w texts h =
    let empty : is_filled p (obj end) ≡ true = parse_item-filled end seen p place w texts h in empty
parse_waiver-filled _ seen p place w texts h = absurd (ground arith)

parse_item-IsComplete :
    (item : Fields) (seen : List String) (p : Policy) (place : String) (w : Waiver)
    → parse_item item seen p place ≡ ok w
    → IsComplete p w × (contains seen w.finding_id ≡ false)
unfolding parse_item
parse_item-IsComplete item seen p place w h = ground arith

parse_waiver-IsComplete :
    (entry : Value) (seen : List String) (p : Policy) (place : String) (w : Waiver)
    → parse_waiver entry seen p place ≡ ok w
    → IsComplete p w × (contains seen w.finding_id ≡ false)
unfolding parse_waiver
parse_waiver-IsComplete entry seen p place w h =
    let (item, _, k) =
      >>=-eq-ok (require_mapping entry place) (λ item. parse_item item seen p place) w h in
    parse_item-IsComplete item seen p place w k

abbrev has_id : String → Waiver → Bool
has_id id w = w.finding_id == id

-- What the loop guarantees of the waivers that it returns, after the ids seen.
record IsRead (p : Policy) (seen : List String) (entries : Items) (ws : List Waiver) : Type 0 where
  complete : All (IsComplete p) ws
  filled : all_items (is_filled p) entries ≡ true
  counted : length ws ≡ count_items entries
  distinct : (id : String) → count_where (has_id id) ws + (if contains seen id then 1 else 0) ≤ 1

IsRead-cons :
    (p : Policy) (seen : List String) (entry : Value) (entries : Items) (w : Waiver)
    (ws : List Waiver)
    → is_filled p entry ≡ true
    → IsComplete p w × (contains seen w.finding_id ≡ false)
    → IsRead p (w.finding_id ∷ seen) entries ws
    → IsRead p seen (cons entry entries) (w ∷ ws)
unfolding count_items count_where contains all_items
IsRead-cons p seen entry entries w ws given h r = record {
  complete = (h.0, r.complete);
  filled = rw (given, r.filled);
  counted = omega (arith, r.counted);
  distinct =
      λ id. ground (arith, r.distinct id, h.1, eq_iff w.finding_id id, eq_iff id w.finding_id);
}

IsRead-nil : (p : Policy) (seen : List String) → IsRead p seen nil []
unfolding count_items count_where all_items
IsRead-nil p seen = record {
  complete = tt;
  filled = refl;
  counted = refl;
  distinct = λ id. ground (arith, contains seen id);
}

parse_entries-IsRead :
    (entries : Items) (index : ℕ) (seen : List String) (p : Policy) (source : String)
    (ws : List Waiver)
    → all_items is_textual entries ≡ true
    → parse_entries entries index seen p source ≡ ok ws
    → IsRead p seen entries ws
unfolding parse_entries all_items
parse_entries-IsRead nil index seen p source ws texts h =
    let same : [] ≡ ws = ground arith in subst (IsRead p seen nil) same (IsRead-nil p seen)
parse_entries-IsRead (cons entry rest) index seen p source ws texts h =
    let place = fstring (source ∷ ": waivers[" ∷ show index ∷ "]" ∷ []) in
    let (w, hw, k) =
      >>=-eq-ok (parse_waiver entry seen p place)
        (λ w. parse_entries rest (index + 1) (w.finding_id ∷ seen) p source >>= λ ws. ok (w ∷ ws))
        ws h in
    let (more, hm, e) =
      >>=-eq-ok (parse_entries rest (index + 1) (w.finding_id ∷ seen) p source) (λ ws. ok (w ∷ ws))
        ws k in
    let same : w ∷ more ≡ ws = ground arith in
    subst (IsRead p seen (cons entry rest)) same (
      IsRead-cons p seen entry rest w more
        (parse_waiver-filled entry seen p place w (ground arith) hw)
        (parse_waiver-IsComplete entry seen p place w hw)
        (parse_entries-IsRead rest (index + 1) (w.finding_id ∷ seen) p source more (ground arith)
          hm))

-- The entries of a waiver file.
unfoldable pub waiver_entries : Fields → Items
waiver_entries fs = elim (field_or "waivers" (arr nil) fs) [ arr xs ↦ xs | _ ↦ nil ]

-- A list of waivers that the policy's rules hold for, as many as the file has entries.
pub record IsAccepted (p : Policy) (entries : Items) (ws : List Waiver) : Type 0 where
  pub complete : All (IsComplete p) ws
  pub filled : all_items (is_filled p) entries ≡ true
  pub counted : length ws ≡ count_items entries
  pub distinct : (id : String) → count_where (λ w. w.finding_id == id) ws ≤ 1

IsAccepted-sort_by :
    (p : Policy) (entries : Items) (ws : List Waiver)
    → IsRead p [] entries ws
    → IsAccepted p entries (sort_by by_expiry ws)
unfolding contains
IsAccepted-sort_by p entries ws r = record {
  complete = All-sort_by by_expiry (IsComplete p) ws r.complete;
  filled = r.filled;
  counted = length-sort_by by_expiry ws ∙ r.counted;
  distinct = λ id. rw (count_where-sort_by by_expiry (has_id id) ws) (omega (arith, r.distinct id));
}

entries_of-waiver_entries :
    (v : Value) (source : String) (entries : Items)
    → entries_of v source ≡ ok entries
    → entries ≡ (elim v [ arr xs ↦ xs | _ ↦ nil ])
unfolding entries_of
entries_of-waiver_entries null source entries h = ground arith
entries_of-waiver_entries (arr xs) source entries h = ground arith
entries_of-waiver_entries _ source entries h = absurd (ground arith)

-- A waiver file whose ids, reasons and owners are texts, where they are given, loads only as a
-- whole: each entry has an id, an expiry, and the reason and the owner that the policy requires,
-- none of them blank; there is one waiver for each entry, with an id and what the policy requires;
-- and no two waivers are for one finding.
pub parse_waivers-IsAccepted :
    (fs : Fields) (p : Policy) (source : String) (ws : List Waiver)
    → all_items is_textual (waiver_entries fs) ≡ true
    → parse_waivers fs p source ≡ ok ws
    → IsAccepted p (waiver_entries fs) ws
unfolding parse_waivers waiver_entries
parse_waivers-IsAccepted fs p source ws texts h =
    let raw = field_or "waivers" (arr nil) fs in
    let (entries, he, k) =
      >>=-eq-ok (entries_of raw source)
        (λ entries.
          parse_entries entries 0 [] p source >>= λ waivers. ok (sort_by by_expiry waivers))
        ws h in
    let (read, hr, e) =
      >>=-eq-ok (parse_entries entries 0 [] p source) (λ waivers. ok (sort_by by_expiry waivers)) ws
        k in
    let same : sort_by by_expiry read ≡ ws = ground arith in
    let listed : entries ≡ waiver_entries fs = entries_of-waiver_entries raw source entries he in
    let textual : all_items is_textual entries ≡ true = rw listed texts in
    rw (← same) (
      subst (λ items. IsAccepted p items (sort_by by_expiry read)) listed
        (IsAccepted-sort_by p entries read
          (parse_entries-IsRead entries 0 [] p source read textual hr)))
