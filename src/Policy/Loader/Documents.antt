-- ===== src/Policy/Loader/Documents.antt =====
-- What a policy file that loads guarantees.
use bare_binary_analysis.Vocab.{Severity, severity_of}
use bare_binary_analysis.Policy.Loader.{
  read_version, str_set, stripped_texts, arr, cons, version_error, budget_entries, budget_entry,
  budgets_of, or_unlimited, read_budgets, read_max_days, require_mapping, LoadError,
  or_default_name, parse_policy, read_floor, read_mode, read_posture,
}
use bare_binary_analysis.Policy.Document.{Policy, unlimited, limit_for, Budgets}
use bare_binary_analysis.Prelude.{
  null, arr, nil, cons, ok, inl, inr, ◌>>=◌, end, field, arith, ℤ, Items, Value, ltb_ℤ, ◌≡◌, All,
  String, pos, Ensures, false, ◌==◌, int_of, leb_ℤ, Bool-cases, re_raise, string_eq, strip, py_str,
  inl, inr, Bool, Dict, Ensures-bind, Ensures-any, Fields, Result, get, put, get-put, not, or_raise,
  raise_if, [], eqb_ℤ, true, refl, List, ensured,
}

-- A limit is a number of findings, or the mark for no limit.
abbrev IsLimit : ℤ → Type 0
IsLimit n = ltb_ℤ n unlimited ≡ false

-- A policy that the engine can be given.
pub record IsLoaded (p : Policy) : Type 0 where
  pub version : p.version ≡ pos 1
  pub named : (p.name == "") ≡ false
  pub max_days : leb_ℤ p.max_waiver_days (pos 0) ≡ false
  pub limits : (s : Severity) → ltb_ℤ (limit_for p.budgets s) unlimited ≡ false
  pub categories : All (λ c. (c == "") ≡ false) p.block_categories
  pub rules : All (λ r. (r == "") ≡ false) p.block_rules

stripped_texts-filled : (xs : Items) → All (λ s. (s == "") ≡ false) (stripped_texts xs)
unfolding stripped_texts
stripped_texts-filled nil = tt
stripped_texts-filled (cons v rest) = elim (Bool-cases (strip (py_str v) == "")) [
  | inl e ↦ rw e (stripped_texts-filled rest)
  | inr e ↦ rw e (e, stripped_texts-filled rest)
]

str_set-filled :
    (v : Value) (field_name : String)
    → Ensures (All (λ s. (s == "") ≡ false)) (str_set v field_name)
unfolding str_set
str_set-filled null field_name = tt
str_set-filled (arr xs) field_name = stripped_texts-filled xs
str_set-filled _ field_name = tt

abbrev IsOne : ℤ → Type 0
IsOne n = n ≡ pos 1

abbrev IsPositive : ℤ → Type 0
IsPositive n = leb_ℤ n (pos 0) ≡ false

raise_if-Ensures {ℓ κ} :
    {E : Type 0} {B : Type ℓ} (Q : B → Type κ) (test : Bool) (e : E) (m : Result E B)
    → (test ≡ false → Ensures Q m)
    → Ensures Q (raise_if test e >>= λ _. m)
raise_if-Ensures Q true e m h = tt
raise_if-Ensures Q false e m h = h refl

read_version-IsOne : (v : Value) (source : String) → Ensures IsOne (read_version v source)
unfolding read_version
read_version-IsOne v source =
    Ensures-bind (λ _. Unit {0}) IsOne _ _ (Ensures-any (re_raise (int_of v) version_error))
      λ n _. raise_if-Ensures IsOne (not (eqb_ℤ n (pos 1))) _ (ok n) (λ h. ground arith)

read_max_days-IsPositive : (v : Value) → Ensures IsPositive (read_max_days v)
unfolding read_max_days
read_max_days-IsPositive v =
    Ensures-bind (λ _. Unit {0}) IsPositive _ _ (Ensures-any (re_raise (int_of v) _))
      λ n _. raise_if-Ensures IsPositive (leb_ℤ n (pos 0)) _ (ok n) (λ h. h)

abbrev HasLimit : String × ℤ → Type 0
HasLimit entry = IsLimit entry.1

budget_entry-limit : (key : String) (v : Value) → Ensures HasLimit (budget_entry key v)
unfolding budget_entry
budget_entry-limit key v =
    Ensures-bind (λ _. Unit {0}) HasLimit _ _ (Ensures-any (or_raise (severity_of _) _))
      λ _ _.
        Ensures-bind (λ _. Unit {0}) HasLimit _ _ (Ensures-any (re_raise (int_of v) _))
          λ n _. raise_if-Ensures HasLimit (ltb_ℤ n unlimited) _ (ok _) (λ h. h)

abbrev AllLimits : Dict String ℤ → Type 0
AllLimits d = (key : String) → IsLimit (or_unlimited (get key d))

AllLimits-put :
    (d : Dict String ℤ) (key : String) (n : ℤ) → AllLimits d → IsLimit n → AllLimits (put key n d)
unfolding or_unlimited
AllLimits-put d key n h k j =
    rw (get-put key j n d) (elim (Bool-cases (key == j)) [ inl e ↦ rw e k | inr e ↦ rw e (h j) ])

budget_entries-limits :
    (fs : Fields) (d : Dict String ℤ) → AllLimits d → Ensures AllLimits (budget_entries fs d)
unfolding budget_entries
budget_entries-limits end d h = h
budget_entries-limits (field key v rest) d h =
    Ensures-bind HasLimit AllLimits (budget_entry key v) _ (budget_entry-limit key v)
      λ entry k. budget_entries-limits rest _ (AllLimits-put d entry.0 entry.1 h k)

abbrev IsBudgets : Budgets → Type 0
IsBudgets b = (s : Severity) → IsLimit (limit_for b s)

budgets_of-limits : (d : Dict String ℤ) → AllLimits d → IsBudgets (budgets_of d)
unfolding budgets_of limit_for
budgets_of-limits d h Severity.critical = h "critical"
budgets_of-limits d h Severity.high = h "high"
budgets_of-limits d h Severity.medium = h "medium"
budgets_of-limits d h Severity.low = h "low"
budgets_of-limits d h Severity.info = h "info"

read_budgets-limits : (v : Value) → Ensures IsBudgets (read_budgets v)
unfolding read_budgets or_unlimited get
read_budgets-limits v =
    Ensures-bind (λ _. Unit {0}) IsBudgets _ _ (Ensures-any (require_mapping v "budgets"))
      λ entries _.
        Ensures-bind AllLimits IsBudgets _ _ (budget_entries-limits entries [] (λ key. refl))
          budgets_of-limits

or_default_name-filled : (s : String) → (or_default_name s == "") ≡ false
unfolding or_default_name
or_default_name-filled s = elim (Bool-cases (s == "")) [ inl e ↦ rw e refl | inr e ↦ rw e e ]

-- A result of which nothing is asked.
unasked {ℓ κ} :
    {A : Type ℓ} {B : Type κ} (Q : B → Type 0) (m : Result LoadError A) (f : A → Result LoadError B)
    → ((a : A) → Ensures Q (f a))
    → Ensures Q (m >>= f)
unasked Q m f h = Ensures-bind (λ _. Unit {0}) Q m f (Ensures-any m) (λ a _. h a)

abbrev AllFilled : List String → Type 0
AllFilled = All (λ s. (s == "") ≡ false)

parse_policy-Ensures : (fs : Fields) (source : String) → Ensures IsLoaded (parse_policy fs source)
unfolding parse_policy
parse_policy-Ensures fs source =
    Ensures-bind IsOne IsLoaded _ _ (read_version-IsOne _ source) λ version one.
      unasked IsLoaded (require_mapping _ "block") _ λ block.
        unasked IsLoaded (read_floor _) _ λ floor.
          unasked IsLoaded (require_mapping _ "baseline") _ λ baseline.
            unasked IsLoaded (read_mode _) _ λ mode. unasked IsLoaded (read_posture _) _ λ degraded.
              unasked IsLoaded (require_mapping _ "waivers") _ λ waivers_cfg.
                Ensures-bind IsPositive IsLoaded _ _ (read_max_days-IsPositive _) λ max_days m.
                  Ensures-bind AllFilled IsLoaded _ _ (str_set-filled _ "block.categories") λ cs c.
                    Ensures-bind AllFilled IsLoaded _ _ (str_set-filled _ "block.rules") λ rs r.
                      Ensures-bind IsBudgets IsLoaded _ _ (read_budgets-limits _) λ budgets b.
                        record {
                          version = one;
                          named = or_default_name-filled _;
                          max_days = m;
                          limits = b;
                          categories = c;
                          rules = r;
                        }

-- A policy that loads has version 1, a name, a positive maximal length of waivers, in each budget
-- a number or the mark for no limit, and no empty text among its categories and rules.
pub parse_policy-IsLoaded :
    (fs : Fields) (source : String) (p : Policy) → parse_policy fs source ≡ ok p → IsLoaded p
parse_policy-IsLoaded fs source p h = ensured IsLoaded _ p (parse_policy-Ensures fs source) h
