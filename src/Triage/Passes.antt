-- ===== src/Triage/Passes.antt =====
-- What the counters and the calls of a triage pass say.
use bare_binary_analysis.Vocab.{LlmVerdict}
use bare_binary_analysis.Prelude.{
  List, get, ℕ, String, contains, put, ◌+◌, keys, ◌∷◌, ◌≡◌, Dict, arith, ◌++◌, [], none, some,
  false, if◌then◌else◌, true, Option-cases, string_eq, refl, inl, inr, Bool-cases, length, map,
  length-append, sort_by, ◌==◌, length-sort_by,
}
use bare_binary_analysis.Triage.{
  Finding, Pass, TriageResult, Reply, count_verdict, visit_finding, judge, add_call, triage_finding,
  cache_key, triage_all, triage_run, by_rank_and_id, no_result,
}

abbrev pub sum_of_verdicts : TriageResult → ℕ
sum_of_verdicts r = r.confirmed + r.dismissed + r.needs_review + r.errors

-- How many of the keys stand neither in `seen` nor earlier in the list.
unfoldable pub new_keys : List String → List String → ℕ
new_keys seen [] = 0
new_keys seen (k ∷ ks) =
    let with_k = new_keys (seen ++ k ∷ []) ks in
    let without = new_keys seen ks in if contains seen k then without else with_k + 1

get-contains :
    {V : Type 0} (k : String) (d : Dict String V) (v : V)
    → get k d ≡ some v
    → contains (keys d) k ≡ true
unfolding get contains keys
get-contains k [] v h = ground arith
get-contains k ((j, w) ∷ d) v h = ground (arith, get-contains k d v)

put-new :
    {V : Type 0} (k : String) (d : Dict String V) (v : V)
    → get k d ≡ none
    → (keys (put k v d) ≡ keys d ++ k ∷ []) × (contains (keys d) k ≡ false)
unfolding get put contains keys
put-new k [] v h = (refl, refl)
put-new k ((j, w) ∷ d) v h = elim (Bool-cases (j == k)) [
  | inl e ↦ let found : some w ≡ none = rw e at h in absurd (ground arith)
  | inr e ↦
      let missing : get k d ≡ none = rw e at h in
      let (at_end, fresh) = put-new k d v missing in (rw e (ground arith), rw e fresh)
]

count_verdict-counts :
    (verdict : LlmVerdict) (r : TriageResult)
    → ((count_verdict verdict r).triaged ≡ r.triaged + 1)
      × (sum_of_verdicts (count_verdict verdict r) ≡ sum_of_verdicts r + 1)
      × ((count_verdict verdict r).calls ≡ r.calls)
unfolding count_verdict
count_verdict-counts verdict r = (ground arith, ground arith, ground arith)

module _ (ask : Finding → Reply) (sha256 : String → String) (model : String) (now : ℕ) where
  abbrev visited : Finding → Pass → Pass
  visited f s = (visit_finding ask sha256 model now f s).1

  -- One more is counted, under one of the verdicts.
  Counted : TriageResult → TriageResult → Type 0
  Counted r r' = (r'.triaged ≡ r.triaged + 1) × (sum_of_verdicts r' ≡ sum_of_verdicts r + 1)

  visit-known :
      (f : Finding) (s : Pass) (known : LlmVerdict × String)
      → get (cache_key ask sha256 model now f) s.cache ≡ some known
      → Counted s.result (visited f s).result
        × ((visited f s).cache ≡ s.cache)
        × ((visited f s).result.calls ≡ s.result.calls)
  unfolding visit_finding judge Counted
  visit-known f s known e =
      let (one, all, same) = count_verdict-counts known.0 s.result in
      (rw e (one, all), rw (visited, e) refl, rw (visited, e) same)

  visit-new :
      (f : Finding) (s : Pass)
      → get (cache_key ask sha256 model now f) s.cache ≡ none
      → Counted s.result (visited f s).result
        × (keys (visited f s).cache ≡ keys s.cache ++ cache_key ask sha256 model now f ∷ [])
        × (length (visited f s).result.calls ≡ length s.result.calls + 1)
        × (contains (keys s.cache) (cache_key ask sha256 model now f) ≡ false)
  unfolding visit_finding judge add_call Counted
  visit-new f s e =
      let (v, reasoning, call) = triage_finding (ask f) f in
      let key = cache_key ask sha256 model now f in
      let (one, all, same) =
        count_verdict-counts v (add_call ask sha256 model now key (v, reasoning, call) s).result in
      (
        rw e (one, all),
        rw (visited, e) (put-new key s.cache (v, reasoning) e).0,
        rw (visited, e, same, length-append s.result.calls (call ∷ [])) (omega arith),
        (put-new key s.cache (v, reasoning) e).1,
      )

  abbrev pub keys_of : List Finding → List String
  keys_of fs = map (λ f. cache_key ask sha256 model now f) fs

  abbrev after : List Finding → Pass → Pass
  after fs s = (triage_all ask sha256 model now fs s).1

  triage_all-counts :
      (fs : List Finding) (s : Pass)
      → ((after fs s).result.triaged ≡ s.result.triaged + length fs)
        × (sum_of_verdicts (after fs s).result ≡ sum_of_verdicts s.result + length fs)
        × (length (after fs s).result.calls
            ≡ length s.result.calls + new_keys (keys s.cache) (keys_of fs))
  unfolding triage_all new_keys Counted
  triage_all-counts [] s = (omega arith, omega arith, omega arith)
  triage_all-counts (f ∷ fs) s =
      let (one, all, calls) = triage_all-counts fs (visited f s) in
      elim (Option-cases (get (cache_key ask sha256 model now f) s.cache)) [
        | inl e ↦
            let (counted, at_end, more, fresh) = visit-new f s e in
            let calls' : length (after fs (visited f s)).result.calls
                ≡ length (visited f s).result.calls
                  + new_keys (keys s.cache ++ cache_key ask sha256 model now f ∷ []) (keys_of fs) =
              rw at_end at calls in
            (
              omega (arith, one, counted.0),
              omega (arith, all, counted.1),
              rw fresh (omega (arith, calls', more)),
            )
        | inr (known, e) ↦
            let (counted, same, kept) = visit-known f s known e in
            let seen = get-contains (cache_key ask sha256 model now f) s.cache known e in
            let calls' : length (after fs (visited f s)).result.calls
                ≡ length s.result.calls + new_keys (keys s.cache) (keys_of fs) =
              rw (same, kept) at calls in
            (omega (arith, one, counted.0), omega (arith, all, counted.1), rw seen calls')
      ]

  -- The counter `triaged`, and the sum of the counters of the four verdicts, are the number of
  -- findings, and there are as many calls of the provider as different cache keys.
  pub triage_run-counts :
      (fs : List Finding)
      → ((triage_run ask sha256 model now fs).1.triaged ≡ length fs)
        × (sum_of_verdicts (triage_run ask sha256 model now fs).1 ≡ length fs)
        × (length (triage_run ask sha256 model now fs).1.calls
            ≡ new_keys [] (keys_of (sort_by by_rank_and_id fs)))
  unfolding triage_run keys
  triage_run-counts fs =
      let sorted = sort_by by_rank_and_id fs in
      let (one, all, calls) =
        triage_all-counts sorted (record { cache = []; result = no_result }) in
      let same = length-sort_by by_rank_and_id fs in
      (omega (arith, one, same), omega (arith, all, same), omega (arith, calls))
