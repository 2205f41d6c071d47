-- ===== src/LogFollow/Growth.antt =====
-- A log that grows is printed once, line by line.
use bare_binary_analysis.Prelude.{
  List, String, length, ltb, ◌++◌, ◌≡◌, false, map, ◌∷◌, [], arith, refl, length-append, ◌==◌, true,
  eq_iff, get-put, string_eq,
}
use bare_binary_analysis.LogFollow.{
  new_lines, labelled, skip, print_new, LogFollower, split_streams,
}

skip-append : (old more : List String) → skip (length old) (old ++ more) ≡ more
unfolding skip
skip-append [] more = refl
skip-append (l ∷ old) more = skip-append old more

shorter : (old more : List String) → ltb (length (old ++ more)) (length old) ≡ false
shorter old more = ground (arith, length-append old more)

-- Of a stream that has grown since its lines were counted, exactly the lines that were added are
-- echoed, each sanitized and with its label.
pub new_lines-append :
    (analyzer stream : String) (old more : List String)
    → new_lines analyzer stream (old ++ more) (length old) ≡ map (labelled analyzer stream) more
unfolding new_lines
new_lines-append analyzer stream old more = rw (shorter old more, skip-append old more) refl

-- When the document of a stage is printed, and then one whose streams have the same lines and
-- further ones, the second time exactly the further lines are echoed, sanitized and labelled, those
-- of stdout before those of stderr.
pub print_new-grown :
    (id analyzer d d' : String) (s : LogFollower) (out err : List String)
    → (split_streams d').0 ≡ (split_streams d).0 ++ out
    → (split_streams d').1 ≡ (split_streams d).1 ++ err
    → (print_new id analyzer d' (print_new id analyzer d s)).echoed
      ≡ ((print_new id analyzer d s).echoed ++ map (labelled analyzer "stdout") out)
        ++ map (labelled analyzer "stderr") err
unfolding print_new
print_new-grown id analyzer d d' s out err h k =
    let same : (id == id) ≡ true = (eq_iff id id).1 refl in
    rw
      (
        h,
        k,
        get-put id id (length (split_streams d).0) s.printed_stdout,
        get-put id id (length (split_streams d).1) s.printed_stderr,
        same,
        new_lines-append analyzer "stdout" (split_streams d).0 out,
        new_lines-append analyzer "stderr" (split_streams d).1 err,
      )
      refl
