-- ===== src/LogFollow/Samples.antt =====
-- A log of one line, then of two lines and an error, and the theorems at it.
use bare_binary_analysis.LogFollow.Growth.{print_new-grown}
use bare_binary_analysis.Prelude.{[], ◌≡◌, false, ◌++◌, ◌∷◌, map, refl, fstring, after_prefix}
use bare_binary_analysis.LogFollow.{
  LogFollower, print_new, sanitize, split_streams, labelled, partition, partition_step, lines_of,
  add_char, is_unsafe, escape, hex_digit,
}

abbrev fresh : LogFollower
fresh = record {
  printed_stdout = [];
  printed_stderr = [];
  status = [];
  settled = [];
  disabled = false;
  echoed = [];
  warned = [];
}

program : Unit {0}
unfolding split_streams after_prefix partition partition_step lines_of add_char sanitize is_unsafe
    escape hex_digit fstring
program = tt

streams :
    (split_streams "--- stdout ---\nopening\nunpacked\n\n--- stderr ---\nslow\n")
    ≡ ("opening" ∷ "unpacked" ∷ [], "slow" ∷ [])
unfolding program
streams = refl

escaped : sanitize "a\rb\u{202e}" ≡ "a\\x0db\\u202e"
unfolding program
escaped = refl

print_new-grown_example :
    (print_new "s1" "static" "opening\nunpacked\n\n--- stderr ---\nslow\n"
      (print_new "s1" "static" "opening\n" fresh)).echoed
    ≡ ((print_new "s1" "static" "opening\n" fresh).echoed
        ++ map (labelled "static" "stdout") ("unpacked" ∷ []))
      ++ map (labelled "static" "stderr") ("slow" ∷ [])
unfolding program
print_new-grown_example =
    print_new-grown "s1" "static" "opening\n" "opening\nunpacked\n\n--- stderr ---\nslow\n" fresh
      ("unpacked" ∷ []) ("slow" ∷ []) refl refl
