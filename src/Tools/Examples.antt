-- ===== src/Tools/Examples.antt =====
-- The results on the tools at small inputs: a stream of three reads that goes over its limit, and a
-- call of a tool that does not exist.
use santi.Base.{ℕ, String, true, ◌≡◌, refl, some, List, [], ◌∷◌}
use santi.Base.Texts.{format, take_chars}
use santi.Base.Exec.{ok}
use santi.Tools.Capture.{BashOutputLimits, CapturedBashStream, capture_bash_stream, captured, take}
use santi.Tools.Captured.{
  all_bytes, succeeding, limited, given, Bounded, capture_bash_stream-limited,
  capture_bash_stream-Bounded,
}

-- A decoding that writes "x" for each byte.
abbrev letters : List ℕ → String
letters [] = ""
letters (b ∷ bytes) = format ("x" ∷ letters bytes ∷ [])

abbrev reads : List (List ℕ)
reads = (104 ∷ 101 ∷ []) ∷ (108 ∷ 108 ∷ 111 ∷ []) ∷ (33 ∷ []) ∷ []

abbrev limits : BashOutputLimits
limits = record { truncate_chars = 3; hard_bytes = 4 }

capture_bash_stream-limited_example :
    capture_bash_stream letters (succeeding reads) "stdout.txt" "stdout" limits
    ≡ ok (captured letters "stdout.txt" limits (limited limits.hard_bytes (all_bytes reads)))
capture_bash_stream-limited_example =
    capture_bash_stream-limited letters reads "stdout.txt" "stdout" limits

abbrev kept : CapturedBashStream
kept = record {
  text = "xxx";
  raw_chars = 4;
  truncated = true;
  artifact_path = some "stdout.txt";
  hard_limit_exceeded = true;
}

it_is_kept : capture_bash_stream letters (succeeding reads) "stdout.txt" "stdout" limits ≡ ok kept
unfolding capture_bash_stream take format take_chars
it_is_kept = refl

capture_bash_stream-Bounded_example : Bounded letters (given (succeeding reads)) limits kept
capture_bash_stream-Bounded_example =
    capture_bash_stream-Bounded letters (succeeding reads) "stdout.txt" "stdout" limits kept
      it_is_kept
