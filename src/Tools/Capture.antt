-- ===== src/Tools/Capture.antt =====
-- crates/santi-runtime/src/runtime/tools: bash_stream.rs, what is kept of the output of a command, and
-- github_https_git_env.rs. The reads of a stream are a list; the decoding of the bytes is an
-- argument. The file that holds the output is taken to be written.
use santi.Base.{
  ℕ, zero, suc, ◌-◌, ◌*◌, String, Bool, true, false, not, ◌||◌, Option, none, some, List, [], ◌∷◌,
  ◌++◌, min, max, length, ltb, ◌==◌, if◌then◌else◌,
}
use santi.Base.Texts.{format, chars_count, take_chars, is_blank}
use santi.Base.Exec.{Result, ok, err}

pub record BashOutputLimits : Type 0 where
  pub truncate_chars : ℕ
  pub hard_bytes : ℕ

pub record CapturedBashStream : Type 0 where
  pub text : String
  pub raw_chars : ℕ
  pub truncated : Bool
  pub artifact_path : Option String
  pub hard_limit_exceeded : Bool

abbrev pub default_bash_output_truncate_chars : ℕ
default_bash_output_truncate_chars = 10000

abbrev pub default_bash_output_hard_bytes : ℕ
default_bash_output_hard_bytes = 1024 * 1024

-- The first `n` of a list, `&buf[..n]`.
unfoldable pub take {ℓ} : {A : Type ℓ} → ℕ → List A → List A
take zero xs = []
take (suc n) [] = []
take (suc n) (x ∷ xs) = x ∷ take n xs

-- What was accepted and whether the limit was exceeded.
pub record Read : Type 0 where
  pub output : List ℕ
  pub exceeded : Bool

-- The loop over the reads; an empty read is the end of the stream. `saturating_sub` is the
-- subtraction here.
unfoldable pub read_stream :
    String → ℕ → List (Result String (List ℕ)) → List ℕ → Result String Read
unfolding take format
read_stream stream_name hard_bytes [] output = ok (record { output = output; exceeded = false })
read_stream stream_name hard_bytes (err e ∷ reads) output =
    err (format ("failed to read bash " ∷ stream_name ∷ ": " ∷ e ∷ []))
read_stream stream_name hard_bytes (ok [] ∷ reads) output =
    ok (record { output = output; exceeded = false })
read_stream stream_name hard_bytes (ok (b ∷ bytes) ∷ reads) output =
    let accepted = min (length (b ∷ bytes)) (hard_bytes - length output) in
    let kept = output ++ take accepted (b ∷ bytes) in
    let rest = read_stream stream_name hard_bytes reads kept in
    if ltb accepted (length (b ∷ bytes))
    then ok (record { output = kept; exceeded = true })
    else rest

unfoldable pub truncate_chars : String → ℕ → String
unfolding take_chars chars_count
truncate_chars value max_chars =
    if max_chars == 0
    then ""
    else if ltb max_chars (chars_count value)
    then take_chars max_chars value
    else value

abbrev pub captured : (List ℕ → String) → String → BashOutputLimits → Read → CapturedBashStream
captured from_utf8_lossy artifact_path limits read =
    let raw = from_utf8_lossy read.output in
    let raw_chars = chars_count raw in
    let text = truncate_chars raw limits.truncate_chars in
    let truncated = read.exceeded || not (chars_count text == raw_chars) in
    record {
      text = text;
      raw_chars = raw_chars;
      truncated = truncated;
      artifact_path = if truncated then some artifact_path else none;
      hard_limit_exceeded = read.exceeded;
    }

abbrev pub captured_from :
    (List ℕ → String)
    → String
    → BashOutputLimits
    → Result String Read
    → Result String CapturedBashStream
captured_from from_utf8_lossy artifact_path limits (ok read) =
    ok (captured from_utf8_lossy artifact_path limits read)
captured_from from_utf8_lossy artifact_path limits (err e) = err e

unfoldable pub capture_bash_stream :
    (List ℕ → String)
    → List (Result String (List ℕ))
    → String
    → String
    → BashOutputLimits
    → Result String CapturedBashStream
unfolding read_stream truncate_chars chars_count
capture_bash_stream from_utf8_lossy reads artifact_path stream_name limits =
    captured_from from_utf8_lossy artifact_path limits
      (read_stream stream_name limits.hard_bytes reads [])

-- `nonzero_or_default` and `nonzero_or_default_usize`.
unfoldable pub nonzero_or_default : ℕ → ℕ → ℕ
nonzero_or_default value default = if value == 0 then default else value

unfoldable pub normalized_hard_bytes : ℕ → ℕ → ℕ
unfolding nonzero_or_default
normalized_hard_bytes hard_bytes truncate_chars =
    max (nonzero_or_default hard_bytes default_bash_output_hard_bytes)
      (nonzero_or_default truncate_chars default_bash_output_truncate_chars)

-- `.filter(|value| !value.trim().is_empty())`.
abbrev not_blank : Option String → Option String
not_blank none = none
not_blank (some s) = if is_blank s then none else some s

abbrev or_else : Option String → Option String → Option String
or_else (some a) b = some a
or_else none b = b

abbrev git_env : Option String → List (String × String)
git_env none = []
git_env (some token) =
    ("GIT_CONFIG_COUNT", "1")
    ∷ (
      "GIT_CONFIG_KEY_0",
      format ("url.https://x-access-token:" ∷ token ∷ "@github.com/.insteadOf" ∷ []),
    )
    ∷ ("GIT_CONFIG_VALUE_0", "https://github.com/")
    ∷ []

-- A map by key is the list of its entries in order.
unfoldable pub github_git_env_from : Option String → Option String → List (String × String)
unfolding is_blank format
github_git_env_from github_token gh_token =
    git_env (or_else (not_blank github_token) (not_blank gh_token))
