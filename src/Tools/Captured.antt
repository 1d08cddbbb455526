-- ===== src/Tools/Captured.antt =====
-- crates/santi-runtime/src/runtime/tools/bash_stream.rs: the capture of a stream that is read in pieces, and its bounds.
use santi.Base.{subst}
use santi.Base.{
  ℕ, zero, suc, ◌-◌, ◌≤◌, ◌<◌, String, Bool, true, false, ◌≡◌, refl, sym, ap, ◌∙◌, List, [], ◌∷◌,
  ◌++◌, min, length, length-append, ltb, ◌==◌, arith, Bool-cases, inl, inr, append_assoc,
  append-nil,
}
use Prim.Native.String.{[], ◌∷◌, ◌++◌ as joined}
use Prim.Native.String.append
use text.Mathlib.TextLemmas.{append-nil as text_append-nil}
use santi.Base.Texts.{take_chars, chars_count, chars_count-take_chars}
use santi.Base.Exec.{Result, ok, err, ok_inj}
use santi.Tools.Capture.{
  BashOutputLimits, CapturedBashStream, take, Read, read_stream, truncate_chars, captured,
  captured_from, capture_bash_stream,
}

-- All that a stream gives before its end, when no read fails.
abbrev pub all_bytes : List (List ℕ) → List ℕ
all_bytes [] = []
all_bytes ([] ∷ reads) = []
all_bytes ((b ∷ bytes) ∷ reads) = (b ∷ bytes) ++ all_bytes reads

abbrev pub succeeding : List (List ℕ) → List (Result String (List ℕ))
succeeding [] = []
succeeding (bytes ∷ reads) = ok bytes ∷ succeeding reads

length-take : (n : ℕ) (xs : List ℕ) → length (take n xs) ≡ min n (length xs)
unfolding take
length-take zero xs = omega arith
length-take (suc n) [] = omega arith
length-take (suc n) (x ∷ xs) = omega (arith, length-take n xs)

take_all : (n : ℕ) (xs : List ℕ) → length xs ≤ n → take n xs ≡ xs
unfolding take
take_all zero [] h = refl
take_all zero (x ∷ xs) h = absurd (omega arith)
take_all (suc n) [] h = refl
take_all (suc n) (x ∷ xs) h = ap (◌∷◌ x) (take_all n xs (omega arith))

take-append_short :
    (n : ℕ) (xs ys : List ℕ) → length xs ≤ n → take n (xs ++ ys) ≡ xs ++ take (n - length xs) ys
unfolding take
take-append_short n [] ys h = ap (λ k. take k ys) (omega arith)
take-append_short zero (x ∷ xs) ys h = absurd (omega arith)
take-append_short (suc n) (x ∷ xs) ys h =
    ap (◌∷◌ x) (take-append_short n xs ys (omega arith) ∙ ap (λ k. xs ++ take k ys) (omega arith))

take-append_long : (n : ℕ) (xs ys : List ℕ) → n ≤ length xs → take n (xs ++ ys) ≡ take n xs
unfolding take
take-append_long zero xs ys h = refl
take-append_long (suc n) [] ys h = absurd (omega arith)
take-append_long (suc n) (x ∷ xs) ys h = ap (◌∷◌ x) (take-append_long n xs ys (omega arith))

-- The reference: the first bytes up to the limit, and whether there are more.
abbrev pub limited : ℕ → List ℕ → Read
limited hard_bytes bytes = record {
  output = take hard_bytes bytes;
  exceeded = ltb hard_bytes (length bytes);
}

abbrev read_ok : Read → Result String Read
read_ok read = ok read

read_as :
    (hard : ℕ) (bytes out : List ℕ) (more : Bool)
    → take hard bytes ≡ out
    → ltb hard (length bytes) ≡ more
    → read_ok (record { output = out; exceeded = more }) ≡ read_ok (limited hard bytes)
read_as hard bytes out more a b = rw (sym a, sym b) refl

module _ (name : String) (hard : ℕ) where
  at_the_end :
      (output : List ℕ)
      → length output ≤ hard
      → read_ok (record { output = output; exceeded = false })
        ≡ read_ok (limited hard (output ++ []))
  at_the_end output h =
      read_as hard (output ++ []) output false
        (ap (take hard) (append-nil output) ∙ take_all hard output h)
        (ground (arith, length-append output [], h))

  module _ (output xs rest : List ℕ) (h : length output ≤ hard) where
    abbrev room : ℕ
    room = hard - length output

    too_much :
        room < length xs
        → read_ok (record { output = output ++ take (min (length xs) room) xs; exceeded = true })
          ≡ read_ok (limited hard (output ++ (xs ++ rest)))
    too_much m =
        read_as hard (output ++ (xs ++ rest)) (output ++ take (min (length xs) room) xs) true
          (take-append_short hard output (xs ++ rest) h
            ∙ ap (λ ys. output ++ ys)
                (take-append_long room xs rest (omega arith) ∙ ap (λ n. take n xs) (omega arith)))
          (ground (arith, length-append output (xs ++ rest), length-append xs rest, h, m))

    all_kept : length xs ≤ room → output ++ take (min (length xs) room) xs ≡ output ++ xs
    all_kept m = ap (λ ys. output ++ ys) (take_all (min (length xs) room) xs (omega arith))

  read_from :
      (reads : List (List ℕ)) (output : List ℕ)
      → length output ≤ hard
      → read_stream name hard (succeeding reads) output
        ≡ ok (limited hard (output ++ all_bytes reads))
  unfolding read_stream
  read_from [] output h = at_the_end output h
  read_from ([] ∷ reads) output h = at_the_end output h
  read_from ((b ∷ bytes) ∷ reads) output h =
      elim (Bool-cases
        (ltb (min (length (b ∷ bytes)) (hard - length output)) (length (b ∷ bytes)))) [
          | inl e ↦ rw e (too_much output (b ∷ bytes) (all_bytes reads) h (ground (arith, e)))
          | inr e ↦
              let fits : length (b ∷ bytes) ≤ hard - length output = ground (arith, e) in
              rw (e, all_kept output (b ∷ bytes) (all_bytes reads) h fits)
                (read_from reads (output ++ b ∷ bytes)
                    (omega (arith, length-append output (b ∷ bytes), h, fits))
                  ∙ ap (λ z. ok (limited hard z))
                      (append_assoc output (b ∷ bytes) (all_bytes reads)))
        ]

-- However a stream whose reads succeed is cut into reads, its capture is that of its first bytes up
-- to the hard limit, with the mark that there were more.
pub capture_bash_stream-limited :
    (from_utf8_lossy : List ℕ → String) (reads : List (List ℕ)) (path name : String)
    (limits : BashOutputLimits)
    → capture_bash_stream from_utf8_lossy (succeeding reads) path name limits
      ≡ ok (captured from_utf8_lossy path limits (limited limits.hard_bytes (all_bytes reads)))
unfolding capture_bash_stream
capture_bash_stream-limited from_utf8_lossy reads path name limits =
    rw (read_from name limits.hard_bytes reads [] (omega arith)) refl

-- What the reads give before the end of the stream or a failure.
abbrev pub given : List (Result String (List ℕ)) → List ℕ
given [] = []
given (err e ∷ reads) = []
given (ok [] ∷ reads) = []
given (ok (b ∷ bytes) ∷ reads) = (b ∷ bytes) ++ given reads

module _ (name : String) (hard : ℕ) where
  -- A read that succeeds kept the first bytes up to the limit.
  read_given :
      (reads : List (Result String (List ℕ))) (output : List ℕ) (read : Read)
      → length output ≤ hard
      → read_stream name hard reads output ≡ ok read
      → read_ok (limited hard (output ++ given reads)) ≡ read_ok read
  unfolding read_stream
  read_given [] output read h e = sym (at_the_end name hard output h) ∙ e
  read_given (err x ∷ reads) output read h e = absurd (ground (arith, e))
  read_given (ok [] ∷ reads) output read h e = sym (at_the_end name hard output h) ∙ e
  read_given (ok (b ∷ bytes) ∷ reads) output read h e =
      elim (Bool-cases
        (ltb (min (length (b ∷ bytes)) (hard - length output)) (length (b ∷ bytes)))) [
          | inl c ↦
              sym (too_much name hard output (b ∷ bytes) (given reads) h (ground (arith, c)))
              ∙ rw c at e
          | inr c ↦
              let fits : length (b ∷ bytes) ≤ hard - length output = ground (arith, c) in
              ap (λ z. read_ok (limited hard z))
                (sym (append_assoc output (b ∷ bytes) (given reads)))
              ∙ read_given reads (output ++ b ∷ bytes) read
                  (omega (arith, length-append output (b ∷ bytes), h, fits))
                  (rw (c, all_kept name hard output (b ∷ bytes) (given reads) h fits) at e)
        ]

-- The bounds of a capture of some bytes: `raw` is the decoding of those within the hard limit, the
-- text is the start of it that has at most the characters that it may have, and without a mark it
-- is the decoding of all the bytes.
pub record Bounded (from_utf8_lossy : List ℕ → String) (bytes : List ℕ) (limits : BashOutputLimits)
    (c : CapturedBashStream) : Type 0 where
  pub rest : String
  pub begins : from_utf8_lossy (take limits.hard_bytes bytes) ≡ joined c.text rest
  pub few_chars : chars_count c.text ≤ limits.truncate_chars
  pub counted : c.raw_chars ≡ chars_count (from_utf8_lossy (take limits.hard_bytes bytes))
  pub complete : c.truncated ≡ false → c.text ≡ from_utf8_lossy bytes
  pub exceeded : c.hard_limit_exceeded ≡ ltb limits.hard_bytes (length bytes)
  pub marked : c.hard_limit_exceeded ≡ true → c.truncated ≡ true

truncated_text :
    (value : String) (n : ℕ) → chars_count (truncate_chars value n) ≡ min n (chars_count value)
unfolding truncate_chars
truncated_text value n = elim (Bool-cases (n == 0)) [
  | inl e ↦ rw e (ground (arith, e))
  | inr e ↦ elim (Bool-cases (ltb n (chars_count value))) [
    | inl f ↦ rw (e, f) (chars_count-take_chars n value)
    | inr f ↦ rw (e, f) (ground (arith, f))
  ]
]

-- A text begins with its first characters.
take_chars_begins : (n : ℕ) (s : String) → (rest : String) × (s ≡ joined (take_chars n s) rest)
unfolding take_chars
take_chars_begins zero s = (s, sym (append.nil s))
take_chars_begins (suc n) [] = ([], sym (append.nil []))
take_chars_begins (suc n) (c ∷ s) =
    let (rest, e) = take_chars_begins n s in
    (rest, ap (λ t. c ∷ t) e ∙ sym (append.cons c (take_chars n s) rest))

truncated_begins :
    (value : String) (n : ℕ) → (rest : String) × (value ≡ joined (truncate_chars value n) rest)
unfolding truncate_chars
truncated_begins value n = elim (Bool-cases (n == 0)) [
  | inl e ↦ rw e (value, sym (append.nil value))
  | inr e ↦ elim (Bool-cases (ltb n (chars_count value))) [
    | inl f ↦ rw (e, f) (take_chars_begins n value)
    | inr f ↦ rw (e, f) ("", sym (text_append-nil value))
  ]
]

no_chars : (s : String) → chars_count s ≡ 0 → s ≡ ""
unfolding chars_count
no_chars [] h = refl
no_chars (c ∷ s) h = absurd (omega (arith, h))

-- A text that was not cut is whole.
truncated_whole :
    (value : String) (n : ℕ)
    → chars_count (truncate_chars value n) ≡ chars_count value
    → truncate_chars value n ≡ value
unfolding truncate_chars
truncated_whole value n h =
    let fits : chars_count value ≤ n = omega (arith, h, truncated_text value n) in
    elim (Bool-cases (n == 0)) [
      | inl e ↦ rw e (sym (no_chars value (ground (arith, e, fits))))
      | inr e ↦ elim (Bool-cases (ltb n (chars_count value))) [
        | inl f ↦ absurd (ground (arith, f, fits))
        | inr f ↦ rw (e, f) refl
      ]
    ]

captured-Bounded :
    (from_utf8_lossy : List ℕ → String) (path : String) (limits : BashOutputLimits) (bytes : List ℕ)
    → Bounded from_utf8_lossy bytes limits
        (captured from_utf8_lossy path limits (limited limits.hard_bytes bytes))
captured-Bounded from_utf8_lossy path limits bytes =
    let raw = from_utf8_lossy (take limits.hard_bytes bytes) in
    let text = truncate_chars raw limits.truncate_chars in
    let (rest, e) = truncated_begins raw limits.truncate_chars in
    record {
      rest = rest;
      begins = e;
      few_chars = omega (arith, truncated_text raw limits.truncate_chars);
      counted = refl;
      complete = λ h.
          let same : chars_count text ≡ chars_count raw = ground (arith, h) in
          let all : length bytes ≤ limits.hard_bytes = ground (arith, h) in
          truncated_whole raw limits.truncate_chars same
          ∙ ap from_utf8_lossy (take_all limits.hard_bytes bytes all);
      exceeded = refl;
      marked = λ h. rw h refl;
    }

-- A capture that succeeds, whatever was read and however it is decoded, has the start of what the
-- bytes within the hard limit decode to, of at most the characters that it may have, and counts the
-- characters of all of that. If the capture is not marked as truncated, its text is the decoding of
-- all that was read. It says whether there were more bytes than the hard limit, and is marked then.
pub capture_bash_stream-Bounded :
    (from_utf8_lossy : List ℕ → String) (reads : List (Result String (List ℕ))) (path name : String)
    (limits : BashOutputLimits) (c : CapturedBashStream)
    → capture_bash_stream from_utf8_lossy reads path name limits ≡ ok c
    → Bounded from_utf8_lossy (given reads) limits c
unfolding capture_bash_stream
capture_bash_stream-Bounded from_utf8_lossy reads path name limits c h =
    from_read (read_stream name limits.hard_bytes reads []) refl h
  where
    from_read :
        (r : Result String Read)
        → read_stream name limits.hard_bytes reads [] ≡ r
        → captured_from from_utf8_lossy path limits r ≡ ok c
        → Bounded from_utf8_lossy (given reads) limits c
    from_read (err e) k g = absurd (ground (arith, g))
    from_read (ok read) k g =
        let same = read_given name limits.hard_bytes reads [] read (omega arith) k in
        subst (Bounded from_utf8_lossy (given reads) limits)
          (ap (captured from_utf8_lossy path limits) (ok_inj same) ∙ ok_inj g)
          (captured-Bounded from_utf8_lossy path limits (given reads))
