-- ===== src/Base/Texts.antt =====
-- Rust's `String` as the native text: `format!`, `join`, `trim`, and decimal printing.
pub mod Numbers
use Prim.Native.Nat.{ℕ, zero, suc, ◌/◌, ◌%◌, min}
use native.Mathlib.Omega.{arith}
use Prim.Native.Char.{Char, code}
use Prim.Native.String.{String, [], ◌∷◌, ◌++◌}
use mathlib.Core.Path.{◌≡◌, refl, ap, ◌∙◌}
use mathlib.Core.Logic.{inl, inr}
use text.Mathlib.TextEquality.{eq_iff}
use text.Mathlib.TextLemmas.{cons≢nil}
use Prim.Native.String.append
use mathlib.Core.Bool.{Bool, true, false, ◌&&◌, ◌||◌}
use mathlib.Core.List.{List}
use text.Mathlib.Text.{◌==◌ as str_eq}
use santi.Base.Tests.{Bool-cases, if◌then◌else◌, leb, ltb, ◌==◌}

-- `format!`: the pieces of a text, one after the other.
unfoldable pub format : List String → String
format List.[] = ""
format (List.◌∷◌ s rest) = s ++ format rest

-- `slice::join`.
unfoldable pub join : String → List String → String
join sep List.[] = ""
join sep (List.◌∷◌ s List.[]) = s
join sep (List.◌∷◌ s (List.◌∷◌ t rest)) = s ++ (sep ++ join sep (List.◌∷◌ t rest))

-- The code points with the property White_Space, which `char::is_whitespace` tests.
unfoldable pub is_whitespace : Char → Bool
is_whitespace c =
    let n = code c in
    (leb 9 n && leb n 13)
    || n == 32
    || n == 0x85
    || n == 0xA0
    || n == 0x1680
    || (leb 0x2000 n && leb n 0x200A)
    || n == 0x2028
    || n == 0x2029
    || n == 0x202F
    || n == 0x205F
    || n == 0x3000

unfoldable pub trim_start : String → String
trim_start [] = []
trim_start (c ∷ s) = let rest = trim_start s in if is_whitespace c then rest else c ∷ s

unfoldable pub trim_end : String → String
trim_end [] = []
trim_end (c ∷ s) =
    let rest = trim_end s in if is_whitespace c && str_eq rest "" then "" else c ∷ rest

-- `str::trim`.
unfoldable pub trim : String → String
unfolding trim_start trim_end is_whitespace
trim s = trim_end (trim_start s)

-- `str::is_empty`.
abbrev pub is_empty : String → Bool
is_empty s = str_eq s ""

-- `text.trim().is_empty()`.
unfoldable pub is_blank : String → Bool
unfolding trim
is_blank s = is_empty (trim s)

abbrev digit : ℕ → String
digit zero = "0"
digit (suc zero) = "1"
digit (suc (suc zero)) = "2"
digit (suc (suc (suc zero))) = "3"
digit (suc (suc (suc (suc zero)))) = "4"
digit (suc (suc (suc (suc (suc zero))))) = "5"
digit (suc (suc (suc (suc (suc (suc zero)))))) = "6"
digit (suc (suc (suc (suc (suc (suc (suc zero))))))) = "7"
digit (suc (suc (suc (suc (suc (suc (suc (suc zero)))))))) = "8"
digit _ = "9"

-- The digits of `n` before `acc`; `n` digits are always enough fuel.
decimal_from : ℕ → ℕ → String → String
decimal_from zero n acc = digit (n % 10) ++ acc
decimal_from (suc fuel) n acc =
    let rest = decimal_from fuel (n / 10) (digit (n % 10) ++ acc) in
    if ltb n 10 then digit n ++ acc else rest

-- `{}` of a number that is not negative.
unfoldable pub decimal : ℕ → String
unfolding decimal_from
decimal n = decimal_from n n ""

decimal_test : decimal 1205 ≡ "1205"
unfolding decimal
decimal_test = refl

trim_test : trim "  a b\n" ≡ "a b"
unfolding trim
trim_test = refl

join_test : join ", " (List.◌∷◌ "a" (List.◌∷◌ "b" List.[])) ≡ "a, b"
unfolding join
join_test = refl

cons_not_blank : (c : Char) (s : String) → is_whitespace c ≡ false → is_blank (c ∷ s) ≡ false
unfolding is_blank trim trim_start trim_end
cons_not_blank c s h =
    rw (h, h)
      (elim (Bool-cases (str_eq (c ∷ trim_end s) "")) [
        | inl e ↦ absurd (cons≢nil ((eq_iff (c ∷ trim_end s) "").0 e))
        | inr e ↦ e
      ])

-- A text that goes on after a character that is no space is not blank.
pub append-not_blank :
    (c : Char) (s t : String) → is_whitespace c ≡ false → is_blank ((c ∷ s) ++ t) ≡ false
append-not_blank c s t h = ap is_blank (append.cons c s t) ∙ cons_not_blank c (s ++ t) h

-- `chars().count()` and `chars().take(n).collect()`.
unfoldable pub chars_count : String → ℕ
chars_count [] = 0
chars_count (c ∷ s) = suc (chars_count s)

unfoldable pub take_chars : ℕ → String → String
take_chars zero s = ""
take_chars (suc n) [] = ""
take_chars (suc n) (c ∷ s) = c ∷ take_chars n s

pub chars_count-take_chars :
    (n : ℕ) (s : String) → chars_count (take_chars n s) ≡ min n (chars_count s)
unfolding chars_count take_chars
chars_count-take_chars zero s = omega arith
chars_count-take_chars (suc n) [] = omega arith
chars_count-take_chars (suc n) (c ∷ s) = omega (arith, chars_count-take_chars n s)

abbrev starts_at_root : String → Bool
starts_at_root [] = false
starts_at_root (c ∷ s) = code c == 0x2F

abbrev pub is_absolute : String → Bool
is_absolute path = starts_at_root path

-- Whether a text ends in `/`.
unfoldable pub ends_in_slash : String → Bool
ends_in_slash [] = false
ends_in_slash (c ∷ s) = let rest = ends_in_slash s in if str_eq s "" then code c == 0x2F else rest

-- `Path::join` on Unix: a path from the root replaces all.
unfoldable pub join_path : String → String → String
unfolding ends_in_slash
join_path base path =
    if is_absolute path || str_eq base ""
    then path
    else if ends_in_slash base
    then base ++ path
    else base ++ ("/" ++ path)

-- `<=` of two texts, by their bytes: UTF-8 keeps the order of the code points.
unfoldable pub text_leb : String → String → Bool
text_leb [] t = true
text_leb (c ∷ s) [] = false
text_leb (c ∷ s) (d ∷ t) =
    let rest = text_leb s t in ltb (code c) (code d) || (code c == code d && rest)

pub text_leb_total : (s t : String) → text_leb s t ≡ false → text_leb t s ≡ true
unfolding text_leb
text_leb_total [] t h = absurd (ground (arith, h))
text_leb_total (c ∷ s) [] h = refl
text_leb_total (c ∷ s) (d ∷ t) h = ground (arith, h, text_leb_total s t)
