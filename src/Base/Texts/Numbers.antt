-- ===== src/Base/Texts/Numbers.antt =====
-- The decimal printing of a number, read back.
use Prim.Native.Nat.{ℕ, zero, suc, ◌+◌, ◌-◌, ◌*◌, ◌/◌, ◌%◌, ◌≤◌, ◌<◌}
use native.Mathlib.Omega.{arith}
use Prim.Native.Char.{Char, code}
use Prim.Native.String.{String, [], ◌∷◌, ◌++◌}
use Prim.Native.String.append
use mathlib.Core.Path.{◌≡◌, sym, ap, ◌∙◌}
use mathlib.Core.Logic.{inl, inr}
use santi.Base.Tests.{Bool-cases, ltb}
use santi.Base.Texts.{digit, decimal_from, decimal}

-- The number that the digits of a text spell behind `n`.
unfoldable value : ℕ → String → ℕ
value n [] = n
value n (c ∷ s) = value (n * 10 + (code c - 48)) s

value-char :
    (c : Char) (n : ℕ) (s : String) → value n ((c ∷ []) ++ s) ≡ value (n * 10 + (code c - 48)) s
unfolding value
value-char c n s = ap (value n) (append.cons c [] s ∙ ap (λ t. c ∷ t) (append.nil s))

value-digit : (d n : ℕ) (s : String) → d < 10 → value n (digit d ++ s) ≡ value (n * 10 + d) s
unfolding value
value-digit zero n s h = value-char "0" n s
value-digit (suc zero) n s h = value-char "1" n s
value-digit (suc (suc zero)) n s h = value-char "2" n s
value-digit (suc (suc (suc zero))) n s h = value-char "3" n s
value-digit (suc (suc (suc (suc zero)))) n s h = value-char "4" n s
value-digit (suc (suc (suc (suc (suc zero))))) n s h = value-char "5" n s
value-digit (suc (suc (suc (suc (suc (suc zero)))))) n s h = value-char "6" n s
value-digit (suc (suc (suc (suc (suc (suc (suc zero))))))) n s h = value-char "7" n s
value-digit (suc (suc (suc (suc (suc (suc (suc (suc zero)))))))) n s h = value-char "8" n s
value-digit (suc (suc (suc (suc (suc (suc (suc (suc (suc zero))))))))) n s h = value-char "9" n s
value-digit (suc (suc (suc (suc (suc (suc (suc (suc (suc (suc d)))))))))) n s h =
    absurd (omega (arith, h))

value-decimal_from :
    (fuel n : ℕ) (s : String) → n ≤ fuel → value 0 (decimal_from fuel n s) ≡ value n s
unfolding decimal_from
value-decimal_from zero n s h =
    value-digit (n % 10) 0 s (omega arith) ∙ ap (λ k. value k s) (omega (arith, h))
value-decimal_from (suc fuel) n s h = elim (Bool-cases (ltb n 10)) [
  | inl e ↦ rw e (value-digit n 0 s (ground (arith, e)) ∙ ap (λ k. value k s) (omega arith))
  | inr e ↦ rw e (
      value-decimal_from fuel (n / 10) (digit (n % 10) ++ s) (ground (arith, e, h))
      ∙ value-digit (n % 10) (n / 10) s (omega arith)
      ∙ ap (λ k. value k s) (omega arith))
]

-- Two numbers that print alike are the same.
pub decimal-injective : (n m : ℕ) → decimal n ≡ decimal m → n ≡ m
unfolding decimal value
decimal-injective n m h =
    sym (value-decimal_from n n "" (omega arith))
    ∙ ap (value 0) h
    ∙ value-decimal_from m m "" (omega arith)
