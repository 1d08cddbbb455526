-- ===== src/Base/Int.antt =====
-- Rust's `i64` where a caller may pass a negative number; `negsuc n` is -(n + 1).
use Prim.Native.Nat.{ℕ, suc}
use mathlib.Core.Bool.{Bool, true, false}
use mathlib.Core.List.{[], ◌∷◌}
use Prim.Native.String.{String}
use santi.Base.Tests.{leb, ◌==◌}
use santi.Base.Texts.{format, decimal}

pub data ℤ : Type 0 where
  pos : ℕ → ℤ
  negsuc : ℕ → ℤ

-- `a <= b`.
abbrev pub leb_ℤ : ℤ → ℤ → Bool
leb_ℤ (pos a) (pos b) = leb a b
leb_ℤ (pos a) (negsuc b) = false
leb_ℤ (negsuc a) (pos b) = true
leb_ℤ (negsuc a) (negsuc b) = leb b a

-- `a == b`.
abbrev pub eq_ℤ : ℤ → ℤ → Bool
eq_ℤ (pos a) (pos b) = a == b
eq_ℤ (pos a) (negsuc b) = false
eq_ℤ (negsuc a) (pos b) = false
eq_ℤ (negsuc a) (negsuc b) = a == b

-- `{}` of an `i64`.
unfoldable pub decimal_ℤ : ℤ → String
unfolding decimal format
decimal_ℤ (pos n) = decimal n
decimal_ℤ (negsuc n) = format ("-" ∷ decimal (suc n) ∷ [])
