-- ===== src/Base/Updates.antt =====
-- What a search finds after an update of the rows that it looks for, and what it found.
use mathlib.Core.Path.{◌≡◌, refl, ap, sym}
use mathlib.Core.Logic.{inl, inr}
use mathlib.Core.Bool.{Bool}
use mathlib.Core.Option.{Option, none, some}
use mathlib.Core.List.{List, [], ◌∷◌}
use native.Mathlib.Omega.{arith}
use santi.Base.Tests.{Bool-cases}
use santi.Base.Lists.{find_by, update_where}

-- An option is known by what is in it.
pub some_inj : {A : Type 0} {a : A} (b : A) → some a ≡ some b → b ≡ a
some_inj {A} {a} b h = ap (unwrap b) (sym h)
  where
    unwrap : A → Option A → A
    unwrap d none = d
    unwrap d (some c) = c

module _ {ℓ} {A : Type ℓ} (p : A → Bool) (f : A → A) (same : (x : A) → p (f x) ≡ p x) where
  pub updated_found :
      (x : A) (xs : List A) → find_by p xs ≡ some x → find_by p (update_where p f xs) ≡ some (f x)
  updated_found x [] h = absurd (ground (arith, h))
  updated_found x (y ∷ xs) h = elim (Bool-cases (p y)) [
    | inl e ↦ rw (e, same y, e) (ap (λ o. option_map f o) (rw e at h))
    | inr e ↦ rw (e, e) (updated_found x xs (rw e at h))
  ]
    where
      option_map : (A → A) → Option A → Option A
      option_map g none = none
      option_map g (some a) = some (g a)

  pub updated_missing : (xs : List A) → find_by p xs ≡ none → find_by p (update_where p f xs) ≡ none
  updated_missing [] h = refl
  updated_missing (y ∷ xs) h = elim (Bool-cases (p y)) [
    | inl e ↦ absurd (ground (arith, rw e at h))
    | inr e ↦ rw (e, e) (updated_missing xs (rw e at h))
  ]
