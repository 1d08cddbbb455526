-- ===== src/Base/Exec.antt =====
-- Fallible code: a result, and an action on a state that may fail. What was written before a
-- failure stays written, so the state comes back beside the error too.
use mathlib.Core.Path.{◌≡◌, refl, ap}
use mathlib.Core.Option.{Option, none, some}
use native.Mathlib.Omega.{arith}
use mathlib.Core.Logic.{◌⊎◌, inl, inr}

pub data Result (E A : Type 0) : Type 0 where
  ok : A → Result E A
  err : E → Result E A

abbrev pub and_then : {E A B : Type 0} → Result E A → (A → Result E B) → Result E B
and_then (ok a) f = f a
and_then (err e) f = err e

-- `Option::ok_or`.
abbrev pub ok_or : {E A : Type 0} → Option A → E → Result E A
ok_or (some a) e = ok a
ok_or none e = err e

-- `Result::map_err`.
abbrev pub map_err : {E F A : Type 0} → (E → F) → Result E A → Result F A
map_err f (ok a) = ok a
map_err f (err e) = err (f e)

-- An action on a state `S`.
abbrev pub Exec : Type 0 → Type 0 → Type 0 → Type 0
Exec S E A = S → Result E A × S

abbrev pub pure : {S E A : Type 0} → A → Exec S E A
pure a s = (ok a, s)

abbrev pub raise : {S E A : Type 0} → E → Exec S E A
raise e s = (err e, s)

abbrev pub lift : {S E A : Type 0} → Result E A → Exec S E A
lift r s = (r, s)

abbrev pub continue : {S E A B : Type 0} → Result E A → (A → Exec S E B) → Exec S E B
continue (ok a) f s = f a s
continue (err e) f s = (err e, s)

infixl 5 ◌>>=◌ ◌>>◌
abbrev pub ◌>>=◌ : {S E A B : Type 0} → Exec S E A → (A → Exec S E B) → Exec S E B
◌>>=◌ m f s = let (r, s') = m s in continue r f s'

abbrev pub ◌>>◌ : {S E A B : Type 0} → Exec S E A → Exec S E B → Exec S E B
m >> k = m >>= λ _. k

-- `.map_err(f)?` on an action.
abbrev pub map_error : {S E F A : Type 0} → (E → F) → Exec S E A → Exec S F A
map_error f m s = let (r, s') = m s in (map_err f r, s')

pub Result-cases :
    {E A : Type 0} (r : Result E A) → ((a : A) × (r ≡ ok a)) ⊎ ((e : E) × (r ≡ err e))
Result-cases (ok a) = inl (a, refl)
Result-cases (err e) = inr (e, refl)

pub ok_inj : {E A : Type 0} {a b : A} → ◌≡◌ {A = Result E A} (ok a) (ok b) → a ≡ b
ok_inj {E} {A} {a} h = ap (value a) h
  where
    value : A → Result E A → A
    value d (ok c) = c
    value d (err e) = d

-- How an action that succeeded ran: each of its parts succeeded.
module _ {S E A B : Type 0} where
  pub bind-ok :
      (m : Exec S E A) (f : A → Exec S E B) (s : S) (b : B) (u : S)
      → (m >>= f) s ≡ (ok b, u)
      → (a : A) × (t : S) × (m s ≡ (ok a, t)) × (f a t ≡ (ok b, u))
  bind-ok m f s b u h = split (m s) refl h
    where
      split :
          (p : Result E A × S)
          → m s ≡ p
          → (let (r, t) = p in continue r f t) ≡ (ok b, u)
          → (a : A) × (t : S) × (m s ≡ (ok a, t)) × (f a t ≡ (ok b, u))
      split (ok a, t) e k = (a, t, e, k)
      split (err x, t) e k = absurd (ground (arith, k))

abbrev pub second : {X Y : Type 0} → X × Y → Y
second (x, y) = y

abbrev pub first : {X Y : Type 0} → X × Y → X
first (x, y) = x
