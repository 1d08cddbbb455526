-- ===== src/Base/Preserving.antt =====
-- Actions that leave a part of the state as it was, on success and on failure.
use mathlib.Core.Path.{◌≡◌, ◌∙◌}
use santi.Base.Exec.{Exec, Result, ok, err, continue, ◌>>=◌, second}

module _ {S X : Type 0} (view : S → X) where
  abbrev pub Preserving : {E A : Type 0} → Exec S E A → Type 0
  Preserving m = (s : S) → view (second (m s)) ≡ view s

  pub continue-Preserving :
      {E A B : Type 0} (s : S) (p : Result E A × S) (f : A → Exec S E B)
      → view (second p) ≡ view s
      → ((a : A) → Preserving (f a))
      → view (second (let (r, u) = p in continue r f u)) ≡ view s
  continue-Preserving s (ok a, u) f e h = h a u ∙ e
  continue-Preserving s (err x, u) f e h = e

  pub bind-Preserving :
      {E A B : Type 0} (m : Exec S E A) (f : A → Exec S E B)
      → Preserving m
      → ((a : A) → Preserving (f a))
      → Preserving (m >>= f)
  bind-Preserving m f k h s = continue-Preserving s (m s) f (k s) h
