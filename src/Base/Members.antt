-- ===== src/Base/Members.antt =====
-- Membership by recursion, and what the iterator methods do to it.
use mathlib.Core.Bool.{false, not}
use mathlib.Core.Path.{◌≡◌, refl, sym, ap, ◌∙◌}
use mathlib.Core.Logic.{◌⊎◌, inl, inr}
use mathlib.Core.Bool.{Bool, true}
use mathlib.Core.Option.{Option, some}
use mathlib.Core.List.{List, [], ◌∷◌, ◌++◌, map}
use native.Mathlib.Omega.{arith}
use santi.Base.Tests.{Bool-cases, Option-cases}
use santi.Base.Lists.{any, filter, filter_map, find_by}

pub data In {ℓ} {A : Type ℓ} (x : A) : List A → Type ℓ where
  here : {y : A} {ys : List A} → x ≡ y → In x (y ∷ ys)
  there : {y : A} {ys : List A} → In x ys → In x (y ∷ ys)

module _ {ℓ} {A : Type ℓ} where
  pub not-In-nil : (x : A) → ¬ In x []
  not-In-nil x i = elim i [ ]

  pub In-any : (p : A → Bool) (x : A) (xs : List A) → In x xs → p x ≡ true → any p xs ≡ true
  In-any p x [] i h = absurd (not-In-nil x i)
  In-any p x (y ∷ ys) (here e) h = ground (arith, ap p e)
  In-any p x (y ∷ ys) (there i) h = ground (arith, In-any p x ys i h)

  pub any-In : (p : A → Bool) (xs : List A) → any p xs ≡ true → (x : A) × In x xs × (p x ≡ true)
  any-In p [] h = absurd (ground arith)
  any-In p (x ∷ xs) h = elim (Bool-cases (p x)) [
    | inl e ↦ (x, here refl, e)
    | inr e ↦ let (y, i, q) = any-In p xs (ground arith) in (y, there i, q)
  ]

  pub In-filter : (p : A → Bool) (x : A) (xs : List A) → In x xs → p x ≡ true → In x (filter p xs)
  In-filter p x [] i h = absurd (not-In-nil x i)
  In-filter p x (y ∷ ys) (here e) h = rw (ap p (sym e) ∙ h) (here e)
  In-filter p x (y ∷ ys) (there i) h = elim (Bool-cases (p y)) [
    | inl e ↦ rw e (there (In-filter p x ys i h))
    | inr e ↦ rw e (In-filter p x ys i h)
  ]

  pub filter-In : (p : A → Bool) (x : A) (xs : List A) → In x (filter p xs) → In x xs × (p x ≡ true)
  filter-In p x [] i = absurd (not-In-nil x i)
  filter-In p x (y ∷ ys) i = elim (Bool-cases (p y)) [
    | inl e ↦ elim (rw e at i) [
      | here q ↦ (here q, ap p q ∙ e)
      | there j ↦ let (k, h) = filter-In p x ys j in (there k, h)
    ]
    | inr e ↦ let (k, h) = filter-In p x ys (rw e at i) in (there k, h)
  ]

  pub find_by-In :
      (p : A → Bool) (x : A) (xs : List A) → find_by p xs ≡ some x → In x xs × (p x ≡ true)
  find_by-In p x [] h = absurd (ground arith)
  find_by-In p x (y ∷ ys) h = elim (Bool-cases (p y)) [
    | inl e ↦ let q : x ≡ y = ground arith in (here q, ap p q ∙ e)
    | inr e ↦ let (k, q) = find_by-In p x ys (ground arith) in (there k, q)
  ]

module _ {ℓ} {A : Type ℓ} where
  pub In-append_left : (x : A) (xs ys : List A) → In x xs → In x (xs ++ ys)
  In-append_left x [] ys i = absurd (not-In-nil x i)
  In-append_left x (y ∷ xs) ys (here e) = here e
  In-append_left x (y ∷ xs) ys (there i) = there (In-append_left x xs ys i)

  pub In-append_right : (x : A) (xs ys : List A) → In x ys → In x (xs ++ ys)
  In-append_right x [] ys i = i
  In-append_right x (y ∷ xs) ys i = there (In-append_right x xs ys i)

  pub append-In : (x : A) (xs ys : List A) → In x (xs ++ ys) → In x xs ⊎ In x ys
  append-In x [] ys i = inr i
  append-In x (y ∷ xs) ys (here e) = inl (here e)
  append-In x (y ∷ xs) ys (there i) = elim (append-In x xs ys i) [
    | inl j ↦ inl (there j)
    | inr j ↦ inr j
  ]

module _ {ℓ κ} {A : Type ℓ} {B : Type κ} where
  pub In-map : (f : A → B) (x : A) (xs : List A) → In x xs → In (f x) (map f xs)
  In-map f x [] i = absurd (not-In-nil x i)
  In-map f x (y ∷ ys) (here e) = here (ap f e)
  In-map f x (y ∷ ys) (there i) = there (In-map f x ys i)

  pub map-In : (f : A → B) (y : B) (xs : List A) → In y (map f xs) → (x : A) × In x xs × (y ≡ f x)
  map-In f y [] i = absurd (not-In-nil y i)
  map-In f y (x ∷ xs) (here e) = (x, here refl, e)
  map-In f y (x ∷ xs) (there i) = let (z, j, e) = map-In f y xs i in (z, there j, e)

  pub In-filter_map :
      (f : A → Option B) (x : A) (y : B) (xs : List A)
      → In x xs
      → f x ≡ some y
      → In y (filter_map f xs)
  In-filter_map f x y [] i h = absurd (not-In-nil x i)
  In-filter_map f x y (z ∷ zs) (here e) h = rw (ap f (sym e) ∙ h) (here refl)
  In-filter_map f x y (z ∷ zs) (there i) h = elim (Option-cases (f z)) [
    | inl e ↦ rw e (In-filter_map f x y zs i h)
    | inr (w, e) ↦ rw e (there (In-filter_map f x y zs i h))
  ]

  pub filter_map-In :
      (f : A → Option B) (y : B) (xs : List A)
      → In y (filter_map f xs)
      → (x : A) × In x xs × (f x ≡ some y)
  filter_map-In f y [] i = absurd (not-In-nil y i)
  filter_map-In f y (z ∷ zs) i = elim (Option-cases (f z)) [
    | inl e ↦ let (x, k, h) = filter_map-In f y zs (rw e at i) in (x, there k, h)
    | inr (w, e) ↦ elim (rw e at i) [
      | here q ↦ (z, here refl, e ∙ ap some (sym q))
      | there j ↦ let (x, k, h) = filter_map-In f y zs j in (x, there k, h)
    ]
  ]

module _ {ℓ} {A : Type ℓ} where
  -- What a query finds is found first after more rows are added.
  pub find_by-append_found :
      (p : A → Bool) (x : A) (xs ys : List A)
      → find_by p xs ≡ some x
      → find_by p (xs ++ ys) ≡ some x
  find_by-append_found p x [] ys h = absurd (ground (arith, h))
  find_by-append_found p x (y ∷ xs) ys h = ground (arith, h, find_by-append_found p x xs ys)

  pub find_by-append_last :
      (p : A → Bool) (xs : List A) (x : A)
      → any p xs ≡ false
      → p x ≡ true
      → find_by p (xs ++ x ∷ []) ≡ some x
  find_by-append_last p [] x h q = ground (arith, q)
  find_by-append_last p (y ∷ xs) x h q = ground (arith, h, q, find_by-append_last p xs x)

  -- A filter that keeps every row changes nothing.
  pub filter_all :
      (p q : A → Bool) (xs : List A)
      → ((x : A) → q x ≡ not (p x))
      → any p xs ≡ false
      → filter q xs ≡ xs
  filter_all p q [] e h = refl
  filter_all p q (x ∷ xs) e h = ground (arith, e x, h, filter_all p q xs e)
