-- ===== src/MessageEvents/Remove.antt =====
-- crates/santi-db/src/message_events.rs, the `Remove` payload: which parts stay.
use mathlib.Core.List.{map}
use santi.Base.{
  ℕ, zero, suc, ◌+◌, ◌≤◌, ◌<◌, ◌≡◌, refl, sym, ap, ◌∙◌, inl, inr, true, false, ◌||◌, List, [], ◌∷◌,
  arith, All, any, length, remove_at, ◌==◌, if◌then◌else◌, subst, ◌↔◌,
}
use santi.Base.Int.{ℤ, pos, negsuc, leb_ℤ, eq_ℤ}
use santi.Base.Exec.{ok, Result-cases}
use santi.Model.Message.{MessagePart}
use santi.MessageEvents.Apply.{
  valid_index, valid_indexes, unique_indexes, sort_index, remove_rev, remove_parts,
}

-- The specification: of the parts at place `k` and on, those whose place is not in the list.
abbrev pub keep_others {ℓ} : {A : Type ℓ} → List ℤ → ℕ → List A → List A
keep_others indexes k [] = []
keep_others indexes k (x ∷ xs) =
    let rest = keep_others indexes (suc k) xs in
    if any (eq_ℤ (pos k)) indexes then rest else x ∷ rest

-- Indexes that rise strictly and stay under a bound, from a place on.
abbrev Rising : ℕ → List ℕ → Type 0
Rising k [] = Unit {0}
Rising k (i ∷ is) = (k ≤ i) × Rising (suc i) is

abbrev keep_at {ℓ} : {A : Type ℓ} → List ℕ → ℕ → List A → List A
keep_at is k [] = []
keep_at is k (x ∷ xs) =
    let rest = keep_at is (suc k) xs in if any (◌==◌ k) is then rest else x ∷ rest

keep_at-nil : (k : ℕ) (xs : List MessagePart) → keep_at [] k xs ≡ xs
keep_at-nil k [] = refl
keep_at-nil k (x ∷ xs) = ap (◌∷◌ x) (keep_at-nil (suc k) xs)

Rising-any : (j k : ℕ) (is : List ℕ) → Rising k is → j < k → any (◌==◌ j) is ≡ false
Rising-any j k [] r h = refl
Rising-any j k (i ∷ is) r h = ground (arith, Rising-any j (suc i) is)

-- Past its own place an index plays no part.
keep_at-skip :
    (i k : ℕ) (is : List ℕ) (xs : List MessagePart)
    → i < k
    → keep_at (i ∷ is) k xs ≡ keep_at is k xs
keep_at-skip i k is [] h = refl
keep_at-skip i k is (x ∷ xs) h = ground (arith, keep_at-skip i (suc k) is xs)

keep_at-head :
    (d j k : ℕ) (is : List ℕ) (xs : List MessagePart)
    → j ≡ k + d
    → Rising (suc j) is
    → remove_at (keep_at is k xs) d ≡ keep_at (j ∷ is) k xs
keep_at-head d j k is [] e r = refl
keep_at-head zero j k is (x ∷ xs) e r =
    ground (arith, Rising-any k (suc j) is, keep_at-skip j (suc k) is xs)
keep_at-head (suc d) j k is (x ∷ xs) e r =
    ground (arith, Rising-any k (suc j) is, keep_at-head d j (suc k) is xs)

remove_rev-keep_at :
    (k : ℕ) (is : List ℕ) (xs : List MessagePart) → Rising k is → remove_rev is xs ≡ keep_at is 0 xs
unfolding remove_rev
remove_rev-keep_at k [] xs r = sym (keep_at-nil 0 xs)
remove_rev-keep_at k (i ∷ is) xs r =
    rw (remove_rev-keep_at (suc i) is xs r.1) (keep_at-head i i 0 is xs (omega arith) r.1)

-- Sorting the raw indexes: they rise strictly, and hold the same indexes as before.
abbrev HeadLe : ℤ → List ℤ → Type 0
HeadLe x [] = Unit {0}
HeadLe x (y ∷ ys) = (leb_ℤ x y ≡ true) × (eq_ℤ x y ≡ false)

abbrev Sorted : List ℤ → Type 0
Sorted [] = Unit {0}
Sorted (x ∷ xs) = HeadLe x xs × Sorted xs

leb_ℤ_total : (x y : ℤ) → leb_ℤ x y ≡ false → leb_ℤ y x ≡ true
leb_ℤ_total x y h = ground arith

eq_ℤ_sym : (x y : ℤ) → eq_ℤ x y ≡ eq_ℤ y x
eq_ℤ_sym x y = ground arith

eq_ℤ_eq : (x y : ℤ) → eq_ℤ x y ≡ true → x ≡ y
eq_ℤ_eq x y h = ground arith

sort_index-head :
    (z x : ℤ) (ys : List ℤ)
    → leb_ℤ z x ≡ true
    → eq_ℤ z x ≡ false
    → HeadLe z ys
    → HeadLe z (sort_index x ys)
unfolding sort_index
sort_index-head z x [] h e l = (h, e)
sort_index-head z x (y ∷ ys) h e l = ground arith

sort_index-Sorted : (x : ℤ) (ys : List ℤ) → Sorted ys → Sorted (sort_index x ys)
unfolding sort_index
sort_index-Sorted x [] s = (tt, tt)
sort_index-Sorted x (y ∷ ys) s =
    ground
      (arith, sort_index-Sorted x ys s.1, sort_index-head y x ys, leb_ℤ_total x y, eq_ℤ_sym x y)

unique_indexes-Sorted : (xs : List ℤ) → Sorted (unique_indexes xs)
unfolding unique_indexes
unique_indexes-Sorted [] = tt
unique_indexes-Sorted (x ∷ xs) = sort_index-Sorted x (unique_indexes xs) (unique_indexes-Sorted xs)

any-sort_index :
    (k x : ℤ) (ys : List ℤ) → any (eq_ℤ k) (sort_index x ys) ≡ (eq_ℤ k x || any (eq_ℤ k) ys)
unfolding sort_index
any-sort_index k x [] = refl
any-sort_index k x (y ∷ ys) = ground (arith, any-sort_index k x ys, eq_ℤ_eq x y)

any-unique_indexes : (k : ℤ) (xs : List ℤ) → any (eq_ℤ k) (unique_indexes xs) ≡ any (eq_ℤ k) xs
unfolding unique_indexes
any-unique_indexes k [] = refl
any-unique_indexes k (x ∷ xs) =
    any-sort_index k x (unique_indexes xs) ∙ ap (◌||◌ (eq_ℤ k x)) (any-unique_indexes k xs)

keep_others-unique_indexes :
    (indexes : List ℤ) (k : ℕ) (xs : List MessagePart)
    → keep_others (unique_indexes indexes) k xs ≡ keep_others indexes k xs
keep_others-unique_indexes indexes k [] = refl
keep_others-unique_indexes indexes k (x ∷ xs) =
    ground
      (arith, any-unique_indexes (pos k) indexes, keep_others-unique_indexes indexes (suc k) xs)

-- An index that `valid_index` accepts.
abbrev pub IsIndex : ℕ → ℤ → Type 0
IsIndex len (pos i) = i < len
IsIndex len (negsuc i) = ⊥

module _ (P : ℤ → Type 0) where
  All-sort_index : (x : ℤ) (ys : List ℤ) → P x → All P ys → All P (sort_index x ys)
  unfolding sort_index
  All-sort_index x [] p a = (p, tt)
  All-sort_index x (y ∷ ys) p a = ground (arith, All-sort_index x ys p a.1)

  sort_index-All : (x : ℤ) (ys : List ℤ) → All P (sort_index x ys) → P x × All P ys
  unfolding sort_index
  sort_index-All x [] a = (a.0, tt)
  sort_index-All x (y ∷ ys) a = ground (arith, sort_index-All x ys, eq_ℤ_eq x y)

  All-unique_indexes : (xs : List ℤ) → All P xs → All P (unique_indexes xs)
  unfolding unique_indexes
  All-unique_indexes [] a = tt
  All-unique_indexes (x ∷ xs) a =
      All-sort_index x (unique_indexes xs) a.0 (All-unique_indexes xs a.1)

  unique_indexes-All : (xs : List ℤ) → All P (unique_indexes xs) → All P xs
  unfolding unique_indexes
  unique_indexes-All [] a = tt
  unique_indexes-All (x ∷ xs) a =
      let b = sort_index-All x (unique_indexes xs) a in (b.0, unique_indexes-All xs b.1)

-- What `valid_indexes` returns are the numbers of the list it was given.
valid_indexes-map :
    (len : ℕ) (xs : List ℤ) (is : List ℕ)
    → valid_indexes len xs ≡ ok is
    → All (IsIndex len) xs × (xs ≡ map pos is)
unfolding valid_indexes valid_index
valid_indexes-map len [] [] h = (tt, refl)
valid_indexes-map len [] (i ∷ is) h = cc
valid_indexes-map len (negsuc i ∷ xs) is h = absurd (ground arith)
valid_indexes-map len (pos i ∷ xs) is h = elim (Result-cases (valid_indexes len xs)) [
  | inl (js, e) ↦
      let ih = valid_indexes-map len xs js e in
      let f : is ≡ i ∷ js = ground arith in
      ((ground arith, ih.0), ap (◌∷◌ (pos i)) ih.1 ∙ ap (map pos) (sym f))
  | inr (f, e) ↦ absurd (ground arith)
]

valid_indexes_total :
    (len : ℕ) (xs : List ℤ) → All (IsIndex len) xs → (is : List ℕ) × (valid_indexes len xs ≡ ok is)
unfolding valid_indexes valid_index
valid_indexes_total len [] a = ([], refl)
valid_indexes_total len (negsuc i ∷ xs) a = absurd a.0
valid_indexes_total len (pos i ∷ xs) a =
    let (is, e) = valid_indexes_total len xs a.1 in (i ∷ is, ground (arith, e))

Rising-tail : (i : ℕ) (is : List ℕ) → Sorted (map pos (i ∷ is)) → Rising (suc i) is
Rising-tail i [] s = tt
Rising-tail i (j ∷ is) s = (ground arith, Rising-tail j is s.1)

Rising-map : (is : List ℕ) → Sorted (map pos is) → Rising 0 is
Rising-map [] s = tt
Rising-map (i ∷ is) s = (omega arith, Rising-tail i is s)

any-map : (k : ℕ) (is : List ℕ) → any (◌==◌ k) is ≡ any (eq_ℤ (pos k)) (map pos is)
any-map k [] = refl
any-map k (i ∷ is) = ap (◌||◌ (k == i)) (any-map k is)

keep_at-map :
    (is : List ℕ) (k : ℕ) (xs : List MessagePart) → keep_at is k xs ≡ keep_others (map pos is) k xs
keep_at-map is k [] = refl
keep_at-map is k (x ∷ xs) = ground (arith, any-map k is, keep_at-map is (suc k) xs)

module _ (parts : List MessagePart) (indexes : List ℤ) where
  remove-valid :
      (is : List ℕ)
      → valid_indexes (length parts) (unique_indexes indexes) ≡ ok is
      → remove_rev is parts ≡ keep_others indexes 0 parts
  remove-valid is h =
      let m = (valid_indexes-map (length parts) (unique_indexes indexes) is h).1 in
      let r = Rising-map is (subst Sorted m (unique_indexes-Sorted indexes)) in
      remove_rev-keep_at 0 is parts r
      ∙ keep_at-map is 0 parts
      ∙ ap (λ js. keep_others js 0 parts) (sym m)
      ∙ keep_others-unique_indexes indexes 0 parts

  removed-valid :
      (out : List MessagePart)
      → remove_parts parts indexes ≡ ok out
      → (is : List ℕ) × (valid_indexes (length parts) (unique_indexes indexes) ≡ ok is)
        × (out ≡ remove_rev is parts)
  unfolding remove_parts
  removed-valid out h = ground arith

  -- A removal succeeds exactly when every index that it names, repeated or not and in any order,
  -- is a place of the list; what is left is then the parts whose place is not named, in their
  -- order.
  pub remove-keep_others :
      (out : List MessagePart)
      → (remove_parts parts indexes ≡ ok out)
        ↔ (All (IsIndex (length parts)) indexes × (out ≡ keep_others indexes 0 parts))
  unfolding remove_parts
  remove-keep_others out = (
    λ h.
        let (is, e, o) = removed-valid out h in
        (
          unique_indexes-All (IsIndex (length parts)) indexes
              (valid_indexes-map (length parts) (unique_indexes indexes) is e).0,
          o ∙ remove-valid is e,
        ),
    λ (a, o).
        let (is, e) =
          valid_indexes_total (length parts) (unique_indexes indexes)
            (All-unique_indexes (IsIndex (length parts)) indexes a) in
        rw e (ap ok (remove-valid is e ∙ sym o)),
  )
