-- ===== src/Store/Listed.antt =====
-- crates/santi-db/src/adapter/standalone/effect_ledger.rs: which effects a session's list has, and in
-- which order.
use mathlib.Core.List.{Perm}
use mathlib.Core.List.Perm
use santi.Base.{
  String, Bool, true, false, ◌≡◌, refl, List, [], ◌∷◌, filter, str_eq, Bool-cases, inl, inr,
}
use santi.Base.Texts.{text_leb, text_leb_total}
use santi.Base.Exec.{ok}
use santi.Model.Session.{SessionEffect}
use santi.Store.{Db}
use santi.Store.Listings.{place, order_by, list_effects}

module _ {A : Type 0} (before : A → A → Bool) where
  -- No element comes after the next one.
  abbrev pub HeadBefore : A → List A → Type 0
  HeadBefore x [] = Unit {0}
  HeadBefore x (y ∷ ys) = before x y ≡ true

  abbrev pub Ordered : List A → Type 0
  Ordered [] = Unit {0}
  Ordered (x ∷ xs) = HeadBefore x xs × Ordered xs

module _ {A : Type 0} (before : A → A → Bool)
    (total : (x y : A) → before x y ≡ false → before y x ≡ true) where
  place-perm : (x : A) (ys : List A) → Perm (place before x ys) (x ∷ ys)
  unfolding place
  place-perm x [] = Perm.refl (x ∷ [])
  place-perm x (y ∷ ys) = elim (Bool-cases (before x y)) [
    | inl e ↦ rw e (Perm.refl (x ∷ y ∷ ys))
    | inr e ↦ rw e (Perm.trans (Perm.cons y (place-perm x ys)) (Perm.swap x y ys))
  ]

  order_by-perm : (xs : List A) → Perm (order_by before xs) xs
  unfolding order_by
  order_by-perm [] = Perm.refl []
  order_by-perm (x ∷ xs) =
      Perm.trans (place-perm x (order_by before xs)) (Perm.cons x (order_by-perm xs))

  place-HeadBefore :
      (z x : A) (ys : List A)
      → before z x ≡ true
      → HeadBefore before z ys
      → HeadBefore before z (place before x ys)
  unfolding place
  place-HeadBefore z x [] h l = h
  place-HeadBefore z x (y ∷ ys) h l = elim (Bool-cases (before x y)) [
    | inl e ↦ rw e h
    | inr e ↦ rw e l
  ]

  place-Ordered : (x : A) (ys : List A) → Ordered before ys → Ordered before (place before x ys)
  unfolding place
  place-Ordered x [] h = (tt, tt)
  place-Ordered x (y ∷ ys) (l, h) = elim (Bool-cases (before x y)) [
    | inl e ↦ rw e (e, (l, h))
    | inr e ↦ rw e (place-HeadBefore y x ys (total x y e) l, place-Ordered x ys h)
  ]

  order_by-Ordered : (xs : List A) → Ordered before (order_by before xs)
  unfolding order_by
  order_by-Ordered [] = tt
  order_by-Ordered (x ∷ xs) = place-Ordered x (order_by before xs) (order_by-Ordered xs)

abbrev pub older : SessionEffect → SessionEffect → Bool
older a b = text_leb a.created_at b.created_at

-- The list of a session's effects has each effect of that session as often as the ledger, and no
-- other, by the text of their time of creation from the least to the greatest, and reading it
-- changes nothing.
pub list_effects-Ordered :
    (session_id : String) (s : Db)
    → (effects : List SessionEffect) × (list_effects session_id s ≡ (ok effects, s))
      × Perm effects (filter (λ e. str_eq e.session_id session_id) s.effects)
      × Ordered older effects
unfolding list_effects
list_effects-Ordered session_id s =
    let rows = filter (λ e. str_eq e.session_id session_id) s.effects in
    let total = λ (x y : SessionEffect). text_leb_total x.created_at y.created_at in
    (order_by older rows, refl, order_by-perm older total rows, order_by-Ordered older total rows)
