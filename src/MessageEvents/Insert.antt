-- ===== src/MessageEvents/Insert.antt =====
-- crates/santi-db/src/message_events.rs, the `Insert` payload: the parts before and after.
use mathlib.Core.List.{map, Perm, perm_middle}
use mathlib.Core.List.Perm
use santi.Base.{
  ℕ, zero, suc, ◌≡◌, inl, inr, List, [], ◌∷◌, ◌++◌, arith, length, insert_at, Bool-cases, subst,
}
use santi.Base.Int.{leb_ℤ}
use santi.Base.Exec.{ok, Result-cases}
use santi.Model.Message.{MessagePart, MessageInsertItem}
use santi.MessageEvents.Apply.{valid_insert_index, insert_items, sort_items, sort_item}

insert_at-perm :
    (xs : List MessagePart) (i : ℕ) (v : MessagePart) → Perm (insert_at xs i v) (v ∷ xs)
insert_at-perm xs zero v = Perm.refl (v ∷ xs)
insert_at-perm [] (suc i) v = Perm.refl (v ∷ [])
insert_at-perm (x ∷ xs) (suc i) v =
    Perm.trans (Perm.cons x (insert_at-perm xs i v)) (Perm.swap v x xs)

sort_item-perm :
    (x : MessageInsertItem) (ys : List MessageInsertItem) → Perm (sort_item x ys) (x ∷ ys)
unfolding sort_item
sort_item-perm x [] = Perm.refl (x ∷ [])
sort_item-perm x (y ∷ ys) = elim (Bool-cases (leb_ℤ x.index y.index)) [
  | inl e ↦ rw e (Perm.refl (x ∷ y ∷ ys))
  | inr e ↦ rw e (Perm.trans (Perm.cons y (sort_item-perm x ys)) (Perm.swap x y ys))
]

sort_items-perm : (xs : List MessageInsertItem) → Perm (sort_items xs) xs
unfolding sort_items
sort_items-perm [] = Perm.refl []
sort_items-perm (x ∷ xs) =
    Perm.trans (sort_item-perm x (sort_items xs)) (Perm.cons x (sort_items-perm xs))

abbrev pub item_parts : List MessageInsertItem → List MessagePart
item_parts = map λ item. item.part

insert_items-perm :
    (items : List MessageInsertItem) (parts out : List MessagePart)
    → insert_items parts items ≡ ok out
    → Perm out (item_parts items ++ parts)
unfolding insert_items
insert_items-perm [] parts out h = subst (λ o. Perm o parts) (ground arith) (Perm.refl parts)
insert_items-perm (x ∷ xs) parts out h =
    elim (Result-cases (valid_insert_index (length parts) x.index)) [
      | inl (i, e) ↦
          let ih = insert_items-perm xs (insert_at parts i x.part) out (ground (arith, e)) in
          Perm.trans ih (
            Perm.trans (Perm.append (Perm.refl (item_parts xs)) (insert_at-perm parts i x.part))
              (perm_middle (item_parts xs) parts))
      | inr (f, e) ↦ absurd (ground arith)
    ]

-- An accepted insertion, whatever the order of its items, gives the old parts and the inserted
-- ones, each as often as before, and no other.
pub insert-perm :
    (items : List MessageInsertItem) (parts out : List MessagePart)
    → insert_items parts (sort_items items) ≡ ok out
    → Perm out (item_parts items ++ parts)
insert-perm items parts out h =
    Perm.trans (insert_items-perm (sort_items items) parts out h)
      (Perm.append (Perm.map (λ item. item.part) (sort_items-perm items)) (Perm.refl parts))
