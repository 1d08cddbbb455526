-- ===== src/MessageEvents/Patch.antt =====
-- crates/santi-db/src/message_events.rs, the `Patch` payload.
use santi.Base.{
  ℕ, zero, suc, ◌≡◌, refl, ◌∙◌, inl, inr, false, List, [], ◌∷◌, arith, length, get_elem?, All, any,
  String, subst,
}
use santi.Base.Int.{ℤ, pos, negsuc, eq_ℤ}
use santi.Base.Exec.{ok, Result-cases}
use santi.Model.Message.{MessagePart, MessagePartPatch}
use santi.MessageEvents.Apply.{valid_index, apply_patches, patch_at}
use santi.MessageEvents.Remove.{IsIndex}

-- What a batch of patches may change: only the places that it names.
pub record Patched (patches : List MessagePartPatch) (parts out : List MessagePart) : Type 0 where
  pub in_range : All (λ p. IsIndex (length parts) p.index) patches
  pub same_length : length out ≡ length parts
  pub others :
      (k : ℕ)
      → any (λ p. eq_ℤ (pos k) p.index) patches ≡ false
      → get_elem? out k ≡ get_elem? parts k

patch_at-length :
    (parts out : List MessagePart) (i : ℕ) (p : MessagePartPatch)
    → patch_at parts i p ≡ ok out
    → length out ≡ length parts
unfolding patch_at
patch_at-length [] out i p h = ground arith
patch_at-length (x ∷ xs) out zero p h = ground arith
patch_at-length (x ∷ xs) out (suc i) p h = elim (Result-cases (patch_at xs i p)) [
  | inl (ys, e) ↦ ground (arith, patch_at-length xs ys i p e)
  | inr (f, e) ↦ absurd (ground arith)
]

patch_at-others :
    (parts out : List MessagePart) (i k : ℕ) (p : MessagePartPatch)
    → patch_at parts i p ≡ ok out
    → eq_ℤ (pos k) (pos i) ≡ false
    → get_elem? out k ≡ get_elem? parts k
unfolding patch_at
patch_at-others [] out i k p h n = ground arith
patch_at-others (x ∷ xs) out zero zero p h n = absurd (ground arith)
patch_at-others (x ∷ xs) out zero (suc k) p h n = ground arith
patch_at-others (x ∷ xs) out (suc i) k p h n = elim (Result-cases (patch_at xs i p)) [
  | inl (ys, e) ↦ step k (ground arith) n (λ j m. patch_at-others xs ys i j p e m)
  | inr (f, e) ↦ absurd (ground arith)
]
  where
    step :
        {ys : List MessagePart} (k : ℕ)
        → out ≡ x ∷ ys
        → eq_ℤ (pos k) (pos (suc i)) ≡ false
        → ((j : ℕ) → eq_ℤ (pos j) (pos i) ≡ false → get_elem? ys j ≡ get_elem? xs j)
        → get_elem? out k ≡ get_elem? (x ∷ xs) k
    step zero e n ih = rw e refl
    step (suc k) e n ih = rw e (ih k (ground arith))

valid_index-eq :
    (len : ℕ) (x : ℤ) (i : ℕ) (action : String)
    → valid_index len x action ≡ ok i
    → IsIndex len x × (x ≡ pos i)
unfolding valid_index
valid_index-eq len (pos j) i action h = (ground arith, ground arith)
valid_index-eq len (negsuc j) i action h = absurd (ground arith)

patches-step :
    (p : MessagePartPatch) (ps : List MessagePartPatch) (parts mid out : List MessagePart) (i : ℕ)
    → IsIndex (length parts) p.index
    → p.index ≡ pos i
    → patch_at parts i p ≡ ok mid
    → Patched ps mid out
    → Patched (p ∷ ps) parts out
patches-step p ps parts mid out i r e h k = record {
  in_range = (r, subst (λ n. All (λ q. IsIndex n q.index) ps) len k.in_range);
  same_length = k.same_length ∙ len;
  others = λ j n.
      k.others j (ground arith)
      ∙ patch_at-others parts mid i j p h (subst (λ z. eq_ℤ (pos j) z ≡ false) e (ground arith));
}
  where
    len : length mid ≡ length parts
    len = patch_at-length parts mid i p h

-- An accepted batch of patches names only places of the list, keeps the number of parts, and
-- leaves every part alone that it does not name.
pub apply_patches-Patched :
    (ps : List MessagePartPatch) (parts out : List MessagePart)
    → apply_patches parts ps ≡ ok out
    → Patched ps parts out
unfolding apply_patches
apply_patches-Patched [] parts out h =
    subst (Patched [] parts) (ground arith)
      (record { in_range = tt; same_length = refl; others = λ k n. refl })
apply_patches-Patched (p ∷ ps) parts out h =
    elim (Result-cases (valid_index (length parts) p.index "patch")) [
      | inr (f, e) ↦ absurd (ground arith)
      | inl (i, e) ↦ elim (Result-cases (patch_at parts i p)) [
        | inr (f, e') ↦ absurd (ground arith)
        | inl (mid, e') ↦
            let v = valid_index-eq (length parts) p.index i "patch" e in
            patches-step p ps parts mid out i v.0 v.1 e'
              (apply_patches-Patched ps mid out (ground (arith, e, e')))
      ]
    ]
