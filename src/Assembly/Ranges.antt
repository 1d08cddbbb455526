-- ===== src/Assembly/Ranges.antt =====
-- crates/santi-runtime/src/session/send/assembly.rs, `effective_compact_indexes`: the ranges that are replaced and those that replace them.
use santi.Base.{
  ℕ, zero, suc, ◌+◌, ◌≤◌, ◌<◌, ◌≡◌, inl, inr, true, not, List, arith, any, In, In-filter, any-In,
  Bool-cases,
}
use santi.Assembly.{Range, replaces, effective_ranges}

-- One range inside another.
pub record Inside (r s : Range) : Type 0 where
  pub start : s.start ≤ r.start
  pub end : r.end ≤ s.end

Inside-trans : (r s t : Range) → Inside r s → Inside s t → Inside r t
Inside-trans r s t h k = omega arith

replaces-Inside : (r s : Range) → replaces r s ≡ true → Inside r s
replaces-Inside r s h = ground arith

replaces-lt : (r s : Range) → replaces r s ≡ true → r.index < s.index
replaces-lt r s h = ground arith

module _ (ranges : List Range) (bound : ℕ)
    (below : (r : Range) → In r ranges → r.index < bound) where
  -- By induction on the places that are left behind the range.
  climb :
      (k : ℕ) (r : Range)
      → bound ≤ r.index + k
      → In r ranges
      → (s : Range) × In s (effective_ranges ranges) × Inside r s
  unfolding effective_ranges
  climb zero r h i = absurd (omega (arith, below r i))
  climb (suc k) r h i = elim (Bool-cases (any (replaces r) ranges)) [
    | inr e ↦ (
      r,
      In-filter (λ x. not (any (replaces x) ranges)) r ranges i (rw e),
      record { start = omega arith; end = omega arith },
    )
    | inl e ↦
        let (s, j, p) = any-In (replaces r) ranges e in
        let (t, l, q) = climb k s (omega (arith, replaces-lt r s p)) j in
        (t, l, Inside-trans r s t (replaces-Inside r s p) q)
  ]

  -- Every range lies inside an effective one.
  pub effective_above :
      (r : Range) → In r ranges → (s : Range) × In s (effective_ranges ranges) × Inside r s
  effective_above r i = climb bound r (omega arith) i
