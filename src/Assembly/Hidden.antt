-- ===== src/Assembly/Hidden.antt =====
-- crates/santi-runtime/src/session/send/assembly.rs, `message_is_compacted`: which messages the compacts hide.
use santi.Base.{
  ℕ, suc, ◌+◌, ◌≤◌, ◌<◌, ◌≡◌, refl, sym, ap, Bool, true, false, not, some, List, [], ◌∷◌, map,
  arith, any, length, In, here, there, not-In-nil, In-any, any-In, In-filter_map, filter_map-In,
  filter-In, Bool-eq_of_iff, if◌then◌else◌,
}
use santi.Model.Session.{AssemblyTarget, AssemblyItem}
use santi.Assembly.{
  Range, enumerate, target_range, item_range, target_covers, contains, compact_ranges, replaces,
  effective_ranges, effective_compact_indexes, message_is_compacted,
}
use santi.Assembly.Ranges.{effective_above}

abbrev pub covers : ℕ → AssemblyItem → Bool
covers seq item = target_covers seq item.target

pub enumerate-In {ℓ} :
    {A : Type ℓ} (k j : ℕ) (x : A) (xs : List A)
    → In (j, x) (enumerate k xs)
    → In x xs × (j < k + length xs)
enumerate-In k j x [] i = absurd (not-In-nil (j, x) i)
enumerate-In k j x (y ∷ ys) (here e) = (here (ap (λ p. p.1) e), omega (arith, ap (λ p. p.0) e))
enumerate-In k j x (y ∷ ys) (there i) =
    let (h, l) = enumerate-In (suc k) j x ys i in (there h, omega arith)

pub In-enumerate {ℓ} :
    {A : Type ℓ} (k : ℕ) (x : A) (xs : List A) → In x xs → (j : ℕ) × In (j, x) (enumerate k xs)
In-enumerate k x [] i = absurd (not-In-nil x i)
In-enumerate k x (y ∷ ys) (here e) = (k, here (ap (λ z. (k, z)) e))
In-enumerate k x (y ∷ ys) (there i) = let (j, h) = In-enumerate (suc k) x ys i in (j, there h)

covers-range :
    (seq k : ℕ) (t : AssemblyTarget)
    → target_covers seq t ≡ true
    → (r : Range) × (target_range k t ≡ some r) × (r.start ≤ seq) × (seq ≤ r.end)
covers-range seq k (AssemblyTarget.compact c) h = (
  record { index = k; start = c.start_session_seq; end = c.end_session_seq },
  refl,
  ground arith,
  ground arith,
)
covers-range seq k (AssemblyTarget.message m) h = absurd (ground arith)
covers-range seq k (AssemblyTarget.tool_call m) h = absurd (ground arith)
covers-range seq k (AssemblyTarget.tool_result m) h = absurd (ground arith)

range-covers :
    (seq k : ℕ) (t : AssemblyTarget) (s : Range)
    → target_range k t ≡ some s
    → s.start ≤ seq
    → seq ≤ s.end
    → (target_covers seq t ≡ true) × (s.index ≡ k)
range-covers seq k (AssemblyTarget.compact c) s e h l = (ground arith, ground arith)
range-covers seq k (AssemblyTarget.message m) s e h l = absurd (ground arith)
range-covers seq k (AssemblyTarget.tool_call m) s e h l = absurd (ground arith)
range-covers seq k (AssemblyTarget.tool_result m) s e h l = absurd (ground arith)

pub contains-map :
    (s : Range) (rs : List Range) → In s rs → contains (map (λ r. r.index) rs) s.index ≡ true
contains-map s [] i = absurd (not-In-nil s i)
contains-map s (r ∷ rs) (here e) = ground (arith, ap (λ x. x.index) e)
contains-map s (r ∷ rs) (there i) = ground (arith, contains-map s rs i)

pub target_range-index :
    (k : ℕ) (t : AssemblyTarget) (r : Range) → target_range k t ≡ some r → r.index ≡ k
target_range-index k (AssemblyTarget.compact c) r e = ground arith
target_range-index k _ r e = absurd (ground arith)

-- A test that asks for membership first.
abbrev hides : List ℕ → ℕ → ℕ × AssemblyItem → Bool
hides indexes seq (index, item) =
    if contains indexes index then target_covers seq item.target else false

module _ (seq : ℕ) (items : List AssemblyItem) where
  pub ranges-below : (r : Range) → In r (compact_ranges items) → r.index < length items
  unfolding compact_ranges
  ranges-below r i =
      let (x, j, e) = filter_map-In item_range r (enumerate 0 items) i in
      omega (arith, target_range-index x.0 x.1.target r e, (enumerate-In 0 x.0 x.1 items j).1)

  hidden-covered :
      message_is_compacted seq items (effective_compact_indexes items) ≡ true
      → any (covers seq) items ≡ true
  unfolding message_is_compacted
  hidden-covered h =
      let (x, j, e) = any-In (hides (effective_compact_indexes items) seq) (enumerate 0 items) h in
      In-any (covers seq) x.1 items (enumerate-In 0 x.0 x.1 items j).0 (ground arith)

  -- The item of an effective range hides what the range holds.
  range-hides :
      (s : Range)
      → In s (effective_ranges (compact_ranges items))
      → s.start ≤ seq
      → seq ≤ s.end
      → message_is_compacted seq items (effective_compact_indexes items) ≡ true
  unfolding message_is_compacted effective_compact_indexes compact_ranges effective_ranges
  range-hides s i h l =
      let inside =
        (filter-In (λ r. not (any (replaces r) (compact_ranges items))) s (compact_ranges items)
          i).0 in
      let (x, j, e) = filter_map-In item_range s (enumerate 0 items) inside in
      let c = range-covers seq x.0 x.1.target s e h l in
      let m = contains-map s (effective_ranges (compact_ranges items)) i in
      In-any (hides (effective_compact_indexes items) seq) x (enumerate 0 items) j
        (rw (sym c.1, m) c.0)

  In-ranges :
      (k : ℕ) (item : AssemblyItem) (r : Range)
      → In (k, item) (enumerate 0 items)
      → target_range k item.target ≡ some r
      → In r (compact_ranges items)
  unfolding compact_ranges
  In-ranges k item r j e = In-filter_map item_range (k, item) r (enumerate 0 items) j e

  covered-hidden :
      any (covers seq) items ≡ true
      → message_is_compacted seq items (effective_compact_indexes items) ≡ true
  covered-hidden h =
      let (item, i, c) = any-In (covers seq) items h in
      let (k, j) = In-enumerate 0 item items i in
      let (r, e, a, b) = covers-range seq k item.target c in
      let (s, l, q) =
        effective_above (compact_ranges items) (length items) ranges-below r
          (In-ranges k item r j e) in
      range-hides s l (omega (arith, q.start)) (omega (arith, q.end))

  -- A message is left out exactly when some compact of the assembly, effective or not, sums up its
  -- place.
  pub hidden-eq-covered :
      message_is_compacted seq items (effective_compact_indexes items) ≡ any (covers seq) items
  hidden-eq-covered = Bool-eq_of_iff _ _ hidden-covered covered-hidden
