-- ===== src/Assembly/Input.antt =====
-- crates/santi-runtime/src/session/send/assembly.rs, `assembly_to_provider_input`: what a compact of everything leaves.
use santi.Base.{
  ℕ, suc, ◌+◌, ◌≤◌, ◌<◌, ◌≡◌, refl, sym, ap, ◌∙◌, inl, inr, true, false, not, Option, some, none,
  List, [], ◌∷◌, ◌++◌, map, arith, any, ◌==◌, filter_map, filter_map-append, length, In, here,
  there, not-In-nil, In-any, In-filter, filter-In, filter_map-In, In-filter_map, any-In, Bool-cases,
  subst, In-append_right, append-In, map-In, length-append,
}
use santi.Model.Session.{AssemblyTarget, AssemblyItem, Compact}
use santi.Assembly.{
  ProviderInputMessage, Range, enumerate, target_range, item_range, target_input, contains,
  assembly_to_provider_input, effective_compact_indexes, effective_ranges, compact_ranges, replaces,
  message_is_compacted, compact_to_input_message,
}
use santi.Assembly.Hidden.{
  covers, hidden-eq-covered, enumerate-In, target_range-index, contains-map, ranges-below,
}

filter_map-none {ℓ κ} :
    {A : Type ℓ} {B : Type κ} (f : A → Option B) (xs : List A)
    → ((x : A) → In x xs → f x ≡ none)
    → filter_map f xs ≡ []
filter_map-none f [] h = refl
filter_map-none f (x ∷ xs) h = rw (h x (here refl)) (filter_map-none f xs (λ y i. h y (there i)))

enumerate-append {ℓ} :
    {A : Type ℓ} (k : ℕ) (xs ys : List A)
    → enumerate k (xs ++ ys) ≡ enumerate k xs ++ enumerate (k + length xs) ys
enumerate-append k [] ys = ap (λ n. enumerate n ys) (omega arith)
enumerate-append k (x ∷ xs) ys = ap (◌∷◌ (k, x)) (
    enumerate-append (suc k) xs ys ∙ ap (λ n. enumerate (suc k) xs ++ enumerate n ys) (omega arith))

-- What the item sums up or says lies in the range of the compact.
abbrev pub WithinTarget : Compact → AssemblyTarget → Type 0
WithinTarget c (AssemblyTarget.message m) =
    (c.start_session_seq ≤ m.relation.session_seq) × (m.relation.session_seq ≤ c.end_session_seq)
WithinTarget c (AssemblyTarget.compact d) =
    (c.start_session_seq ≤ d.start_session_seq) × (d.end_session_seq ≤ c.end_session_seq)
WithinTarget c _ = Unit {0}

range-within :
    (c : Compact) (k : ℕ) (t : AssemblyTarget) (r : Range)
    → target_range k t ≡ some r
    → WithinTarget c t
    → (c.start_session_seq ≤ r.start) × (r.end ≤ c.end_session_seq)
range-within c k (AssemblyTarget.compact d) r e w = ground arith
range-within c k (AssemblyTarget.message m) r e w = absurd (ground arith)
range-within c k (AssemblyTarget.tool_call m) r e w = absurd (ground arith)
range-within c k (AssemblyTarget.tool_result m) r e w = absurd (ground arith)

contains-index :
    (k : ℕ) (rs : List Range)
    → contains (map (λ r. r.index) rs) k ≡ true
    → (r : Range) × In r rs × (r.index ≡ k)
contains-index k rs h =
    let (j, i, e) = any-In (◌==◌ k) (map (λ r. r.index) rs) h in
    let (r, l, f) = map-In (λ r. r.index) j rs i in (r, l, ground arith)

not-In-later {ℓ} : {A : Type ℓ} (k n : ℕ) (x y : A) → k < n → ¬ In (k, x) (enumerate n (y ∷ []))
not-In-later k n x y h (here e) = omega (arith, ap (λ p. p.0) e)
not-In-later k n x y h (there i) = not-In-nil _ i

zero_add : (n : ℕ) → 0 + n ≡ n
zero_add n = omega arith

module _ (items : List AssemblyItem) (last : AssemblyItem) (c : Compact)
    (is_last : last.target ≡ AssemblyTarget.compact c)
    (within : (item : AssemblyItem) → In item items → WithinTarget c item.target) where
  abbrev all_items : List AssemblyItem
  all_items = items ++ last ∷ []

  abbrev indexes : List ℕ
  indexes = effective_compact_indexes all_items

  abbrev last_range : Range
  last_range = record { index = length items; start = c.start_session_seq; end = c.end_session_seq }

  In-last : In last all_items
  In-last = In-append_right last items (last ∷ []) (here refl)

  In-last_range : In last_range (compact_ranges all_items)
  unfolding compact_ranges
  In-last_range =
      In-filter_map item_range (length items, last) last_range (enumerate 0 all_items)
        (subst (In (length items, last)) (sym (enumerate-append 0 items (last ∷ []))) (
          In-append_right (length items, last) (enumerate 0 items)
            (enumerate (0 + length items) (last ∷ [])) (here (ap (λ n. (n, last)) (omega arith)))))
        (rw is_last refl)

  message_left_out :
      (seq : ℕ)
      → c.start_session_seq ≤ seq
      → seq ≤ c.end_session_seq
      → message_is_compacted seq all_items indexes ≡ true
  message_left_out seq a b =
      hidden-eq-covered seq all_items
      ∙ In-any (covers seq) last all_items In-last (rw is_last (ground arith))

  earlier_item :
      (k : ℕ) (item : AssemblyItem)
      → k < length items
      → In (k, item) (enumerate 0 all_items)
      → In item items
  earlier_item k item h i =
      elim (append-In (k, item) (enumerate 0 items) (enumerate (0 + length items) (last ∷ []))
        (subst (In (k, item)) (enumerate-append 0 items (last ∷ [])) i)) [
          | inl j ↦ (enumerate-In 0 k item items j).0
          | inr j ↦ absurd (not-In-later k (0 + length items) item last (omega arith) j)
        ]

  -- Every range in front of the last one is replaced by it.
  range_replaced :
      (r : Range)
      → In r (compact_ranges all_items)
      → r.index < length items
      → any (replaces r) (compact_ranges all_items) ≡ true
  unfolding compact_ranges
  range_replaced r i h =
      let (x, j, e) = filter_map-In item_range r (enumerate 0 all_items) i in
      let k = target_range-index x.0 x.1.target r e in
      let item = earlier_item x.0 x.1 (omega (arith, k)) j in
      let w = range-within c x.0 x.1.target r e (within x.1 item) in
      In-any (replaces r) last_range (compact_ranges all_items) In-last_range
        (ground (arith, w.0, w.1))

  earlier_replaced : (k : ℕ) → k < length items → contains indexes k ≡ false
  unfolding effective_compact_indexes effective_ranges
  earlier_replaced k h = elim (Bool-cases (contains indexes k)) [
    | inr e ↦ e
    | inl e ↦
        let (r, i, f) = contains-index k (effective_ranges (compact_ranges all_items)) e in
        let (j, n) =
          filter-In (λ x. not (any (replaces x) (compact_ranges all_items))) r
            (compact_ranges all_items) i in
        absurd (ground (arith, n, range_replaced r j (omega (arith, f))))
  ]

  last_not_replaced : any (replaces last_range) (compact_ranges all_items) ≡ false
  last_not_replaced = elim (Bool-cases (any (replaces last_range) (compact_ranges all_items))) [
    | inr e ↦ e
    | inl e ↦
        let (s, i, f) = any-In (replaces last_range) (compact_ranges all_items) e in
        absurd (ground (arith, f, ranges-below 0 all_items s i, length-append items (last ∷ [])))
  ]

  last_effective : contains indexes (length items) ≡ true
  unfolding effective_compact_indexes effective_ranges
  last_effective = contains-map last_range (effective_ranges (compact_ranges all_items)) (
      In-filter (λ x. not (any (replaces x) (compact_ranges all_items))) last_range
        (compact_ranges all_items) In-last_range (rw last_not_replaced refl))

  target_silent :
      (k : ℕ) (t : AssemblyTarget)
      → k < length items
      → WithinTarget c t
      → target_input all_items indexes k t ≡ none
  unfolding target_input
  target_silent k (AssemblyTarget.message m) h w =
      rw (message_left_out m.relation.session_seq w.0 w.1)
  target_silent k (AssemblyTarget.compact d) h w = rw (earlier_replaced k h)
  target_silent k (AssemblyTarget.tool_call d) h w = refl
  target_silent k (AssemblyTarget.tool_result d) h w = refl

  last_spoken :
      target_input all_items indexes (length items) last.target ≡ compact_to_input_message c
  unfolding target_input
  last_spoken = rw (is_last, target_input, last_effective)

  abbrev said : ℕ × AssemblyItem → Option ProviderInputMessage
  said (index, item) = target_input all_items indexes index item.target

  -- When the last item is a compact whose range holds every message and every compact before it,
  -- the provider is sent that summary and nothing else, or nothing if the summary is blank.
  pub full_compact_alone :
      assembly_to_provider_input all_items ≡ filter_map compact_to_input_message (c ∷ [])
  unfolding assembly_to_provider_input
  full_compact_alone =
      ap (filter_map said) (enumerate-append 0 items (last ∷ []))
      ∙ filter_map-append said (enumerate 0 items) (enumerate (0 + length items) (last ∷ []))
      ∙ ap (λ xs. xs ++ filter_map said (enumerate (0 + length items) (last ∷ [])))
          (filter_map-none said (enumerate 0 items) λ x i.
            let (j, h) = enumerate-In 0 x.0 x.1 items i in
            target_silent x.0 x.1.target (omega arith) (within x.1 j))
      ∙ ap (λ n. filter_map said ((n, last) ∷ [])) (zero_add (length items))
      ∙ ap (λ o. filter_map (λ (z : Unit {0}). o) (tt ∷ [])) last_spoken
