-- ===== src/Dictionary/Search.antt =====
-- The binary search of TreeFindPhrase in src/tree.c in a range of nodes.
use libchewing.Common.{
  ℕ, zero, suc, ◌+◌, ◌/◌, ◌≤◌, ◌<◌, ◌≡◌, ◌⊎◌, inl, inr, refl, sym, ◌∙◌, subst, true, false, none,
  some, List, get_elem?, ltb, leb, ◌==◌, ◌>>=◌, arith, length, get_elem?-total, some-inj,
  Bool-cases, Option-cases,
}
use libchewing.Dictionary.{TreeType, less, same, greater, comp_tree_type, search_range, bsearch}

-- The node at `j` of the range has the key.
pub record Found (tree : List TreeType) (key lo hi j : ℕ) : Type 0 where
  pub node : TreeType
  pub found : get_elem? tree j ≡ some node
  pub key_eq : node.key ≡ key
  pub after : lo ≤ j
  pub before : j < hi

-- The keys of a range do not fall.
abbrev pub SortedRange : List TreeType → ℕ → ℕ → Type 0
SortedRange tree lo hi =
    (j k : ℕ) (a b : TreeType)
    → lo ≤ j
    → j ≤ k
    → k < hi
    → get_elem? tree j ≡ some a
    → get_elem? tree k ≡ some b
    → a.key ≤ b.key

comp_tree_type-cases :
    (a b : ℕ)
    → ((comp_tree_type a b ≡ less) × (a < b))
      ⊎ (((comp_tree_type a b ≡ same) × (a ≡ b)) ⊎ ((comp_tree_type a b ≡ greater) × (b < a)))
unfolding comp_tree_type
comp_tree_type-cases a b = elim (Bool-cases (ltb a b)) [
  | inl lt ↦ inl (rw lt refl, ground arith)
  | inr ge ↦ elim (Bool-cases (a == b)) [
    | inl e ↦ inr (inl (rw (ge, e) refl, ground arith))
    | inr ne ↦ inr (inr (rw (ge, ne) refl, ground arith))
  ]
]

module _ (tree : List TreeType) (key : ℕ) where
  Found-widen :
      (lo hi lo' hi' j : ℕ)
      → lo' ≤ lo
      → hi ≤ hi'
      → Found tree key lo hi j
      → Found tree key lo' hi' j
  Found-widen lo hi lo' hi' j le le' r = record {
    node = r.node;
    found = r.found;
    key_eq = r.key_eq;
    after = omega (arith, r.after);
    before = omega (arith, r.before);
  }

  round-empty :
      (fuel lo hi : ℕ) → ltb lo hi ≡ false → search_range tree key (suc fuel) lo hi ≡ some none
  unfolding search_range
  round-empty fuel lo hi empty = rw (search_range, empty) refl

  round-fault :
      (fuel lo hi : ℕ)
      → ltb lo hi ≡ true
      → get_elem? tree ((lo + hi) / 2) ≡ none
      → search_range tree key (suc fuel) lo hi ≡ none
  unfolding search_range
  round-fault fuel lo hi nonempty gone = rw (search_range, nonempty, gone) refl

  -- A round of the search, by the result of the comparison.
  module _ (fuel lo hi : ℕ) (node : TreeType) (nonempty : ltb lo hi ≡ true)
      (at : get_elem? tree ((lo + hi) / 2) ≡ some node) where
    round-less :
        comp_tree_type key node.key ≡ less
        → search_range tree key (suc fuel) lo hi ≡ search_range tree key fuel lo ((lo + hi) / 2)
    unfolding search_range
    round-less e = rw (nonempty, at, ◌>>=◌, search_range, e) refl

    round-same :
        comp_tree_type key node.key ≡ same
        → search_range tree key (suc fuel) lo hi ≡ some (some ((lo + hi) / 2))
    unfolding search_range
    round-same e = rw (nonempty, at, ◌>>=◌, search_range, e) refl

    round-greater :
        comp_tree_type key node.key ≡ greater
        → search_range tree key (suc fuel) lo hi ≡ search_range tree key fuel ((lo + hi) / 2 + 1) hi
    unfolding search_range
    round-greater e = rw (nonempty, at, ◌>>=◌, search_range, e) refl

  search_range-Found :
      (fuel lo hi j : ℕ) → search_range tree key fuel lo hi ≡ some (some j) → Found tree key lo hi j
  unfolding search_range
  search_range-Found zero lo hi j h = absurd (ground arith)
  search_range-Found (suc fuel) lo hi j h = elim (Bool-cases (ltb lo hi)) [
    | inr empty ↦ let h' = sym (round-empty fuel lo hi empty) ∙ h in absurd (ground arith)
    | inl nonempty ↦ elim (Option-cases (get_elem? tree ((lo + hi) / 2))) [
      | inl gone ↦ let h' = sym (round-fault fuel lo hi nonempty gone) ∙ h in absurd (ground arith)
      | inr (node, at) ↦
          let lt : lo < hi = ground arith in
          elim (comp_tree_type-cases key node.key) [
            | inl (e, _) ↦ Found-widen lo ((lo + hi) / 2) lo hi j (omega arith) (omega arith) (
                search_range-Found fuel lo ((lo + hi) / 2) j
                  (sym (round-less fuel lo hi node nonempty at e) ∙ h))
            | inr (inl (e, equal)) ↦
                let here : (lo + hi) / 2 ≡ j =
                  some-inj (some-inj (sym (round-same fuel lo hi node nonempty at e) ∙ h)) in
                record {
                  node = node;
                  found = subst (λ q. get_elem? tree q ≡ some node) here at;
                  key_eq = sym equal;
                  after = omega (arith, here);
                  before = omega (arith, here);
                }
            | inr (inr (e, _)) ↦
                Found-widen ((lo + hi) / 2 + 1) hi lo hi j (omega arith) (omega arith) (
                  search_range-Found fuel ((lo + hi) / 2 + 1) hi j
                    (sym (round-greater fuel lo hi node nonempty at e) ∙ h))
          ]
    ]
  ]

  SortedRange-narrow :
      (lo hi lo' hi' : ℕ) → lo ≤ lo' → hi' ≤ hi → SortedRange tree lo hi → SortedRange tree lo' hi'
  SortedRange-narrow lo hi lo' hi' le le' s =
      λ j k a b lo_j j_k k_hi. s j k a b (omega arith) j_k (omega arith)

  -- In a sorted range that holds the key, the search finds some place of it; as many rounds as the
  -- range has nodes are enough.
  search_range_complete :
      (fuel lo hi j : ℕ)
      → hi ≤ lo + fuel
      → hi ≤ length tree
      → SortedRange tree lo hi
      → Found tree key lo hi j
      → (k : ℕ) × (search_range tree key fuel lo hi ≡ some (some k))
  unfolding search_range
  search_range_complete zero lo hi j enough fits s r = absurd (omega (arith, r.after, r.before))
  search_range_complete (suc fuel) lo hi j enough fits s r =
      let nonempty : ltb lo hi ≡ true = ground (arith, r.after, r.before) in
      let lt : lo < hi = omega (arith, r.after, r.before) in
      let mid = (lo + hi) / 2 in
      let (node, at) = get_elem?-total tree mid (omega arith) in
      elim (comp_tree_type-cases key node.key) [
        | inr (inl (e, equal)) ↦ (mid, round-same fuel lo hi node nonempty at e)
        | inl (e, lt_key) ↦
            let early : j < mid = (elim (Bool-cases (leb mid j)) [
              | inl later ↦
                  let le = s mid j node r.node (omega arith) (ground arith) r.before at r.found in
                  absurd (omega (arith, r.key_eq))
              | inr sooner ↦ ground arith
            ]) in
            let (k, rest) =
              search_range_complete fuel lo mid j (omega arith) (omega arith)
                (SortedRange-narrow lo hi lo mid (omega arith) (omega arith) s)
                (record {
                  node = r.node;
                  found = r.found;
                  key_eq = r.key_eq;
                  after = r.after;
                  before = early;
                }) in
            (k, round-less fuel lo hi node nonempty at e ∙ rest)
        | inr (inr (e, lt_key)) ↦
            let late : mid < j = (elim (Bool-cases (ltb mid j)) [
              | inl later ↦ ground arith
              | inr sooner ↦
                  let le = s j mid r.node node r.after (ground arith) (omega arith) r.found at in
                  absurd (omega (arith, r.key_eq))
            ]) in
            let (k, rest) =
              search_range_complete fuel (mid + 1) hi j (omega arith) fits
                (SortedRange-narrow lo hi (mid + 1) hi (omega arith) (omega arith) s)
                (record {
                  node = r.node;
                  found = r.found;
                  key_eq = r.key_eq;
                  after = omega arith;
                  before = r.before;
                }) in
            (k, round-greater fuel lo hi node nonempty at e ∙ rest)
      ]

  pub bsearch-Found :
      (count i j : ℕ) → bsearch tree key count i ≡ some (some j) → Found tree key i (i + count) j
  unfolding bsearch
  bsearch-Found count i j h = search_range-Found count i (i + count) j h

  pub bsearch_complete :
      (count i j : ℕ)
      → i + count ≤ length tree
      → SortedRange tree i (i + count)
      → Found tree key i (i + count) j
      → (k : ℕ) × (bsearch tree key count i ≡ some (some k))
  unfolding bsearch
  bsearch_complete count i j fits s r =
      search_range_complete count i (i + count) j (omega arith) fits s r
