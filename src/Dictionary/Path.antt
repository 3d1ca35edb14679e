-- ===== src/Dictionary/Path.antt =====
-- What TreeFindPhrase of src/tree.c finds, as paths through the tree.
use libchewing.Common.{
  ℕ, ◌+◌, ◌-◌, ◌≤◌, ◌<◌, ◌≡◌, ◌≢◌, ◌⊎◌, inl, inr, refl, sym, ap, ◌∙◌, subst, ◌↔◌, Option, none,
  some, List, [], ◌∷◌, get_elem?, leb, ◌!=◌, ◌>>=◌, ◌>>◌, ensure, arith, length, some-inj, le→leb,
  >>=-eq-some, Bool-cases,
}
use libchewing.Dictionary.Search.{Found, SortedRange, bsearch-Found, bsearch_complete}
use libchewing.Dictionary.{TreeType, bsearch, descend, whole_phrase, tree_find_phrase}

-- `child` is a child of `parent` with the key.
pub record IsChild (tree : List TreeType) (parent key child : ℕ) : Type 0 where
  pub above : TreeType
  pub node : TreeType
  pub parent_node : get_elem? tree parent ≡ some above
  pub child_node : get_elem? tree child ≡ some node
  pub key_eq : node.key ≡ key
  pub after : above.begin_or_pos ≤ child
  pub before : child < above.end_or_freq

-- A way down from a node along the phones.
pub data TreePath (tree : List TreeType) : ℕ → List ℕ → ℕ → Type 0 where
  here : {at : ℕ} → TreePath tree at [] at
  down :
      {at child last phone : ℕ} {phones : List ℕ}
      → IsChild tree at phone child
      → TreePath tree child phones last
      → TreePath tree at (phone ∷ phones) last

-- What `descend` does with the result of the search in one range.
abbrev resume : List TreeType → List ℕ → Option ℕ → Option (Option ℕ)
resume tree phones found = elim found [ none ↦ some none | some child ↦ descend tree phones child ]

IsChild-of_search :
    (tree : List TreeType) (key at child : ℕ) (above : TreeType)
    → get_elem? tree at ≡ some above
    → Found tree key above.begin_or_pos
        (above.begin_or_pos + (above.end_or_freq - above.begin_or_pos))
        child
    → IsChild tree at key child
IsChild-of_search tree key at child above e r = record {
  above = above;
  node = r.node;
  parent_node = e;
  child_node = r.found;
  key_eq = r.key_eq;
  after = r.after;
  before = omega (arith, r.after, r.before);
}

descend_further :
    (tree : List TreeType) (phone at last : ℕ) (phones : List ℕ) (above : TreeType)
    → get_elem? tree at ≡ some above
    → ((child : ℕ) → descend tree phones child ≡ some (some last) → TreePath tree child phones last)
    → (found : Option ℕ)
    → bsearch tree phone (above.end_or_freq - above.begin_or_pos) above.begin_or_pos ≡ some found
    → resume tree phones found ≡ some (some last)
    → TreePath tree at (phone ∷ phones) last
descend_further tree phone at last phones above e ih none s h = absurd (ground arith)
descend_further tree phone at last phones above e ih (some child) s h =
    down (IsChild-of_search tree phone at child above e (bsearch-Found tree phone _ _ child s))
      (ih child h)

descend-TreePath :
    (tree : List TreeType) (phones : List ℕ) (at last : ℕ)
    → descend tree phones at ≡ some (some last)
    → TreePath tree at phones last
unfolding descend
descend-TreePath tree [] at last h = let e : at ≡ last = cc in rw (← e) here
descend-TreePath tree (phone ∷ phones) at last h =
    let (node, is_at, h1) = >>=-eq-some (get_elem? tree at) _ h in
    let (_, ordered, h2) = >>=-eq-some (ensure (leb node.begin_or_pos node.end_or_freq)) _ h1 in
    let (found, searched, h3) =
      >>=-eq-some (bsearch tree phone (node.end_or_freq - node.begin_or_pos) node.begin_or_pos) _
        h2 in
    descend_further tree phone at last phones node is_at
      (λ child. descend-TreePath tree phones child last) found searched h3

abbrev pub AllNonzero : List ℕ → Type 0
AllNonzero [] = Unit
AllNonzero (phone ∷ phones) = (phone ≢ 0) × AllNonzero phones

-- The ranges of the root and of the nodes for phones are in the tree, their keys do not fall, and
-- the phones below a node differ.
pub record IsTree (tree : List TreeType) : Type 0 where
  pub ranges :
      (i : ℕ) (node : TreeType)
      → get_elem? tree i ≡ some node
      → (i ≡ 0) ⊎ (node.key ≢ 0)
      → (node.begin_or_pos ≤ node.end_or_freq) × (node.end_or_freq ≤ length tree)
  pub sorted :
      (i : ℕ) (node : TreeType)
      → get_elem? tree i ≡ some node
      → (i ≡ 0) ⊎ (node.key ≢ 0)
      → SortedRange tree node.begin_or_pos node.end_or_freq
  pub distinct : (i key j k : ℕ) → key ≢ 0 → IsChild tree i key j → IsChild tree i key k → j ≡ k

descend_complete :
    (tree : List TreeType)
    → IsTree tree
    → {at last : ℕ} {phones : List ℕ} → TreePath tree at phones last
    → AllNonzero phones
    → ((node : TreeType) → get_elem? tree at ≡ some node → (at ≡ 0) ⊎ (node.key ≢ 0))
    → descend tree phones at ≡ some (some last)
unfolding descend
descend_complete tree w here nz inner = refl
descend_complete tree w (down {at} {child} {last} {phone} {phones} c path) nz inner =
    let (ordered, inside) = w.ranges at c.above c.parent_node (inner c.above c.parent_node) in
    let r : Found tree phone c.above.begin_or_pos
        (c.above.begin_or_pos + (c.above.end_or_freq - c.above.begin_or_pos)) child =
      record {
        node = c.node;
        found = c.child_node;
        key_eq = c.key_eq;
        after = c.after;
        before = omega (arith, c.after, c.before, ordered);
      } in
    let (k, searched) =
      bsearch_complete tree phone _ _ child (omega (arith, ordered, inside))
        (λ j k a b lo le hi.
          w.sorted at c.above c.parent_node (inner c.above c.parent_node) j k a b lo le
            (omega (arith, ordered)))
        r in
    let same : k ≡ child =
      w.distinct at phone k child nz.0
        (IsChild-of_search tree phone at k c.above c.parent_node
          (bsearch-Found tree phone _ _ k searched))
        c in
    rw (c.parent_node, ◌>>=◌, le→leb _ _ ordered, ◌>>◌, searched, same)
      (descend_complete tree w path nz.1 (λ node e. inr (λ zero_key.
        nz.0 (sym c.key_eq ∙ ap TreeType.key (some-inj (sym c.child_node ∙ e)) ∙ zero_key))))

-- The first child of the node has the key 0: a phrase ends there.
pub record IsPhraseEnd (tree : List TreeType) (at : ℕ) : Type 0 where
  pub node : TreeType
  pub child : TreeType
  pub is_node : get_elem? tree at ≡ some node
  pub is_child : get_elem? tree node.begin_or_pos ≡ some child
  pub leaf : child.key ≡ 0

whole_phrase-IsPhraseEnd :
    (tree : List TreeType) (at found : ℕ)
    → whole_phrase tree at ≡ some (some found)
    → (at ≡ found) × IsPhraseEnd tree at
unfolding whole_phrase
whole_phrase-IsPhraseEnd tree at found h =
    let (node, is_node, h1) = >>=-eq-some (get_elem? tree at) _ h in
    let (child, is_child, h2) = >>=-eq-some (get_elem? tree node.begin_or_pos) _ h1 in
    elim (Bool-cases (child.key != 0)) [
      | inl half ↦ absurd (let h3 = rw half at h2 in ground arith)
      | inr leaf ↦ (
        let h3 = rw leaf at h2 in cc,
        record {
          node = node;
          child = child;
          is_node = is_node;
          is_child = is_child;
          leaf = ground arith;
        },
      )
    ]

finish_search :
    (tree : List TreeType) (phones : List ℕ) (at : ℕ) (found : Option ℕ)
    → descend tree phones 0 ≡ some found
    → (elim found [ none ↦ some none | some last ↦ whole_phrase tree last ]) ≡ some (some at)
    → TreePath tree 0 phones at × IsPhraseEnd tree at
finish_search tree phones at none s h = absurd (ground arith)
finish_search tree phones at (some last) s h =
    let (e, w) = whole_phrase-IsPhraseEnd tree last at h in
    (
      descend-TreePath tree phones 0 at (s ∙ ap (λ k. some (some k)) e),
      subst (IsPhraseEnd tree) e w,
    )

-- In a tree whose ranges are in place and sorted by their keys, and whose phones below a node differ,
-- `TreeFindPhrase` finds a node for phones that are not 0 exactly when the phones lead to the node from the root and a phrase
-- ends there.
pub tree_find_phrase-TreePath :
    (tree : List TreeType) (phones : List ℕ) (at : ℕ)
    → IsTree tree
    → AllNonzero phones
    → (tree_find_phrase tree phones ≡ some (some at))
      ↔ (TreePath tree 0 phones at × IsPhraseEnd tree at)
unfolding tree_find_phrase
tree_find_phrase-TreePath tree phones at w nz = (
  λ h.
      (let (found, s, h1) = >>=-eq-some (descend tree phones 0) _ h in
        finish_search tree phones at found s h1),
  λ h.
      (let e = descend_complete tree w h.0 nz (λ node _. inl refl) in
        let r = h.1 in
        rw (e, ◌>>=◌) (unfold whole_phrase in rw (r.is_node, ◌>>=◌, r.is_child, r.leaf) refl)),
)
