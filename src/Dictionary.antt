-- ===== src/Dictionary.antt =====
-- src/tree.c and src/dict.c: the search for a phrase's node in the tree of phones, and the phrases
-- below a node. The files that hold the tree and the phrases, mapped into memory, are a list of
-- nodes and a list of bytes; `none` is an access out of them or a failed assertion.
pub mod Search
pub mod Path
use libchewing.Utf8.Chars.{c_string}
use libchewing.Common.{
  ℕ, zero, suc, ◌+◌, ◌-◌, ◌/◌, true, false, Option, none, some, List, [], ◌∷◌, length, take, drop,
  get_elem?, ltb, leb, ◌==◌, ◌!=◌, if◌then◌else◌, ◌>>=◌, ◌>>◌, ensure,
}

-- `TreeType`. The union keeps `child.begin` and `phrase.pos` in one place, `child.end` and
-- `phrase.freq` in another.
pub record TreeType : Type 0 where
  pub key : ℕ
  pub begin_or_pos : ℕ
  pub end_or_freq : ℕ

pub record StaticData : Type 0 where
  pub tree : List TreeType
  pub dict : List ℕ

pub record Phrase : Type 0 where
  pub phrase : List ℕ
  pub freq : ℕ

-- `tree_cur_pos` and `tree_end_pos`.
pub record Reader : Type 0 where
  pub cur : ℕ
  pub stop : ℕ

-- The sign of a comparison.
pub data Comparison : Type 0 where
  less same greater : Comparison

-- The sign of `CompTreeType` for nodes with the keys.
unfoldable pub comp_tree_type : ℕ → ℕ → Comparison
comp_tree_type a b = if ltb a b then less else if a == b then same else greater

-- The loop of the C library's `bsearch` as glibc has it, among the nodes from `lo` on and before
-- `hi`; `none` is also that the fuel runs out.
unfoldable pub search_range : List TreeType → ℕ → ℕ → ℕ → ℕ → Option (Option ℕ)
unfolding comp_tree_type
search_range tree key zero lo hi = if ltb lo hi then none else some none
search_range tree key (suc fuel) lo hi = elim (ltb lo hi) [
  | false ↦ some none
  | true ↦ (do
    let idx = (lo + hi) / 2
    node ← get_elem? tree idx
    elim (comp_tree_type key node.key) [
      | less ↦ search_range tree key fuel lo idx
      | same ↦ some (some idx)
      | greater ↦ search_range tree key fuel (idx + 1) hi
    ])
]

-- `bsearch` among `count` nodes from the one at `i` on; as many rounds are enough.
unfoldable pub bsearch : List TreeType → ℕ → ℕ → ℕ → Option (Option ℕ)
unfolding search_range
bsearch tree key count i = search_range tree key count i (i + count)

-- The loop of `TreeFindPhrase`.
unfoldable pub descend : List TreeType → List ℕ → ℕ → Option (Option ℕ)
unfolding bsearch
descend tree [] at = some (some at)
descend tree (phone ∷ phones) at = do
  node ← get_elem? tree at
  ensure (leb node.begin_or_pos node.end_or_freq)
  found ← bsearch tree phone (node.end_or_freq - node.begin_or_pos) node.begin_or_pos
  elim found [ none ↦ some none | some child ↦ descend tree phones child ]

-- The end of `TreeFindPhrase`: a node whose first child has another key than 0 is half a phrase.
unfoldable pub whole_phrase : List TreeType → ℕ → Option (Option ℕ)
whole_phrase tree at = do
  node ← get_elem? tree at
  child ← get_elem? tree node.begin_or_pos
  some (if child.key != 0 then none else some at)

-- `TreeFindPhrase` for `phoneSeq[begin]` to `phoneSeq[end]`.
unfoldable pub tree_find_phrase : List TreeType → List ℕ → Option (Option ℕ)
unfolding descend whole_phrase
tree_find_phrase tree phones = do
  found ← descend tree phones 0
  elim found [ none ↦ some none | some at ↦ whole_phrase tree at ]

unfoldable tree_child_range : List TreeType → ℕ → Option Reader
tree_child_range tree parent = do
  node ← get_elem? tree parent
  some (record { cur = node.begin_or_pos; stop = node.end_or_freq })

-- `GetVocabFromDict`. `snprintf` keeps at most the 44 bytes that fit.
unfoldable get_vocab_from_dict : StaticData → Reader → Option (Phrase × Reader)
get_vocab_from_dict s r = do
  node ← get_elem? (s.tree) (r.cur)
  ensure (ltb node.begin_or_pos (length s.dict))
  some (
    record { phrase = take 44 (c_string (drop node.begin_or_pos s.dict)); freq = node.end_or_freq },
    record r { cur = r.cur + 1 },
  )

unfoldable pub get_phrase_first : StaticData → ℕ → Option (Phrase × Reader)
unfolding tree_child_range get_vocab_from_dict
get_phrase_first s parent = do r ← tree_child_range s.tree parent; get_vocab_from_dict s r

unfoldable pub get_char_first : StaticData → ℕ → Option (Option (Phrase × Reader))
unfolding tree_find_phrase get_phrase_first
get_char_first s key = do
  found ← tree_find_phrase s.tree (key ∷ [])
  elim found [
    | none ↦ some none
    | some parent ↦ (do first ← get_phrase_first s parent; some (some first))
  ]

-- `GetVocabNext`; the key is not read past the end.
unfoldable get_vocab_next : StaticData → Reader → Option (Option (Phrase × Reader))
unfolding get_vocab_from_dict
get_vocab_next s r = if leb r.stop r.cur then some none else (do
  node ← get_elem? (s.tree) (r.cur)
  if node.key != 0 then some none else (do next ← get_vocab_from_dict s r; some (some next)))

-- What the loops over `GetVocabNext` see after the first phrase.
unfoldable vocab_rest : ℕ → StaticData → Reader → Option (List Phrase)
unfolding get_vocab_next
vocab_rest zero s r = some []
vocab_rest (suc fuel) s r = do
  next ← get_vocab_next s r
  elim next [ none ↦ some [] | some (p, r') ↦ (do rest ← vocab_rest fuel s r'; some (p ∷ rest)) ]

-- The phrases below a node, from `GetPhraseFirst` on. There are as many rounds as nodes.
unfoldable pub phrases_under : StaticData → ℕ → Option (List Phrase)
unfolding get_phrase_first vocab_rest
phrases_under s parent = do
  first ← get_phrase_first s parent
  rest ← vocab_rest (length s.tree) s first.1
  some (first.0 ∷ rest)
