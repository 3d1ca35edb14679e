-- ===== src/Tests/Phrasings.antt =====
-- The phrasing at concrete inputs: a dictionary of two words and the intervals of three phones.
use mathlib.Core.Option
use libchewing.Common.{
  ℕ, zero, suc, ◌≤◌, ◌<◌, ◌≡◌, ◌≢◌, ◌⊎◌, refl, sym, ap, ◌∙◌, some, List, [], ◌∷◌, length, get_elem?,
  map, subst, arith, All, some-inj, ◌↔◌,
}
use libchewing.Dictionary.{TreeType, StaticData, tree_find_phrase}
use libchewing.Dictionary.Search.{SortedRange}
use libchewing.Dictionary.Path.{IsTree, TreePath, IsPhraseEnd, tree_find_phrase-TreePath}
use libchewing.Phrasing.{PhraseInterval, UserPhrase, Input, find_interval, is_dict_phrase}
use libchewing.Phrasing.Allowed.{Allowed}
use libchewing.Phrasing.Discard.Both.{Lossless}
use libchewing.Phrasing.Dp.Result.{Phrased, do_dp_phrasing-Phrased}
use libchewing.Phrasing.Dp.Sorting.{Among}
use libchewing.Phrasing.Dp.Tiles.{Reach, start, by}
use libchewing.Phrasing.Found.{SortedFrom, find_interval-Allowed}
use libchewing.Phrasing.Records.{save_list}
use libchewing.Phrasing.Records.Sound.{save_list-Separate}
use libchewing.Phrasing.Records.Weeded.{Separate}
use libchewing.Phrasing.Run.{useful_intervals}
use libchewing.Phrasing.Run.Lossless.{Connected, useful_intervals-Lossless}
use libchewing.Phrasing.Dp.{RecordNode}

-- The root, a node for a phone, and two words below it.
abbrev pub small_tree : List TreeType
small_tree =
    record { key = 4; begin_or_pos = 1; end_or_freq = 2 }
    ∷ record { key = 10240; begin_or_pos = 2; end_or_freq = 4 }
    ∷ record { key = 0; begin_or_pos = 0; end_or_freq = 9 }
    ∷ record { key = 0; begin_or_pos = 4; end_or_freq = 3 }
    ∷ []

abbrev pub words : StaticData
words = record { tree = small_tree; dict = 229 ∷ 173 ∷ 151 ∷ 0 ∷ 232 ∷ 170 ∷ 158 ∷ 0 ∷ [] }

small_ranges :
    (i : ℕ) (node : TreeType)
    → get_elem? small_tree i ≡ some node
    → (i ≡ 0) ⊎ (node.key ≢ 0)
    → (node.begin_or_pos ≤ node.end_or_freq) × (node.end_or_freq ≤ length small_tree)
small_ranges zero node at h = ground arith
small_ranges (suc zero) node at h = ground arith
small_ranges (suc (suc zero)) node at h = ground arith
small_ranges (suc (suc (suc zero))) node at h = ground arith
small_ranges (suc (suc (suc (suc i)))) node at h = absurd (ground arith)

word_key : (j : ℕ) (a : TreeType) → 2 ≤ j → get_elem? small_tree j ≡ some a → a.key ≡ 0
word_key zero a le at = absurd (omega arith)
word_key (suc zero) a le at = absurd (omega arith)
word_key (suc (suc zero)) a le at = ground arith
word_key (suc (suc (suc zero))) a le at = ground arith
word_key (suc (suc (suc (suc j)))) a le at = absurd (ground arith)

-- A range has one node, or two with the key 0.
small_sorted :
    (i : ℕ) (node : TreeType)
    → get_elem? small_tree i ≡ some node
    → (i ≡ 0) ⊎ (node.key ≢ 0)
    → SortedRange small_tree node.begin_or_pos node.end_or_freq
small_sorted zero node at h j k a b lo le hi at_a at_b =
    let one : node.end_or_freq ≡ 2 = ground arith in
    let first : node.begin_or_pos ≡ 1 = ground arith in
    let e : j ≡ k = omega arith in
    let same : a ≡ b = some-inj (sym at_a ∙ ap (get_elem? small_tree) e ∙ at_b) in
    rw same (omega arith)
small_sorted (suc zero) node at h j k a b lo le hi at_a at_b =
    let two : node.begin_or_pos ≡ 2 = ground arith in omega (arith, word_key j a (omega arith) at_a)
small_sorted (suc (suc zero)) node at h j k a b lo le hi at_a at_b = absurd (ground arith)
small_sorted (suc (suc (suc zero))) node at h j k a b lo le hi at_a at_b = absurd (ground arith)
small_sorted (suc (suc (suc (suc i)))) node at h j k a b lo le hi at_a at_b = absurd (ground arith)

-- Two nodes have a key that is not 0.
small_key :
    (key j : ℕ) (node : TreeType)
    → key ≢ 0
    → get_elem? small_tree j ≡ some node
    → node.key ≡ key
    → ((j ≡ 0) × (key ≡ 4)) ⊎ ((j ≡ 1) × (key ≡ 10240))
small_key key zero node nz at e = ground arith
small_key key (suc zero) node nz at e = ground arith
small_key key (suc (suc zero)) node nz at e = ground arith
small_key key (suc (suc (suc zero))) node nz at e = ground arith
small_key key (suc (suc (suc (suc j)))) node nz at e = absurd (ground arith)

same_child :
    (key j k : ℕ)
    → ((j ≡ 0) × (key ≡ 4)) ⊎ ((j ≡ 1) × (key ≡ 10240))
    → ((k ≡ 0) × (key ≡ 4)) ⊎ ((k ≡ 1) × (key ≡ 10240))
    → j ≡ k
same_child key j k h g = ground arith

small-IsTree : IsTree small_tree
small-IsTree = record {
  ranges = small_ranges;
  sorted = small_sorted;
  distinct = λ i key j k nz c d.
      same_child key j k (small_key key j c.node nz c.child_node c.key_eq)
        (small_key key k d.node nz d.child_node d.key_eq);
}

-- The search goes to the node of the phone; both directions hold there.
tree_find_phrase-TreePath_example :
    (tree_find_phrase small_tree (10240 ∷ []) ≡ some (some 1))
    ↔ (TreePath small_tree 0 (10240 ∷ []) 1 × IsPhraseEnd small_tree 1)
tree_find_phrase-TreePath_example =
    tree_find_phrase-TreePath small_tree (10240 ∷ []) 1 small-IsTree (omega arith, tt)

no_user : List ℕ → List UserPhrase
no_user phones = []

abbrev two_phones : Input
two_phones = record {
  phone_seq = 10240 ∷ 10240 ∷ [];
  n_phone_seq = 2;
  arr_brkpt = 0 ∷ 0 ∷ 0 ∷ [];
  select = (record { from = 1; to = 2 }, 232 ∷ 170 ∷ 158 ∷ []) ∷ [];
}

-- The second phone is selected as the less frequent word.
abbrev two_found : List PhraseInterval
two_found =
    record {
      from = 0;
      to = 1;
      source = is_dict_phrase;
      p_phr = record { phrase = 229 ∷ 173 ∷ 151 ∷ []; freq = 9 };
    }
    ∷ record {
      from = 1;
      to = 2;
      source = is_dict_phrase;
      p_phr = record { phrase = 232 ∷ 170 ∷ 158 ∷ []; freq = 3 };
    }
    ∷ []

two_found_eq : find_interval words no_user two_phones ≡ some two_found
unfolding find_interval no_user
two_found_eq = refl

find_interval-Allowed_example : All (Allowed two_phones) two_found × SortedFrom 0 two_found
find_interval-Allowed_example =
    find_interval-Allowed words no_user two_phones two_found two_found_eq

word_at : ℕ → ℕ → PhraseInterval
word_at from to = record {
  from = from;
  to = to;
  source = is_dict_phrase;
  p_phr = record { phrase = []; freq = 1 };
}

-- Three phones, of which the first two and the last two can be words.
abbrev three : List PhraseInterval
three = word_at 0 1 ∷ word_at 0 2 ∷ word_at 1 2 ∷ word_at 1 3 ∷ word_at 2 3 ∷ []

reach_one : Reach three 1
unfolding word_at
reach_one = by 0 refl refl start

reach_two : Reach three 2
unfolding word_at
reach_two = by 1 refl refl start

three-Connected : Connected 3 three
unfolding word_at
three-Connected = record { bounds = three_bounds; reached = three_reached }
  where
    three_bounds : (u : PhraseInterval) → Among u three → (u.from < u.to) × (u.to ≤ 3)
    three_bounds u (zero, at) = ground arith
    three_bounds u (suc zero, at) = ground arith
    three_bounds u (suc (suc zero), at) = ground arith
    three_bounds u (suc (suc (suc zero)), at) = ground arith
    three_bounds u (suc (suc (suc (suc zero))), at) = ground arith
    three_bounds u (suc (suc (suc (suc (suc j)))), at) = absurd (ground arith)

    starting : (u v : PhraseInterval) → some u ≡ some v → Reach three u.from → Reach three v.from
    starting u v at r = subst (λ w. Reach three (PhraseInterval.from w)) (some-inj at) r

    three_reached : (u : PhraseInterval) → Among u three → Reach three u.from
    three_reached u (zero, at) = starting (word_at 0 1) u at start
    three_reached u (suc zero, at) = starting (word_at 0 2) u at start
    three_reached u (suc (suc zero), at) = starting (word_at 1 2) u at reach_one
    three_reached u (suc (suc (suc zero)), at) = starting (word_at 1 3) u at reach_one
    three_reached u (suc (suc (suc (suc zero))), at) = starting (word_at 2 3) u at reach_two
    three_reached u (suc (suc (suc (suc (suc j)))), at) = absurd (ground arith)

useful_intervals-Lossless_example :
    (ivs : List PhraseInterval) × (useful_intervals 3 three ≡ some ivs)
    × Lossless 3 three ivs
    × Connected 3 ivs
useful_intervals-Lossless_example = useful_intervals-Lossless 3 three (omega arith) three-Connected

save_list-Separate_example :
    (list : List RecordNode) × (save_list three ≡ some list)
    × (0 < length list)
    × All (λ p. Separate three p.arr_index 0) list
save_list-Separate_example = save_list-Separate three (unfold word_at in omega arith) (λ j v at.
    (let (nonempty, inside) = three-Connected.bounds v (j, at) in (nonempty, omega arith)))

do_dp_phrasing-Phrased_example : Phrased 3 three
do_dp_phrasing-Phrased_example =
    do_dp_phrasing-Phrased three 3 (omega arith) (unfold word_at in omega arith)
      (unfold word_at in (start, (start, (reach_one, (reach_one, (reach_two, tt))))))

-- The records that the search saves: 12 | 3, and 1 | 23.
three_records :
    Option.map (map RecordNode.arr_index) (save_list three)
    ≡ some ((1 ∷ 4 ∷ []) ∷ (0 ∷ 3 ∷ []) ∷ [])
unfolding save_list word_at
three_records = refl
