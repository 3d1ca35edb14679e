-- ===== src/UserPhrase/Table.antt =====
-- src/hash.c: the table of the user's phrases. A chain is a list, and a pointer into it is the list
-- from there on; NULL is the empty list.
use libchewing.CString.{str_eq}
use libchewing.UserPhrase.{UserPhraseData}
use libchewing.Common.{
  ℕ, zero, suc, ◌+◌, ◌-◌, ◌%◌, Bool, true, false, Option, none, some, List, [], ◌∷◌, ◌==◌, ◌&&◌,
  if◌then◌else◌, bit_xor,
}

-- `item_index` is none where C has -1.
pub record HashItem : Type 0 where
  pub item_index : Option ℕ
  pub item : UserPhraseData

abbrev pub hash_table_size : ℕ
hash_table_size = 16384

abbrev pub Table : Type 0
Table = ℕ → List HashItem

unfoldable pub phone_seq_the_same : List ℕ → List ℕ → Bool
phone_seq_the_same [] [] = true
phone_seq_the_same [] (q ∷ qs) = false
phone_seq_the_same (p ∷ ps) [] = false
phone_seq_the_same (p ∷ ps) (q ∷ qs) = p == q && phone_seq_the_same ps qs

-- The loop of `HashFunc`.
unfoldable xor_all : ℕ → List ℕ → ℕ
xor_all value [] = value
xor_all value (p ∷ ps) = xor_all (bit_xor value p) ps

-- `& (HASH_TABLE_SIZE - 1)` is the rest modulo the size.
unfoldable pub hash_func : List ℕ → ℕ
unfolding xor_all
hash_func phones = xor_all 0 phones % hash_table_size

-- The loop of `HashFindPhonePhrase`.
unfoldable pub find_phones : List ℕ → List HashItem → List HashItem
unfolding phone_seq_the_same
find_phones phones [] = []
find_phones phones (now ∷ rest) =
    let later = find_phones phones rest in
    if phone_seq_the_same now.item.phone_seq phones then now ∷ rest else later

-- `pItemLast` is a phrase that was found before; none of it stands for NULL.
unfoldable pub hash_find_phone_phrase : Table → List ℕ → List HashItem → List HashItem
unfolding hash_func find_phones
hash_find_phone_phrase t phones [] = find_phones phones (t (hash_func phones))
hash_find_phone_phrase t phones (last ∷ rest) = find_phones phones rest

-- The test of `HashFindEntry`.
unfoldable pub is_entry : List ℕ → List ℕ → HashItem → Bool
unfolding str_eq phone_seq_the_same
is_entry phones word i = str_eq i.item.word_seq word && phone_seq_the_same i.item.phone_seq phones

unfoldable pub find_entry : List ℕ → List ℕ → List HashItem → Option HashItem
unfolding is_entry
find_entry phones word [] = none
find_entry phones word (i ∷ rest) =
    let later = find_entry phones word rest in if is_entry phones word i then some i else later

unfoldable pub hash_find_entry : Table → List ℕ → List ℕ → Option HashItem
unfolding hash_func find_entry
hash_find_entry t phones word = find_entry phones word (t (hash_func phones))

-- A write to one place of `hashtable`.
abbrev pub update : Table → ℕ → List HashItem → Table
update t h chain k = if k == h then chain else t k

-- `HashInsert`: the table and the item.
unfoldable pub hash_insert : UserPhraseData → Table → Table × HashItem
unfolding hash_find_entry
hash_insert d t = elim (hash_find_entry t d.phone_seq d.word_seq) [
  | some old ↦ (t, old)
  | none ↦
      let fresh : HashItem = record { item_index = none; item = d } in
      let h = hash_func d.phone_seq in (update t h (fresh ∷ t h), fresh)
]

-- A change of the item that `HashFindEntry` finds, through its pointer.
unfoldable pub modify_entry : List ℕ → List ℕ → HashItem → List HashItem → List HashItem
unfolding is_entry
modify_entry phones word new [] = []
modify_entry phones word new (i ∷ rest) =
    let later = modify_entry phones word new rest in
    if is_entry phones word i then new ∷ rest else i ∷ later

-- The loop of `UserRemovePhrase`: the item that is found, and the chain without it.
unfoldable pub remove_word : List ℕ → List HashItem → Option (HashItem × List HashItem)
unfolding str_eq
remove_word word [] = none
remove_word word (i ∷ rest) =
    let later = remove_word word rest in
    if str_eq i.item.word_seq word
    then some (i, rest)
    else elim later [ none ↦ none | some (found, rest') ↦ some (found, i ∷ rest') ]

-- The loop of `FindNextHash`, for `count` places from `h` on.
unfoldable pub next_bucket : Table → ℕ → ℕ → List HashItem
next_bucket t zero h = []
next_bucket t (suc count) h =
    let later = next_bucket t count (h + 1) in elim (t h) [ [] ↦ later | i ∷ is ↦ i ∷ is ]

unfoldable pub find_next_hash : Table → List HashItem → List HashItem
unfolding next_bucket hash_func
find_next_hash t [] = next_bucket t hash_table_size 0
find_next_hash t (curr ∷ []) =
    let h = hash_func curr.item.phone_seq + 1 in next_bucket t (hash_table_size - h) h
find_next_hash t (curr ∷ next ∷ rest) = next ∷ rest
