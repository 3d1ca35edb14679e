-- ===== src/UserPhrase/Disk.antt =====
-- The file of the user's phrases in src/hash.c: its records are written by HashModify. The file is its
-- lifetime and its records, after the signature; none stands for a file that cannot be opened. `none`
-- as a result is an access out of range.
use libchewing.CString.{str_eq}
use libchewing.Utf8.{ue_str_len}
use libchewing.UserPhrase.{UserPhraseData}
use libchewing.UserPhrase.Record.{hash_item_2_binary, read_hash_item_bin, field_size}
use libchewing.UserPhrase.Table.{HashItem, Table}
use libchewing.Common.{
  ℕ, zero, suc, ◌+◌, ◌/◌, ◌%◌, Option, none, some, List, [], ◌∷◌, ◌++◌, length, set, ltb, leb,
  if◌then◌else◌, ◌>>=◌, ◌>>◌, ensure, ℤ, pos, negsuc,
}

pub record HashFile : Type 0 where
  pub file_lifetime : ℤ
  pub records : List (List ℕ)

pub record Store : Type 0 where
  pub hashtable : Table
  pub chewing_lifetime : ℤ
  pub hash_file : Option HashFile

-- `%d` of a number that is not negative, and `%hu`, before the text `after`.
unfoldable digits : ℕ → ℕ → List ℕ → List ℕ
digits zero n after = after
digits (suc fuel) n after =
    let more = digits fuel (n / 10) ((48 + n % 10) ∷ after) in
    if ltb n 10 then (48 + n) ∷ after else more

-- An `int` has at most ten digits.
unfoldable decimal : ℤ → List ℕ
unfolding digits
decimal (pos n) = digits 10 n []
decimal (negsuc n) = b'-' ∷ digits 10 (suc n) []

-- The loop of `HashItem2String` over `count` phones, which stand before a 0.
unfoldable print_phones : ℕ → List ℕ → Option (List ℕ)
unfolding digits
print_phones zero phones = some []
print_phones (suc zero) [] = some (b'0' ∷ b' ' ∷ [])
print_phones (suc (suc count)) [] = none
print_phones (suc count) (p ∷ phones) = do
  rest ← print_phones count phones
  some (digits 10 p [] ++ b' ' ∷ rest)

-- `HashItem2String`, into the FIELD_SIZE + 1 bytes of the caller.
unfoldable hash_item_2_string : UserPhraseData → Option (List ℕ)
unfolding ue_str_len print_phones decimal
hash_item_2_string d = do
  len ← ue_str_len d.word_seq
  phones ← print_phones len d.phone_seq
  let str =
      d.word_seq
      ++ (b' ' ∷ phones
          ++ (decimal d.userfreq
              ++ (b' ' ∷ decimal d.recent_time
                  ++ (b' ' ∷ decimal d.maxfreq ++ (b' ' ∷ decimal d.origfreq)))))
  ensure (leb (length str) field_size)
  some str

-- `HashFileSeekToUserPhrase`: the place of the first record with the word, from `index` on.
unfoldable hash_file_seek : List ℕ → List (List ℕ) → ℕ → Option (Option ℕ)
unfolding read_hash_item_bin str_eq
hash_file_seek word [] index = some none
hash_file_seek word (r ∷ rs) index = do
  read ← read_hash_item_bin r index
  let rest = hash_file_seek word rs (index + 1)
  elim read [
    | none ↦ rest
    | some i ↦ if str_eq word i.item.word_seq then some (some index) else rest
  ]

-- The record that `HashModify` writes for an item, at a place of the file or at its end.
unfoldable write_record : UserPhraseData → Option ℕ → HashFile → Option HashFile
unfolding hash_item_2_string hash_item_2_binary
write_record d at f = do
  text ← hash_item_2_string d
  bytes ← hash_item_2_binary d
  some (elim at [
    | none ↦ record f { records = f.records ++ bytes ∷ [] }
    | some i ↦ record f { records = set f.records i bytes }
  ])

-- A phrase that is being removed has no phones, and loses its word.
abbrev pub emptied : UserPhraseData → UserPhraseData
emptied d = elim d.phone_seq [ [] ↦ record d { word_seq = [] } | p ∷ ps ↦ d ]

-- `HashModify`: the item with its place, and the file.
unfoldable pub hash_modify : Store → HashItem → Option (HashItem × Option HashFile)
unfolding hash_file_seek write_record
hash_modify s i = elim s.hash_file [
  | none ↦ some (i, none)
  | some f ↦ (do
    let f' = record f { file_lifetime = s.chewing_lifetime }
    elim i.item_index [
      | none ↦ (do
        f'' ← write_record (emptied i.item) none f'
        some (record { item_index = some (length f.records); item = emptied i.item }, some f''))
      | some index ↦ (do
        found ← hash_file_seek i.item.word_seq f.records 0
        elim found [
          | none ↦ some (i, some f')
          | some at ↦ (do
            f'' ← write_record (emptied i.item) (some at) f'
            some (record i { item = emptied i.item }, some f''))
        ])
    ])
]
