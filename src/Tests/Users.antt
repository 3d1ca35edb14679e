-- ===== src/Tests/Users.antt =====
-- The user's phrases at concrete inputs.
use libchewing.Utf8.{ue_str_len}
use libchewing.Common.{
  ℕ, List, replicate, ◌≡◌, refl, true, none, some, [], ◌∷◌, length, ◌==◌, if◌then◌else◌, ◌>>=◌,
  arith, pos, negsuc, ltb_ℤ, All, if-intro,
}
use libchewing.Dictionary.{Phrase}
use libchewing.UserPhrase.{UserPhraseData, update_freq, dict_phrases, ◌-ℤ◌}
use libchewing.UserPhrase.Frequency.{Moved, update_freq-Moved}
use libchewing.UserPhrase.Lookup.{same_key, hash_find_entry-insert}
use libchewing.UserPhrase.Record.{hash_item_2_binary, read_hash_item_bin, is_valid_chinese_string}
use libchewing.UserPhrase.Record.RoundTrip.{Storable, read_hash_item_bin-hash_item_2_binary}
use libchewing.UserPhrase.Table.{
  HashItem, Table, hash_table_size, hash_func, hash_find_entry, hash_insert, find_next_hash,
  hash_find_phone_phrase,
}
use libchewing.UserPhrase.Disk.{HashFile, Store}
use libchewing.UserPhrase.Update.{int_max, oldest_of, no_items, init_userphrase, user_update_phrase}
use libchewing.UserPhrase.Update.Loaded.{Loaded, written, ignored, ended, init_userphrase-Loaded}
use libchewing.UserPhrase.Update.Updated.{Updated, user_update_phrase-Updated}
use libchewing.UserPhrase.Walk.{
  WellPlaced, chains, walk, find_next_hash-chains, walk_phones, WithPhones, walk_phones-WithPhones,
}
use libchewing.Tests.Phrasings.{words}

update_freq-Moved_example :
    Moved 90 7 (ltb_ℤ (pos 100) (pos 50000)) (update_freq (pos 90) (pos 200) (pos 7) (pos 100))
update_freq-Moved_example =
    update_freq-Moved 90 200 7 (pos 100) (omega arith) (omega arith) (omega arith)

-- 冊 with the phone 10240.
abbrev book : UserPhraseData
book = record {
  phone_seq = 10240 ∷ [];
  word_seq = 229 ∷ 134 ∷ 138 ∷ [];
  userfreq = pos 12;
  recent_time = pos 3;
  origfreq = pos 9;
  maxfreq = pos 70000;
}

book_item : HashItem
book_item = record { item_index = none; item = book }

book_chars : ue_str_len (229 ∷ 134 ∷ 138 ∷ []) ≡ some 1
unfolding ue_str_len
book_chars = refl

book_valid : is_valid_chinese_string (229 ∷ 134 ∷ 138 ∷ []) ≡ some true
unfolding is_valid_chinese_string
book_valid = refl

book-Storable : Storable book
book-Storable = record {
  userfreq = 12;
  recent_time = 3;
  maxfreq = 70000;
  origfreq = 9;
  userfreq_eq = refl;
  recent_time_eq = refl;
  maxfreq_eq = refl;
  origfreq_eq = refl;
  ints = omega arith;
  phones_nonzero = omega arith;
  phones_range = omega arith;
  bytes_nonzero = omega arith;
  characters = book_chars;
  valid = book_valid;
  room = omega arith;
}

read_hash_item_bin-hash_item_2_binary_example :
    (hash_item_2_binary book >>= λ str. read_hash_item_bin str 5)
    ≡ some (some (record { item_index = some 5; item = book }))
read_hash_item_bin-hash_item_2_binary_example =
    read_hash_item_bin-hash_item_2_binary book 5 book-Storable

hash_find_entry-insert_example :
    hash_find_entry (hash_insert book no_items).0 (10240 ∷ []) (229 ∷ 134 ∷ 138 ∷ []) ≡ (
      if same_key book (10240 ∷ []) (229 ∷ 134 ∷ 138 ∷ [])
      then some (hash_insert book no_items).1
      else hash_find_entry no_items (10240 ∷ []) (229 ∷ 134 ∷ 138 ∷ []))
hash_find_entry-insert_example =
    hash_find_entry-insert book no_items (10240 ∷ []) (229 ∷ 134 ∷ 138 ∷ [])

-- One phrase, in its chain.
one_item : Table
one_item h = if h == 10240 then book_item ∷ [] else []

one_item-WellPlaced : WellPlaced one_item
unfolding one_item book_item hash_func
one_item-WellPlaced h =
    if-intro (All (λ i. hash_func i.item.phone_seq ≡ h)) (h == 10240) (λ c. (ground arith, tt))
      (λ _. tt)

find_next_hash-chains_example :
    walk (length (chains one_item hash_table_size 0)) one_item (find_next_hash one_item [])
    ≡ chains one_item hash_table_size 0
find_next_hash-chains_example =
    find_next_hash-chains one_item (length (chains one_item hash_table_size 0)) one_item-WellPlaced
      (omega arith)

walk_phones-WithPhones_example : WithPhones (10240 ∷ []) (one_item (hash_func (10240 ∷ []))) (
    walk_phones
      (length (one_item (hash_func (10240 ∷ []))))
      one_item
      (10240 ∷ [])
      (hash_find_phone_phrase one_item (10240 ∷ []) []))
walk_phones-WithPhones_example =
    walk_phones-WithPhones one_item (10240 ∷ []) (length (one_item (hash_func (10240 ∷ []))))
      (omega arith)

abbrev memory_only : Store
memory_only = record { hashtable = no_items; chewing_lifetime = pos 8; hash_file = none }

abbrev book_phrases : List Phrase
book_phrases =
    record { phrase = 229 ∷ 173 ∷ 151 ∷ []; freq = 9 }
    ∷ record { phrase = 232 ∷ 170 ∷ 158 ∷ []; freq = 3 }
    ∷ []

book_dict : dict_phrases words (10240 ∷ []) ≡ some book_phrases
unfolding dict_phrases
book_dict = refl

user_update_phrase-Updated_example :
    Updated memory_only book_phrases
      (10240 ∷ [])
      (229 ∷ 134 ∷ 138 ∷ [])
      (user_update_phrase words (10240 ∷ []) (229 ∷ 134 ∷ 138 ∷ []) memory_only)
user_update_phrase-Updated_example =
    user_update_phrase-Updated words (10240 ∷ []) (229 ∷ 134 ∷ 138 ∷ []) memory_only book_phrases
      book_dict refl book_chars (omega arith)

-- A younger phrase, a record of zeros, and the book.
abbrev young : UserPhraseData
young = record book { recent_time = pos 5 }

young-Storable : Storable young
young-Storable = record {
  userfreq = 12;
  recent_time = 5;
  maxfreq = 70000;
  origfreq = 9;
  userfreq_eq = refl;
  recent_time_eq = refl;
  maxfreq_eq = refl;
  origfreq_eq = refl;
  ints = omega arith;
  phones_nonzero = omega arith;
  phones_range = omega arith;
  bytes_nonzero = omega arith;
  characters = book_chars;
  valid = book_valid;
  room = omega arith;
}

abbrev record_of : UserPhraseData → List ℕ
record_of d = elim (hash_item_2_binary d) [ none ↦ [] | some r ↦ r ]

record_of-young : hash_item_2_binary young ≡ some (record_of young)
unfolding hash_item_2_binary
record_of-young = refl

record_of-book : hash_item_2_binary book ≡ some (record_of book)
unfolding hash_item_2_binary
record_of-book = refl

zeros-ignored : (k : ℕ) → read_hash_item_bin (replicate 125 0) k ≡ some none
unfolding read_hash_item_bin
zeros-ignored k = refl

abbrev old_file : HashFile
old_file = record {
  file_lifetime = pos 20;
  records = record_of young ∷ replicate 125 0 ∷ record_of book ∷ [];
}

init_userphrase-Loaded_example : Loaded old_file (young ∷ book ∷ []) (init_userphrase old_file)
init_userphrase-Loaded_example = init_userphrase-Loaded old_file (young ∷ book ∷ []) (
    written young-Storable record_of-young
      (ignored zeros-ignored (written book-Storable record_of-book ended)))

-- The lifetime after a second start on a file without phrases is below 0.
new_file_lifetime : (pos 0 -ℤ oldest_of [] int_max) ≡ negsuc 2147483646
unfolding oldest_of
new_file_lifetime = refl
