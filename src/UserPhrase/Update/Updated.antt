-- ===== src/UserPhrase/Update/Updated.antt =====
-- UserUpdatePhrase of src/userphrase-hash.c where no file can be opened: the table is all there is.
use libchewing.CString.{str_eq_refl}
use libchewing.Utf8.{ue_str_len}
use libchewing.Dictionary.{StaticData, Phrase}
use libchewing.UserPhrase.{
  UserPhraseData, dict_phrases, update_freq, original_freq, max_dict_freq, max_user_freq,
  load_original_freq, load_max_freq, ◌-ℤ◌, freq_init_value,
}
use libchewing.UserPhrase.Lookup.{the_same_refl, hash_find_entry-insert, same_key}
use libchewing.UserPhrase.Table.{
  HashItem, Table, hash_func, is_entry, find_entry, hash_find_entry, hash_insert,
}
use libchewing.UserPhrase.Disk.{Store, hash_modify}
use libchewing.UserPhrase.Update.{
  UpdateRtn, update_insert, update_modify, users_in, put_back, insert_phrase, modify_phrase,
  user_update_phrase,
}
use libchewing.UserPhrase.Update.Highest.{
  FirstFreq, Highest, original_freq-FirstFreq, max_user_freq-Highest,
}
use libchewing.UserPhrase.Update.Stored.{is_entry_congr, put_back_self, put_back_other}
use libchewing.Common.{
  ℕ, ◌≤◌, ◌≡◌, inl, inr, refl, ap, subst, ◌∙◌, true, false, Option, none, some, List, [], ◌∷◌,
  length, take, ltb, ◌>>=◌, ◌>>◌, ℤ, arith, Bool-cases, Option-cases, some-inj, le→leb, not_lt→ltb,
}

-- How the entry came about.
pub data Origin (s : Store) (ps : List Phrase) (phones word : List ℕ) (entry : HashItem)
    : UpdateRtn → Type 0 where
  inserted :
      hash_find_entry s.hashtable phones word ≡ none
      → FirstFreq word ps entry.item.origfreq
      → entry.item.userfreq ≡ entry.item.origfreq
      → Origin s ps phones word entry update_insert
  modified :
      (old : HashItem)
      → hash_find_entry s.hashtable phones word ≡ some old
      → entry.item.userfreq
        ≡ update_freq old.item.userfreq entry.item.maxfreq old.item.origfreq
            (s.chewing_lifetime -ℤ old.item.recent_time)
      → entry.item.origfreq ≡ old.item.origfreq
      → Origin s ps phones word entry update_modify

pub record Updated (s : Store) (ps : List Phrase) (phones word : List ℕ)
    (out : Option (Store × UpdateRtn)) : Type 0 where
  pub after : Store
  pub rtn : UpdateRtn
  pub entry : HashItem
  pub returned : out ≡ some (after, rtn)
  pub found : hash_find_entry after.hashtable phones word ≡ some entry
  pub stamped : entry.item.recent_time ≡ s.chewing_lifetime
  pub highest : Highest ps phones (s.hashtable (hash_func phones)) entry.item.maxfreq
  pub origin : Origin s ps phones word entry rtn
  pub others :
      (p w : List ℕ)
      → is_entry p w entry ≡ false
      → hash_find_entry after.hashtable p w ≡ hash_find_entry s.hashtable p w

take-length : (xs : List ℕ) → take (length xs) xs ≡ xs
take-length [] = refl
take-length (x ∷ xs) = ap (λ l. x ∷ l) (take-length xs)

found-is_entry :
    (phones word : List ℕ) (chain : List HashItem) (i : HashItem)
    → find_entry phones word chain ≡ some i
    → is_entry phones word i ≡ true
unfolding find_entry
found-is_entry phones word [] i h = cc
found-is_entry phones word (j ∷ is) i h = elim (Bool-cases (is_entry phones word j)) [
  | inl e ↦
      (let same : j ≡ i = some-inj (rw e at h) in subst (λ k. is_entry phones word k ≡ true) same e)
  | inr e ↦ found-is_entry phones word is i (rw e at h)
]

module _ (static : StaticData) (phones word : List ℕ) (s : Store) (ps : List Phrase)
    (dict : dict_phrases static phones ≡ some ps) (no_file : s.hash_file ≡ none) where
  abbrev users : List UserPhraseData
  users = users_in phones (s.hashtable (hash_func phones))

  abbrev max_freq : ℤ
  max_freq = max_user_freq (max_dict_freq freq_init_value ps) users

  load_max-eq : load_max_freq static users phones ≡ some max_freq
  unfolding load_max_freq
  load_max-eq = rw (dict, ◌>>=◌) refl

  load_original-eq : load_original_freq static phones word ≡ some (original_freq ps word)
  unfolding load_original_freq
  load_original-eq = rw (dict, ◌>>=◌) refl

  hash_modify-eq :
      (t : Table) (i : HashItem) → hash_modify (record s { hashtable = t }) i ≡ some (i, none)
  unfolding hash_modify
  hash_modify-eq t i = rw no_file refl

  modify-Updated :
      (old : HashItem)
      → hash_find_entry s.hashtable phones word ≡ some old
      → Updated s ps phones word (modify_phrase static (length phones) phones word old s)
  unfolding modify_phrase
  modify-Updated old was =
      let entry : HashItem = record old {
        item = record (old.item) {
          maxfreq = max_freq;
          userfreq =
              update_freq old.item.userfreq max_freq old.item.origfreq
                (s.chewing_lifetime -ℤ old.item.recent_time);
          recent_time = s.chewing_lifetime;
        };
      } in
      let key : is_entry phones word entry ≡ true =
        is_entry_congr phones word entry old refl refl
        ∙ found-is_entry phones word (s.hashtable (hash_func phones)) old
            (unfold hash_find_entry in was) in
      record {
        after = put_back phones word entry none s;
        rtn = update_modify;
        entry = entry;
        returned =
            rw
              (
                le→leb (length phones) (length phones) (omega arith),
                ◌>>◌,
                take-length phones,
                load_max-eq,
                ◌>>=◌,
                hash_modify-eq s.hashtable entry,
              )
              refl;
        found = put_back_self phones word entry s old key was;
        stamped = refl;
        highest = max_user_freq-Highest phones ps (s.hashtable (hash_func phones));
        origin = modified old was refl refl;
        others = λ p w o. put_back_other phones word entry s old key was p w o;
      }

  abbrev new_data : UserPhraseData
  new_data = record {
    phone_seq = phones;
    word_seq = word;
    userfreq = original_freq ps word;
    recent_time = s.chewing_lifetime;
    origfreq = original_freq ps word;
    maxfreq = max_freq;
  }

  abbrev new_item : HashItem
  new_item = record { item_index = none; item = new_data }

  abbrev after_insert : Store
  after_insert = record s { hashtable = (hash_insert new_data s.hashtable).0 }

  new-is_entry : is_entry phones word new_item ≡ true
  unfolding is_entry
  new-is_entry = rw (str_eq_refl word, the_same_refl phones) refl

  inserted-eq :
      hash_find_entry s.hashtable phones word ≡ none
      → (hash_insert new_data s.hashtable).1 ≡ new_item
  unfolding hash_insert
  inserted-eq absent = rw (absent, hash_insert) refl

  inserted-found :
      hash_find_entry s.hashtable phones word ≡ none
      → hash_find_entry after_insert.hashtable phones word ≡ some new_item
  inserted-found absent =
      hash_find_entry-insert new_data s.hashtable phones word
      ∙ (let same : same_key new_data phones word ≡ true = (unfold is_entry in new-is_entry) in
          rw same (ap some (inserted-eq absent)))

  inserted-others :
      (p w : List ℕ)
      → is_entry p w new_item ≡ false
      → hash_find_entry after_insert.hashtable p w ≡ hash_find_entry s.hashtable p w
  inserted-others p w o =
      hash_find_entry-insert new_data s.hashtable p w
      ∙ (let other : same_key new_data p w ≡ false = (unfold is_entry in o) in rw other refl)

  insert-Updated :
      hash_find_entry s.hashtable phones word ≡ none
      → Updated s ps phones word (insert_phrase static (length phones) phones word s)
  unfolding insert_phrase
  insert-Updated absent = record {
    after = put_back phones word new_item none after_insert;
    rtn = update_insert;
    entry = new_item;
    returned =
        rw
          (
            le→leb (length phones) (length phones) (omega arith),
            ◌>>◌,
            take-length phones,
            load_original-eq,
            ◌>>=◌,
            load_max-eq,
          )
          (rw (no_file, ◌>>=◌, take-length phones, inserted-eq absent) refl);
    found =
        put_back_self phones word new_item after_insert new_item new-is_entry
          (inserted-found absent);
    stamped = refl;
    highest = max_user_freq-Highest phones ps (s.hashtable (hash_func phones));
    origin = inserted absent (original_freq-FirstFreq ps word) refl;
    others = λ p w o.
        put_back_other phones word new_item after_insert new_item new-is_entry
          (inserted-found absent) p w o
        ∙ inserted-others p w o;
  }

-- For a word of at most 11 characters with a phone for each, where the dictionary can be read and no
-- file be opened, UserUpdatePhrase leaves an entry for the phrase with the present time and, as its
-- maximal frequency, the highest of 1, the frequencies of the dictionary's phrases for the phones and
-- those of the user's entries for the phones. Where there was no entry, it is a new one, whose
-- frequency and original frequency are that of the first phrase of the dictionary for the phones that
-- is the word, or 1 where none is; else it is the old one, with its original frequency kept and the
-- frequency that UpdateFreq gives. All other entries are left as they are.
pub user_update_phrase-Updated :
    (static : StaticData) (phones word : List ℕ) (s : Store) (ps : List Phrase)
    → dict_phrases static phones ≡ some ps
    → s.hash_file ≡ none
    → ue_str_len word ≡ some (length phones)
    → length phones ≤ 11
    → Updated s ps phones word (user_update_phrase static phones word s)
unfolding user_update_phrase
user_update_phrase-Updated static phones word s ps dict no_file chars le =
    let short : ltb 11 (length phones) ≡ false = not_lt→ltb 11 (length phones) (omega arith) in
    elim (Option-cases (hash_find_entry s.hashtable phones word)) [
      | inl absent ↦
          rw (chars, ◌>>=◌, short, absent)
            (insert-Updated static phones word s ps dict no_file absent)
      | inr (old, was) ↦
          rw (chars, ◌>>=◌, short, was)
            (modify-Updated static phones word s ps dict no_file old was)
    ]
