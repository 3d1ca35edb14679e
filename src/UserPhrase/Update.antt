-- ===== src/UserPhrase/Update.antt =====
-- The store of the user's phrases: the functions of src/userphrase-hash.c, and InitUserphrase of
-- src/hash.c. `none` as a result is an access out of range.
pub mod Stored
pub mod Updated
pub mod Loaded
pub mod Highest
use libchewing.Utf8.{ue_str_len}
use libchewing.Dictionary.{StaticData}
use libchewing.UserPhrase.{
  UserPhraseData, update_freq, load_original_freq, load_max_freq, ◌+ℤ◌, ◌-ℤ◌,
}
use libchewing.UserPhrase.Record.{read_hash_item_bin}
use libchewing.UserPhrase.Disk.{HashFile, Store, hash_modify}
use libchewing.UserPhrase.Table.{
  HashItem, Table, hash_func, hash_find_entry, update, hash_insert, modify_entry, remove_word,
  phone_seq_the_same,
}
use libchewing.Common.{
  ℕ, ◌+◌, Bool, true, false, Option, none, some, List, [], ◌∷◌, length, take, ltb, leb,
  if◌then◌else◌, ◌>>=◌, ◌>>◌, ensure, ℤ, pos, ltb_ℤ,
}

-- USER_UPDATE_FAIL, USER_UPDATE_INSERT and USER_UPDATE_MODIFY.
pub data UpdateRtn : Type 0 where
  update_fail update_insert update_modify : UpdateRtn

-- The phrases that UserGetPhraseFirst and UserGetPhraseNext give for the phones, in order.
unfoldable pub users_in : List ℕ → List HashItem → List UserPhraseData
unfolding phone_seq_the_same
users_in phones [] = []
users_in phones (i ∷ is) =
    let rest = users_in phones is in
    if phone_seq_the_same i.item.phone_seq phones then i.item ∷ rest else rest

-- The item in its chain after `HashModify`.
unfoldable pub put_back : List ℕ → List ℕ → HashItem → Option HashFile → Store → Store
unfolding modify_entry hash_func
put_back phones word i file s =
    let h = hash_func phones in
    record s {
      hashtable = update s.hashtable h (modify_entry phones word i (s.hashtable h));
      hash_file = file;
    }

module _ (static : StaticData) where
  -- The branch of `UserUpdatePhrase` for a new phrase of `len` phones; fewer phones than characters
  -- count as out of range.
  unfoldable pub insert_phrase : ℕ → List ℕ → List ℕ → Store → Option (Store × UpdateRtn)
  unfolding load_original_freq load_max_freq hash_insert hash_modify put_back users_in
  insert_phrase len phones word s = do
    ensure (leb len (length phones))
    let key = take len phones
    orig ← load_original_freq static key word
    max ← load_max_freq static (users_in phones (s.hashtable (hash_func phones))) key
    let d : UserPhraseData = record {
      phone_seq = key;
      word_seq = word;
      userfreq = orig;
      recent_time = s.chewing_lifetime;
      origfreq = orig;
      maxfreq = max;
    }
    let inserted = hash_insert d s.hashtable
    let s' : Store = record s { hashtable = inserted.0 }
    modified ← hash_modify s' inserted.1
    some (put_back key word modified.0 modified.1 s', update_insert)

  -- The other branch.
  unfoldable pub modify_phrase : ℕ → List ℕ → List ℕ → HashItem → Store → Option (Store × UpdateRtn)
  unfolding load_max_freq update_freq hash_modify put_back users_in
  modify_phrase len phones word i s = do
    ensure (leb len (length phones))
    max ← load_max_freq static (users_in phones (s.hashtable (hash_func phones))) (take len phones)
    let i' : HashItem = record i {
      item = record (i.item) {
        maxfreq = max;
        userfreq =
            update_freq i.item.userfreq max i.item.origfreq
              (s.chewing_lifetime -ℤ i.item.recent_time);
        recent_time = s.chewing_lifetime;
      };
    }
    modified ← hash_modify s i'
    some (put_back phones word modified.0 modified.1 s, update_modify)

  unfoldable pub user_update_phrase : List ℕ → List ℕ → Store → Option (Store × UpdateRtn)
  unfolding ue_str_len hash_find_entry insert_phrase modify_phrase
  user_update_phrase phones word s = do
    len ← ue_str_len word
    if ltb 11 len then some (s, update_fail) else elim (hash_find_entry s.hashtable phones word) [
      | none ↦ insert_phrase len phones word s
      | some i ↦ modify_phrase len phones word i s
    ]

-- `UserRemovePhrase`, which answers whether it removed a phrase.
unfoldable pub user_remove_phrase : List ℕ → List ℕ → Store → Option (Store × Bool)
unfolding remove_word hash_func hash_modify
user_remove_phrase phones word s =
    let h = hash_func phones in
    elim (remove_word word (s.hashtable h)) [
      | none ↦ some (s, false)
      | some (found, rest) ↦ (do
        modified ← hash_modify s (record found { item = record (found.item) { phone_seq = [] } })
        some (record s { hashtable = update s.hashtable h rest; hash_file = modified.1 }, true))
    ]

unfoldable pub increase_life_time : Store → Store
increase_life_time s = record s { chewing_lifetime = s.chewing_lifetime +ℤ pos 1 }

-- The loop of `InitUserphrase` over the records of a file: the items of the records that are not
-- ignored, in order.
unfoldable pub load_loop : List (List ℕ) → ℕ → Option (List HashItem)
unfolding read_hash_item_bin
load_loop [] item_index = some []
load_loop (r ∷ rs) item_index = do
  read ← read_hash_item_bin r item_index
  let skipped = load_loop rs item_index
  let rest = load_loop rs (item_index + 1)
  elim read [ none ↦ skipped | some i ↦ (do is ← rest; some (i ∷ is)) ]

abbrev pub int_max : ℤ
int_max = pos 2147483647

-- `oldest`.
unfoldable pub oldest_of : List HashItem → ℤ → ℤ
oldest_of [] oldest = oldest
oldest_of (i ∷ is) oldest =
    oldest_of is (if ltb_ℤ i.item.recent_time oldest then i.item.recent_time else oldest)

abbrev pub aged : ℤ → HashItem → HashItem
aged oldest i = record i { item = record (i.item) { recent_time = i.item.recent_time -ℤ oldest } }

-- The loop over `pPool`, which takes the items from the last one on and puts each in front of its
-- chain.
unfoldable pub place_all : ℤ → List HashItem → Table → Table
unfolding hash_func
place_all oldest [] t = t
place_all oldest (i ∷ is) t =
    let t' = place_all oldest is t in
    let h = hash_func i.item.phone_seq in update t' h (aged oldest i ∷ t' h)

abbrev pub no_items : Table
no_items h = []

-- `InitUserphrase` on a file with the signature.
unfoldable pub init_userphrase : HashFile → Option Store
unfolding load_loop oldest_of place_all
init_userphrase f = do
  items ← load_loop f.records 0
  let oldest = oldest_of items int_max
  some (record {
    hashtable = place_all oldest items no_items;
    chewing_lifetime = f.file_lifetime -ℤ oldest;
    hash_file = some f;
  })
