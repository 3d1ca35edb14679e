-- ===== src/Choice/Candidates.antt =====
-- SetChoiceInfo of src/choice.c: the candidates for the current length.
use libchewing.Bopomofo.{kb_hsu, kb_dvorak_hsu, kb_et26}
use libchewing.Choice.{AvailEntry, AvailInfo, ChoiceInfo, word_choice}
use libchewing.Dictionary.{StaticData, Phrase, phrases_under}
use libchewing.Editing.{ChewingData, phone_seq_cursor, max_phone_seq_len}
use libchewing.Utf8.{ue_bytes_from_char, ue_str_n_bytes, strncmp_eq}
use libchewing.Utf8.Chars.{c_string}
use libchewing.UserPhrase.{dict_phrases}
use libchewing.UserPhrase.Table.{Table, hash_func}
use libchewing.UserPhrase.Update.{users_in}
use libchewing.Common.{
  ℕ, ◌+◌, ◌-◌, ◌*◌, ◌/◌, Bool, false, Option, none, some, List, [], ◌∷◌, ◌++◌, map, length, take,
  drop, get_elem?, ltb, leb, ◌==◌, ◌!=◌, ◌||◌, if◌then◌else◌, ◌>>=◌, ◌>>◌, ensure,
}

-- MAX_CHOICE.
abbrev pub max_choice : ℕ
max_choice = 567

-- `ueBytesFromChar(str[0])`.
unfoldable pub first_size : List ℕ → ℕ
unfolding ue_bytes_from_char
first_size [] = ue_bytes_from_char 0
first_size (b ∷ s) = ue_bytes_from_char b

unfoldable pub choice_the_same : List (List ℕ) → List ℕ → ℕ → Bool
unfolding strncmp_eq
choice_the_same [] str len = false
choice_the_same (c ∷ cs) str len = strncmp_eq c str len || choice_the_same cs str len

-- The loop of `ChoiceInfoAppendChi`.
unfoldable append_chars : List (List ℕ) → List Phrase → Option (List (List ℕ))
unfolding choice_the_same first_size
append_chars total [] = some total
append_chars total (p ∷ ps) = do
  let len = first_size p.phrase
  if choice_the_same total p.phrase len then append_chars total ps else (do
    ensure (ltb (length total) max_choice)
    append_chars (total ++ take len p.phrase ∷ []) ps)

-- The loops of `SetChoiceInfo` over phrases of `len` characters, into strings of 45 bytes.
unfoldable pub append_phrases : ℕ → List (List ℕ) → List (List ℕ) → Option (List (List ℕ))
unfolding choice_the_same first_size ue_str_n_bytes
append_phrases len total [] = some total
append_phrases len total (w ∷ ws) = do
  if choice_the_same total w (len * first_size w) then append_phrases len total ws else (do
    size ← ue_str_n_bytes w len
    ensure (ltb size 45)
    ensure (ltb (length total) max_choice)
    append_phrases len (total ++ take size w ∷ []) ws)

-- The phones that share a key with the phone on the layouts Hsu and Dvorak Hsu.
unfoldable hsu_others : ℕ → List ℕ
hsu_others phone =
    if phone == 10240
    then 48 ∷ []
    else if phone == 128
    then 32 ∷ []
    else if phone == 10752
    then 1 ∷ []
    else if phone == 2560
    then 2 ∷ []
    else if phone == 2048
    then 3 ∷ []
    else if phone == 24
    then 4608 ∷ []
    else if phone == 16
    then 5632 ∷ []
    else if phone == 7680
    then 6144 ∷ 4 ∷ []
    else if phone == 88
    then 5120 ∷ []
    else if phone == 104
    then 4096 ∷ 96 ∷ []
    else if phone == 8704
    then 7168 ∷ []
    else if phone == 8192
    then 6656 ∷ []
    else if phone == 80
    then 3584 ∷ []
    else if phone == 72
    then 1536 ∷ []
    else []

-- The same on the layout ET26.
unfoldable et26_others : ℕ → List ℕ
et26_others phone =
    if phone == 64
    then 1024 ∷ []
    else if phone == 88
    then 3072 ∷ []
    else if phone == 10240
    then 32 ∷ []
    else if phone == 9728
    then 48 ∷ []
    else if phone == 7680
    then 6144 ∷ []
    else if phone == 104
    then 5632 ∷ []
    else if phone == 96
    then 4096 ∷ []
    else if phone == 8704
    then 7168 ∷ []
    else if phone == 4608
    then 6656 ∷ []
    else if phone == 80
    then 3584 ∷ []
    else if phone == 72
    then 1536 ∷ []
    else if phone == 2560
    then 1 ∷ []
    else if phone == 2048
    then 2 ∷ []
    else if phone == 9216
    then 3 ∷ []
    else if phone == 5120
    then 4 ∷ []
    else []

-- The phones whose characters are candidates, in order.
unfoldable phones_of_char : ℕ → ℕ → ℕ → List ℕ
unfolding hsu_others et26_others
phones_of_char kb_type phone phone_alt =
    (phone ∷ (if phone != phone_alt then phone_alt ∷ [] else []))
    ++ ((if kb_type == kb_hsu || kb_type == kb_dvorak_hsu then hsu_others phone else [])
        ++ (if kb_type == kb_et26 then et26_others phone else []))

module _ (static : StaticData) where
  -- `ChoiceInfoAppendChi` for each of the phones.
  unfoldable append_all_chars : List (List ℕ) → List ℕ → Option (List (List ℕ))
  unfolding dict_phrases append_chars
  append_all_chars total [] = some total
  append_all_chars total (phone ∷ phones) = do
    ps ← dict_phrases static (phone ∷ [])
    total' ← append_chars total ps
    append_all_chars total' phones

  -- The phrases of an entry.
  unfoldable pub phrases_of : Option ℕ → Option (List Phrase)
  unfolding phrases_under
  phrases_of none = some []
  phrases_of (some at) = phrases_under static at

  -- The branch for phrases. `users` are the user's words for the phones.
  unfoldable pub phrase_candidates : ℕ → Option ℕ → List (List ℕ) → Option (List (List ℕ))
  unfolding phrases_of append_phrases
  phrase_candidates len id users = do
    dict ← phrases_of id
    total ← append_phrases len [] (map (λ p. p.phrase) dict)
    append_phrases len total users

  module _ (hashtable : Table) (kb_type cand_per_page : ℕ) where
    unfoldable pub candidates : ChewingData → AvailEntry → Option (List (List ℕ))
    unfolding phone_seq_cursor phones_of_char append_all_chars phrase_candidates users_in hash_func
    candidates d entry = do
      cursor ← phone_seq_cursor d
      ensure (entry.len != 0)
      if entry.len == 1
          then (do
            phone ← get_elem? (d.phone_seq) cursor
            phone_alt ← get_elem? (d.phone_seq_alt) cursor
            append_all_chars [] (phones_of_char kb_type phone phone_alt))
          else (do
            ensure (leb (cursor + entry.len) (length d.phone_seq))
            ensure (ltb entry.len max_phone_seq_len)
            let phones = c_string (take entry.len (drop cursor d.phone_seq))
            phrase_candidates entry.len entry.id
                (map (λ u. u.word_seq) (users_in phones (hashtable (hash_func phones)))))

    -- `SetChoiceInfo`. The division by 0 for pages of no place is a fault.
    unfoldable pub set_choice_info : ChewingData → AvailInfo → ChoiceInfo → Option ChoiceInfo
    unfolding candidates
    set_choice_info d pai pci = do
      entry ← get_elem? (pai.avail) (pai.current_avail)
      total ← candidates d entry
      ensure (ltb 0 (length total))
      ensure (ltb 0 cand_per_page)
      some (record pci {
        total_choice_str = total;
        n_choice_per_page = cand_per_page;
        n_page = (length total + cand_per_page - 1) / cand_per_page;
        page_no = 0;
        is_symbol = word_choice;
      })
