-- ===== src/Tests/Choosing.antt =====
-- Candidates and selections at concrete inputs.
use libchewing.Choice.{AvailEntry, AvailInfo, ChoiceInfo, word_choice}
use libchewing.Choice.Avail.{set_avail_info}
use libchewing.Choice.Candidates.{phrases_of, set_choice_info, first_size}
use libchewing.Choice.Choices.{dict_words, user_words, Paged, set_choice_info-Paged}
use libchewing.Choice.Collected.{Whole}
use libchewing.Choice.Selected.{Selected, choice_select-Selected}
use libchewing.Choice.Session.{Session, choice_select}
use libchewing.Conversion.Learn.{auto_learn_phrase}
use libchewing.Dictionary.{StaticData, Phrase}
use libchewing.Editing.{ChewingData, chinese, symbol, empty, phone_seq_cursor}
use libchewing.Editing.Contents.{count_all}
use libchewing.Editing.WellFormed.{WellFormed}
use libchewing.Utf8.{ue_str_n_bytes}
use libchewing.UserPhrase.Table.{Table, hash_func}
use libchewing.UserPhrase.Update.{users_in, no_items}
use libchewing.Tests.Edits.{three, cell}
use libchewing.Common.{
  ◌>>=◌, Option, ℕ, ◌+◌, ◌≡◌, refl, ap, length, true, false, none, some, List, [], ◌∷◌, take,
  replicate, arith, ◌==◌, if◌then◌else◌, pos, All,
}

abbrev word_a : List ℕ
word_a = 229 ∷ 173 ∷ 151 ∷ 229 ∷ 173 ∷ 151 ∷ []

abbrev word_b : List ℕ
word_b = 232 ∷ 170 ∷ 158 ∷ 229 ∷ 173 ∷ 151 ∷ []

-- A tree with two words for two phones.
abbrev pairs : StaticData
pairs = record {
  tree =
      record { key = 3; begin_or_pos = 1; end_or_freq = 2 }
      ∷ record { key = 5380; begin_or_pos = 2; end_or_freq = 3 }
      ∷ record { key = 8; begin_or_pos = 3; end_or_freq = 5 }
      ∷ record { key = 0; begin_or_pos = 0; end_or_freq = 9 }
      ∷ record { key = 0; begin_or_pos = 7; end_or_freq = 3 }
      ∷ [];
  dict = 229 ∷ 173 ∷ 151 ∷ 229 ∷ 173 ∷ 151 ∷ 0 ∷ 232 ∷ 170 ∷ 158 ∷ 229 ∷ 173 ∷ 151 ∷ 0 ∷ [];
}

-- The user has the first of them too.
abbrev pair_table : Table
pair_table h =
    if h == 5388
    then record {
      item_index = none;
      item = record {
        phone_seq = 5380 ∷ 8 ∷ [];
        word_seq = word_a;
        userfreq = pos 1;
        recent_time = pos 0;
        origfreq = pos 1;
        maxfreq = pos 1;
      };
    }
      ∷ []
    else []

abbrev at_start : ChewingData
at_start = record three { chi_symbol_cursor = 0 }

at_start-WellFormed : WellFormed at_start
unfolding count_all
at_start-WellFormed = record {
  preedit_size = refl;
  phone_size = refl;
  phone_alt_size = refl;
  cnnct_size = refl;
  brkpt_size = refl;
  key_size = refl;
  cursor_le = omega arith;
  len_le = omega arith;
  phones = refl;
}

at_start_cursor : phone_seq_cursor at_start ≡ some 0
unfolding phone_seq_cursor
at_start_cursor = refl

abbrev pair_entry : AvailEntry
pair_entry = record { len = 2; id = some 2 }

abbrev pair_avail : AvailInfo
pair_avail = record { avail = pair_entry ∷ []; current_avail = 0 }

abbrev pair_choice : ChoiceInfo
pair_choice = record {
  n_page = 1;
  page_no = 0;
  n_choice_per_page = 10;
  total_choice_str = word_a ∷ word_b ∷ [];
  old_chi_symbol_cursor = 2;
  is_symbol = word_choice;
}

abbrev pair_phrases : List Phrase
pair_phrases = record { phrase = word_a; freq = 9 } ∷ record { phrase = word_b; freq = 3 } ∷ []

pairs_read : phrases_of pairs (some 2) ≡ some pair_phrases
unfolding phrases_of
pairs_read = refl

pair_users : user_words pair_table 0 2 at_start ≡ word_a ∷ []
unfolding users_in hash_func
pair_users = refl

word_a-Whole : Whole 2 word_a
unfolding ue_str_n_bytes first_size
word_a-Whole = record {
  bytes = refl;
  room = omega arith;
  nonempty = omega arith;
  inside = omega arith;
}

word_b-Whole : Whole 2 word_b
unfolding ue_str_n_bytes first_size
word_b-Whole = record {
  bytes = refl;
  room = omega arith;
  nonempty = omega arith;
  inside = omega arith;
}

users-Whole : All (Whole 2) (user_words pair_table 0 2 at_start)
unfolding users_in hash_func
users-Whole = (word_a-Whole, tt)

set_choice_info-Paged_example :
    (out : ChoiceInfo) × (set_choice_info pairs pair_table 0 10 at_start pair_avail pair_choice
      ≡ some out)
    × Paged 10 2 (dict_words pair_phrases) (user_words pair_table 0 2 at_start) out
set_choice_info-Paged_example =
    set_choice_info-Paged pairs pair_table 0 10 0 at_start pair_avail pair_choice pair_entry
      pair_phrases at_start_cursor refl (omega arith) (omega arith) (omega arith) pairs_read
      (word_a-Whole, (word_b-Whole, tt)) users-Whole (omega arith)
      (omega (arith, ap length pair_users)) (omega arith)

-- The user's phrase is the first one, so there are two candidates.
set_choice_info-two :
    set_choice_info pairs pair_table 0 10 at_start pair_avail pair_choice ≡ some pair_choice
unfolding set_choice_info
set_choice_info-two = refl

-- Looking forward from the start there is only the length of two.
set_avail_info-pair :
    set_avail_info pairs pair_table false at_start (replicate 51 0) 0 0 ≡ some (pair_entry ∷ [])
unfolding set_avail_info
set_avail_info-pair = refl

-- A selection of the first phone, which the new one replaces.
abbrev choosing : Session
choosing = record {
  edit = record at_start { select = (record { from = 0; to = 1 }, take 3 word_b) ∷ [] };
  symbol_arr_brkpt = replicate 51 0;
  avail_info = pair_avail;
  choice_info = pair_choice;
  b_select = true;
}

choosing-WellFormed : WellFormed choosing.edit
choosing-WellFormed =
    let w = at_start-WellFormed in
    record {
      preedit_size = w.preedit_size;
      phone_size = w.phone_size;
      phone_alt_size = w.phone_alt_size;
      cnnct_size = w.cnnct_size;
      brkpt_size = w.brkpt_size;
      key_size = w.key_size;
      cursor_le = w.cursor_le;
      len_le = w.len_le;
      phones = w.phones;
    }

word_a_bytes : ue_str_n_bytes word_a 2 ≡ some 6
unfolding ue_str_n_bytes
word_a_bytes = refl

choosing_cursor : phone_seq_cursor choosing.edit ≡ some 0
unfolding phone_seq_cursor
choosing_cursor = refl

choice_select-Selected_example :
    (s' : Session) × (choice_select 0 choosing ≡ some s')
    × Selected (record { from = 0; to = 0 + 2 }) (take 6 word_a) choosing.edit s'.edit
    × (s'.b_select ≡ false)
    × (s'.edit.chi_symbol_cursor ≡ 2)
choice_select-Selected_example =
    choice_select-Selected 0 0 6 pair_entry word_a choosing choosing-WellFormed choosing_cursor refl
      refl (omega arith) (omega arith) word_a_bytes (omega arith) (omega arith) (tt, tt)
      (omega arith)

-- Two characters with a symbol after each. Looking back from the second one, whose own symbol ends
-- the loop before it has set the start, finds the phrase across the first symbol; without that
-- symbol it finds none.
abbrev with_symbols : ChewingData
with_symbols = record three {
  preedit_buf = cell chinese ∷ cell symbol ∷ cell chinese ∷ cell symbol ∷ replicate 46 (cell empty);
  chi_symbol_buf_len = 4;
}

set_avail_info-across :
    set_avail_info pairs pair_table true with_symbols (0 ∷ 1 ∷ 0 ∷ 1 ∷ replicate 47 0) 1 1
    ≡ some (pair_entry ∷ [])
unfolding set_avail_info
set_avail_info-across = refl

set_avail_info-within :
    set_avail_info pairs pair_table true three (0 ∷ 1 ∷ 0 ∷ replicate 48 0) 1 1 ≡ some []
unfolding set_avail_info
set_avail_info-within = refl

-- The number of phrases in the chains of the first phone, of the second and of both together.
abbrev learned : ChewingData → Option (List ℕ)
learned d = do
  s ←
      auto_learn_phrase pairs
        (record d {
          prefer_interval = record { from = 0; to = 1 } ∷ record { from = 1; to = 2 } ∷ [];
        })
        (record { hashtable = no_items; chewing_lifetime = pos 0; hash_file = none })
  some (length (s.hashtable 5380) ∷ length (s.hashtable 8) ∷ length (s.hashtable 5388) ∷ [])

-- Characters of a phrase each are learned as one phrase, but not with a symbol between.
auto_learn_phrase-apart : learned three ≡ some (1 ∷ 1 ∷ 0 ∷ [])
unfolding auto_learn_phrase
auto_learn_phrase-apart = refl

auto_learn_phrase-joined :
    learned (record three {
      preedit_buf = cell chinese ∷ cell chinese ∷ replicate 48 (cell empty);
      chi_symbol_buf_len = 2;
    })
    ≡ some (0 ∷ 0 ∷ 1 ∷ [])
unfolding auto_learn_phrase
auto_learn_phrase-joined = refl
