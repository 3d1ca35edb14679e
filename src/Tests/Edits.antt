-- ===== src/Tests/Edits.antt =====
-- Concrete texts for src/chewingutil.c.
use libchewing.Common.{
  ℕ, ◌-◌, ◌≡◌, refl, Option, some, none, List, [], ◌∷◌, ◌++◌, take, drop, arith, replicate, ◌>>=◌,
}
use libchewing.CString.{bytes}
use libchewing.Conversion.{Marks, set_marks}
use libchewing.Conversion.Prepared.{Prepared, set_marks-Prepared}
use libchewing.Editing.{
  PreeditBuf, Category, Interval, empty, chinese, symbol, ChewingData, add_chi, symbol_input,
  chewing_kill_char, kill_from_left, store,
}
use libchewing.Editing.Contents.{character, mark, view, contents, count_all}
use libchewing.Editing.WellFormed.{WellFormed}
use libchewing.Editing.Insert.{
  Inserted, add_chi-Inserted, SymbolOutcome, symbol_input-SymbolOutcome,
}
use libchewing.Editing.Delete.{Deleted, chewing_kill_char-Deleted}
use libchewing.Editing.Index.{
  NoneAcross, chewing_kill_select_interval_across, kill_select_interval_across-NoneAcross,
  Translated, to_preedit_buf_index, to_preedit_buf_index-Translated,
}
use libchewing.Editing.Prefer.{mark_all, make_prefer_interval}
use libchewing.Editing.Prefer.Parts.{AllWithin, uncovered}
use libchewing.Editing.Prefer.Partition.{Covers, make_prefer_interval-Covers}
use libchewing.Editing.Release.{release_chi_symbol_buf}
use libchewing.Editing.Release.Shorter.{AllInside, AllFit}
use libchewing.Editing.Release.Head.{Released, release_chi_symbol_buf-Released}
use libchewing.Editing.Compose.{Restored, kill_char-add_chi, kill_from_left-drop}

abbrev pub cell : Category → PreeditBuf
cell c = record { category = c; char_ = bytes "x" }

-- A character, a symbol and a character; the cursor is before the last one.
abbrev pub three : ChewingData
three = record {
  preedit_buf = cell chinese ∷ cell symbol ∷ cell chinese ∷ replicate 47 (cell empty);
  chi_symbol_cursor = 2;
  chi_symbol_buf_len = 3;
  phone_seq = 5380 ∷ 8 ∷ replicate 48 0;
  phone_seq_alt = 5381 ∷ 9 ∷ replicate 48 0;
  n_phone_seq = 2;
  select = [];
  user_arr_cnnct = replicate 51 0;
  user_arr_brkpt = replicate 51 0;
  symbol_key_buf = replicate 50 0;
  prefer_interval = [];
  max_chi_symbol_len = 39;
}

three-WellFormed : WellFormed three
unfolding count_all
three-WellFormed = record {
  preedit_size = refl;
  phone_size = refl;
  phone_alt_size = refl;
  cnnct_size = refl;
  brkpt_size = refl;
  key_size = refl;
  cursor_le = omega arith;
  len_le = omega arith;
  phones = refl;
}

contents-three : contents three ≡ character 5380 ∷ mark (bytes "x") ∷ character 8 ∷ []
unfolding view
contents-three = refl

add_chi-Inserted_example : Inserted three (character 77) (add_chi 77 78 three)
add_chi-Inserted_example = add_chi-Inserted three three-WellFormed (omega arith) 77 78

symbol_input-SymbolOutcome_example : SymbolOutcome b'a' three (symbol_input b'a' three)
symbol_input-SymbolOutcome_example = symbol_input-SymbolOutcome b'a' three three-WellFormed

chewing_kill_char-Deleted_example : Deleted three 0 1 (chewing_kill_char three 0 1)
chewing_kill_char-Deleted_example =
    chewing_kill_char-Deleted three three-WellFormed 0 1 (omega arith) (omega arith) (omega arith)

-- The first phone is gone from one array, and not from the other.
abbrev first_phones : Option ChewingData → List ℕ
first_phones none = []
first_phones (some d) = take 1 d.phone_seq ++ take 1 d.phone_seq_alt

kill-three : first_phones (chewing_kill_char three 0 1) ≡ 8 ∷ 5381 ∷ []
unfolding chewing_kill_char
kill-three = refl

kill_char-add_chi_example :
    Restored three (add_chi 77 78 three >>= λ d'. chewing_kill_char d' (d'.chi_symbol_cursor - 1) 1)
kill_char-add_chi_example = kill_char-add_chi three 77 78 three-WellFormed (omega arith)

kill_from_left-drop_example :
    (d : ChewingData) × (kill_from_left 2 three ≡ some d)
    × WellFormed d
    × (contents d ≡ drop 2 (contents three))
kill_from_left-drop_example =
    kill_from_left-drop 2 three three-WellFormed (omega arith) (omega arith)

-- A text longer than its limit, with one preferred interval.
abbrev long : ChewingData
long = record three { max_chi_symbol_len = 2; prefer_interval = record { from = 0; to = 1 } ∷ [] }

long-WellFormed : WellFormed long
unfolding count_all
long-WellFormed = record {
  preedit_size = refl;
  phone_size = refl;
  phone_alt_size = refl;
  cnnct_size = refl;
  brkpt_size = refl;
  key_size = refl;
  cursor_le = omega arith;
  len_le = omega arith;
  phones = refl;
}

release_chi_symbol_buf-Released_example : Released long (release_chi_symbol_buf long)
unfolding AllInside AllFit
release_chi_symbol_buf-Released_example =
    release_chi_symbol_buf-Released long long-WellFormed (ground arith) (ground arith) (omega arith)

-- Two selected intervals, of which the first has 1 inside.
abbrev selected : ChewingData
selected = record three {
  select = (record { from = 0; to = 2 }, bytes "a") ∷ (record { from = 1; to = 2 }, bytes "b") ∷ [];
}

kill_select_interval_across-NoneAcross_example :
    NoneAcross 1 ((chewing_kill_select_interval_across 1 selected).select)
kill_select_interval_across-NoneAcross_example = kill_select_interval_across-NoneAcross 1 selected

kill_across-selected :
    (chewing_kill_select_interval_across 1 selected).select
    ≡ (record { from = 1; to = 2 }, bytes "b") ∷ []
unfolding chewing_kill_select_interval_across
kill_across-selected = refl

-- The second phone belongs to the third entry.
to_preedit_buf_index-Translated_example : Translated three 1 (to_preedit_buf_index three 1)
unfolding count_all
to_preedit_buf_index-Translated_example =
    to_preedit_buf_index-Translated three 1 three-WellFormed (omega arith)

to_preedit_buf_index-three : to_preedit_buf_index three 1 ≡ some 2
unfolding to_preedit_buf_index
to_preedit_buf_index-three = refl

abbrev first_only : List Interval
first_only = record { from = 0; to = 1 } ∷ []

mark_all-first : mark_all 0 first_only (replicate 51 0) ≡ some (1 ∷ replicate 50 0)
unfolding mark_all store
mark_all-first = refl

make_prefer_interval-Covers_example :
    (is : List Interval) × (make_prefer_interval three first_only ≡ some is) × Covers 2 0 is
unfolding AllWithin uncovered
make_prefer_interval-Covers_example =
    make_prefer_interval-Covers three first_only (1 ∷ replicate 50 0) three-WellFormed
      (ground arith) mark_all-first (omega arith)

-- With a connect point between them, the two phones are one interval.
make_prefer_interval-joined :
    make_prefer_interval (record three { user_arr_cnnct = 0 ∷ 1 ∷ replicate 49 0 }) first_only
    ≡ some (record { from = 0; to = 2 } ∷ [])
unfolding make_prefer_interval store
make_prefer_interval-joined = refl

-- A phone of no interval, connected to the one before it and to the one after it.
make_prefer_interval-lost :
    make_prefer_interval
      (record three { n_phone_seq = 3; user_arr_cnnct = 0 ∷ 1 ∷ 1 ∷ replicate 48 0 })
      (record { from = 0; to = 1 } ∷ record { from = 2; to = 3 } ∷ [])
    ≡ some (record { from = 0; to = 1 } ∷ record { from = 1; to = 3 } ∷ [])
unfolding make_prefer_interval store
make_prefer_interval-lost = refl

set_marks-Prepared_example :
    (d' : ChewingData) × (marks : Marks) × (set_marks three ≡ some (d', marks))
    × Prepared three d' marks
set_marks-Prepared_example = set_marks-Prepared three three-WellFormed

-- A selection of both phones has the symbol inside and goes.
set_marks-three :
    (set_marks (record three { select = (record { from = 0; to = 2 }, bytes "xx") ∷ [] }) >>= λ r.
    some r.0)
    ≡ some three
unfolding set_marks
set_marks-three = refl
