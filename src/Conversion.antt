-- ===== src/Conversion.antt =====
-- CallPhrasing of src/chewingutil.c: the marks of the user and of the symbols bound the phrasing of
-- src/tree.c, whose words are joined to the preferred intervals.
pub mod Prepared
pub mod Learn
use libchewing.Dictionary.{StaticData}
use libchewing.Editing.{ChewingData, chewing_is_chi_at, store, max_phone_seq_len}
use libchewing.Editing.Index.{chewing_kill_select_interval_across}
use libchewing.Editing.Prefer.{make_prefer_interval}
use libchewing.Phrasing.{UserPhrase}
use libchewing.Phrasing.Run.{PhrasingOutput, phrasing}
use libchewing.UserPhrase.Table.{Table, hash_func}
use libchewing.UserPhrase.Update.{users_in}
use libchewing.Common.{
  ℕ, zero, suc, ◌+◌, Bool, Option, some, List, [], map, replicate, get_elem?, ◌==◌, if◌then◌else◌,
  ◌>>=◌, ◌>>◌, pos_part,
}

-- `bArrBrkpt` and `bSymbolArrBrkpt`.
pub record Marks : Type 0 where
  pub arr_brkpt : List ℕ
  pub symbol_arr_brkpt : List ℕ

-- The loop over the entries, for `count` of them from `i` on.
unfoldable pub mark_symbols : ℕ → ℕ → ℕ → ChewingData → Marks → Option Marks
unfolding chewing_is_chi_at store
mark_symbols zero i ch_count d marks = some marks
mark_symbols (suc count) i ch_count d marks = do
  chi ← chewing_is_chi_at i d
  if chi then mark_symbols count (i + 1) (ch_count + 1) d marks else (do
    brkpt ← store marks.arr_brkpt ch_count 1
    symbols ← store marks.symbol_arr_brkpt i 1
    mark_symbols count (i + 1) ch_count d
        (record { arr_brkpt = brkpt; symbol_arr_brkpt = symbols }))

-- The loop over the phones, for `count` of them from `i` on.
unfoldable pub kill_across_marks : ℕ → ℕ → List ℕ → ChewingData → Option ChewingData
unfolding chewing_kill_select_interval_across
kill_across_marks zero i brkpt d = some d
kill_across_marks (suc count) i brkpt d = do
  mark ← get_elem? brkpt i
  kill_across_marks count (i + 1) brkpt
      (if mark == 0 then d else chewing_kill_select_interval_across i d)

-- The part of `CallPhrasing` before the phrasing.
unfoldable pub set_marks : ChewingData → Option (ChewingData × Marks)
unfolding mark_symbols kill_across_marks
set_marks d = do
  marks ← mark_symbols d.chi_symbol_buf_len 0 0 d (record {
    arr_brkpt = d.user_arr_brkpt;
    symbol_arr_brkpt = replicate (max_phone_seq_len + 1) 0;
  })
  d' ← kill_across_marks d.n_phone_seq 0 marks.arr_brkpt d
  some (d', marks)

-- What the phrasing sees of the user's phrases; their frequencies are not below 0.
unfoldable pub user_phrases : Table → List ℕ → List UserPhrase
unfolding users_in hash_func
user_phrases hashtable phones =
    map (λ u. record { word_seq = u.word_seq; userfreq = pos_part u.userfreq })
      (users_in phones (hashtable (hash_func phones)))

unfoldable pub call_phrasing :
    StaticData
    → Table
    → Bool
    → ChewingData
    → PhrasingOutput
    → Option (ChewingData × PhrasingOutput × Marks)
unfolding set_marks user_phrases phrasing make_prefer_interval
call_phrasing static hashtable all_phrasing d out = do
  (d', marks) ← set_marks d
  (d'', out') ← phrasing static (user_phrases hashtable) marks.arr_brkpt all_phrasing d' out
  prefer ← make_prefer_interval d'' out'.disp_interval
  some (record d'' { prefer_interval = prefer }, out', marks)
