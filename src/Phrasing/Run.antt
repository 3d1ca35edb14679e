-- ===== src/Phrasing/Run.antt =====
-- Phrasing of src/tree.c: the intervals, the choice of a record, and what it writes into the edit
-- buffer and the output. The breakpoints `bArrBrkpt` are the parameter `brkpt`.
pub mod Lossless
use libchewing.Utf8.{ue_str_seek, ue_str_n_bytes}
use libchewing.Dictionary.{StaticData}
use libchewing.Editing.{PreeditBuf, Interval, ChewingData, store}
use libchewing.Editing.Index.{to_preedit_buf_index}
use libchewing.Phrasing.{PhraseInterval, UserPhrase, find_interval}
use libchewing.Phrasing.Discard.{set_info, discard1, discard2}
use libchewing.Phrasing.Dp.{RecordNode, do_dp_phrasing}
use libchewing.Phrasing.Records.{save_list, count_match_cnnct, sort_list_by_score, next_cut}
use libchewing.Common.{
  ℕ, zero, suc, ◌+◌, ◌-◌, Bool, Option, some, List, [], ◌∷◌, take, get_elem?, ltb, leb,
  if◌then◌else◌, ◌>>=◌, ◌>>◌, ensure,
}

pub record PhrasingOutput : Type 0 where
  pub disp_interval : List Interval
  pub n_num_cut : ℕ

-- The loop of `FillPreeditBuf`, for `count` entries from `i` on and characters from the `k`-th on.
-- `char_` has five bytes.
unfoldable fill_loop : ℕ → ℕ → ℕ → List ℕ → List PreeditBuf → Option (List PreeditBuf)
unfolding store
fill_loop zero i k phrase buf = some buf
fill_loop (suc count) i k phrase buf = do
  tail ← ue_str_seek phrase k
  n ← ue_str_n_bytes tail 1
  ensure (leb (n + 1) 5)
  entry ← get_elem? buf i
  buf' ← store buf i (record entry { char_ = take n tail })
  fill_loop count (i + 1) (k + 1) phrase buf'

unfoldable fill_preedit_buf : ChewingData → List ℕ → ℕ → ℕ → Option ChewingData
unfolding to_preedit_buf_index fill_loop
fill_preedit_buf d phrase from to = do
  ensure (ltb from to)
  start ← to_preedit_buf_index d from
  buf ← fill_loop (to - from) start 0 phrase d.preedit_buf
  some (record d { preedit_buf = buf })

-- The first loop of `OutputRecordStr`.
unfoldable output_intervals : List PhraseInterval → List ℕ → ChewingData → Option ChewingData
unfolding fill_preedit_buf
output_intervals ivs [] d = some d
output_intervals ivs (i ∷ record_) d = do
  inter ← get_elem? ivs i
  d' ← fill_preedit_buf d inter.p_phr.phrase inter.from inter.to
  output_intervals ivs record_ d'

-- The second loop, over the selections.
unfoldable output_selected : List (Interval × List ℕ) → ChewingData → Option ChewingData
unfolding fill_preedit_buf
output_selected [] d = some d
output_selected ((c, str) ∷ select) d = do
  d' ← fill_preedit_buf d str c.from c.to
  output_selected select d'

unfoldable output_record_str : List PhraseInterval → RecordNode → ChewingData → Option ChewingData
unfolding output_intervals output_selected
output_record_str ivs best d = do
  d' ← output_intervals ivs best.arr_index d
  output_selected d'.select d'

unfoldable save_disp_interval : List PhraseInterval → List ℕ → Option (List Interval)
save_disp_interval ivs [] = some []
save_disp_interval ivs (i ∷ record_) = do
  v ← get_elem? ivs i
  rest ← save_disp_interval ivs record_
  some (record { from = v.from; to = v.to } ∷ rest)

-- The intervals and the record that a phrasing chooses, and the new `nNumCut`.
pub record Chosen : Type 0 where
  pub intervals : List PhraseInterval
  pub best : RecordNode
  pub num_cut : ℕ

-- The branch of `Phrasing` for all phrasings.
unfoldable choose_all : List PhraseInterval → List ℕ → ℕ → ℕ → Option Chosen
unfolding save_list count_match_cnnct sort_list_by_score next_cut
choose_all ivs cnnct n cut = do
  saved ← save_list ivs
  counted ← count_match_cnnct ivs cnnct n saved
  sorted ← sort_list_by_score ivs counted
  after ← next_cut cut sorted
  best ← get_elem? after.1 0
  some (record { intervals = ivs; best = best; num_cut = after.0 })

-- The other branch.
unfoldable pub choose_best : List PhraseInterval → ℕ → ℕ → Option Chosen
unfolding do_dp_phrasing
choose_best ivs n cut = do
  chosen ← do_dp_phrasing n ivs
  some (record { intervals = chosen.0; best = chosen.1; num_cut = cut })

-- SetInfo, Discard1 and Discard2 on the intervals that are found.
unfoldable pub useful_intervals : ℕ → List PhraseInterval → Option (List PhraseInterval)
unfolding set_info discard1 discard2
useful_intervals n found = do
  leftmost ← set_info n found
  alone ← discard1 found
  discard2 leftmost alone

module _ (static : StaticData) (user_phrases : List ℕ → List UserPhrase) (brkpt : List ℕ) where
  unfoldable pub phrasing :
      Bool → ChewingData → PhrasingOutput → Option (ChewingData × PhrasingOutput)
  unfolding find_interval useful_intervals choose_all choose_best output_record_str
      save_disp_interval
  phrasing all_phrasing d out = do
    found ← find_interval static user_phrases (record {
      phone_seq = d.phone_seq;
      n_phone_seq = d.n_phone_seq;
      arr_brkpt = brkpt;
      select = d.select;
    })
    ivs ← useful_intervals d.n_phone_seq found
    chosen ←
        (if all_phrasing
          then choose_all ivs d.user_arr_cnnct d.n_phone_seq out.n_num_cut
          else choose_best ivs d.n_phone_seq out.n_num_cut)
    d' ← output_record_str chosen.intervals chosen.best d
    disp ← save_disp_interval chosen.intervals chosen.best.arr_index
    some (d', record { disp_interval = disp; n_num_cut = chosen.num_cut })
