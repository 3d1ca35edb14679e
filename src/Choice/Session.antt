-- ===== src/Choice/Session.antt =====
-- The choice of a candidate, src/choice.c: from ChoiceInitAvail to ChoiceSelect or ChoiceEndChoice.
use libchewing.Choice.{AvailInfo, ChoiceInfo, word_choice, change_select_interval_and_breakpoint}
use libchewing.Choice.Avail.{set_avail_info}
use libchewing.Choice.Candidates.{set_choice_info}
use libchewing.Dictionary.{StaticData}
use libchewing.Editing.{Interval, ChewingData, count_symbols, phone_seq_cursor}
use libchewing.UserPhrase.Table.{Table}
use libchewing.Common.{
  ℕ, ◌+◌, ◌-◌, Bool, true, false, Option, some, List, [], ◌∷◌, length, get_elem?, ltb, leb, ◌==◌,
  ◌||◌, ◌&&◌, if◌then◌else◌, ◌>>=◌, ◌>>◌, ensure,
}

-- What the functions use of `ChewingData`, with the edit buffer in `edit`.
pub record Session : Type 0 where
  pub edit : ChewingData
  pub symbol_arr_brkpt : List ℕ
  pub avail_info : AvailInfo
  pub choice_info : ChoiceInfo
  pub b_select : Bool

-- 0 and -1.
pub data ChoiceRtn : Type 0 where
  choice_done choice_refused : ChoiceRtn

-- The loop of `SeekPhraseHead` from the last interval on: the last interval that has the phone.
unfoldable seek_loop_head : ℕ → ℕ → List Interval → ℕ
seek_loop_head phone head [] = head
seek_loop_head phone head (i ∷ is) =
    seek_loop_head phone (if ltb phone i.from || ltb i.to phone then head else i.from) is

unfoldable seek_phrase_head : ChewingData → Option ℕ
unfolding phone_seq_cursor seek_loop_head
seek_phrase_head d = do phone ← phone_seq_cursor d; some (seek_loop_head phone 0 d.prefer_interval)

unfoldable pub choice_end_choice : Session → Option Session
choice_end_choice s = do
  let pci = s.choice_info
  ensure (leb pci.old_chi_symbol_cursor s.edit.chi_symbol_buf_len)
  some (record s {
    b_select = false;
    choice_info = record pci { total_choice_str = []; n_page = 0; is_symbol = word_choice };
    edit = record (s.edit) { chi_symbol_cursor = pci.old_chi_symbol_cursor };
  })

abbrev pub is_word_choice : Session → Bool
is_word_choice s = elim s.choice_info.is_symbol [ word_choice ↦ true | _ ↦ false ]

-- `ChoiceHasNextAvail` and `ChoiceHasPrevAvail`, with `bSelect` set.
unfoldable pub choice_has_next_avail : Session → Bool
choice_has_next_avail s = is_word_choice s && ltb 0 s.avail_info.current_avail

unfoldable pub choice_has_prev_avail : Session → Bool
choice_has_prev_avail s =
    is_word_choice s && ltb (s.avail_info.current_avail + 1) (length s.avail_info.avail)

module _ (static : StaticData) (hashtable : Table) (kb_type cand_per_page : ℕ) where
  -- A call of `SetChoiceInfo`.
  unfoldable refresh : Session → Option Session
  unfolding set_choice_info
  refresh s = do
    pci ← set_choice_info static hashtable kb_type cand_per_page s.edit s.avail_info s.choice_info
    some (record s { choice_info = pci })

  module _ (rearward : Bool) where
    unfoldable pub choice_init_avail : Session → Option Session
    unfolding count_symbols phone_seq_cursor seek_phrase_head set_avail_info choice_end_choice
        refresh
    choice_init_avail s = do
      let old = s.edit.chi_symbol_cursor
      let at_end = s.edit.chi_symbol_buf_len == old
      ensure (ltb 0 old || ltb 0 s.edit.chi_symbol_buf_len)
      let d : ChewingData = record (s.edit) { chi_symbol_cursor = if at_end then old - 1 else old }
      end ← phone_seq_cursor d
      head ← seek_phrase_head d
      symbols ← count_symbols d d.chi_symbol_cursor
      let d' : ChewingData = record d {
        chi_symbol_cursor = if rearward then head + symbols else d.chi_symbol_cursor;
      }
      begin ← phone_seq_cursor d'
      avail ← set_avail_info static hashtable rearward d' s.symbol_arr_brkpt begin end
      let s' : Session = record s {
        edit = d';
        avail_info = record { avail = avail; current_avail = length avail - 1 };
        choice_info = record (s.choice_info) { old_chi_symbol_cursor = old };
        b_select = true;
      }
      if length avail == 0 then choice_end_choice s' else refresh s'

    -- `ChangeCurrentAvailInfo`, for lengths that are not 0. A cursor before the start is a fault.
    unfoldable change_current_avail_info : ℕ → Session → Option Session
    change_current_avail_info current s = do
      entry ← get_elem? (s.avail_info.avail) current
      let old = s.choice_info.old_chi_symbol_cursor
      let at_end = old == s.edit.chi_symbol_buf_len
      let back = if at_end then entry.len else entry.len - 1
      ensure (if rearward then leb old s.edit.chi_symbol_buf_len && leb back old else true)
      some (record s {
        edit = record (s.edit) {
          chi_symbol_cursor = if rearward then old - back else s.edit.chi_symbol_cursor;
        };
        avail_info = record (s.avail_info) { current_avail = current };
      })

    -- A move to another length, with its candidates.
    unfoldable move_avail : ℕ → Session → Option Session
    unfolding change_current_avail_info refresh
    move_avail current s = change_current_avail_info current s >>= refresh

    unfoldable pub choice_first_avail : Session → Option Session
    unfolding move_avail
    choice_first_avail s = do
      ensure s.b_select
      if is_word_choice s then move_avail (length s.avail_info.avail - 1) s else some s

    unfoldable pub choice_last_avail : Session → Option Session
    unfolding move_avail
    choice_last_avail s = do ensure s.b_select; if is_word_choice s then move_avail 0 s else some s

    unfoldable pub choice_prev_avail : Session → Option (Session × ChoiceRtn)
    unfolding choice_has_prev_avail move_avail
    choice_prev_avail s = do
      ensure s.b_select
      if choice_has_prev_avail s
          then (do s' ← move_avail (s.avail_info.current_avail + 1) s; some (s', choice_done))
          else some (s, choice_refused)

    unfoldable pub choice_next_avail : Session → Option (Session × ChoiceRtn)
    unfolding choice_has_next_avail move_avail
    choice_next_avail s = do
      ensure s.b_select
      if choice_has_next_avail s
          then (do s' ← move_avail (s.avail_info.current_avail - 1) s; some (s', choice_done))
          else some (s, choice_refused)

unfoldable pub choice_select : ℕ → Session → Option Session
unfolding phone_seq_cursor change_select_interval_and_breakpoint choice_end_choice
choice_select select_no s = do
  cursor ← phone_seq_cursor s.edit
  entry ← get_elem? (s.avail_info.avail) (s.avail_info.current_avail)
  str ← get_elem? (s.choice_info.total_choice_str) select_no
  d ← change_select_interval_and_breakpoint cursor (cursor + entry.len) str s.edit
  choice_end_choice (record s { edit = d })
