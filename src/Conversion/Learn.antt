-- ===== src/Conversion/Learn.antt =====
-- AutoLearnPhrase of src/chewingutil.c: what the user commits goes to the user's phrases. `none` is a
-- failed assertion or an access out of range.
use libchewing.CString.{str_eq}
use libchewing.Dictionary.{StaticData}
use libchewing.Editing.{PreeditBuf, Interval, ChewingData, chewing_is_chi_at, max_phone_seq_len}
use libchewing.Editing.Index.{to_preedit_buf_index}
use libchewing.UserPhrase.Disk.{Store}
use libchewing.UserPhrase.Update.{user_update_phrase}
use libchewing.Utf8.{ue_str_seek}
use libchewing.Common.{
  ℕ, zero, suc, ◌+◌, ◌-◌, Bool, true, false, Option, none, some, List, [], ◌∷◌, ◌++◌, length, take,
  drop, get_elem?, ltb, leb, ◌==◌, ◌!=◌, ◌&&◌, ◌||◌, not, if◌then◌else◌, ◌>>=◌, ◌>>◌, ensure,
}

-- BREAK_WORD.
abbrev pub break_words : List (List ℕ)
break_words =
    (230 ∷ 152 ∷ 175 ∷ [])
    ∷ (231 ∷ 154 ∷ 132 ∷ [])
    ∷ (228 ∷ 186 ∷ 134 ∷ [])
    ∷ (228 ∷ 184 ∷ 141 ∷ [])
    ∷ (228 ∷ 185 ∷ 159 ∷ [])
    ∷ (232 ∷ 128 ∷ 140 ∷ [])
    ∷ (228 ∷ 189 ∷ 160 ∷ [])
    ∷ (230 ∷ 136 ∷ 145 ∷ [])
    ∷ (228 ∷ 187 ∷ 150 ∷ [])
    ∷ (232 ∷ 136 ∷ 135 ∷ [])
    ∷ (229 ∷ 174 ∷ 131 ∷ [])
    ∷ (229 ∷ 165 ∷ 185 ∷ [])
    ∷ (229 ∷ 133 ∷ 182 ∷ [])
    ∷ (229 ∷ 176 ∷ 177 ∷ [])
    ∷ (229 ∷ 146 ∷ 140 ∷ [])
    ∷ (230 ∷ 136 ∷ 150 ∷ [])
    ∷ (229 ∷ 128 ∷ 145 ∷ [])
    ∷ (230 ∷ 128 ∷ 167 ∷ [])
    ∷ (229 ∷ 147 ∷ 161 ∷ [])
    ∷ (229 ∷ 173 ∷ 144 ∷ [])
    ∷ (228 ∷ 184 ∷ 138 ∷ [])
    ∷ (228 ∷ 184 ∷ 139 ∷ [])
    ∷ (228 ∷ 184 ∷ 173 ∷ [])
    ∷ (229 ∷ 133 ∷ 167 ∷ [])
    ∷ (229 ∷ 164 ∷ 150 ∷ [])
    ∷ (229 ∷ 140 ∷ 150 ∷ [])
    ∷ (232 ∷ 128 ∷ 133 ∷ [])
    ∷ (229 ∷ 174 ∷ 182 ∷ [])
    ∷ (229 ∷ 133 ∷ 146 ∷ [])
    ∷ (229 ∷ 185 ∷ 180 ∷ [])
    ∷ (230 ∷ 156 ∷ 136 ∷ [])
    ∷ (230 ∷ 151 ∷ 165 ∷ [])
    ∷ (230 ∷ 153 ∷ 130 ∷ [])
    ∷ (229 ∷ 136 ∷ 134 ∷ [])
    ∷ (231 ∷ 167 ∷ 146 ∷ [])
    ∷ (232 ∷ 161 ∷ 151 ∷ [])
    ∷ (232 ∷ 183 ∷ 175 ∷ [])
    ∷ (230 ∷ 157 ∷ 145 ∷ [])
    ∷ (229 ∷ 156 ∷ 168 ∷ [])
    ∷ []

unfoldable is_one_of : List ℕ → List (List ℕ) → Bool
unfolding str_eq
is_one_of s [] = false
is_one_of s (w ∷ ws) = str_eq s w || is_one_of s ws

unfoldable chewing_is_break_point : ℕ → ChewingData → Option Bool
unfolding chewing_is_chi_at is_one_of
chewing_is_break_point cursor d = do
  chi ← chewing_is_chi_at cursor d
  cell ← get_elem? (d.preedit_buf) cursor
  some (not chi || is_one_of cell.char_ break_words)

-- The loop of `copyStringFromPreeditBuf` into `room` bytes. A string that does not fit, which C leaves
-- without its NUL, is a fault.
unfoldable copy_loop : ℕ → List PreeditBuf → ℕ → Option (List ℕ)
copy_loop zero cells room = some []
copy_loop (suc n) [] room = none
copy_loop (suc n) (c ∷ cells) room = do
  ensure (ltb (length c.char_) room)
  rest ← copy_loop n cells (room - length c.char_)
  some (c.char_ ++ rest)

unfoldable copy_string_from_preedit_buf : ChewingData → ℕ → ℕ → ℕ → Option (List ℕ)
unfolding copy_loop
copy_string_from_preedit_buf d at len room = do
  ensure (ltb (at + len) max_phone_seq_len)
  ensure (ltb 0 room)
  copy_loop len (drop at d.preedit_buf) room

-- The variables of `AutoLearnPhrase`, with the phones before the 0.
pub record Learning : Type 0 where
  pub store : Store
  pub buf_phone_seq : List ℕ
  pub buf_word_seq : List ℕ
  pub prev_pos : ℕ
  pub pending_pos : ℕ

module _ (static : StaticData) (d : ChewingData) where
  -- `UserUpdatePhrase` with what is in the buffers.
  unfoldable learn : Learning → Option Learning
  unfolding user_update_phrase
  learn s = do
    r ← user_update_phrase static s.buf_phone_seq s.buf_word_seq s.store
    some (record s { store = r.0; prev_pos = 0; pending_pos = 0 })

  -- A phrase of one phone is put behind the others that wait.
  unfoldable wait : ℕ → ℕ → Learning → Option Learning
  unfolding ue_str_seek copy_string_from_preedit_buf
  wait from at s = do
    phone ← get_elem? (d.phone_seq) from
    rest ← ue_str_seek s.buf_word_seq s.prev_pos
    let offset = length s.buf_word_seq - length rest
    word ← copy_string_from_preedit_buf d at 1 (201 - offset)
    some (record s {
      buf_phone_seq = take s.prev_pos s.buf_phone_seq ++ phone ∷ [];
      buf_word_seq = take offset s.buf_word_seq ++ word;
      prev_pos = s.prev_pos + 1;
      pending_pos = at + 1;
    })

  -- Any other phrase is learned at once, after those that wait.
  unfoldable learn_whole : ℕ → ℕ → ℕ → Learning → Option Learning
  unfolding learn copy_string_from_preedit_buf
  learn_whole from len at s = do
    s' ← (if s.pending_pos != 0 then learn s else some s)
    ensure (leb (from + len) (length d.phone_seq))
    word ← copy_string_from_preedit_buf d at len 201
    learn (record s' { buf_phone_seq = take len (drop from d.phone_seq); buf_word_seq = word })

  -- A round of the loop. Phrases that wait are learned where something stands between.
  unfoldable learn_interval : Interval → Learning → Option Learning
  unfolding to_preedit_buf_index learn chewing_is_break_point wait learn_whole
  learn_interval inte s = do
    let len = inte.to - inte.from
    at ← to_preedit_buf_index d inte.from
    s' ← (if s.pending_pos != 0 && ltb s.pending_pos at then learn s else some s)
    stops ← (if len == 1 then chewing_is_break_point at d else some true)
    if stops then learn_whole inte.from len at s' else wait inte.from at s'

  unfoldable learn_loop : List Interval → Learning → Option Learning
  unfolding learn_interval
  learn_loop [] s = some s
  learn_loop (i ∷ is) s = learn_interval i s >>= learn_loop is

  unfoldable pub auto_learn_phrase : Store → Option Store
  unfolding learn_loop learn
  auto_learn_phrase store = do
    s ← learn_loop d.prefer_interval (record {
      store = store;
      buf_phone_seq = [];
      buf_word_seq = [];
      prev_pos = 0;
      pending_pos = 0;
    })
    s' ← (if s.pending_pos != 0 then learn s else some s)
    some s'.store
