-- ===== src/Editing/Release.antt =====
-- ReleaseChiSymbolBuf of src/chewingutil.c: a text that is too long is committed from its head.
pub mod Shorter
pub mod Head
use libchewing.Common.{
  ℕ, zero, suc, ◌+◌, ◌-◌, ◌*◌, Bool, Option, none, some, List, [], ◌∷◌, ◌++◌, length, ltb, leb,
  ◌==◌, ◌!=◌, not, if◌then◌else◌, ◌>>=◌, ◌>>◌, ensure,
}
use libchewing.Editing.{
  PreeditBuf, Interval, ChewingData, is_chinese, chewing_is_chi_at, kill_from_left,
  max_phone_seq_len,
}

-- `CompInterval(a, b) > 0`.
unfoldable pub comp_interval : Interval → Interval → Bool
comp_interval a b = if a.from == b.from then ltb b.to a.to else ltb b.from a.from

-- `qsort` with it.
unfoldable pub insert_interval : Interval → List Interval → List Interval
unfolding comp_interval
insert_interval i [] = i ∷ []
insert_interval i (j ∷ js) =
    let rest = insert_interval i js in if comp_interval i j then j ∷ rest else i ∷ j ∷ js

unfoldable pub sort_intervals : List Interval → List Interval
unfolding insert_interval
sort_intervals [] = []
sort_intervals (i ∷ is) = insert_interval i (sort_intervals is)

-- The interval that `FindIntervalFrom` finds; `none` is its result -1.
unfoldable pub find_interval_from : ℕ → List Interval → Option Interval
find_interval_from from [] = none
find_interval_from from (i ∷ is) =
    let rest = find_interval_from from is in if i.from == from then some i else rest

-- The loop over the first `n` entries up to a character: how many there are before it.
unfoldable pub leading_symbols : ℕ → List PreeditBuf → Option ℕ
leading_symbols zero buf = some 0
leading_symbols (suc n) [] = none
leading_symbols (suc n) (c ∷ buf) =
    let rest = leading_symbols n buf >>= λ i. some (suc i) in if is_chinese c then some 0 else rest

-- The number of entries to release. The intervals are sorted on the way.
unfoldable pub count_release_num : ChewingData → Option (ℕ × ChewingData)
unfolding sort_intervals find_interval_from leading_symbols chewing_is_chi_at
count_release_num d =
    let d' = record d { prefer_interval = sort_intervals d.prefer_interval } in
    if leb d.chi_symbol_buf_len d.max_chi_symbol_len
    then some (0, d)
    else chewing_is_chi_at 0 d' >>= λ chi.
        if not chi
        then (leading_symbols d.chi_symbol_cursor d.preedit_buf >>= λ i. some (i, d'))
        else elim (find_interval_from 0 d'.prefer_interval) [
          | some i ↦ some (i.to - i.from, d')
          | none ↦ some (1, d')
        ]

-- The loop of `WriteChiSymbolToCommitBuf`, after `pos` bytes, with its assertion on the room.
unfoldable pub write_loop : ℕ → ℕ → List PreeditBuf → Option (List ℕ)
write_loop zero pos buf = some []
write_loop (suc n) pos [] = none
write_loop (suc n) pos (c ∷ buf) = do
  ensure (ltb (pos + 5) (max_phone_seq_len * 4 + 1))
  rest ← write_loop n (pos + length c.char_) buf
  some (c.char_ ++ rest)

-- The string in `commitBuf`.
unfoldable pub write_chi_symbol_to_commit_buf : ChewingData → ℕ → Option (List ℕ)
unfolding write_loop
write_chi_symbol_to_commit_buf d len = write_loop len 0 d.preedit_buf

-- The result, with the string that is committed if there is one.
unfoldable pub release_chi_symbol_buf : ChewingData → Option (ℕ × Option (List ℕ) × ChewingData)
unfolding count_release_num write_chi_symbol_to_commit_buf kill_from_left
release_chi_symbol_buf d = do
  (throw_end, d') ← count_release_num d
  (if throw_end != 0
      then (do
        commit ← write_chi_symbol_to_commit_buf d' throw_end
        d'' ← kill_from_left throw_end d'
        some (throw_end, some commit, d''))
      else some (0, none, d'))
