-- ===== src/Choice/Avail.antt =====
-- SetAvailInfo of src/choice.c: the lengths for which there is a phrase.
use libchewing.Utf8.Chars.{c_string}
use libchewing.Choice.{AvailEntry}
use libchewing.Dictionary.{StaticData, tree_find_phrase}
use libchewing.Editing.{ChewingData, count_symbols, store, max_phone_seq_len}
use libchewing.Phrasing.{max_phrase_len}
use libchewing.UserPhrase.Table.{Table, hash_find_phone_phrase}
use libchewing.Common.{
  ℕ, zero, suc, ◌+◌, ◌-◌, Bool, Option, none, some, List, [], ◌∷◌, ◌++◌, length, take, drop,
  replicate, get_elem?, ltb, ◌==◌, ◌!=◌, if◌then◌else◌, ◌>>=◌, ◌>>◌, ensure,
}

-- The loop over `bSymbolArrBrkpt` from the entry `i` on, for `count` entries; a symbol before every
-- character makes no breakpoint.
unfoldable translate_brkpt : ℕ → ℕ → ChewingData → List ℕ → List ℕ → Option (List ℕ)
unfolding count_symbols store
translate_brkpt zero i d symbol_arr_brkpt out = some out
translate_brkpt (suc count) i d symbol_arr_brkpt out = do
  mark ← get_elem? symbol_arr_brkpt i
  n ← count_symbols d (i + 1)
  out' ← (if mark == 0 then some out else (if ltb i n then some out else store out (i - n) 1))
  translate_brkpt count (i + 1) d symbol_arr_brkpt out'

-- The loop that sets `head`, for `count` places from `i` down.
unfoldable head_loop : ℕ → ℕ → ℕ → List ℕ → Option ℕ
head_loop zero i head brkpt = some head
head_loop (suc count) i head brkpt = do
  mark ← get_elem? brkpt i
  let rest = head_loop count (i - 1) i brkpt
  if mark != 0 then some head else rest

-- The loop that sets `tail`, for `count` places from `i` on.
unfoldable tail_loop : ℕ → ℕ → ℕ → List ℕ → Option ℕ
tail_loop zero i tail brkpt = some tail
tail_loop (suc count) i tail brkpt = do
  mark ← get_elem? brkpt i
  let rest = tail_loop count (i + 1) i brkpt
  if mark != 0 then some i else rest

module _ (static : StaticData) (hashtable : Table) (rearward : Bool) where
  -- A round of the last loop, for the phones from `head` to `tail`. It writes to the entry after the
  -- last one in any case.
  unfoldable avail_at : List ℕ → ℕ → ℕ → List AvailEntry → Option (List AvailEntry)
  unfolding tree_find_phrase hash_find_phone_phrase
  avail_at phone_seq head tail avail = do
    let len = tail - head + 1
    ensure (ltb (length avail) max_phrase_len)
    ensure (ltb tail (length phone_seq))
    let phones = take len (drop head phone_seq)
    tree_pos ← tree_find_phrase static.tree phones
    elim tree_pos [
      | some at ↦ some (avail ++ record { len = len; id = some at } ∷ [])
      | none ↦ (do
        ensure (ltb len max_phone_seq_len)
        some (elim (hash_find_phone_phrase hashtable (c_string phones) []) [
          | [] ↦ avail
          | u ∷ us ↦ avail ++ record { len = len; id = none } ∷ []
        ]))
    ]

  -- The last loop, with as many rounds as `head_tmp` or `tail_tmp` is from its limit.
  unfoldable avail_loop : ℕ → List ℕ → ℕ → ℕ → List AvailEntry → Option (List AvailEntry)
  unfolding avail_at
  avail_loop zero phone_seq head tail avail = some avail
  avail_loop (suc count) phone_seq head tail avail = do
    avail' ← avail_at phone_seq head tail avail
    if rearward
        then avail_loop count phone_seq (head - 1) tail avail'
        else avail_loop count phone_seq head (tail + 1) avail'

  -- `SetAvailInfo`: the entries.
  unfoldable pub set_avail_info : ChewingData → List ℕ → ℕ → ℕ → Option (List AvailEntry)
  unfolding translate_brkpt head_loop tail_loop avail_loop
  set_avail_info d symbol_arr_brkpt begin end = do
    brkpt ←
        translate_brkpt d.chi_symbol_buf_len 0 d symbol_arr_brkpt
          (replicate (max_phone_seq_len + 1) 0)
    if rearward
        then (do
          head ← head_loop (end + 1 - begin) end 0 brkpt
          avail_loop (end + 1 - head) d.phone_seq end end [])
        else (do
          tail ← tail_loop (d.n_phone_seq - begin) begin 0 brkpt
          avail_loop (tail + 1 - begin) d.phone_seq begin begin [])
