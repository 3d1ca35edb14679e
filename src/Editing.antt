-- ===== src/Editing.antt =====
-- src/chewingutil.c: the edit buffer, its cursor, the phones of its characters and the marks that go
-- with them. An array is a list of its full size; `none` is a failed assertion or an access out of
-- range.
pub mod Arrays
pub mod Contents
pub mod WellFormed
pub mod Insert
pub mod Kill
pub mod Delete
pub mod Compose
pub mod Release
pub mod Index
pub mod Prefer
use libchewing.Common.{
  ℕ, zero, suc, ◌+◌, ◌-◌, Bool, true, false, Option, none, some, List, [], ◌∷◌, ◌++◌, map, length,
  take, drop, set, replicate, get_elem?, ltb, leb, ◌&&◌, if◌then◌else◌, ◌>>=◌, ◌>>◌, ensure,
}

-- MAX_PHONE_SEQ_LEN, the size of the arrays.
abbrev pub max_phone_seq_len : ℕ
max_phone_seq_len = 50

-- CHEWING_NONE and so on.
pub data Category : Type 0 where
  empty chinese symbol : Category

-- `char_` is the string in it.
pub record PreeditBuf : Type 0 where
  pub category : Category
  pub char_ : List ℕ

-- `IntervalType`.
pub record Interval : Type 0 where
  pub from : ℕ
  pub to : ℕ

-- What the edit operations use of `ChewingData`. `select` holds the first `nSelect` intervals, each
-- with its string.
pub record ChewingData : Type 0 where
  pub preedit_buf : List PreeditBuf
  pub chi_symbol_cursor : ℕ
  pub chi_symbol_buf_len : ℕ
  pub phone_seq : List ℕ
  pub phone_seq_alt : List ℕ
  pub n_phone_seq : ℕ
  pub select : List (Interval × List ℕ)
  pub user_arr_cnnct : List ℕ
  pub user_arr_brkpt : List ℕ
  pub symbol_key_buf : List ℕ
  pub prefer_interval : List Interval
  pub max_chi_symbol_len : ℕ

abbrev pub is_chinese : PreeditBuf → Bool
is_chinese c = elim c.category [ chinese ↦ true | _ ↦ false ]

-- `memmove(&xs[dest], &xs[src], n)`.
unfoldable pub memmove : {A : Type 0} → List A → ℕ → ℕ → ℕ → Option (List A)
memmove xs dest src n =
    if leb (dest + n) (length xs) && leb (src + n) (length xs)
    then some (take dest xs ++ (take n (drop src xs) ++ drop (dest + n) xs))
    else none

-- `xs[i] = v`.
unfoldable pub store : {A : Type 0} → List A → ℕ → A → Option (List A)
store xs i v = if ltb i (length xs) then some (set xs i v) else none

unfoldable pub chewing_is_chi_at : ℕ → ChewingData → Option Bool
chewing_is_chi_at i d = do cell ← get_elem? (d.preedit_buf) i; some (is_chinese cell)

-- The number of characters among the first `n` entries, which the loop of `CountSymbols` counts.
unfoldable pub count_chi : ℕ → List PreeditBuf → Option ℕ
count_chi zero buf = some 0
count_chi (suc n) [] = none
count_chi (suc n) (c ∷ buf) = do chi ← count_chi n buf; some (if is_chinese c then suc chi else chi)

unfoldable pub count_symbols : ChewingData → ℕ → Option ℕ
unfolding count_chi
count_symbols d to = do chi ← count_chi to d.preedit_buf; some (to - chi)

-- The difference is never below 0, as there are at most `chi_symbol_cursor` symbols.
unfoldable pub phone_seq_cursor : ChewingData → Option ℕ
unfolding count_symbols
phone_seq_cursor d = do n ← count_symbols d d.chi_symbol_cursor; some (d.chi_symbol_cursor - n)

-- The loop of `AddChi` over the selected intervals.
unfoldable pub shift_select : ℕ → Interval × List ℕ → Interval × List ℕ
shift_select cursor s =
    let i = s.0 in
    if leb cursor i.from then (record { from = i.from + 1; to = i.to + 1 }, s.1) else s

abbrev pub insert_gap : {A : Type 0} → List A → ℕ → ℕ → Option (List A)
insert_gap xs at len = memmove xs (at + 1) at (len - at)

-- `AddChi`.
unfoldable pub add_chi : ℕ → ℕ → ChewingData → Option ChewingData
unfolding phone_seq_cursor shift_select memmove store
add_chi phone phone_alt d = do
  cursor ← phone_seq_cursor d
  ensure (leb cursor d.n_phone_seq)
  brkpt ← memmove d.user_arr_brkpt (cursor + 2) (cursor + 1) (d.n_phone_seq - cursor)
  cnnct ← memmove d.user_arr_cnnct (cursor + 2) (cursor + 1) (d.n_phone_seq - cursor)
  seq ← insert_gap d.phone_seq cursor d.n_phone_seq
  seq' ← store seq cursor phone
  alt ← insert_gap d.phone_seq_alt cursor d.n_phone_seq
  alt' ← store alt cursor phone_alt
  ensure (leb d.chi_symbol_cursor d.chi_symbol_buf_len)
  buf ← insert_gap d.preedit_buf d.chi_symbol_cursor d.chi_symbol_buf_len
  cell ← get_elem? buf d.chi_symbol_cursor
  buf' ← store buf d.chi_symbol_cursor (record cell { category = chinese })
  some (record d {
    preedit_buf = buf';
    chi_symbol_cursor = d.chi_symbol_cursor + 1;
    chi_symbol_buf_len = d.chi_symbol_buf_len + 1;
    phone_seq = seq';
    phone_seq_alt = alt';
    n_phone_seq = d.n_phone_seq + 1;
    select = map (shift_select cursor) d.select;
    user_arr_cnnct = cnnct;
    user_arr_brkpt = brkpt;
  })

-- `isprint` and `toupper` in the C locale.
unfoldable pub isprint : ℕ → Bool
isprint key = leb 32 key && leb key 126

unfoldable pub toupper : ℕ → ℕ
toupper key = if leb b'a' key && leb key b'z' then key - 32 else key

-- SYMBOL_KEY_OK and SYMBOL_KEY_ERROR.
pub data SymbolRtn : Type 0 where
  symbol_key_ok symbol_key_error : SymbolRtn

-- The part of `SymbolInput` under its test; `key` is an ASCII code.
unfoldable pub insert_symbol : ℕ → ChewingData → Option ChewingData
unfolding phone_seq_cursor memmove store toupper
insert_symbol key d = do
  ensure (leb d.chi_symbol_cursor d.chi_symbol_buf_len)
  buf ← insert_gap d.preedit_buf d.chi_symbol_cursor d.chi_symbol_buf_len
  buf' ← store buf d.chi_symbol_cursor (record { category = symbol; char_ = key ∷ [] })
  keys ← insert_gap d.symbol_key_buf d.chi_symbol_cursor d.chi_symbol_buf_len
  keys' ← store keys d.chi_symbol_cursor (toupper key)
  cursor ← phone_seq_cursor (record d { preedit_buf = buf' })
  cnnct ← store d.user_arr_cnnct cursor 0
  some (record d {
    preedit_buf = buf';
    chi_symbol_cursor = d.chi_symbol_cursor + 1;
    chi_symbol_buf_len = d.chi_symbol_buf_len + 1;
    user_arr_cnnct = cnnct;
    symbol_key_buf = keys';
  })

unfoldable pub symbol_input : ℕ → ChewingData → Option (SymbolRtn × ChewingData)
unfolding insert_symbol isprint
symbol_input key d =
    if isprint key && ltb d.chi_symbol_buf_len max_phone_seq_len
    then (insert_symbol key d >>= λ d'. some (symbol_key_ok, d'))
    else some (symbol_key_error, d)

-- The loop of `KillCharInSelectIntervalAndBrkpt` over the intervals from the current one on;
-- `RemoveSelectElement` moves the last one into its place, and the loop looks at it again. `n` is the
-- number of rounds, and there is one for each interval.
unfoldable pub kill_select_loop : ℕ → ℕ → List (Interval × List ℕ) → List (Interval × List ℕ)
kill_select_loop zero k xs = xs
kill_select_loop (suc n) k [] = []
kill_select_loop (suc n) k (s ∷ xs) =
    let i = s.0 in
    let gone = leb i.from k && ltb k i.to in
    let last_first = drop (length xs - 1) xs ++ take (length xs - 1) xs in
    let rest = kill_select_loop n k (if gone then last_first else xs) in
    if gone
    then rest
    else if ltb k i.from
    then (record { from = i.from - 1; to = i.to - 1 }, s.1) ∷ rest
    else s ∷ rest

unfoldable pub kill_char_in_select_interval_and_brkpt : ChewingData → ℕ → Option ChewingData
unfolding kill_select_loop memmove
kill_char_in_select_interval_and_brkpt d k = do
  ensure (leb k d.n_phone_seq)
  brkpt ← memmove d.user_arr_brkpt k (k + 1) (d.n_phone_seq - k)
  cnnct ← memmove d.user_arr_cnnct k (k + 1) (d.n_phone_seq - k)
  some (record d {
    select = kill_select_loop (length d.select) k d.select;
    user_arr_brkpt = brkpt;
    user_arr_cnnct = cnnct;
  })

-- The part of `ChewingKillChar` for a character: its phone goes. `phone_seq_alt` stays.
unfoldable pub kill_phone : ChewingData → ℕ → Option ChewingData
unfolding kill_char_in_select_interval_and_brkpt memmove
kill_phone d k = do
  d' ← kill_char_in_select_interval_and_brkpt d k
  ensure (leb (k + 1) d'.n_phone_seq)
  seq ← memmove d'.phone_seq k (k + 1) (d'.n_phone_seq - k - 1)
  some (record d' { phone_seq = seq; n_phone_seq = d'.n_phone_seq - 1 })

-- The part for every entry. A length below 0 in `memmove` is out of range.
unfoldable pub kill_entry : ChewingData → ℕ → ℕ → Option ChewingData
unfolding memmove store
kill_entry d at minus = do
  keys ← store d.symbol_key_buf at 0
  ensure (ltb at d.chi_symbol_buf_len)
  keys' ← memmove keys at (at + 1) (d.chi_symbol_buf_len - at)
  buf ← memmove d.preedit_buf at (at + 1) (d.chi_symbol_buf_len - at)
  some (record d {
    symbol_key_buf = keys';
    preedit_buf = buf;
    chi_symbol_buf_len = d.chi_symbol_buf_len - 1;
    chi_symbol_cursor = d.chi_symbol_cursor - minus;
  })

unfoldable pub chewing_kill_char : ChewingData → ℕ → ℕ → Option ChewingData
unfolding phone_seq_cursor chewing_is_chi_at kill_phone kill_entry
chewing_kill_char d at minus = do
  k ← phone_seq_cursor (record d { chi_symbol_cursor = at })
  chi ← chewing_is_chi_at at d
  d' ← (if chi then kill_phone d k else some d)
  kill_entry d' at minus

-- `KillFromLeft`.
unfoldable pub kill_from_left : ℕ → ChewingData → Option ChewingData
unfolding chewing_kill_char
kill_from_left zero d = some d
kill_from_left (suc n) d = chewing_kill_char d 0 1 >>= kill_from_left n

unfoldable pub clean_all_buf : ChewingData → ChewingData
clean_all_buf d = record d {
  n_phone_seq = 0;
  phone_seq = replicate max_phone_seq_len 0;
  chi_symbol_buf_len = 0;
  preedit_buf = replicate max_phone_seq_len (record { category = empty; char_ = [] });
  user_arr_brkpt = replicate (max_phone_seq_len + 1) 0;
  select = [];
  chi_symbol_cursor = 0;
  user_arr_cnnct = replicate (max_phone_seq_len + 1) 0;
  symbol_key_buf = replicate max_phone_seq_len 0;
  prefer_interval = [];
}
