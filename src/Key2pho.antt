-- ===== src/Key2pho.antt =====
-- src/common/key2pho.c: keys, phonetic symbols and phones.
-- A phone packs the four indices of a syllable in 16 bits; an index counts from 1, and 0 is none.
pub mod Tables
pub mod Bits
pub mod Symbols
pub mod Entries
pub mod Syllable
pub mod Codec
pub mod Keys
pub mod Sequence
use mathlib.Core.List.{flatten}
use libchewing.Common.{
  ℕ, zero, suc, ◌+◌, ◌-◌, ◌*◌, ◌/◌, ◌%◌, ◌^◌, bit_and, bit_or, Bool, true, Option, none, some, List,
  [], ◌∷◌, ◌++◌, length, get_elem?, take, drop, replicate, ltb, leb, ◌==◌, if◌then◌else◌, ◌>>=◌,
  ◌>>◌, ensure,
}
use libchewing.CString.{strstr, strchr_index}
use libchewing.Utf8.{close, ue_str_len, ue_str_seek, ue_str_n_bytes, ue_str_n_cpy}
use libchewing.Utf8.Chars.{c_string}
use Tables.{Class, classes, ph_str, key_str}

abbrev pub max_utf8_size : ℕ
max_utf8_size = 4

abbrev pub bopomofo_size : ℕ
bopomofo_size = 4

-- `x << k` and `x >> k`.
abbrev pub shl : ℕ → ℕ → ℕ
shl x k = x * 2 ^ k

abbrev pub shr : ℕ → ℕ → ℕ
shr x k = x / 2 ^ k

-- At the end of a string, or at a space.
pub at_end : List ℕ → Bool
at_end [] = true
at_end (b ∷ s) = b == 0x20

-- Both loops of `UintFromPhone`. The clause goes on to the next class where the symbol is not of
-- this one (`++zhuin_index` of the `for`) and where it is (`++zhuin_index` after it). `none` is a
-- symbol that does not fit in `buf`, or one cut off by the end of the string.
pub uint_from_phone_loop : List Class → List ℕ → ℕ → Option ℕ
uint_from_phone_loop [] iter result =
    if at_end iter
    then some result
    else do (buf, len) ← ue_str_n_cpy (replicate (max_utf8_size + 1) 0) iter 1 close; some 0
uint_from_phone_loop (c ∷ cs) iter result =
    let found = λ (pos : List ℕ) (len : ℕ). do
      n ← ue_str_len pos
      uint_from_phone_loop cs (drop len iter) (bit_or result (shl (c.num - n) c.shift))
    in let missing = uint_from_phone_loop cs iter result in
      if at_end iter then some result else do
        (buf, len) ← ue_str_n_cpy (replicate (max_utf8_size + 1) 0) iter 1 close
        elim (strstr c.tab (take len iter)) [ some pos ↦ found pos len | none ↦ missing ]

-- 0 is an error.
unfoldable pub uint_from_phone : List ℕ → Option ℕ
unfolding at_end uint_from_phone_loop ue_str_n_cpy ue_str_len strstr flatten
uint_from_phone zhuin = uint_from_phone_loop classes zhuin 0

-- The index of the `n`-th `c`, for `n` from 1 on, which is all that it is asked for.
unfoldable pub find_key : ℕ → List ℕ → ℕ → Option ℕ
find_key zero target c = none
find_key (suc zero) target c = strchr_index target c
find_key (suc (suc n)) target c = do
  i ← strchr_index target c
  j ← find_key (suc n) (drop (i + 1) target) c
  some (i + 1 + j)

-- The symbol that `PhoneFromKey` copies out of `ph_str`; `none` is a read out of range.
unfoldable pub ph_symbol : ℕ → Option (List ℕ)
unfolding ue_str_seek ue_str_n_bytes flatten
ph_symbol index = do pos ← ue_str_seek ph_str index; len ← ue_str_n_bytes pos 1; some (take len pos)

-- What `PhoneFromKey` leaves in `pho`: `failed` is its result 0. With `searchTimes` 0 the index is
-- computed from a NULL pointer, which counts as out of range; the sources call it with 1 to 3.
pub data PhoneResult : Type 0 where
  found : List ℕ → PhoneResult
  failed : PhoneResult

unfoldable pub phone_from_key : List ℕ → List ℕ → ℕ → Option PhoneResult
phone_from_key target [] search_times = some (found [])
phone_from_key target (c ∷ input) search_times =
    let rest = phone_from_key target input search_times in
    if search_times == 0 then none else elim (find_key search_times target c) [
      | none ↦ some failed
      | some index ↦ do
        symbol ← ph_symbol index
        r ← rest
        elim r [ failed ↦ some failed | found pho ↦ some (found (symbol ++ pho)) ]
    ]

-- `keyStr` of `PhoneInxFromKey`: the key as a `char`; the key 0 makes it empty.
unfoldable pub key_string : ℕ → List ℕ
key_string key = if key % 256 == 0 then [] else key % 256 ∷ []

-- `zhuin_tab_num[type] - ueStrLen(p)`, or 0 where the symbol is not of the class.
unfoldable pub inx_of_symbol : Class → PhoneResult → Option ℕ
unfolding strstr ue_str_len flatten
inx_of_symbol c failed = some 0
inx_of_symbol c (found symbol) = elim (strstr c.tab symbol) [
  | none ↦ some 0
  | some p ↦ do n ← ue_str_len p; some (c.num - n)
]

-- `none` is an access out of range.
unfoldable pub phone_inx_from_key? : ℕ → ℕ → ℕ → ℕ → Option ℕ
phone_inx_from_key? key type kbtype search_times = do
  target ← get_elem? key_str kbtype
  c ← get_elem? classes type
  r ← phone_from_key target (key_string key) search_times
  inx_of_symbol c r

-- As a number, 0 for an access out of range.
unfoldable pub phone_inx_from_key : ℕ → ℕ → ℕ → ℕ → ℕ
phone_inx_from_key key type kbtype search_times =
    elim (phone_inx_from_key? key type kbtype search_times) [ none ↦ 0 | some inx ↦ inx ]

-- `(phone_num >> shift[i]) & mask[i]`.
unfoldable pub phone_index : Class → ℕ → ℕ
phone_index c phone_num = bit_and (shr phone_num c.shift) c.mask

-- `pos` and `tmp`: the symbol that is appended to `buffer`.
unfoldable pub symbol_at : Class → ℕ → Option (List ℕ)
unfolding ue_str_seek ue_str_n_cpy flatten
symbol_at c index = do
  pos ← ue_str_seek c.tab (index - 1)
  (tmp, len) ← ue_str_n_cpy (replicate (max_utf8_size + 1) 0) pos 1 close
  some (c_string tmp)

-- What the loop of `PhoneFromUint` appends to `buffer` for the classes that are left.
unfoldable pub symbols_loop : List Class → ℕ → Option (List ℕ)
symbols_loop [] phone_num = some []
symbols_loop (c ∷ cs) phone_num =
    let rest = symbols_loop cs phone_num in
    let index = phone_index c phone_num in
    if leb 1 index then (do tmp ← symbol_at c index; buffer ← rest; some (tmp ++ buffer)) else rest

-- The results 0 and -1.
pub data Status : Type 0 where
  ok error : Status

-- The end of `PhoneFromUint`: `strncpy` of `buffer` into `phone`, an array of `phone_len` bytes.
-- `none` is the write to `phone[phone_len - 1]` for `phone_len` 0.
unfoldable pub copy_phone : ℕ → List ℕ → Option (Status × List ℕ)
copy_phone phone_len buffer = do
  ensure (leb 1 phone_len)
  let status = if ltb phone_len (length buffer + 1) then error else ok
  let phone = take (phone_len - 1) buffer
  some (if length buffer == 0 then (error, []) else (status, phone))

-- The status and the string in `phone`. `none` is an access out of range.
unfoldable pub phone_from_uint : ℕ → ℕ → Option (Status × List ℕ)
phone_from_uint phone_len phone_num = symbols_loop classes phone_num >>= copy_phone phone_len

-- `ph_inx` has an entry for each class.
pub uint_from_phone_inx_loop : List Class → List ℕ → ℕ → ℕ
uint_from_phone_inx_loop [] xs result = result
uint_from_phone_inx_loop (c ∷ cs) [] result = result
uint_from_phone_inx_loop (c ∷ cs) (x ∷ xs) result =
    if leb c.num x then 0 else uint_from_phone_inx_loop cs xs (bit_or result (shl x c.shift))

-- An index below 0 does not occur.
unfoldable pub uint_from_phone_inx : List ℕ → ℕ
unfolding uint_from_phone_inx_loop
uint_from_phone_inx ph_inx = uint_from_phone_inx_loop classes ph_inx 0

-- The array `phoneSeq` up to its 0; `none` is a read past its end.
unfoldable pub get_phone_len : List ℕ → Option ℕ
get_phone_len [] = none
get_phone_len (p ∷ seq) =
    let rest = get_phone_len seq in if p == 0 then some 0 else (do n ← rest; some (n + 1))

unfoldable pub get_bopomofo_buf_len : ℕ → ℕ
get_bopomofo_buf_len len = (max_utf8_size * bopomofo_size + 1) * len

-- The loop of `GetPhoneLenFromUint`.
unfoldable pub phone_bytes_loop : List Class → ℕ → Option ℕ
unfolding phone_index ue_str_seek ue_str_n_bytes flatten
phone_bytes_loop [] phone_num = some 0
phone_bytes_loop (c ∷ cs) phone_num =
    let rest = phone_bytes_loop cs phone_num in
    let index = phone_index c phone_num in
    if leb 1 index
    then (do pos ← ue_str_seek c.tab (index - 1); n ← ue_str_n_bytes pos 1; m ← rest; some (n + m))
    else rest

-- `(size_t) -1` where there is no symbol.
unfoldable pub get_phone_len_from_uint : ℕ → Option ℕ
get_phone_len_from_uint phone_num = do
  len ← phone_bytes_loop classes phone_num
  some (if ltb 0 len then len + 1 else 2 ^ 64 - 1)
