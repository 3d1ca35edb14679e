-- ===== src/UserPhrase/Record.antt =====
-- src/hash.c: a phrase as the 125 bytes of a record of the file, on a machine that puts the low byte
-- first. `none` is a write or a read out of the buffers.
pub mod RoundTrip
use libchewing.Utf8.{ue_bytes_from_char, ue_str_len}
use libchewing.Utf8.Chars.{c_string}
use libchewing.UserPhrase.{UserPhraseData}
use libchewing.UserPhrase.Table.{HashItem}
use libchewing.Common.{
  ℕ, zero, suc, ◌+◌, ◌-◌, ◌*◌, ◌/◌, ◌%◌, Bool, true, false, Option, none, some, List, [], ◌∷◌, ◌++◌,
  length, take, drop, replicate, get_elem?, ltb, leb, ◌==◌, ◌||◌, ◌&&◌, if◌then◌else◌, ◌>>=◌, ◌>>◌,
  ensure, ℤ, pos, negsuc,
}

abbrev pub field_size : ℕ
field_size = 125

-- The bits of an `int`.
abbrev pub bits32 : ℤ → ℕ
bits32 (pos n) = n % 4294967296
bits32 (negsuc n) = 4294967295 - n % 4294967296

-- `PutInt32PreservedEndian`.
unfoldable pub put_int32 : ℤ → List ℕ
put_int32 v =
    let n = bits32 v in (n % 256) ∷ (n / 256 % 256) ∷ (n / 65536 % 256) ∷ (n / 16777216 % 256) ∷ []

-- `GetInt32PreservedEndian`.
unfoldable pub get_int32 : List ℕ → Option ℤ
get_int32 s = do
  b0 ← get_elem? s 0
  b1 ← get_elem? s 1
  b2 ← get_elem? s 2
  b3 ← get_elem? s 3
  let n = b0 + b1 * 256 + b2 * 65536 + b3 * 16777216
  some (if ltb n 2147483648 then pos n else negsuc (4294967295 - n))

-- `PutUint16PreservedEndian`.
abbrev pub put_uint16 : ℕ → List ℕ
put_uint16 v = (v % 256) ∷ (v / 256 % 256) ∷ []

-- The loop over the phones, which stand before a 0.
unfoldable pub put_phones : ℕ → List ℕ → Option (List ℕ)
put_phones zero phones = some []
put_phones (suc zero) [] = some (put_uint16 0)
put_phones (suc (suc count)) [] = none
put_phones (suc count) (p ∷ phones) = do rest ← put_phones count phones; some (put_uint16 p ++ rest)

-- `HashItem2Binary`: the first FIELD_SIZE bytes of `str`.
unfoldable pub hash_item_2_binary : UserPhraseData → Option (List ℕ)
unfolding ue_str_len put_int32 put_phones
hash_item_2_binary d = do
  phraselen ← ue_str_len d.word_seq
  if leb field_size (16 + phraselen * 2 + length d.word_seq)
      then some (replicate field_size 0)
      else (do
        phones ← put_phones phraselen d.phone_seq
        let str =
            put_int32 d.userfreq
            ++ (put_int32 d.recent_time
                ++ (put_int32 d.maxfreq
                    ++ (put_int32 d.origfreq
                        ++ (phraselen ∷ (phones ++ (length d.word_seq ∷ (d.word_seq ++ 0 ∷ [])))))))
        ensure (leb (length str) (field_size + 1))
        some (take field_size (str ++ replicate field_size 0)))

-- The loop of `isValidChineseString`, `k` bytes before the end of a character; `none` is a character
-- that goes past the NUL.
unfoldable chinese_loop : ℕ → List ℕ → Option Bool
unfolding ue_bytes_from_char
chinese_loop zero [] = some true
chinese_loop (suc k) [] = none
chinese_loop (suc k) (b ∷ s) = chinese_loop k s
chinese_loop zero (b ∷ s) =
    let rest = chinese_loop (ue_bytes_from_char b - 1) s in
    if leb (ue_bytes_from_char b) 1 then some false else rest

unfoldable pub is_valid_chinese_string : List ℕ → Option Bool
unfolding chinese_loop
is_valid_chinese_string [] = some false
is_valid_chinese_string (b ∷ s) = chinese_loop 0 (b ∷ s)

-- The loop over the phones of a record.
unfoldable pub get_phones : ℕ → List ℕ → Option (List ℕ)
get_phones zero s = some []
get_phones (suc count) s = do
  low ← get_elem? s 0
  high ← get_elem? s 1
  rest ← get_phones count (drop 2 s)
  some ((low + high * 256) ∷ rest)

abbrev pub is_negative : ℤ → Bool
is_negative (pos n) = false
is_negative (negsuc n) = true

-- `ReadHashItem_bin`: none inside for a record to ignore. The lengths are of the type char, which is
-- signed; the string has its NUL in the
-- record and is copied into one byte more than its length says.
unfoldable pub read_hash_item_bin : List ℕ → ℕ → Option (Option HashItem)
unfolding get_int32 get_phones is_valid_chinese_string
read_hash_item_bin srcbuf item_index = do
  userfreq ← get_int32 srcbuf
  recent_time ← get_int32 (drop 4 srcbuf)
  maxfreq ← get_int32 (drop 8 srcbuf)
  origfreq ← get_int32 (drop 12 srcbuf)
  if is_negative userfreq || is_negative recent_time || is_negative maxfreq || is_negative origfreq
      then some none
      else (do
        len ← get_elem? srcbuf 16
        ensure (ltb len 128)
        phones ← get_phones len (drop 17 srcbuf)
        size ← get_elem? srcbuf (17 + 2 * len)
        ensure (ltb size 128)
        let tail = drop (18 + 2 * len) srcbuf
        let word = c_string tail
        ensure (ltb (length word) (length tail) && leb (length word) size)
        let phone_seq = c_string phones
        if length word == 0 && length phone_seq == 0 then some none else (do
          valid ← is_valid_chinese_string word
          some (
              if valid
              then some (record {
                item_index = some item_index;
                item = record {
                  phone_seq = phone_seq;
                  word_seq = word;
                  userfreq = userfreq;
                  recent_time = recent_time;
                  origfreq = origfreq;
                  maxfreq = maxfreq;
                };
              })
              else none)))
