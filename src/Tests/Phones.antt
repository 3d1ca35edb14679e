-- ===== src/Tests/Phones.antt =====
-- Concrete strings, phones and keys for src/common and src/pinyin.c.
use mathlib.Core.List.{flatten}
use libchewing.Common.{
  ℕ, ◌≡◌, refl, ◌≤◌, ◌<◌, true, some, List, [], ◌∷◌, ◌++◌, length, arith, replicate,
}
use libchewing.CString.{bytes, strstr, starts_with, strchr_index}
use libchewing.Utf8.{
  ue_str_len, ue_str_seek, ue_str_n_bytes, ue_bytes_from_char, ue_str_n_cpy, close, ue_str_str,
}
use libchewing.Utf8.Chars.{
  AllChars, NoNul, c_string, ue_str_len-flatten, ue_str_seek-flatten, ue_str_n_cpy-flatten,
}
use libchewing.Utf8.Search.{IsSearch, ue_str_str-IsSearch}
use libchewing.Key2pho.{
  uint_from_phone, phone_from_uint, uint_from_phone_inx, phone_inx_from_key, phone_inx_from_key?,
  phone_from_key, key_string, inx_of_symbol, ph_symbol, find_key, ok, error,
  get_phone_len_from_uint, symbols_loop, copy_phone, symbol_at, phone_index, phone_bytes_loop,
  get_bopomofo_buf_len,
}
use libchewing.Key2pho.Codec.{IsPhone, uint_from_phone-phone_from_uint}
use libchewing.Key2pho.Keys.{InRange, phone_inx_from_key-InRange}
use libchewing.Key2pho.Sequence.{bopomofo_from_uint_array, uint_array_from_bopomofo, stored}
use libchewing.Key2pho.Sequence.Joined.{uint_array-bopomofo}
use libchewing.Pinyin.{PinyinTable, converted, entry, pinyin_to_bopomofo}
use libchewing.Pinyin.Fits.{AllShort, Fits, pinyin_to_bopomofo-Fits}

-- ku4: the indices 10, 2, 0 and 4.
abbrev ku4 : IsPhone 5380
unfolding uint_from_phone_inx
ku4 = record {
  initial = 10;
  medial = 2;
  final = 0;
  tone = 4;
  initial_lt = omega arith;
  medial_lt = omega arith;
  final_lt = omega arith;
  tone_lt = omega arith;
  packed = refl;
  nonzero = omega arith;
}

-- The characters of a text: a letter, and two of three bytes.
abbrev characters : List (List ℕ)
characters = (0x61 ∷ []) ∷ (0xE6 ∷ 0x98 ∷ 0xAF ∷ []) ∷ (0xE7 ∷ 0x9A ∷ 0x84 ∷ []) ∷ []

characters-AllChars : AllChars characters
unfolding ue_bytes_from_char
characters-AllChars = (refl, (refl, (refl, tt)))

characters-NoNul : NoNul (flatten characters)
unfolding flatten
characters-NoNul = ground arith

ue_str_len-flatten_example : ue_str_len (flatten characters) ≡ some 3
ue_str_len-flatten_example = ue_str_len-flatten characters characters-AllChars

ue_str_seek-flatten_example : ue_str_seek (flatten characters ++ bytes "b") 3 ≡ some (bytes "b")
ue_str_seek-flatten_example = ue_str_seek-flatten characters (bytes "b") characters-AllChars

ue_str_n_cpy-flatten_example :
    (buf : List ℕ) × (ue_str_n_cpy (replicate 8 1) (flatten characters ++ bytes "b") 3 close
      ≡ some (buf, length (flatten characters)))
    × (c_string buf ≡ flatten characters)
    × (length buf ≡ 8)
unfolding flatten
ue_str_n_cpy-flatten_example =
    ue_str_n_cpy-flatten characters (bytes "b") (replicate 8 1) characters-AllChars characters-NoNul
      room
  where
    room : length (flatten characters) < 8
    room = omega arith

ue_str_str-IsSearch_example :
    IsSearch (bytes "shuang") (bytes "ua") (ue_str_str (bytes "shuang") 6 (bytes "ua") 2)
ue_str_str-IsSearch_example = ue_str_str-IsSearch (bytes "shuang") (bytes "ua")

ue_str_str-shuang : ue_str_str (bytes "shuang") 6 (bytes "ua") 2 ≡ some (bytes "uang")
unfolding ue_str_str
ue_str_str-shuang = refl

uint_from_phone-phone_from_uint_example :
    (s : List ℕ) × (phone_from_uint 20 5380 ≡ some (ok, s)) × (uint_from_phone s ≡ some 5380)
uint_from_phone-phone_from_uint_example = uint_from_phone-phone_from_uint 20 ku4 (omega arith)

uint_from_phone-ku4 :
    uint_from_phone (0xE3 ∷ 0x84 ∷ 0x8E ∷ 0xE3 ∷ 0x84 ∷ 0xA8 ∷ 0xCB ∷ 0x8B ∷ []) ≡ some 5380
unfolding uint_from_phone
uint_from_phone-ku4 = refl

phone_from_uint-ku4 :
    phone_from_uint 20 5380 ≡ some (ok, 0xE3 ∷ 0x84 ∷ 0x8E ∷ 0xE3 ∷ 0x84 ∷ 0xA8 ∷ 0xCB ∷ 0x8B ∷ [])
unfolding phone_from_uint symbols_loop copy_phone symbol_at phone_index ue_str_seek ue_str_n_cpy
    flatten
phone_from_uint-ku4 = refl

phone_from_uint-short : phone_from_uint 5 5380 ≡ some (error, 0xE3 ∷ 0x84 ∷ 0x8E ∷ 0xE3 ∷ [])
unfolding phone_from_uint symbols_loop copy_phone symbol_at phone_index ue_str_seek ue_str_n_cpy
    flatten
phone_from_uint-short = refl

get_phone_len_from_uint-ku4 : get_phone_len_from_uint 5380 ≡ some 9
unfolding get_phone_len_from_uint phone_bytes_loop
get_phone_len_from_uint-ku4 = refl

phone_inx_from_key-InRange_example : InRange b'd' 0 0 1 22
phone_inx_from_key-InRange_example =
    phone_inx_from_key-InRange b'd' 0 0 1 (omega arith) (omega arith) (omega arith)

phone_inx_from_key-d : phone_inx_from_key b'd' 0 0 1 ≡ 10
unfolding phone_inx_from_key phone_inx_from_key? phone_from_key key_string inx_of_symbol ph_symbol
    find_key strstr starts_with ue_str_len ue_str_seek ue_str_n_bytes strchr_index flatten
phone_inx_from_key-d = refl

uint_array-bopomofo_example :
    (s : List ℕ) × (bopomofo_from_uint_array true 40 (5380 ∷ 5380 ∷ 0 ∷ 7 ∷ [])
      ≡ some (get_bopomofo_buf_len 2, some s))
    × (uint_array_from_bopomofo true 3 s ≡ some (2, stored (5380 ∷ 5380 ∷ [])))
unfolding get_bopomofo_buf_len
uint_array-bopomofo_example =
    uint_array-bopomofo 5380 (5380 ∷ []) (7 ∷ []) 40 3 (ku4, (ku4, tt)) fits (omega arith)
  where
    fits : get_bopomofo_buf_len 2 ≤ 40
    fits = omega arith

-- Three lines of pinyin.tab.
abbrev pub table : PinyinTable
table = record {
  initials = entry (bytes "zh") (bytes "5") ∷ entry (bytes "k") (bytes "d") ∷ [];
  finals = entry (bytes "u") (bytes "j") ∷ [];
}

pinyin_to_bopomofo-Fits_example : Fits (pinyin_to_bopomofo table 9 (bytes "ku"))
unfolding AllShort
pinyin_to_bopomofo-Fits_example =
    pinyin_to_bopomofo-Fits table 9 (bytes "ku") (ground arith) (ground arith)

pinyin_to_bopomofo-ku :
    pinyin_to_bopomofo table 9 (bytes "ku") ≡ converted (bytes "dj") (bytes "dj")
unfolding pinyin_to_bopomofo
pinyin_to_bopomofo-ku = refl

pinyin_to_bopomofo-chi :
    pinyin_to_bopomofo table 10 (bytes "chi") ≡ converted (bytes "fu") (bytes "t")
unfolding pinyin_to_bopomofo
pinyin_to_bopomofo-chi = refl
