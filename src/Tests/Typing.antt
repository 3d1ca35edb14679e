-- ===== src/Tests/Typing.antt =====
-- Concrete keys for src/bopomofo.c.
use mathlib.Core.List.{flatten}
use libchewing.Common.{ℕ, ◌≡◌, refl, ◌<◌, Bool, true, false, some, none, List, [], ◌∷◌, arith}
use libchewing.CString.{bytes, strstr, starts_with, strchr_index}
use libchewing.Utf8.{ue_str_len, ue_str_seek, ue_str_n_bytes}
use libchewing.Key2pho.{
  uint_from_phone, phone_from_uint, uint_from_phone_inx, phone_inx_from_key, phone_inx_from_key?,
  phone_from_key, key_string, inx_of_symbol, ph_symbol, find_key, ok,
}
use libchewing.Bopomofo.{
  no_inx, BopomofoData, commit, no_word, bopomofo_remove_last, bopomofo_is_entering, def_pho_input,
  find_type,
}
use libchewing.Bopomofo.Hsu.{
  hsu_pho_input, hsu_scan, fill, is_hsu_pho_end_key, hsu_round, hsu_to_j, hsu_to_zh, hsu_fuzzy,
}
use libchewing.Bopomofo.Input.{bopomofo_pho_input}
use libchewing.Bopomofo.Valid.{IsCode, Valid, Step}
use libchewing.Bopomofo.Invariant.{bopomofo_pho_input-Step}
use libchewing.Bopomofo.Syllables.{
  AllSymbols, last_of, keys_of, tone_key_of, run, Ends, typing-Ends,
}
use libchewing.Bopomofo.Removal.{
  Removed, bopomofo_remove_last-Removed, remove_while, remove_while-empty,
}
use libchewing.Bopomofo.Carpalx.{run-not_entering}
use libchewing.Bopomofo.Reach.{committed-text}
use libchewing.Tests.Phones.{table}

-- A dictionary where every phone has a word.
abbrev all_words : ℕ → Bool
all_words n = true

-- The state after a reset, for a layout.
abbrev start : ℕ → BopomofoData
start kbtype = record {
  kbtype = kbtype;
  pho_inx = no_inx;
  pho_inx_alt = no_inx;
  phone = 0;
  phone_alt = 0;
  key_seq = [];
}

no_phone-IsCode : IsCode 0
unfolding uint_from_phone_inx
no_phone-IsCode = record { inx = no_inx; inx_ok = ground arith; packed = refl }

start-Valid : (kbtype : ℕ) → kbtype < 13 → Valid (start kbtype)
start-Valid kbtype lt = record {
  kbtype_lt = lt;
  inx_ok = ground arith;
  alt_ok = ground arith;
  phone_ok = no_phone-IsCode;
  phone_alt_ok = no_phone-IsCode;
  key_seq_lt = omega arith;
}

program : Unit {0}
unfolding run bopomofo_pho_input def_pho_input find_type hsu_pho_input hsu_scan fill
    is_hsu_pho_end_key hsu_round hsu_to_j hsu_to_zh hsu_fuzzy phone_inx_from_key phone_inx_from_key?
    phone_from_key key_string inx_of_symbol ph_symbol find_key strstr starts_with ue_str_len
    ue_str_seek ue_str_n_bytes strchr_index flatten uint_from_phone_inx bopomofo_remove_last
    bopomofo_is_entering
program = tt

-- The keys d, j and 4 of the default layout commit ku4.
run-ku4 :
    (bopomofo_pho_input table all_words (run table all_words (start 0) (bytes "dj")) b'4').0
    ≡ commit
unfolding program
run-ku4 = refl

run-ku4_phone : (run table all_words (start 0) (bytes "dj4")).phone ≡ 5380
unfolding program
run-ku4_phone = refl

typing-Ends_example :
    Ends table all_words
      (start 0)
      (uint_from_phone_inx (
        last_of 0 ((1, 2) ∷ (0, 10) ∷ []) 0
        ∷ last_of 1 ((1, 2) ∷ (0, 10) ∷ []) 0
        ∷ last_of 2 ((1, 2) ∷ (0, 10) ∷ []) 0
        ∷ 4
        ∷ []))
      (bopomofo_pho_input table all_words
        (run table all_words (start 0) (keys_of 0 ((1, 2) ∷ (0, 10) ∷ [])))
        (tone_key_of 0 4))
unfolding AllSymbols
typing-Ends_example =
    typing-Ends table all_words (start 0) (1, 2) ((0, 10) ∷ []) 4 refl refl (ground arith)
      (omega arith)

bopomofo_pho_input-Step_example :
    Step all_words (start 1) (bopomofo_pho_input table all_words (start 1) b'j')
bopomofo_pho_input-Step_example =
    bopomofo_pho_input-Step all_words table (start 1) b'j' (start-Valid 1 (omega arith))

-- On the layout Hsu this key sets an initial, and the result says that there is no word.
hsu-j :
    ((bopomofo_pho_input table all_words (start 1) b'j').0 ≡ no_word)
    × ((bopomofo_pho_input table all_words (start 1) b'j').1.pho_inx.i0 ≡ 15)
unfolding program
hsu-j = (refl, refl)

committed-text_example :
    let n =
      (bopomofo_pho_input table all_words
        (run table all_words (start 0) (bytes "dj"))
        b'4').1.phone in
    (all_words n ≡ true)
    × (n < 65536)
    × (s : List ℕ) × (phone_from_uint 17 n ≡ some (ok, s))
    × (uint_from_phone s ≡ some n)
committed-text_example =
    committed-text table all_words (bytes "dj") (start 0) b'4' (start-Valid 0 (omega arith)) run-ku4

-- A medial and a final are entered.
abbrev two_keys : BopomofoData
two_keys = record (start 0) { pho_inx = record { i0 = 0; i1 = 2; i2 = 3; i3 = 0 } }

two_keys-Valid : Valid two_keys
two_keys-Valid = record {
  kbtype_lt = omega arith;
  inx_ok = ground arith;
  alt_ok = ground arith;
  phone_ok = no_phone-IsCode;
  phone_alt_ok = no_phone-IsCode;
  key_seq_lt = omega arith;
}

two_keys-entering : bopomofo_is_entering two_keys ≡ true
unfolding bopomofo_is_entering
two_keys-entering = refl

bopomofo_remove_last-Removed_example : Removed two_keys (bopomofo_remove_last two_keys)
bopomofo_remove_last-Removed_example =
    bopomofo_remove_last-Removed two_keys two_keys-Valid two_keys-entering

remove_while-empty_example :
    (b : BopomofoData) × (remove_while 9 two_keys ≡ some b)
    × (bopomofo_is_entering b ≡ false)
    × Valid b
remove_while-empty_example = remove_while-empty two_keys two_keys-Valid

run-not_entering_example :
    (bopomofo_is_entering (run table all_words (start 12) (bytes "dj")) ≡ false)
    × (bopomofo_remove_last (run table all_words (start 12) (bytes "dj")) ≡ none)
run-not_entering_example = run-not_entering all_words table (bytes "dj") (start 12) refl refl
