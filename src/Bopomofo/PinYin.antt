-- ===== src/Bopomofo/PinYin.antt =====
-- src/bopomofo.c: the pinyin layouts, which collect letters and convert them at the end.
use libchewing.Common.{
  ℕ, ◌+◌, Bool, true, false, List, [], ◌∷◌, ◌++◌, ◌==◌, leb, ltb, length, not, ◌&&◌, ◌||◌,
  if◌then◌else◌,
}
use libchewing.Key2pho.{key_string}
use libchewing.Pinyin.{PinyinTable, converted, no_initial, no_final, pinyin_to_bopomofo}
use libchewing.Bopomofo.{
  Inx, BopomofoData, Rtn, absorb, key_error, no_word, set_inx, find_type, end_key_process,
}

unfoldable pub is_pin_yin_end_key : ℕ → Bool
is_pin_yin_end_key key =
    key == b' ' || key == b'1' || key == b'2' || key == b'3' || key == b'4' || key == b'5'

unfoldable pub is_symbol_key : ℕ → Bool
is_symbol_key key = ltb key 97 || ltb 122 key

-- The loop over a key string: the indices after it, and whether it got to the end.
unfoldable pub fill_keys : ℕ → List ℕ → Inx → Bool × Inx
unfolding find_type set_inx
fill_keys kbtype [] p = (true, p)
fill_keys kbtype (key ∷ keys) p =
    let (type, inx) = find_type kbtype key 4 0 in
    let rest = fill_keys kbtype keys (set_inx p type inx) in if leb 4 type then (false, p) else rest

-- The digit of a tone as a key of the default layout.
unfoldable pub tone_key : ℕ → ℕ
tone_key key =
    if key == b'1' then b' ' else if key == b'2' then b'6' else if key == b'5' then b'7' else key

-- After a conversion: both strings go into the slots, then the tone ends the syllable.
unfoldable pub pin_yin_end : (ℕ → Bool) → BopomofoData → ℕ → List ℕ → List ℕ → Rtn × BopomofoData
pin_yin_end has_word b key key_seq key_seq_alt =
    let (done, p) = fill_keys b.kbtype key_seq b.pho_inx in
    let (done_alt, p_alt) = fill_keys b.kbtype key_seq_alt b.pho_inx_alt in
    if not done
    then (key_error, record b { pho_inx = p })
    else if not done_alt
    then (key_error, record b { pho_inx = p; pho_inx_alt = p_alt })
    else end_key_process has_word (record b { pho_inx = p; pho_inx_alt = p_alt; key_seq = [] })
        (tone_key key) 1

unfoldable pub pin_yin_input : PinyinTable → (ℕ → Bool) → BopomofoData → ℕ → Rtn × BopomofoData
pin_yin_input table has_word b key =
    if length b.key_seq == 0 && is_symbol_key key
    then (key_error, b)
    else if is_pin_yin_end_key key
    then elim (pinyin_to_bopomofo table b.kbtype b.key_seq) [
      | converted key_seq key_seq_alt ↦ pin_yin_end has_word b key key_seq key_seq_alt
      | no_initial ↦ (absorb, record b { key_seq = [] })
      | no_final ↦ (absorb, record b { key_seq = [] })
    ]
    else if ltb (length b.key_seq + 1) 10
    then (absorb, record b { key_seq = b.key_seq ++ key_string key })
    else (no_word, b)
