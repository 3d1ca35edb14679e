-- ===== src/Bopomofo.antt =====
-- src/bopomofo.c: the phonetic input of one syllable, a state machine fed with keys.
-- The layouts with rules of their own stand in the children; a key is an ASCII code.
pub mod Valid
pub mod EndKey
pub mod Steps
pub mod Invariant
pub mod Typing
pub mod Commit
pub mod Syllables
pub mod Removal
pub mod Carpalx
pub mod Reach
pub mod Hsu
pub mod Et26
pub mod DachenCp26
pub mod PinYin
pub mod Input
use libchewing.Common.{
  ℕ, zero, suc, Bool, List, [], ◌∷◌, ◌==◌, ◌!=◌, leb, not, ◌&&◌, ◌||◌, if◌then◌else◌, Option, some,
  none, length, take, ◌-◌,
}
use libchewing.Key2pho.{uint_from_phone_inx, phone_inx_from_key}

-- The keyboard layouts.
abbrev pub kb_default : ℕ
kb_default = 0

abbrev pub kb_hsu : ℕ
kb_hsu = 1

abbrev pub kb_et26 : ℕ
kb_et26 = 5

abbrev pub kb_dvorak_hsu : ℕ
kb_dvorak_hsu = 7

abbrev pub kb_dachen_cp26 : ℕ
kb_dachen_cp26 = 8

abbrev pub kb_hanyu_pinyin : ℕ
kb_hanyu_pinyin = 9

abbrev pub kb_thl_pinyin : ℕ
kb_thl_pinyin = 10

abbrev pub kb_mps2_pinyin : ℕ
kb_mps2_pinyin = 11

abbrev pub kb_carpalx : ℕ
kb_carpalx = 12

abbrev pub kb_type_num : ℕ
kb_type_num = 13

-- `int pho_inx[BOPOMOFO_SIZE]`.
pub record Inx : Type 0 where
  pub i0 : ℕ
  pub i1 : ℕ
  pub i2 : ℕ
  pub i3 : ℕ

abbrev pub no_inx : Inx
no_inx = record { i0 = 0; i1 = 0; i2 = 0; i3 = 0 }

-- `pho_inx[type] = inx`; `type` is less than 4.
unfoldable pub set_inx : Inx → ℕ → ℕ → Inx
set_inx p type inx =
    if type == 0
    then record p { i0 = inx }
    else if type == 1
    then record p { i1 = inx }
    else if type == 2
    then record p { i2 = inx }
    else record p { i3 = inx }

abbrev pub to_list : Inx → List ℕ
to_list p = p.i0 ∷ p.i1 ∷ p.i2 ∷ p.i3 ∷ []

-- `key_seq` is the string in `pinYinData.keySeq`, an array of 10 bytes.
pub record BopomofoData : Type 0 where
  pub kbtype : ℕ
  pub pho_inx : Inx
  pub pho_inx_alt : Inx
  pub phone : ℕ
  pub phone_alt : ℕ
  pub key_seq : List ℕ

-- BOPOMOFO_IGNORE and so on.
pub data Rtn : Type 0 where
  ignore absorb commit key_error error no_word open_symbol_table : Rtn

unfoldable pub isalpha : ℕ → Bool
isalpha key = (leb b'a' key && leb key b'z') || (leb b'A' key && leb key b'Z')

-- Neither initial, medial nor final is set.
abbrev pub blank : Inx → Bool
blank p = p.i0 == 0 && p.i1 == 0 && p.i2 == 0

unfoldable pub bopomofo_remove_all : BopomofoData → BopomofoData
bopomofo_remove_all b = record b { pho_inx = no_inx; key_seq = [] }

-- The part of `EndKeyProcess` below the tone: the syllable is looked up. `has_word u16Pho` is
-- whether `GetCharFirst` finds a character with the phone.
unfoldable pub commit_phone : (ℕ → Bool) → BopomofoData → Rtn × BopomofoData
unfolding bopomofo_remove_all
commit_phone has_word b =
    let u16_pho = uint_from_phone_inx (to_list b.pho_inx) in
    let alt =
      if blank b.pho_inx_alt then u16_pho else uint_from_phone_inx (to_list b.pho_inx_alt) in
    if has_word u16_pho
    then (
      commit,
      record b { pho_inx = no_inx; pho_inx_alt = no_inx; phone = u16_pho; phone_alt = alt },
    )
    else (no_word, bopomofo_remove_all b)

-- Both arrays get the tone.
unfoldable pub set_tone : BopomofoData → ℕ → BopomofoData
set_tone b inx = record b {
  pho_inx = record (b.pho_inx) { i3 = inx };
  pho_inx_alt = record (b.pho_inx_alt) { i3 = inx };
}

unfoldable pub end_key_process : (ℕ → Bool) → BopomofoData → ℕ → ℕ → Rtn × BopomofoData
unfolding commit_phone set_tone
end_key_process has_word b key search_times =
    let inx = phone_inx_from_key key 3 b.kbtype search_times in
    if blank b.pho_inx && b.pho_inx.i3 == 0
    then (if key == b' ' then key_error else no_word, b)
    else if b.pho_inx.i3 == 0
    then commit_phone has_word (set_tone b inx)
    else if key != b' '
    then (no_word, set_tone b inx)
    else commit_phone has_word b

-- The loop that looks for the class of a key, over `n` more classes from `type` on: the class with
-- its index, or the class after the last one.
unfoldable pub find_type : ℕ → ℕ → ℕ → ℕ → ℕ × ℕ
find_type kbtype key zero type = (type, 0)
find_type kbtype key (suc n) type =
    let inx = phone_inx_from_key key type kbtype 1 in
    let rest = find_type kbtype key n (suc type) in if inx == 0 then rest else (type, inx)

-- For the layouts without rules of their own.
unfoldable pub is_def_pho_end_key : ℕ → ℕ → Bool
is_def_pho_end_key key kbtype = phone_inx_from_key key 3 kbtype 1 != 0 || key == b' '

-- The end of `DefPhoInput`: the key goes into the slot of its class.
unfoldable pub def_absorb : BopomofoData → ℕ → Rtn × BopomofoData
unfolding set_inx
def_absorb b key =
    let (type, inx) = find_type b.kbtype key 4 0 in
    if leb 4 type
    then (key_error, b)
    else (absorb, record b { pho_inx = set_inx b.pho_inx type inx })

unfoldable pub def_pho_input : (ℕ → Bool) → BopomofoData → ℕ → Rtn × BopomofoData
unfolding is_def_pho_end_key end_key_process def_absorb
def_pho_input has_word b key =
    if is_def_pho_end_key key b.kbtype
    then if blank b.pho_inx && b.pho_inx.i3 == 0
      then def_absorb b key
      else end_key_process has_word b key 1
    else def_absorb (record b { pho_inx = record (b.pho_inx) { i3 = 0 } }) key

-- `none` is the write to `keySeq[-1]` for an empty string. The comparison is the source's: it also
-- takes the layout Carpalx, whose number follows those of the pinyin layouts.
unfoldable pub bopomofo_remove_last : BopomofoData → Option BopomofoData
bopomofo_remove_last b =
    let p = b.pho_inx in
    if leb kb_hanyu_pinyin b.kbtype
    then if length b.key_seq == 0
      then none
      else some (record b { key_seq = take (length b.key_seq - 1) b.key_seq })
    else if p.i3 != 0
    then some (record b { pho_inx = record p { i3 = 0 } })
    else if p.i2 != 0
    then some (record b { pho_inx = record p { i2 = 0 } })
    else if p.i1 != 0
    then some (record b { pho_inx = record p { i1 = 0 } })
    else if p.i0 != 0
    then some (record b { pho_inx = record p { i0 = 0 } })
    else some b

-- With the same comparison.
unfoldable pub bopomofo_is_entering : BopomofoData → Bool
bopomofo_is_entering b =
    if leb kb_hanyu_pinyin b.kbtype
    then length b.key_seq != 0
    else not (blank b.pho_inx && b.pho_inx.i3 == 0)

unfoldable pub bopomofo_keyseq : BopomofoData → List ℕ
bopomofo_keyseq b = b.key_seq

unfoldable pub bopomofo_syllable_index : BopomofoData → ℕ
bopomofo_syllable_index b = b.phone

unfoldable pub bopomofo_syllable_index_alt : BopomofoData → ℕ
bopomofo_syllable_index_alt b = b.phone_alt

unfoldable pub bopomofo_kb_type : BopomofoData → ℕ
bopomofo_kb_type b = b.kbtype
