-- ===== src/Bopomofo/Typing.antt =====
-- The keys of the layouts of src/bopomofo.c with one key for each symbol.
use mathlib.Core.List.{flatten}
use libchewing.Common.{
  ℕ, zero, suc, ◌+◌, ◌-◌, ◌<◌, ◌≡◌, refl, Bool, true, false, [], arith, ◌==◌, ◌&&◌, ◌||◌, not,
  if◌then◌else◌, get_or, modus_ponens,
}
use libchewing.Common.Table.{holds_below, holds_at}
use libchewing.CString.{strstr, starts_with, strchr_index}
use libchewing.Utf8.{ue_str_len, ue_str_seek, ue_str_n_bytes}
use libchewing.Key2pho.{
  phone_inx_from_key, phone_inx_from_key?, phone_from_key, key_string, inx_of_symbol, ph_symbol,
  find_key,
}
use libchewing.Key2pho.Tables.{key_str}
use libchewing.Key2pho.Keys.{zhuin_tab_num}
use libchewing.Bopomofo.{find_type}

-- The layouts with one key for each symbol.
abbrev pub is_plain : ℕ → Bool
is_plain kbtype =
    kbtype == 0 || kbtype == 2 || kbtype == 3 || kbtype == 4 || kbtype == 6 || kbtype == 12

-- The key of a symbol: the classes stand in `ph_str` one after the other.
abbrev pub key_of : ℕ → ℕ → ℕ → ℕ
key_of kbtype type inx =
    let start = if type == 0 then 0 else if type == 1 then 21 else if type == 2 then 24 else 37 in
    get_or (get_or key_str kbtype []) (start + (inx - 1)) 0

-- The key of a symbol goes to its class, ends a syllable only if it is a tone, and has no other use.
abbrev key_agrees : ℕ → ℕ → ℕ → Bool
key_agrees kbtype type inx =
    let key = key_of kbtype type inx in
    let (t, i) = find_type kbtype key 4 0 in
    (t == type)
    && (i == inx)
    && (phone_inx_from_key key 3 kbtype 1 == (if type == 3 then inx else 0))
    && not (key == b'`')
    && not (key == b' ')

abbrev layout_agrees : ℕ → Bool
layout_agrees kbtype =
    not (is_plain kbtype)
    || holds_below 4 (λ t. holds_below (zhuin_tab_num t - 1) (λ i. key_agrees kbtype t (suc i)))

spaces_table :
    holds_below 13 (λ kbtype. not (is_plain kbtype) || phone_inx_from_key b' ' 3 kbtype 1 == 0)
    ≡ true
unfolding holds_below find_type phone_inx_from_key phone_inx_from_key? phone_from_key key_string
    inx_of_symbol ph_symbol find_key strstr starts_with ue_str_len ue_str_seek ue_str_n_bytes
    strchr_index flatten
spaces_table = refl

layouts_table : holds_below 13 layout_agrees ≡ true
unfolding holds_below find_type phone_inx_from_key phone_inx_from_key? phone_from_key key_string
    inx_of_symbol ph_symbol find_key strstr starts_with ue_str_len ue_str_seek ue_str_n_bytes
    strchr_index flatten
layouts_table = refl

pub record KeyAgrees (kbtype type inx : ℕ) : Type 0 where
  pub its_type : (find_type kbtype (key_of kbtype type inx) 4 0).0 ≡ type
  pub its_inx : (find_type kbtype (key_of kbtype type inx) 4 0).1 ≡ inx
  pub its_tone :
      phone_inx_from_key (key_of kbtype type inx) 3 kbtype 1 ≡ (if type == 3 then inx else 0)
  pub not_symbols : (key_of kbtype type inx == b'`') ≡ false
  pub not_space : (key_of kbtype type inx == b' ') ≡ false

agree_parts :
    (t type i inx tone want key : ℕ)
    → ((t == type) && (i == inx) && (tone == want) && not (key == b'`') && not (key == b' ')) ≡ true
    → (t ≡ type) × (i ≡ inx) × (tone ≡ want) × ((key == b'`') ≡ false) × ((key == b' ') ≡ false)
agree_parts t type i inx tone want key h = ground arith

module _ (kbtype : ℕ) (plain : is_plain kbtype ≡ true) where
  pub space-no_tone : phone_inx_from_key b' ' 3 kbtype 1 ≡ 0
  space-no_tone =
      let row = holds_at 13 _ kbtype spaces_table (ground arith) in
      let zero_tone = modus_ponens _ _ row plain in ground (arith, zero_tone)

  pub KeyAgrees-of_symbol :
      (type inx : ℕ) → type < 4 → 0 < inx → inx < zhuin_tab_num type → KeyAgrees kbtype type inx
  KeyAgrees-of_symbol type zero lt pos inside = absurd (omega arith)
  KeyAgrees-of_symbol type (suc i) lt pos inside =
      let row = holds_at 13 layout_agrees kbtype layouts_table (ground arith) in
      let class_row = holds_at 4 _ type (modus_ponens _ _ row plain) lt in
      let agrees = holds_at (zhuin_tab_num type - 1) _ i class_row (omega arith) in
      let (t, n, tone, a, b) = agree_parts _ _ _ _ _ _ _ agrees in
      record { its_type = t; its_inx = n; its_tone = tone; not_symbols = a; not_space = b }
