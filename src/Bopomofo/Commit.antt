-- ===== src/Bopomofo/Commit.antt =====
-- One key on the layouts of src/bopomofo.c with one key for each symbol.
use libchewing.Common.{
  ℕ, ◌<◌, ◌≡◌, refl, ◌∙◌, Bool, true, false, arith, leb, ◌==◌, ◌!=◌, ◌||◌, if◌then◌else◌, if-intro,
}
use libchewing.Key2pho.Keys.{zhuin_tab_num}
use libchewing.Pinyin.{PinyinTable}
use libchewing.Bopomofo.{
  Inx, set_inx, BopomofoData, Rtn, absorb, find_type, def_absorb, def_pho_input, is_def_pho_end_key,
  kb_hsu, kb_dvorak_hsu, kb_et26, kb_dachen_cp26, kb_hanyu_pinyin, kb_thl_pinyin, kb_mps2_pinyin,
}
use libchewing.Bopomofo.Input.{bopomofo_pho_input}
use libchewing.Bopomofo.Typing.{is_plain, key_of, KeyAgrees-of_symbol}

-- The buffer after the key of a symbol: a tone that stood there is gone.
abbrev pub put : Inx → ℕ → ℕ → Inx
put p type inx = set_inx (record p { i3 = 0 }) type inx

module _ (table : PinyinTable) (has_word : ℕ → Bool) where
  pub dispatch :
      (b : BopomofoData) (key : ℕ)
      → is_plain b.kbtype ≡ true
      → (key == b'`') ≡ false
      → bopomofo_pho_input table has_word b key ≡ def_pho_input has_word b key
  unfolding bopomofo_pho_input
  dispatch b key plain e =
      let goal = λ (r : Rtn × BopomofoData). r ≡ def_pho_input has_word b key in
      if-intro goal (key == b'`') (λ t. cc)
        (λ _.
          if-intro goal (b.kbtype == kb_hsu || b.kbtype == kb_dvorak_hsu)
            (λ t. absurd (ground arith))
            (λ _.
              if-intro goal (b.kbtype == kb_et26) (λ t. absurd (ground arith))
                (λ _.
                  if-intro goal (b.kbtype == kb_dachen_cp26) (λ t. absurd (ground arith))
                    (λ _.
                      if-intro goal
                        (b.kbtype == kb_hanyu_pinyin
                          || b.kbtype == kb_thl_pinyin
                          || b.kbtype == kb_mps2_pinyin)
                        (λ t. absurd (ground arith)) (λ _. refl)))))

  absorb-of_agrees :
      (b : BopomofoData) (key type inx : ℕ)
      → type < 3
      → (find_type b.kbtype key 4 0).0 ≡ type
      → (find_type b.kbtype key 4 0).1 ≡ inx
      → def_absorb b key ≡ (absorb, record b { pho_inx = set_inx b.pho_inx type inx })
  unfolding def_absorb
  absorb-of_agrees b key type inx lt t i =
      let goal = λ (r : Rtn × BopomofoData).
        r ≡ (absorb, record b { pho_inx = set_inx b.pho_inx type inx }) in
      if-intro goal (leb 4 (find_type b.kbtype key 4 0).0) (λ e. absurd (ground arith))
        (λ _. rw (t, i) refl)

  -- The key of an initial, a medial or a final is absorbed into the slot of its class.
  pub symbol-absorbed :
      (b : BopomofoData) (type inx : ℕ)
      → is_plain b.kbtype ≡ true
      → type < 3
      → 0 < inx
      → inx < zhuin_tab_num type
      → bopomofo_pho_input table has_word b (key_of b.kbtype type inx)
        ≡ (absorb, record b { pho_inx = put b.pho_inx type inx })
  unfolding def_pho_input is_def_pho_end_key
  symbol-absorbed b type inx plain lt pos inside =
      let k = KeyAgrees-of_symbol b.kbtype plain type inx (omega arith) pos inside in
      let key = key_of b.kbtype type inx in
      let t = k.its_tone in
      let sp = k.not_space in
      dispatch b key plain k.not_symbols
      ∙ if-intro
          (λ (r : Rtn × BopomofoData). r ≡ (absorb, record b { pho_inx = put b.pho_inx type inx }))
          (is_def_pho_end_key key b.kbtype) (λ e. absurd (no_end _ _ _ _ lt t sp e))
          (λ _.
            absorb-of_agrees (record b { pho_inx = record (b.pho_inx) { i3 = 0 } }) key type inx lt
              k.its_type k.its_inx)
    where
      no_end :
          (tone type inx key : ℕ)
          → type < 3
          → tone ≡ (if type == 3 then inx else 0)
          → (key == b' ') ≡ false
          → (tone != 0 || key == b' ') ≡ true
          → ⊥
      no_end tone type inx key lt t sp e = ground arith
