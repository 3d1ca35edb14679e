-- ===== src/Bopomofo/Carpalx.antt =====
-- The layout Carpalx of src/bopomofo.c, which BopomofoRemoveLast and BopomofoIsEntering take for a
-- pinyin layout.
use libchewing.Common.{
  ℕ, ◌≡◌, refl, sym, subst, Bool, true, false, none, List, [], ◌∷◌, arith, leb, ◌==◌, ◌!=◌, ◌&&◌,
  if-intro, Bool-cases, inl, inr,
}
use libchewing.Key2pho.{uint_from_phone_inx}
use libchewing.Pinyin.{PinyinTable}
use libchewing.Bopomofo.{
  blank, to_list, BopomofoData, Rtn, kb_carpalx, bopomofo_remove_last, bopomofo_is_entering,
  bopomofo_remove_all, def_pho_input, def_absorb, end_key_process, commit_phone, set_tone,
  find_type, is_def_pho_end_key,
}
use libchewing.Bopomofo.Input.{bopomofo_pho_input}
use libchewing.Bopomofo.Commit.{dispatch}
use libchewing.Bopomofo.Syllables.{run}

-- What the keys of this layout keep.
record NoKeys (b : BopomofoData) : Type 0 where
  layout : b.kbtype ≡ kb_carpalx
  no_keys : b.key_seq ≡ []

fooled :
    (b : BopomofoData)
    → NoKeys b
    → (bopomofo_is_entering b ≡ false) × (bopomofo_remove_last b ≡ none)
unfolding bopomofo_is_entering bopomofo_remove_last
fooled b h = rw (h.layout, h.no_keys) (refl, refl)

module _ (has_word : ℕ → Bool) where
  abbrev Keeps : Rtn × BopomofoData → Type 0
  Keeps out = NoKeys (out.1)

  commit_phone-Keeps : (b : BopomofoData) → NoKeys b → Keeps (commit_phone has_word b)
  unfolding commit_phone bopomofo_remove_all
  commit_phone-Keeps b h =
      if-intro Keeps (has_word (uint_from_phone_inx (to_list b.pho_inx)))
        (λ _. record { layout = h.layout; no_keys = h.no_keys })
        (λ _. record { layout = h.layout; no_keys = refl })

  end_key_process-Keeps :
      (b : BopomofoData) (key n : ℕ) → NoKeys b → Keeps (end_key_process has_word b key n)
  unfolding end_key_process set_tone
  end_key_process-Keeps b key n h =
      if-intro Keeps (blank b.pho_inx && b.pho_inx.i3 == 0) (λ _. h)
        (λ _.
          if-intro Keeps (b.pho_inx.i3 == 0)
            (λ _.
              commit_phone-Keeps (set_tone b _) record { layout = h.layout; no_keys = h.no_keys })
            (λ _.
              if-intro Keeps (key != b' ') (λ _. record { layout = h.layout; no_keys = h.no_keys })
                (λ _. commit_phone-Keeps b h)))

  def_absorb-Keeps : (b : BopomofoData) (key : ℕ) → NoKeys b → Keeps (def_absorb b key)
  unfolding def_absorb
  def_absorb-Keeps b key h =
      if-intro Keeps (leb 4 (find_type b.kbtype key 4 0).0) (λ _. h)
        (λ _. record { layout = h.layout; no_keys = h.no_keys })

  def_pho_input-Keeps :
      (b : BopomofoData) (key : ℕ) → NoKeys b → Keeps (def_pho_input has_word b key)
  unfolding def_pho_input
  def_pho_input-Keeps b key h =
      if-intro Keeps (is_def_pho_end_key key b.kbtype)
        (λ _.
          if-intro Keeps (blank b.pho_inx && b.pho_inx.i3 == 0) (λ _. def_absorb-Keeps b key h)
            (λ _. end_key_process-Keeps b key 1 h))
        (λ _. def_absorb-Keeps _ key record { layout = h.layout; no_keys = h.no_keys })

  module _ (table : PinyinTable) where
    opening :
        (b : BopomofoData) (key : ℕ)
        → (key == b'`') ≡ true
        → (bopomofo_pho_input table has_word b key).1 ≡ b
    unfolding bopomofo_pho_input
    opening b key e = rw e refl

    bopomofo_pho_input-Keeps :
        (b : BopomofoData) (key : ℕ) → NoKeys b → Keeps (bopomofo_pho_input table has_word b key)
    bopomofo_pho_input-Keeps b key h = elim (Bool-cases (key == b'`')) [
      | inl e ↦ subst NoKeys (sym (opening b key e)) h
      | inr e ↦
          subst Keeps (sym (dispatch table has_word b key (ground (arith, h.layout)) e))
            (def_pho_input-Keeps b key h)
    ]

    run-NoKeys : (keys : List ℕ) (b : BopomofoData) → NoKeys b → NoKeys (run table has_word b keys)
    unfolding run
    run-NoKeys [] b h = h
    run-NoKeys (key ∷ keys) b h = run-NoKeys keys _ (bopomofo_pho_input-Keeps b key h)

    -- With the layout Carpalx, whatever keys are typed after a state with an empty pinyin string:
    -- `BopomofoIsEntering` says that nothing is entered, and `BopomofoRemoveLast` writes out of range.
    pub run-not_entering :
        (keys : List ℕ) (b : BopomofoData)
        → b.kbtype ≡ kb_carpalx
        → b.key_seq ≡ []
        → (bopomofo_is_entering (run table has_word b keys) ≡ false)
          × (bopomofo_remove_last (run table has_word b keys) ≡ none)
    run-not_entering keys b layout no_keys =
        let h = run-NoKeys keys b record { layout = layout; no_keys = no_keys } in fooled _ h
