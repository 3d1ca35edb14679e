-- ===== src/Bopomofo/Input.antt =====
-- src/bopomofo.c: BopomofoPhoInput, the entry of the state machine.
use libchewing.Common.{ℕ, Bool, ◌==◌, ◌||◌, if◌then◌else◌}
use libchewing.Pinyin.{PinyinTable}
use libchewing.Bopomofo.{
  BopomofoData, Rtn, open_symbol_table, def_pho_input, kb_hsu, kb_dvorak_hsu, kb_et26,
  kb_dachen_cp26, kb_hanyu_pinyin, kb_thl_pinyin, kb_mps2_pinyin,
}
use libchewing.Bopomofo.Hsu.{hsu_pho_input}
use libchewing.Bopomofo.Et26.{et26_pho_input}
use libchewing.Bopomofo.DachenCp26.{dachen_cp26_pho_input}
use libchewing.Bopomofo.PinYin.{pin_yin_input}

-- One key. The key that opens the symbol table leaves this state as it is.
unfoldable pub bopomofo_pho_input : PinyinTable → (ℕ → Bool) → BopomofoData → ℕ → Rtn × BopomofoData
bopomofo_pho_input table has_word b key =
    if key == b'`'
    then (open_symbol_table, b)
    else if b.kbtype == kb_hsu || b.kbtype == kb_dvorak_hsu
    then hsu_pho_input has_word b key
    else if b.kbtype == kb_et26
    then et26_pho_input has_word b key
    else if b.kbtype == kb_dachen_cp26
    then dachen_cp26_pho_input has_word b key
    else if b.kbtype == kb_hanyu_pinyin || b.kbtype == kb_thl_pinyin || b.kbtype == kb_mps2_pinyin
    then pin_yin_input table has_word b key
    else def_pho_input has_word b key
