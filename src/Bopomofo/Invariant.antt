-- ===== src/Bopomofo/Invariant.antt =====
-- The invariant over one key of BopomofoPhoInput of src/bopomofo.c.
use libchewing.Common.{
  ℕ, zero, suc, ◌+◌, ◌<◌, ◌≡◌, refl, Bool, true, false, Option, none, some, List, [], ◌∷◌, ◌++◌,
  ◌⊎◌, arith, length, leb, ltb, ◌==◌, ◌&&◌, ◌||◌, not, if-intro, length-append,
}
use libchewing.Key2pho.{phone_inx_from_key, key_string}
use libchewing.Pinyin.{
  PinyinTable, PinyinResult, converted, no_initial, no_final, pinyin_to_bopomofo,
}
use libchewing.Bopomofo.{
  Inx, BopomofoData, Rtn, absorb, no_word, key_error, open_symbol_table, find_type, set_inx, kb_hsu,
  kb_dvorak_hsu, kb_et26, kb_dachen_cp26, kb_hanyu_pinyin, kb_thl_pinyin, kb_mps2_pinyin,
}
use libchewing.Bopomofo.Hsu.{Scan}
use libchewing.Bopomofo.Et26.{
  et26_convert, et26_round, et26_scan, et26_medial, et26_final, et26_pho_input, is_et26_pho_end_key,
}
use libchewing.Bopomofo.DachenCp26.{
  switching_between, dachen_switch, dachen_scan, dachen_cp26_pho_input, is_dachen_cp26_pho_end_key,
}
use libchewing.Bopomofo.PinYin.{
  fill_keys, pin_yin_end, pin_yin_input, is_pin_yin_end_key, is_symbol_key, tone_key,
}
use libchewing.Bopomofo.Input.{bopomofo_pho_input}
use libchewing.Bopomofo.Valid.{InxOk, Valid, Step, inx-lt, set_inx-InxOk, find_type-lt}
use libchewing.Bopomofo.EndKey.{stay, end_key_process-Step, fill-Step, def_pho_input-Step}
use libchewing.Bopomofo.Steps.{ScanOk, RoundOk, round-ScanOk, end_or_fill, hsu_pho_input-Step}

et26_convert-InxOk : (p : Inx) → InxOk p → InxOk (et26_convert p)
unfolding et26_convert
et26_convert-InxOk p ok = ground arith

et26_round-RoundOk :
    (type search_times inx : ℕ) (p : Inx) → InxOk p → RoundOk (et26_round type search_times inx p)
unfolding et26_round RoundOk
et26_round-RoundOk type search_times inx p ok = ground arith

et26_medial-InxOk : (s : Scan) (p : Inx) → InxOk p → InxOk (et26_medial s p)
unfolding et26_medial
et26_medial-InxOk s p ok = ground arith

et26_final-InxOk : (s : Scan) (p : Inx) → InxOk p → InxOk (et26_final s p)
unfolding et26_final
et26_final-InxOk s p ok = ground arith

et26_scan-ScanOk :
    (kbtype key n type search_times inx : ℕ) (p : Inx)
    → kbtype < 13
    → n + type ≡ 3
    → InxOk p
    → ScanOk (et26_scan kbtype key n type search_times inx p)
unfolding et26_scan
et26_scan-ScanOk kbtype key zero type search_times inx p k size ok = record {
  inx_ok = ok;
  inside = ground arith;
}
et26_scan-ScanOk kbtype key (suc n) type search_times inx p k size ok =
    let inside = inx-lt key type kbtype search_times (omega arith) k in
    round-ScanOk _ _ _ (et26_round-RoundOk type search_times _ p ok)
      record { inx_ok = ok; inside = λ _. inside }
      (λ m q. et26_scan-ScanOk kbtype key n (suc type) m _ q k (omega arith))

dachen_scan-ScanOk :
    (kbtype key n type inx : ℕ) (p : Inx)
    → kbtype < 13
    → n + type ≡ 3
    → InxOk p
    → ScanOk (dachen_scan kbtype key n type inx p)
unfolding dachen_scan
dachen_scan-ScanOk kbtype key zero type inx p k size ok = record {
  inx_ok = ok;
  inside = ground arith;
}
dachen_scan-ScanOk kbtype key (suc n) type inx p k size ok =
    let inside = inx-lt key type kbtype 1 (omega arith) k in
    if-intro ScanOk (phone_inx_from_key key type kbtype 1 == 0)
      (λ _. dachen_scan-ScanOk kbtype key n (suc type) _ p k (omega arith) ok)
      (λ _. record { inx_ok = ok; inside = λ _. inside })

-- What a switching key leaves is in range.
SwitchOk : Option Inx → Type 0
SwitchOk none = ℕ
SwitchOk (some p) = InxOk p

dachen_switch-SwitchOk : (p : Inx) (key : ℕ) → InxOk p → SwitchOk (dachen_switch p key)
unfolding dachen_switch switching_between SwitchOk
dachen_switch-SwitchOk p key ok = ground arith

fill_keys-InxOk :
    (kbtype : ℕ) (keys : List ℕ) (p : Inx)
    → kbtype < 13
    → InxOk p
    → InxOk ((fill_keys kbtype keys p).1)
unfolding fill_keys
fill_keys-InxOk kbtype [] p k ok = ok
fill_keys-InxOk kbtype (key ∷ keys) p k ok =
    let (type, inx) = find_type kbtype key 4 0 in
    if-intro (λ (r : Bool × Inx). InxOk (r.1)) (leb 4 type) (λ _. ok)
      (λ e.
        fill_keys-InxOk kbtype keys (set_inx p type inx) k
          (set_inx-InxOk p type inx ok (inside (find_type-lt kbtype key 4 0 k (omega arith)) e)))
  where
    inside : {c : Bool} {n m : ℕ} → (c ≡ true) ⊎ (n < m) → c ≡ false → n < m
    inside h e = ground arith

length-key_string : (key : ℕ) → length (key_string key) < 2
unfolding key_string
length-key_string key = ground arith

module _ (has_word : ℕ → Bool) where
  et26_pho_input-Step :
      (b : BopomofoData) (key : ℕ) → Valid b → Step has_word b (et26_pho_input has_word b key)
  unfolding et26_pho_input
  et26_pho_input-Step b key v =
      let p = b.pho_inx in
      let s = et26_scan b.kbtype key 3 0 1 0 p in
      let scanned = et26_scan-ScanOk b.kbtype key 3 0 1 0 p v.kbtype_lt refl v.inx_ok in
      end_or_fill has_word b key 2 s.type s.inx (is_et26_pho_end_key p key) _ _ v
        (if-intro InxOk (p.i1 == 0 && p.i2 == 0) (λ _. et26_convert-InxOk p v.inx_ok)
          (λ _. v.inx_ok))
        (et26_final-InxOk s _ (et26_medial-InxOk s s.pho_inx scanned.inx_ok)) scanned.inside

  dachen_cp26_pho_input-Step :
      (b : BopomofoData) (key : ℕ)
      → Valid b
      → Step has_word b (dachen_cp26_pho_input has_word b key)
  unfolding dachen_cp26_pho_input SwitchOk
  dachen_cp26_pho_input-Step b key v =
      let p = b.pho_inx in
      let scanned = dachen_scan-ScanOk b.kbtype key 3 0 0 p v.kbtype_lt refl v.inx_ok in
      if-intro (Step has_word b) (is_dachen_cp26_pho_end_key p key)
        (λ _. end_key_process-Step has_word b key 2 v)
        (λ _.
          switched (dachen_switch p key) (dachen_switch-SwitchOk p key v.inx_ok)
            (fill-Step has_word b key _ _ p v v.inx_ok scanned.inside))
    where
      switched :
          (o : Option Inx) {out : Rtn × BopomofoData}
          → SwitchOk o
          → Step has_word b out
          → Step has_word b (elim o [ some p' ↦ (absorb, record b { pho_inx = p' }) | none ↦ out ])
      switched none h s = s
      switched (some p') h s =
          stay has_word b absorb p' b.pho_inx_alt b.key_seq v h v.alt_ok v.key_seq_lt cc

  pin_yin_end-Step :
      (b : BopomofoData) (key : ℕ) (key_seq key_seq_alt : List ℕ)
      → Valid b
      → Step has_word b (pin_yin_end has_word b key key_seq key_seq_alt)
  unfolding pin_yin_end
  pin_yin_end-Step b key key_seq key_seq_alt v =
      let hp = fill_keys-InxOk b.kbtype key_seq b.pho_inx v.kbtype_lt v.inx_ok in
      let hq = fill_keys-InxOk b.kbtype key_seq_alt b.pho_inx_alt v.kbtype_lt v.alt_ok in
      if-intro (Step has_word b) (not ((fill_keys b.kbtype key_seq b.pho_inx).0))
        (λ _. stay has_word b key_error _ _ b.key_seq v hp v.alt_ok v.key_seq_lt cc)
        (λ _.
          if-intro (Step has_word b) (not ((fill_keys b.kbtype key_seq_alt b.pho_inx_alt).0))
            (λ _. stay has_word b key_error _ _ b.key_seq v hp hq v.key_seq_lt cc)
            (λ _.
              let s =
                end_key_process-Step has_word
                  (record b {
                    pho_inx = (fill_keys b.kbtype key_seq b.pho_inx).1;
                    pho_inx_alt = (fill_keys b.kbtype key_seq_alt b.pho_inx_alt).1;
                    key_seq = [];
                  })
                  (tone_key key) 1
                  record {
                    kbtype_lt = v.kbtype_lt;
                    inx_ok = hp;
                    alt_ok = hq;
                    phone_ok = v.phone_ok;
                    phone_alt_ok = v.phone_alt_ok;
                    key_seq_lt = omega arith;
                  } in
              record { valid = s.valid; same_kbtype = s.same_kbtype; outcome = s.outcome }))

  module _ (table : PinyinTable) where
    pin_yin_input-Step :
        (b : BopomofoData) (key : ℕ)
        → Valid b
        → Step has_word b (pin_yin_input table has_word b key)
    unfolding pin_yin_input
    pin_yin_input-Step b key v =
        if-intro (Step has_word b) (length b.key_seq == 0 && is_symbol_key key)
          (λ _. stay has_word b key_error _ _ b.key_seq v v.inx_ok v.alt_ok v.key_seq_lt cc)
          (λ _.
            if-intro (Step has_word b) (is_pin_yin_end_key key)
              (λ _. ended (pinyin_to_bopomofo table b.kbtype b.key_seq))
              (λ _.
                if-intro (Step has_word b) (ltb (length b.key_seq + 1) 10)
                  (λ e.
                    stay has_word b absorb _ _ (b.key_seq ++ key_string key) v v.inx_ok v.alt_ok
                      (rw (length-append b.key_seq (key_string key))
                        (ground (arith, length-key_string key)))
                      cc)
                  (λ _. stay has_word b no_word _ _ b.key_seq v v.inx_ok v.alt_ok v.key_seq_lt cc)))
      where
        ended :
            (r : PinyinResult)
            → Step has_word b (elim r [
              | converted s t ↦ pin_yin_end has_word b key s t
              | no_initial ↦ (absorb, record b { key_seq = [] })
              | no_final ↦ (absorb, record b { key_seq = [] })
            ])
        ended (converted s t) = pin_yin_end-Step b key s t v
        ended no_initial = stay has_word b absorb _ _ [] v v.inx_ok v.alt_ok (omega arith) cc
        ended no_final = stay has_word b absorb _ _ [] v v.inx_ok v.alt_ok (omega arith) cc

    -- On every layout, every key takes a valid state to a valid state of the same layout. Either the
    -- result is BOPOMOFO_COMMIT, and then the new `phone` is a syllable that has a word and both
    -- buffers are clear, or it is another result, and `phone` and `phoneAlt` stay as they are.
    pub bopomofo_pho_input-Step :
        (b : BopomofoData) (key : ℕ)
        → Valid b
        → Step has_word b (bopomofo_pho_input table has_word b key)
    unfolding bopomofo_pho_input
    bopomofo_pho_input-Step b key v =
        let S = Step has_word b in
        if-intro S (key == b'`')
          (λ _. stay has_word b open_symbol_table _ _ b.key_seq v v.inx_ok v.alt_ok v.key_seq_lt cc)
          (λ _.
            if-intro S (b.kbtype == kb_hsu || b.kbtype == kb_dvorak_hsu)
              (λ _. hsu_pho_input-Step has_word b key v)
              (λ _.
                if-intro S (b.kbtype == kb_et26) (λ _. et26_pho_input-Step b key v)
                  (λ _.
                    if-intro S (b.kbtype == kb_dachen_cp26)
                      (λ _. dachen_cp26_pho_input-Step b key v)
                      (λ _.
                        if-intro S
                          (b.kbtype == kb_hanyu_pinyin
                            || b.kbtype == kb_thl_pinyin
                            || b.kbtype == kb_mps2_pinyin)
                          (λ _. pin_yin_input-Step b key v)
                          (λ _. def_pho_input-Step has_word b key v)))))
