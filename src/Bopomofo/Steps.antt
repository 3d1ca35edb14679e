-- ===== src/Bopomofo/Steps.antt =====
-- The invariant over a key of each layout of src/bopomofo.c.
use libchewing.Common.{
  ℕ, zero, suc, ◌+◌, ◌<◌, ◌≡◌, refl, Bool, false, arith, ◌==◌, ◌&&◌, if◌then◌else◌, if-intro,
}
use libchewing.Key2pho.Keys.{zhuin_tab_num}
use libchewing.Bopomofo.{Inx, BopomofoData, end_key_process}
use libchewing.Bopomofo.Hsu.{
  Round, break, next, Scan, hsu_convert, hsu_fuzzy, hsu_round, hsu_scan, hsu_to_zh, hsu_to_j, fill,
  hsu_pho_input, is_hsu_pho_end_key,
}
use libchewing.Bopomofo.Valid.{InxOk, Valid, Step, inx-lt}
use libchewing.Bopomofo.EndKey.{end_key_process-Step, fill-Step}

-- What holds after a loop over the classes.
pub record ScanOk (s : Scan) : Type 0 where
  pub inx_ok : InxOk (s.pho_inx)
  pub inside : (s.type == 3) ≡ false → s.inx < zhuin_tab_num (s.type)

unfoldable pub RoundOk : Round → Type 0
RoundOk break = ℕ
RoundOk (next search_times p) = InxOk p

hsu_convert-InxOk : (p : Inx) → InxOk p → InxOk (hsu_convert p)
unfolding hsu_convert
hsu_convert-InxOk p ok = ground arith

hsu_fuzzy-InxOk : (p : Inx) → InxOk p → InxOk (hsu_fuzzy p)
unfolding hsu_fuzzy
hsu_fuzzy-InxOk p ok = ground arith

hsu_to_zh-InxOk : (s : Scan) (p : Inx) → InxOk p → InxOk (hsu_to_zh s p)
unfolding hsu_to_zh
hsu_to_zh-InxOk s p ok = ground arith

hsu_to_j-InxOk : (s : Scan) (p : Inx) → InxOk p → InxOk (hsu_to_j s p)
unfolding hsu_to_j
hsu_to_j-InxOk s p ok = ground arith

hsu_round-RoundOk :
    (type search_times inx : ℕ) (p : Inx) → InxOk p → RoundOk (hsu_round type search_times inx p)
unfolding hsu_round RoundOk
hsu_round-RoundOk type search_times inx p ok = ground arith

pub round-ScanOk :
    (r : Round) (stop : Scan) (rest : ℕ → Inx → Scan)
    → RoundOk r
    → ScanOk stop
    → ((search_times : ℕ) (p : Inx) → InxOk p → ScanOk (rest search_times p))
    → ScanOk (elim r [ break ↦ stop | next search_times p ↦ rest search_times p ])
unfolding RoundOk
round-ScanOk break stop rest h hs hr = hs
round-ScanOk (next search_times p) stop rest h hs hr = hr search_times p h

hsu_scan-ScanOk :
    (kbtype key n type search_times inx : ℕ) (p : Inx)
    → kbtype < 13
    → n + type ≡ 3
    → InxOk p
    → ScanOk (hsu_scan kbtype key n type search_times inx p)
unfolding hsu_scan
hsu_scan-ScanOk kbtype key zero type search_times inx p k size ok = record {
  inx_ok = ok;
  inside = ground arith;
}
hsu_scan-ScanOk kbtype key (suc n) type search_times inx p k size ok =
    let inside = inx-lt key type kbtype search_times (omega arith) k in
    round-ScanOk _ _ _ (hsu_round-RoundOk type search_times _ p ok)
      record { inx_ok = ok; inside = λ _. inside }
      (λ m q. hsu_scan-ScanOk kbtype key n (suc type) m _ q k (omega arith))

module _ (has_word : ℕ → Bool) where
  -- The layouts' functions have this form: the key ends the syllable or goes into a slot.
  pub end_or_fill :
      (b : BopomofoData) (key search_times type inx : ℕ) (c : Bool) (p q : Inx)
      → Valid b
      → InxOk p
      → InxOk q
      → ((type == 3) ≡ false → inx < zhuin_tab_num type)
      → Step has_word b (
          if c
          then end_key_process has_word (record b { pho_inx = p }) key search_times
          else fill b key type inx q)
  end_or_fill b key search_times type inx c p q v hp hq inside =
      if-intro (Step has_word b) c
        (λ _.
          let s =
            end_key_process-Step has_word (record b { pho_inx = p }) key search_times
              record {
                kbtype_lt = v.kbtype_lt;
                inx_ok = hp;
                alt_ok = v.alt_ok;
                phone_ok = v.phone_ok;
                phone_alt_ok = v.phone_alt_ok;
                key_seq_lt = v.key_seq_lt;
              } in
          record { valid = s.valid; same_kbtype = s.same_kbtype; outcome = s.outcome })
        (λ _. fill-Step has_word b key type inx q v hq inside)

  pub hsu_pho_input-Step :
      (b : BopomofoData) (key : ℕ) → Valid b → Step has_word b (hsu_pho_input has_word b key)
  unfolding hsu_pho_input
  hsu_pho_input-Step b key v =
      let p = b.pho_inx in
      let s = hsu_scan b.kbtype key 3 0 1 0 p in
      let scanned = hsu_scan-ScanOk b.kbtype key 3 0 1 0 p v.kbtype_lt refl v.inx_ok in
      let zh = hsu_to_zh-InxOk s _ (hsu_fuzzy-InxOk s.pho_inx scanned.inx_ok) in
      end_or_fill b key _ s.type s.inx (is_hsu_pho_end_key p key) _ _ v
        (hsu_fuzzy-InxOk _ (
          if-intro InxOk (p.i1 == 0 && p.i2 == 0) (λ _. hsu_convert-InxOk p v.inx_ok)
            (λ _. v.inx_ok)))
        (hsu_to_j-InxOk s _ zh) scanned.inside
