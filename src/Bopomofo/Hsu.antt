-- ===== src/Bopomofo/Hsu.antt =====
-- src/bopomofo.c: the layout Hsu, where a key stands for several symbols.
use libchewing.Common.{
  ℕ, zero, suc, ◌+◌, ◌-◌, Bool, ◌==◌, ◌!=◌, leb, ◌&&◌, ◌||◌, not, if◌then◌else◌,
}
use libchewing.Key2pho.{phone_inx_from_key}
use libchewing.Bopomofo.{
  Inx, BopomofoData, Rtn, absorb, key_error, no_word, set_inx, blank, isalpha, end_key_process,
}

unfoldable pub is_hsu_pho_end_key : Inx → ℕ → Bool
is_hsu_pho_end_key p key =
    (key == b's' || key == b'd' || key == b'f' || key == b'j' || key == b' ') && not (blank p)

-- A lone initial at the end of a syllable stands for another symbol of its key.
unfoldable pub hsu_convert : Inx → Inx
hsu_convert p =
    if leb 12 p.i0 && leb p.i0 14
    then record p { i0 = p.i0 + 3 }
    else if p.i0 == 11
    then record p { i0 = 0; i2 = 2 }
    else if p.i0 == 9
    then record p { i0 = 0; i2 = 3 }
    else if p.i0 == 3
    then record p { i0 = 0; i2 = 9 }
    else if p.i0 == 7
    then record p { i0 = 0; i2 = 10 }
    else if p.i0 == 10
    then record p { i0 = 0; i2 = 11 }
    else if p.i0 == 8
    then record p { i0 = 0; i2 = 13 }
    else p

-- The fuzzy rule, which stands in both branches.
unfoldable pub hsu_fuzzy : Inx → Inx
hsu_fuzzy p = if p.i0 == 9 && (p.i1 == 1 || p.i1 == 3) then record p { i0 = 12 } else p

-- How one round of the loop over the classes ends: by `break`, or with new values of `searchTimes`
-- and `pho_inx`.
pub data Round : Type 0 where
  break : Round
  next : ℕ → Inx → Round

unfoldable pub hsu_round : ℕ → ℕ → ℕ → Inx → Round
hsu_round type search_times inx p =
    if inx == 0
    then next search_times p
    else if type == 0
    then if (inx == 3 || leb 7 inx && leb inx 11 || inx == 20) && (p.i0 != 0 || p.i1 != 0)
      then next 2 p
      else if leb 12 inx && leb inx 14
      then next search_times (record p { i0 = inx + 3 })
      else break
    else if type == 1 && inx == 1
    then (if p.i1 != 0 then next 2 p else break)
    else break

-- `type`, `inx` and `pho_inx` after a loop.
pub record Scan : Type 0 where
  pub type : ℕ
  pub inx : ℕ
  pub pho_inx : Inx

-- The loop over `n` more classes from `type` on; `inx` is the value of the last round.
unfoldable pub hsu_scan : ℕ → ℕ → ℕ → ℕ → ℕ → ℕ → Inx → Scan
hsu_scan kbtype key zero type search_times inx p = record { type = type; inx = inx; pho_inx = p }
hsu_scan kbtype key (suc n) type search_times inx p =
    let inx' = phone_inx_from_key key type kbtype search_times in
    elim (hsu_round type search_times inx' p) [
      | break ↦ record { type = type; inx = inx'; pho_inx = p }
      | next search_times' p' ↦ hsu_scan kbtype key n (suc type) search_times' inx' p'
    ]

-- The initials that go before i and iu, and those that do not.
unfoldable pub hsu_to_zh : Scan → Inx → Inx
hsu_to_zh s p =
    if leb 12 p.i0 && leb p.i0 14 && (s.type == 1 && s.inx == 2 || s.type == 2 && p.i1 == 0)
    then record p { i0 = p.i0 + 3 }
    else p

unfoldable pub hsu_to_j : Scan → Inx → Inx
hsu_to_j s p =
    if leb 15 p.i0 && leb p.i0 17 && (s.type == 1 && (s.inx == 1 || s.inx == 3))
    then record p { i0 = p.i0 - 3 }
    else p

-- The end of a layout's function: a key of no class, or the key goes into the slot of its class.
unfoldable pub fill : BopomofoData → ℕ → ℕ → ℕ → Inx → Rtn × BopomofoData
unfolding set_inx isalpha
fill b key type inx p =
    if type == 3
    then (if isalpha key then no_word else key_error, record b { pho_inx = p })
    else (absorb, record b { pho_inx = set_inx p type inx })

unfoldable pub hsu_pho_input : (ℕ → Bool) → BopomofoData → ℕ → Rtn × BopomofoData
hsu_pho_input has_word b key =
    let p = b.pho_inx in
    let ended = hsu_fuzzy (if p.i1 == 0 && p.i2 == 0 then hsu_convert p else p) in
    let s = hsu_scan b.kbtype key 3 0 1 0 p in
    if is_hsu_pho_end_key p key
    then end_key_process has_word (record b { pho_inx = ended }) key (if key == b'j' then 3 else 2)
    else fill b key s.type s.inx (hsu_to_j s (hsu_to_zh s (hsu_fuzzy s.pho_inx)))
