-- ===== src/Bopomofo/Et26.antt =====
-- src/bopomofo.c: the layout ET26, after the example of Hsu.
use libchewing.Common.{ℕ, zero, suc, ◌+◌, Bool, ◌==◌, ◌!=◌, leb, ◌&&◌, ◌||◌, not, if◌then◌else◌}
use libchewing.Key2pho.{phone_inx_from_key}
use libchewing.Bopomofo.{Inx, BopomofoData, Rtn, blank, end_key_process}
use libchewing.Bopomofo.Hsu.{Round, break, next, Scan, fill}

unfoldable pub is_et26_pho_end_key : Inx → ℕ → Bool
is_et26_pho_end_key p key =
    (key == b'd' || key == b'f' || key == b'j' || key == b'k' || key == b' ') && not (blank p)

-- A lone initial at the end of a syllable stands for another symbol of its key.
unfoldable pub et26_convert : Inx → Inx
et26_convert p =
    if p.i0 == 12 || p.i0 == 14
    then record p { i0 = p.i0 + 3 }
    else if p.i0 == 2
    then record p { i0 = 0; i2 = 8 }
    else if p.i0 == 3
    then record p { i0 = 0; i2 = 9 }
    else if p.i0 == 7
    then record p { i0 = 0; i2 = 10 }
    else if p.i0 == 6
    then record p { i0 = 0; i2 = 11 }
    else if p.i0 == 8
    then record p { i0 = 0; i2 = 12 }
    else if p.i0 == 11
    then record p { i0 = 0; i2 = 13 }
    else p

-- One round of the loop over the classes; `pho_inx` stays as it is.
unfoldable pub et26_round : ℕ → ℕ → ℕ → Inx → Round
et26_round type search_times inx p =
    if inx == 0
    then next search_times p
    else if type == 0
        && (inx == 2 || inx == 3 || inx == 11 || inx == 19 || inx == 20 || leb 6 inx && leb inx 8)
        && (p.i0 != 0 || p.i1 != 0)
    then next 2 p
    else break

-- The loop over `n` more classes from `type` on; `inx` is the value of the last round.
unfoldable pub et26_scan : ℕ → ℕ → ℕ → ℕ → ℕ → ℕ → Inx → Scan
et26_scan kbtype key zero type search_times inx p = record { type = type; inx = inx; pho_inx = p }
et26_scan kbtype key (suc n) type search_times inx p =
    let inx' = phone_inx_from_key key type kbtype search_times in
    elim (et26_round type search_times inx' p) [
      | break ↦ record { type = type; inx = inx'; pho_inx = p }
      | next search_times' p' ↦ et26_scan kbtype key n (suc type) search_times' inx' p'
    ]

-- The initial after a medial.
unfoldable pub et26_medial : Scan → Inx → Inx
et26_medial s p =
    if s.type == 1
    then if s.inx == 2
      then (if p.i0 == 12 || p.i0 == 14 then record p { i0 = p.i0 + 3 } else p)
      else if p.i0 == 9
      then record p { i0 = 13 }
      else p
    else p

-- The initial before a final without a medial.
unfoldable pub et26_final : Scan → Inx → Inx
et26_final s p =
    if s.type == 2 && p.i1 == 0 && (p.i0 == 12 || p.i0 == 14) then record p { i0 = p.i0 + 3 } else p

unfoldable pub et26_pho_input : (ℕ → Bool) → BopomofoData → ℕ → Rtn × BopomofoData
et26_pho_input has_word b key =
    let p = b.pho_inx in
    let ended = if p.i1 == 0 && p.i2 == 0 then et26_convert p else p in
    let s = et26_scan b.kbtype key 3 0 1 0 p in
    if is_et26_pho_end_key p key
    then end_key_process has_word (record b { pho_inx = ended }) key 2
    else fill b key s.type s.inx (et26_final s (et26_medial s s.pho_inx))
