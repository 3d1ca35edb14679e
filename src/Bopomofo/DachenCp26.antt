-- ===== src/Bopomofo/DachenCp26.antt =====
-- src/bopomofo.c: the layout Dachen CP26, whose keys switch between symbols.
use libchewing.Common.{
  ℕ, zero, suc, Bool, Option, none, some, ◌==◌, ◌!=◌, ◌&&◌, ◌||◌, not, if◌then◌else◌,
}
use libchewing.Key2pho.{phone_inx_from_key}
use libchewing.Bopomofo.{Inx, BopomofoData, Rtn, absorb, blank, end_key_process}
use libchewing.Bopomofo.Hsu.{Scan, fill}

unfoldable pub is_dachen_cp26_pho_end_key : Inx → ℕ → Bool
is_dachen_cp26_pho_end_key p key =
    (key == b'e' || key == b'r' || key == b'd' || key == b'y' || key == b' ') && not (blank p)

-- `none` is the result 0.
unfoldable pub switching_between : ℕ → ℕ → ℕ → Option ℕ
switching_between pho_idx a b =
    if pho_idx == a then some b else if pho_idx == b then some a else none

unfoldable pub switch_initial : Inx → ℕ → ℕ → Option Inx
switch_initial p a b = elim (switching_between p.i0 a b) [
  | none ↦ none
  | some i ↦ some (record p { i0 = i })
]

unfoldable pub switch_final : Inx → ℕ → ℕ → Option Inx
switch_final p a b = elim (switching_between p.i2 a b) [
  | none ↦ none
  | some i ↦ some (record p { i2 = i })
]

-- The key u: between i, a and ia.
unfoldable pub press_u : Inx → Option Inx
press_u p =
    if p.i1 == 1 && p.i2 != 1
    then some (record p { i1 = 0; i2 = 1 })
    else if p.i1 != 1 && p.i2 == 1
    then some (record p { i1 = 1 })
    else if p.i1 == 1 && p.i2 == 1
    then some (record p { i1 = 0; i2 = 0 })
    else if p.i1 != 0
    then some (record p { i2 = 1 })
    else none

-- The key m: between iu and ou.
unfoldable pub press_m : Inx → Option Inx
press_m p =
    if p.i1 == 3 && p.i2 != 8
    then some (record p { i1 = 0; i2 = 8 })
    else if p.i1 != 3 && p.i2 == 8
    then some (record p { i1 = 3; i2 = 0 })
    else if p.i1 != 0
    then some (record p { i2 = 8 })
    else none

-- The keys b and n: a final after an initial or a medial.
unfoldable pub press_final : Inx → ℕ → Option Inx
press_final p inx = if p.i0 != 0 || p.i1 != 0 then some (record p { i2 = inx }) else none

-- The chain of tests on the key: the new indices where it returns BOPOMOFO_ABSORB.
unfoldable pub dachen_switch : Inx → ℕ → Option Inx
unfolding switch_initial switch_final press_u press_m press_final
dachen_switch p key =
    if key == b'q'
    then switch_initial p 1 2
    else if key == b'w'
    then switch_initial p 5 6
    else if key == b't'
    then switch_initial p 15 16
    else if key == b'b'
    then press_final p 4
    else if key == b'n'
    then press_final p 12
    else if key == b'u'
    then press_u p
    else if key == b'm'
    then press_m p
    else if key == b'i'
    then switch_final p 2 5
    else if key == b'o'
    then switch_final p 6 9
    else if key == b'l'
    then switch_final p 7 11
    else if key == b'p'
    then switch_final p 10 13
    else none

-- The loop over the classes stops at the first one with the key.
unfoldable pub dachen_scan : ℕ → ℕ → ℕ → ℕ → ℕ → Inx → Scan
dachen_scan kbtype key zero type inx p = record { type = type; inx = inx; pho_inx = p }
dachen_scan kbtype key (suc n) type inx p =
    let inx' = phone_inx_from_key key type kbtype 1 in
    let rest = dachen_scan kbtype key n (suc type) inx' p in
    if inx' == 0 then rest else record { type = type; inx = inx'; pho_inx = p }

unfoldable pub dachen_cp26_pho_input : (ℕ → Bool) → BopomofoData → ℕ → Rtn × BopomofoData
dachen_cp26_pho_input has_word b key =
    let p = b.pho_inx in
    let s = dachen_scan b.kbtype key 3 0 0 p in
    if is_dachen_cp26_pho_end_key p key
    then end_key_process has_word b key 2
    else elim (dachen_switch p key) [
      | some p' ↦ (absorb, record b { pho_inx = p' })
      | none ↦ fill b key s.type s.inx p
    ]
