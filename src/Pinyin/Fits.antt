-- ===== src/Pinyin/Fits.antt =====
-- src/pinyin.c: the lengths of the results of PinyinToBopomofo.
use libchewing.Common.{
  ℕ, ◌<◌, ◌≤◌, ◌≡◌, refl, Bool, true, Option, none, some, List, [], ◌∷◌, ◌++◌, arith, length,
  length-append, drop, ◌==◌, ◌&&◌, if-intro, leb,
}
use libchewing.CString.{str_eq, starts_with}
use libchewing.Pinyin.{
  Keymap, PinyinTable, PinyinResult, converted, no_initial, no_final, empty_keymap, wg_special,
  common_special, hanyu_special, thl_special, mps2_special, find_exact, special, token,
  find_initial, fix_empty, fix_round, fix_initial, fix_labial, combine, pinyin_to_bopomofo,
}

-- Each `bopomofo` of a table has at most `n` bytes.
unfoldable pub AllShort : ℕ → List Keymap → Type 0
AllShort n [] = 0 < 1
AllShort n (m ∷ maps) = (length (m.bopomofo) ≤ n) × AllShort n maps

-- A string with two readings that both fit in an array of 5 bytes.
abbrev reads : List ℕ → Bool
reads seq = leb (length ((token seq).0)) 4 && leb (length ((token (token seq).1).0)) 4

abbrev all_read : List Keymap → Bool
all_read [] = true
all_read (m ∷ maps) = reads m.bopomofo && all_read maps

unfoldable FitsSeq : Option (List ℕ) → Type 0
FitsSeq none = 0 < 1
FitsSeq (some seq) = reads seq ≡ true

find_exact-FitsSeq :
    (maps : List Keymap) (s : List ℕ) → all_read maps ≡ true → FitsSeq (find_exact maps s)
unfolding find_exact FitsSeq
find_exact-FitsSeq [] s h = omega arith
find_exact-FitsSeq (m ∷ maps) s h =
    if-intro FitsSeq (str_eq s m.pinyin) (λ _. ground arith)
      (λ _. find_exact-FitsSeq maps s (ground arith))

tables_read :
    (all_read wg_special ≡ true)
    × (all_read common_special ≡ true)
    × (all_read hanyu_special ≡ true)
    × (all_read thl_special ≡ true)
    × (all_read mps2_special ≡ true)
unfolding token
tables_read = (refl, refl, refl, refl, refl)

or_else :
    (o p : Option (List ℕ))
    → FitsSeq o
    → FitsSeq p
    → FitsSeq (elim o [ some seq ↦ some seq | none ↦ p ])
or_else none p ho hp = hp
or_else (some seq) p ho hp = ho

special-FitsSeq : (kbtype : ℕ) (s : List ℕ) → FitsSeq (special kbtype s)
unfolding special FitsSeq
special-FitsSeq kbtype s =
    let (wg, common, hanyu, thl, mps2) = tables_read in
    or_else _ _
      (if-intro FitsSeq (kbtype == 9) (λ _. find_exact-FitsSeq hanyu_special s hanyu)
        (λ _.
          if-intro FitsSeq (kbtype == 10) (λ _. find_exact-FitsSeq thl_special s thl)
            (λ _.
              if-intro FitsSeq (kbtype == 11) (λ _. find_exact-FitsSeq mps2_special s mps2)
                (λ _. none_fits))))
      (or_else _ _ (find_exact-FitsSeq common_special s common)
        (find_exact-FitsSeq wg_special s wg))
  where
    none_fits : FitsSeq none
    none_fits = omega arith

fix_empty-short : (i f : List ℕ) → length f ≤ 2 → length (fix_empty i f) ≤ 2
unfolding fix_empty
fix_empty-short i f h = ground arith

fix_round-short : (i f : List ℕ) → length f ≤ 2 → length (fix_round i f) ≤ 2
unfolding fix_round
fix_round-short i f h = ground arith

fix_initial-short : (i f : List ℕ) → length i ≤ 2 → length (fix_initial i f) ≤ 2
unfolding fix_initial
fix_initial-short i f h = ground arith

fix_labial-short : (i f : List ℕ) → length f ≤ 2 → length (fix_labial i f) ≤ 2
unfolding fix_labial
fix_labial-short i f h = ground arith

combine-short : (i f : List ℕ) → length i ≤ 2 → length f ≤ 2 → length (combine i f) ≤ 4
unfolding combine
combine-short i f hi hf =
    let final = fix_round i (fix_empty i f) in
    let hf' = fix_round-short i (fix_empty i f) (fix_empty-short i f hf) in
    rw (length-append (fix_initial i final)) (
      omega (arith, fix_initial-short i final hi, fix_labial-short (fix_initial i final) final hf'))

-- Both strings and their NUL fit in 5 bytes.
unfoldable pub Fits : PinyinResult → Type 0
Fits (converted s t) = (length s < 5) × (length t < 5)
Fits no_initial = 0 < 1
Fits no_final = 0 < 1

ShortEntry : Option Keymap → Type 0
ShortEntry none = 0 < 1
ShortEntry (some m) = length m.bopomofo ≤ 2

find_initial-ShortEntry :
    (maps : List Keymap) (s : List ℕ)
    → AllShort 2 maps
    → ShortEntry (find_initial (maps ++ empty_keymap ∷ []) s)
unfolding find_initial AllShort ShortEntry starts_with
find_initial-ShortEntry [] s h = omega arith
find_initial-ShortEntry (m ∷ maps) s (here, h) =
    if-intro ShortEntry (starts_with s m.pinyin) (λ _. here) (λ _. find_initial-ShortEntry maps s h)

ShortSeq : Option (List ℕ) → Type 0
ShortSeq none = 0 < 1
ShortSeq (some seq) = length seq ≤ 2

find_exact-ShortSeq :
    (maps : List Keymap) (s : List ℕ)
    → AllShort 2 maps
    → ShortSeq (find_exact (maps ++ empty_keymap ∷ []) s)
unfolding find_exact AllShort ShortSeq
find_exact-ShortSeq [] s h = if-intro ShortSeq (str_eq s []) (λ _. omega arith) (λ _. omega arith)
find_exact-ShortSeq (m ∷ maps) s (here, h) =
    if-intro ShortSeq (str_eq s m.pinyin) (λ _. here) (λ _. find_exact-ShortSeq maps s h)

-- With a table whose initials and finals have at most two keys each, every string that
-- `PinyinToBopomofo` writes, on each layout and for each pinyin string, fits with its NUL in the
-- caller's arrays of five bytes.
pub pinyin_to_bopomofo-Fits :
    (table : PinyinTable) (kbtype : ℕ) (s : List ℕ)
    → AllShort 2 (table.initials)
    → AllShort 2 (table.finals)
    → Fits (pinyin_to_bopomofo table kbtype s)
unfolding pinyin_to_bopomofo Fits FitsSeq ShortEntry ShortSeq
pinyin_to_bopomofo-Fits table kbtype s hi hf = outer (special kbtype s) (special-FitsSeq kbtype s)
  where
    inner :
        (initial : List ℕ) (o : Option (List ℕ))
        → length initial ≤ 2
        → ShortSeq o
        → Fits (elim o [
          | none ↦ no_final
          | some final ↦ let both = combine initial final in converted both both
        ])
    inner initial none h hs = omega arith
    inner initial (some final) h hs =
        let short = combine-short initial final h hs in (omega (arith, short), omega (arith, short))

    middle :
        (o : Option Keymap)
        → ShortEntry o
        → Fits (elim o [
          | none ↦ no_initial
          | some m ↦
              elim (find_exact (table.finals ++ empty_keymap ∷ []) (drop (length m.pinyin) s)) [
                | none ↦ no_final
                | some final ↦ let both = combine m.bopomofo final in converted both both
              ]
        ])
    middle none h = omega arith
    middle (some m) h =
        inner m.bopomofo _ h (find_exact-ShortSeq table.finals (drop (length m.pinyin) s) hf)

    outer :
        (o : Option (List ℕ))
        → FitsSeq o
        → Fits (elim o [
          | some seq ↦ converted (token seq).0 (token (token seq).1).0
          | none ↦ elim (find_initial (table.initials ++ empty_keymap ∷ []) s) [
            | none ↦ no_initial
            | some m ↦
                elim (find_exact (table.finals ++ empty_keymap ∷ []) (drop (length m.pinyin) s)) [
                  | none ↦ no_final
                  | some final ↦ let both = combine m.bopomofo final in converted both both
                ]
          ]
        ])
    outer none h = middle _ (find_initial-ShortEntry table.initials s hi)
    outer (some seq) h = ground arith
