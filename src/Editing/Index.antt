-- ===== src/Editing/Index.antt =====
-- src/chewingutil.c: from the index of a phone to the index of its character, and the tests on
-- intervals and on entries.
use libchewing.Common.{
  ℕ, zero, suc, ◌+◌, ◌-◌, ◌<◌, ◌≤◌, ◌≡◌, refl, ◌∙◌, ap, Bool, true, false, Option, none, some, List,
  [], ◌∷◌, ◌++◌, length, take, drop, get_elem?, ltb, leb, ◌==◌, ◌&&◌, if◌then◌else◌, ◌>>=◌, ◌>>◌,
  ensure, arith, Bool-cases, inl, inr, le→leb, length-take, length-append, length-drop,
}
use libchewing.Editing.{PreeditBuf, symbol, Interval, ChewingData, is_chinese, phone_seq_cursor}
use libchewing.Editing.Contents.{count_all, count_all-le, phone_seq_cursor-eq}
use libchewing.Editing.WellFormed.{WellFormed}

-- MAX_CHI_SYMBOL_LEN.
abbrev pub max_chi_symbol_len_limit : ℕ
max_chi_symbol_len_limit = 39

-- The loop of `toPreeditBufIndex`, for `n` more entries.
unfoldable pub find_char : ℕ → ℕ → ℕ → List PreeditBuf → Option ℕ
find_char zero word_count target buf = some 0
find_char (suc n) word_count target [] = none
find_char (suc n) word_count target (c ∷ buf) =
    let word_count' = if is_chinese c then word_count + 1 else word_count in
    let rest = find_char n word_count' target buf >>= λ i. some (suc i) in
    if word_count' == target then some 0 else rest

unfoldable pub to_preedit_buf_index : ChewingData → ℕ → Option ℕ
unfolding find_char
to_preedit_buf_index d pos = do
  ensure (leb pos max_chi_symbol_len_limit)
  find_char max_chi_symbol_len_limit 0 (suc pos) d.preedit_buf

abbrev is_symbol_entry : PreeditBuf → Bool
is_symbol_entry c = elim c.category [ symbol ↦ true | _ ↦ false ]

-- The loop of `NoSymbolBetween`, for `n` more entries.
unfoldable pub no_symbol_loop : ℕ → List PreeditBuf → Option Bool
no_symbol_loop zero buf = some true
no_symbol_loop (suc n) [] = none
no_symbol_loop (suc n) (c ∷ buf) =
    let rest = no_symbol_loop n buf in if is_symbol_entry c then some false else rest

unfoldable pub no_symbol_between : ChewingData → ℕ → ℕ → Option Bool
unfolding no_symbol_loop
no_symbol_between d begin end = no_symbol_loop (end - begin) (drop begin d.preedit_buf)

-- `IsPreferIntervalConnted`.
unfoldable pub is_prefer_interval_connted : ℕ → List Interval → Bool
is_prefer_interval_connted cursor [] = false
is_prefer_interval_connted cursor (i ∷ is) =
    let rest = is_prefer_interval_connted cursor is in
    if ltb i.from cursor && ltb cursor i.to then true else rest

-- The loop of `ChewingKillSelectIntervalAcross`; the last interval takes the place of a killed one,
-- and the loop looks at it again. There is a round for each interval.
unfoldable pub kill_across_loop : ℕ → ℕ → List (Interval × List ℕ) → List (Interval × List ℕ)
kill_across_loop zero cursor xs = xs
kill_across_loop (suc n) cursor [] = []
kill_across_loop (suc n) cursor (s ∷ xs) =
    let i = s.0 in
    let across = ltb i.from cursor && ltb cursor i.to in
    let last_first = drop (length xs - 1) xs ++ take (length xs - 1) xs in
    let rest = kill_across_loop n cursor (if across then last_first else xs) in
    if across then rest else s ∷ rest

unfoldable pub chewing_kill_select_interval_across : ℕ → ChewingData → ChewingData
unfolding kill_across_loop
chewing_kill_select_interval_across cursor d = record d {
  select = kill_across_loop (length d.select) cursor d.select;
}

-- No interval that is left has the cursor inside.
unfoldable pub NoneAcross : ℕ → List (Interval × List ℕ) → Type 0
NoneAcross cursor [] = 0 < 1
NoneAcross cursor (s ∷ xs) =
    ((ltb s.0.from cursor && ltb cursor s.0.to) ≡ false) × NoneAcross cursor xs

length-last_first :
    (xs : List (Interval × List ℕ))
    → length (drop (length xs - 1) xs ++ take (length xs - 1) xs) ≡ length xs
length-last_first xs = omega (
  arith,
  length-append (drop (length xs - 1) xs) (take (length xs - 1) xs),
  length-take (length xs - 1) xs,
  length-drop (length xs - 1) xs,
)

kill_across_loop-NoneAcross :
    (n cursor : ℕ) (xs : List (Interval × List ℕ))
    → length xs ≤ n
    → NoneAcross cursor (kill_across_loop n cursor xs)
unfolding kill_across_loop NoneAcross
kill_across_loop-NoneAcross zero cursor [] le = omega arith
kill_across_loop-NoneAcross zero cursor (s ∷ xs) le = absurd (omega arith)
kill_across_loop-NoneAcross (suc n) cursor [] le = omega arith
kill_across_loop-NoneAcross (suc n) cursor (s ∷ xs) le =
    elim (Bool-cases (ltb s.0.from cursor && ltb cursor s.0.to)) [
      | inl e ↦ rw e (kill_across_loop-NoneAcross n cursor _ (omega (arith, length-last_first xs)))
      | inr e ↦ rw e (e, kill_across_loop-NoneAcross n cursor xs (omega arith))
    ]

-- After `ChewingKillSelectIntervalAcross` no selected interval has the cursor inside: its loop, which
-- moves the last interval into each gap, has looked at every one.
pub kill_select_interval_across-NoneAcross :
    (cursor : ℕ) (d : ChewingData)
    → NoneAcross cursor ((chewing_kill_select_interval_across cursor d).select)
unfolding chewing_kill_select_interval_across
kill_select_interval_across-NoneAcross cursor d =
    kill_across_loop-NoneAcross (length d.select) cursor d.select (omega arith)

-- The index of the character that has a phone.
pub record CharAt (buf : List PreeditBuf) (n before pos : ℕ) (out : Option ℕ) : Type 0 where
  pub index : ℕ
  pub entry : PreeditBuf
  pub returned : out ≡ some index
  pub inside : index < n
  pub found : get_elem? buf index ≡ some entry
  pub chinese_entry : is_chinese entry ≡ true
  pub count : before + count_all (take index buf) ≡ pos

-- The answer for the entries after one that is not the one wanted.
CharAt-of_rest :
    (c : PreeditBuf) (buf : List PreeditBuf) (n before before' pos : ℕ) (out : Option ℕ)
    → before' ≡ (if is_chinese c then before + 1 else before)
    → CharAt buf n before' pos out
    → CharAt (c ∷ buf) (suc n) before pos (out >>= λ i. some (suc i))
unfolding count_all
CharAt-of_rest c buf n before before' pos out e r =
    rw (r.returned, ◌>>=◌)
      record {
        index = suc r.index;
        entry = r.entry;
        returned = refl;
        inside = omega (arith, r.inside);
        found = r.found;
        chinese_entry = r.chinese_entry;
        count = ground (arith, r.count);
      }

find_char-CharAt :
    (n word_count pos : ℕ) (buf : List PreeditBuf)
    → n ≤ length buf
    → word_count ≤ pos
    → pos < word_count + count_all (take n buf)
    → CharAt buf n word_count pos (find_char n word_count (suc pos) buf)
unfolding find_char count_all
find_char-CharAt zero word_count pos buf le small more = absurd (omega arith)
find_char-CharAt (suc n) word_count pos [] le small more = absurd (omega arith)
find_char-CharAt (suc n) word_count pos (c ∷ buf) le small more = elim (Bool-cases (is_chinese c)) [
  | inl chi ↦ elim (Bool-cases (word_count + 1 == suc pos)) [
    | inl here ↦
        rw (chi, here)
          record {
            index = 0;
            entry = c;
            returned = refl;
            inside = omega arith;
            found = refl;
            chinese_entry = chi;
            count = ground arith;
          }
    | inr later ↦
        rw (chi, later)
          (CharAt-of_rest c buf n word_count (word_count + 1) pos _ (rw chi refl) (
            find_char-CharAt n (word_count + 1) pos buf (omega arith) (ground arith)
              (ground arith)))
  ]
  | inr other ↦
      let later : (word_count == suc pos) ≡ false = ground arith in
      rw (other, later)
        (CharAt-of_rest c buf n word_count word_count pos _ (rw other refl)
          (find_char-CharAt n word_count pos buf (omega arith) small (ground arith)))
]

-- An index of a character, and the way back from it.
pub record Translated (d : ChewingData) (pos : ℕ) (out : Option ℕ) : Type 0 where
  pub index : ℕ
  pub entry : PreeditBuf
  pub returned : out ≡ some index
  pub found : get_elem? (d.preedit_buf) index ≡ some entry
  pub chinese_entry : is_chinese entry ≡ true
  pub back : phone_seq_cursor (record d { chi_symbol_cursor = index }) ≡ some pos

-- In a well-formed state, for each phone of the first 39 entries `toPreeditBufIndex` returns the index
-- of a character, and `PhoneSeqCursor` with the cursor at that index is the index of the phone.
pub to_preedit_buf_index-Translated :
    (d : ChewingData) (pos : ℕ)
    → WellFormed d
    → pos < count_all (take 39 d.preedit_buf)
    → Translated d pos (to_preedit_buf_index d pos)
unfolding to_preedit_buf_index
to_preedit_buf_index-Translated d pos w more =
    let few : pos ≤ 39 =
      omega (arith, count_all-le (take 39 d.preedit_buf), length-take 39 d.preedit_buf) in
    let r =
      find_char-CharAt 39 0 pos d.preedit_buf (omega (arith, w.preedit_size)) (omega arith)
        (omega arith) in
    let same : count_all (take r.index d.preedit_buf) ≡ pos = omega (arith, r.count) in
    rw (le→leb pos 39 few, ◌>>=◌)
      record {
        index = r.index;
        entry = r.entry;
        returned = r.returned;
        found = r.found;
        chinese_entry = r.chinese_entry;
        back =
            phone_seq_cursor-eq (record d { chi_symbol_cursor = r.index })
              (omega (arith, r.inside, w.preedit_size))
            ∙ ap some same;
      }
