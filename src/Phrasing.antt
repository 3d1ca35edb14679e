-- ===== src/Phrasing.antt =====
-- src/tree.c: the intervals of the phones that a phrase can cover, under the breakpoints and the
-- user's selections. The phrases that the user taught, with their frequencies, are the parameter
-- `user_phrases`; UserPhrase has a store that gives them. `none` is a failed assertion or an access
-- out of range.
pub mod Allowed
pub mod Found
pub mod Discard
pub mod Score
pub mod Dp
pub mod Records
pub mod Run
use libchewing.CString.{str_eq, starts_with}
use libchewing.Utf8.{ue_str_seek, ue_str_n_bytes}
use libchewing.Dictionary.{StaticData, Phrase, tree_find_phrase, phrases_under}
use libchewing.Editing.{Interval}
use libchewing.Common.{
  ℕ, zero, suc, ◌+◌, ◌-◌, Bool, true, false, Option, none, some, List, [], ◌∷◌, ◌++◌, length, take,
  drop, get_elem?, ltb, leb, ◌!=◌, ◌&&◌, not, if◌then◌else◌, ◌>>=◌, ◌>>◌, ensure, min, max,
}

abbrev pub max_phrase_len : ℕ
max_phrase_len = 11

-- IS_USER_PHRASE and IS_DICT_PHRASE.
pub data Source : Type 0 where
  is_user_phrase is_dict_phrase : Source

-- `PhraseIntervalType`, with the phrase in place.
pub record PhraseInterval : Type 0 where
  pub from : ℕ
  pub to : ℕ
  pub source : Source
  pub p_phr : Phrase

-- A phrase of the user with its frequency, `wordSeq` and `userfreq`.
pub record UserPhrase : Type 0 where
  pub word_seq : List ℕ
  pub userfreq : ℕ

unfoldable pub is_contain : Interval → Interval → Bool
is_contain in1 in2 = leb in1.from in2.from && leb in2.to in1.to

unfoldable pub is_intersect : Interval → Interval → Bool
is_intersect in1 in2 = ltb (max in1.from in2.from) (min in1.to in2.to)

unfoldable pub phrase_interval_contain : PhraseInterval → PhraseInterval → Bool
phrase_interval_contain in1 in2 = leb in1.from in2.from && leb in2.to in1.to

unfoldable pub phrase_interval_intersect : PhraseInterval → PhraseInterval → Bool
phrase_interval_intersect in1 in2 = ltb (max in1.from in2.from) (min in1.to in2.to)

-- The loop of `CheckBreakpoint`, over `count` places from `i` on.
unfoldable pub breakpoint_loop : ℕ → ℕ → List ℕ → Option Bool
breakpoint_loop zero i brkpt = some true
breakpoint_loop (suc count) i brkpt = do
  mark ← get_elem? brkpt i
  let rest = breakpoint_loop count (i + 1) brkpt
  if mark != 0 then some false else rest

unfoldable pub check_breakpoint : ℕ → ℕ → List ℕ → Option Bool
unfolding breakpoint_loop
check_breakpoint from to brkpt = breakpoint_loop (to - (from + 1)) (from + 1) brkpt

-- The comparison of a phrase at `from` with the string of one selection in it.
unfoldable pub agrees : List ℕ → ℕ → Interval → List ℕ → Option Bool
unfolding ue_str_seek ue_str_n_bytes starts_with
agrees word from c str = do
  tail ← ue_str_seek word (c.from - from)
  n ← ue_str_n_bytes str (c.to - c.from)
  some (starts_with tail (take n str))

-- Pass 1 of `CheckUserChoose`: a selection crosses the interval.
unfoldable pub crosses : Interval → List (Interval × List ℕ) → Bool
unfolding is_intersect is_contain
crosses inte [] = false
crosses inte (s ∷ select) =
    let rest = crosses inte select in
    if is_intersect inte s.0 && not (is_contain inte s.0) then true else rest

-- The loop of pass 2 over the selections.
unfoldable pub user_fits : Interval → List (Interval × List ℕ) → List ℕ → Option Bool
unfolding is_contain agrees
user_fits inte [] word = some true
user_fits inte (s ∷ select) word =
    let rest = user_fits inte select word in
    if is_contain inte s.0
    then (do same ← agrees word inte.from s.0 s.1; if same then rest else some false)
    else rest

-- `ueStrNCpy` of `n` characters into the 45 bytes of an empty `Phrase`.
unfoldable pub copy_phrase : List ℕ → ℕ → Option (List ℕ)
unfolding ue_str_n_bytes
copy_phrase word n = do
  bytes ← ue_str_n_bytes word n
  ensure (leb (bytes + 1) 45)
  some (take bytes word)

abbrev pub beats : ℕ → Option Phrase → Bool
beats freq none = true
beats freq (some p) = ltb p.freq freq

-- Pass 2 of `CheckUserChoose`: the phrase of the highest frequency so far, where `none` stands for
-- the frequency -1.
unfoldable pub user_choice :
    Interval → List (Interval × List ℕ) → Option Phrase → List UserPhrase → Option (Option Phrase)
unfolding user_fits copy_phrase
user_choice inte select best [] = some best
user_choice inte select best (u ∷ us) = do
  fits ← user_fits inte select u.word_seq
  best' ←
      (if fits && beats u.userfreq best
        then (do
          word ← copy_phrase u.word_seq (inte.to - inte.from)
          some (some (record { phrase = word; freq = u.userfreq })))
        else some best)
  user_choice inte select best' us

unfoldable pub check_user_choose :
    List UserPhrase → Interval → List (Interval × List ℕ) → Option (Option Phrase)
unfolding crosses user_choice
check_user_choose users inte select =
    if crosses inte select then some none else user_choice inte select none users

-- How the loop of `CheckChoose` over the selections ends.
pub data Verdict : Type 0 where
  fits differs crossed : Verdict

unfoldable pub dict_fits : Interval → List (Interval × List ℕ) → List ℕ → Option Verdict
unfolding is_intersect is_contain agrees
dict_fits inte [] word = some fits
dict_fits inte (s ∷ select) word =
    let rest = dict_fits inte select word in
    if is_contain inte s.0
    then (do same ← agrees word inte.from s.0 s.1; if same then rest else some differs)
    else (if is_intersect inte s.0 then some crossed else rest)

unfoldable pub check_choose :
    List Phrase → Interval → List (Interval × List ℕ) → Option (Option Phrase)
unfolding dict_fits
check_choose [] inte select = some none
check_choose (p ∷ ps) inte select = do
  verdict ← dict_fits inte select p.phrase
  let rest = check_choose ps inte select
  elim verdict [ fits ↦ some (some p) | crossed ↦ some none | differs ↦ rest ]

-- Which phrase makes the interval: the more frequent one, or the user's where they are the same.
unfoldable pub choose_phrase : Option Phrase → Option Phrase → Option (Phrase × Source)
unfolding str_eq
choose_phrase none none = none
choose_phrase (some u) none = some (u, is_user_phrase)
choose_phrase none (some d) = some (d, is_dict_phrase)
choose_phrase (some u) (some d) =
    if str_eq u.phrase d.phrase
    then some (u, is_user_phrase)
    else (if ltb d.freq u.freq then some (u, is_user_phrase) else some (d, is_dict_phrase))

-- `AddInterval`, for what `choose_phrase` gives.
abbrev pub interval_of : ℕ → ℕ → Option (Phrase × Source) → List PhraseInterval
interval_of begin end none = []
interval_of begin end (some (p, source)) =
    record { from = begin; to = end + 1; source = source; p_phr = p } ∷ []

-- What `FindInterval` reads of `ChewingData`.
pub record Input : Type 0 where
  pub phone_seq : List ℕ
  pub n_phone_seq : ℕ
  pub arr_brkpt : List ℕ
  pub select : List (Interval × List ℕ)

module _ (static : StaticData) (user_phrases : List ℕ → List UserPhrase) where
  unfoldable pub user_phrase_at : List ℕ → Interval → Input → Option (Option Phrase)
  unfolding check_user_choose
  user_phrase_at phones inte d = elim (user_phrases phones) [
    | [] ↦ some none
    | u ∷ us ↦ check_user_choose (u ∷ us) inte d.select
  ]

  unfoldable pub dict_phrase_at : List ℕ → Interval → Input → Option (Option Phrase)
  unfolding tree_find_phrase phrases_under check_choose
  dict_phrase_at phones inte d = do
    parent ← tree_find_phrase static.tree phones
    elim parent [
      | none ↦ some none
      | some node ↦ (do ps ← phrases_under static node; check_choose ps inte d.select)
    ]

  -- The body of the inner loop of `FindInterval` after the test for breakpoints.
  unfoldable pub interval_at : ℕ → ℕ → Input → Option (List PhraseInterval)
  unfolding user_phrase_at dict_phrase_at choose_phrase
  interval_at begin end d = do
    let phones = take (end + 1 - begin) (drop begin d.phone_seq)
    let inte : Interval = record { from = begin; to = end + 1 }
    ensure (ltb end (length d.phone_seq))
    user ← user_phrase_at phones inte d
    dict ← dict_phrase_at phones inte d
    some (interval_of begin end (choose_phrase user dict))

  -- The inner loop, for `count` ends from `end` on.
  unfoldable pub ends_loop : ℕ → ℕ → ℕ → Input → Option (List PhraseInterval)
  unfolding check_breakpoint interval_at
  ends_loop zero begin end d = some []
  ends_loop (suc count) begin end d = do
    open_ ← check_breakpoint begin (end + 1) d.arr_brkpt
    let rest = ends_loop count begin (end + 1) d
    if open_
        then (do here ← interval_at begin end d; later ← rest; some (here ++ later))
        else some []

  -- The outer loop, for `count` starts from `begin` on.
  unfoldable pub begins_loop : ℕ → ℕ → Input → Option (List PhraseInterval)
  unfolding ends_loop
  begins_loop zero begin d = some []
  begins_loop (suc count) begin d = do
    here ← ends_loop (min d.n_phone_seq (begin + max_phrase_len) - begin) begin begin d
    later ← begins_loop count (begin + 1) d
    some (here ++ later)

  unfoldable pub find_interval : Input → Option (List PhraseInterval)
  unfolding begins_loop
  find_interval d = begins_loop d.n_phone_seq 0 d
