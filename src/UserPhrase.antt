-- ===== src/UserPhrase.antt =====
-- src/userphrase-hash.c: the frequencies of the user's phrases.
pub mod Table
pub mod Record
pub mod Disk
pub mod Update
pub mod Lookup
pub mod Walk
pub mod Frequency
use libchewing.CString.{str_eq}
use libchewing.Dictionary.{StaticData, Phrase, tree_find_phrase, phrases_under}
use libchewing.Common.{
  ℕ, suc, ◌+◌, ◌/◌, Option, none, some, List, [], ◌∷◌, if◌then◌else◌, ◌>>=◌, ℤ, pos, negsuc,
  pos_part, neg_part, sub_ℕ, ltb_ℤ,
}

-- FREQ_INIT_VALUE, SHORT_INCREASE_FREQ, MEDIUM_INCREASE_FREQ, LONG_DECREASE_FREQ and
-- MAX_ALLOW_FREQ.
abbrev pub freq_init_value : ℤ
freq_init_value = pos 1

abbrev pub short_increase_freq : ℤ
short_increase_freq = pos 10

abbrev pub medium_increase_freq : ℤ
medium_increase_freq = pos 5

abbrev pub long_decrease_freq : ℤ
long_decrease_freq = pos 10

abbrev pub max_allow_freq : ℤ
max_allow_freq = pos 99999999

-- `UserPhraseData`, with the phones before the 0 and the string without its NUL.
pub record UserPhraseData : Type 0 where
  pub phone_seq : List ℕ
  pub word_seq : List ℕ
  pub userfreq : ℤ
  pub recent_time : ℤ
  pub origfreq : ℤ
  pub maxfreq : ℤ

infixl 65 ◌+ℤ◌ ◌-ℤ◌
abbrev pub ◌+ℤ◌ : ℤ → ℤ → ℤ
a +ℤ b = sub_ℕ (pos_part a + pos_part b) (neg_part a + neg_part b)

abbrev pub ◌-ℤ◌ : ℤ → ℤ → ℤ
a -ℤ b = sub_ℕ (pos_part a + neg_part b) (neg_part a + pos_part b)

-- C's division rounds towards 0.
abbrev pub quotient : ℤ → ℕ → ℤ
quotient (pos n) k = pos (n / k)
quotient (negsuc n) k = sub_ℕ 0 (suc n / k)

abbrev pub min_ℤ : ℤ → ℤ → ℤ
min_ℤ a b = if ltb_ℤ a b then a else b

abbrev pub max_ℤ : ℤ → ℤ → ℤ
max_ℤ a b = if ltb_ℤ b a then a else b

-- A branch of `UpdateFreq` that raises the frequency, by a part of the distance and a least step.
unfoldable pub raised : ℤ → ℤ → ℤ → ℕ → ℤ → ℤ
raised freq maxfreq origfreq part step =
    let share = quotient (maxfreq -ℤ origfreq) part +ℤ pos 1 in
    let delta = if ltb_ℤ freq maxfreq then max_ℤ share step else min_ℤ share step in
    min_ℤ (freq +ℤ delta) max_allow_freq

unfoldable pub update_freq : ℤ → ℤ → ℤ → ℤ → ℤ
unfolding raised
update_freq freq maxfreq origfreq deltatime =
    if ltb_ℤ deltatime (pos 4000)
    then raised freq maxfreq origfreq 5 short_increase_freq
    else (if ltb_ℤ deltatime (pos 50000)
        then raised freq maxfreq origfreq 10 medium_increase_freq
        else max_ℤ (freq -ℤ max_ℤ (quotient (freq -ℤ origfreq) 5) long_decrease_freq) origfreq)

-- The phrases of the dictionary for the phones.
unfoldable pub dict_phrases : StaticData → List ℕ → Option (List Phrase)
unfolding tree_find_phrase phrases_under
dict_phrases static phones = do
  found ← tree_find_phrase static.tree phones
  elim found [ none ↦ some [] | some parent ↦ phrases_under static parent ]

unfoldable pub original_freq : List Phrase → List ℕ → ℤ
unfolding str_eq
original_freq [] word = freq_init_value
original_freq (p ∷ ps) word =
    let rest = original_freq ps word in if str_eq p.phrase word then pos p.freq else rest

unfoldable pub load_original_freq : StaticData → List ℕ → List ℕ → Option ℤ
unfolding dict_phrases original_freq
load_original_freq static phones word = do
  ps ← dict_phrases static phones
  some (original_freq ps word)

unfoldable pub max_dict_freq : ℤ → List Phrase → ℤ
max_dict_freq highest [] = highest
max_dict_freq highest (p ∷ ps) =
    max_dict_freq (if ltb_ℤ highest (pos p.freq) then pos p.freq else highest) ps

unfoldable pub max_user_freq : ℤ → List UserPhraseData → ℤ
max_user_freq highest [] = highest
max_user_freq highest (u ∷ us) =
    max_user_freq (if ltb_ℤ highest u.userfreq then u.userfreq else highest) us

-- `users` are the user's phrases for the phones.
unfoldable pub load_max_freq : StaticData → List UserPhraseData → List ℕ → Option ℤ
unfolding dict_phrases max_dict_freq max_user_freq
load_max_freq static users phones = do
  ps ← dict_phrases static phones
  some (max_user_freq (max_dict_freq freq_init_value ps) users)
