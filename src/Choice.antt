-- ===== src/Choice.antt =====
-- src/choice.c: the selected intervals, the phrases to choose from and the candidates. `none` is a
-- failed assertion or an access out of range.
pub mod Disjoint
pub mod Selected
pub mod Avail
pub mod Candidates
pub mod Session
pub mod Collected
pub mod Choices
use libchewing.Utf8.{ue_str_n_bytes}
use libchewing.Editing.{Interval, ChewingData, max_phone_seq_len}
use libchewing.Phrasing.{is_intersect}
use libchewing.Common.{
  ℕ, zero, suc, ◌+◌, ◌-◌, Option, none, some, List, [], ◌∷◌, ◌++◌, length, take, drop, ltb, leb,
  ◌==◌, if◌then◌else◌, ◌>>=◌, ◌>>◌, ensure,
}

-- An entry of `avail`; the id is none where it is NULL in C, for a phrase of the user.
pub record AvailEntry : Type 0 where
  pub len : ℕ
  pub id : Option ℕ

-- The first `nAvail` entries.
pub record AvailInfo : Type 0 where
  pub avail : List AvailEntry
  pub current_avail : ℕ

-- WORD_CHOICE and so on.
pub data ChoiceKind : Type 0 where
  word_choice symbol_category_choice symbol_choice_insert symbol_choice_update : ChoiceKind

-- `total_choice_str` has the first `nTotalChoice` strings.
pub record ChoiceInfo : Type 0 where
  pub n_page : ℕ
  pub page_no : ℕ
  pub n_choice_per_page : ℕ
  pub total_choice_str : List (List ℕ)
  pub old_chi_symbol_cursor : ℕ
  pub is_symbol : ChoiceKind

-- The loop of `ChangeSelectIntervalAndBreakpoint`. `RemoveSelectElement` moves the last interval into
-- the place of the current one, and the loop looks at it again. There is a round for each interval.
unfoldable pub kill_intersect_loop :
    ℕ → Interval → List (Interval × List ℕ) → List (Interval × List ℕ)
unfolding is_intersect
kill_intersect_loop zero inte xs = xs
kill_intersect_loop (suc n) inte [] = []
kill_intersect_loop (suc n) inte (s ∷ xs) =
    let gone = is_intersect inte s.0 in
    let last_first = drop (length xs - 1) xs ++ take (length xs - 1) xs in
    let rest = kill_intersect_loop n inte (if gone then last_first else xs) in
    if gone then rest else s ∷ rest

-- `memset(&xs[at], 0, n)`.
unfoldable pub zeros_at : ℕ → ℕ → List ℕ → List ℕ
zeros_at zero zero xs = xs
zeros_at zero (suc n) [] = []
zeros_at zero (suc n) (x ∷ xs) = 0 ∷ zeros_at zero n xs
zeros_at (suc at) n [] = []
zeros_at (suc at) n (x ∷ xs) = x ∷ zeros_at at n xs

unfoldable pub clear : List ℕ → ℕ → ℕ → Option (List ℕ)
unfolding zeros_at
clear xs at n = if leb (at + n) (length xs) then some (zeros_at at n xs) else none

-- The part of `ChangeSelectIntervalAndBreakpoint` for an interval that is not empty; its string has
-- the 201 bytes of a place of `selectStr`.
unfoldable pub add_select : Interval → List ℕ → ChewingData → Option ChewingData
unfolding ue_str_n_bytes clear
add_select inte str d = do
  let user_alloc = inte.to - inte.from
  size ← ue_str_n_bytes str user_alloc
  ensure (ltb size 201)
  brkpt ← clear d.user_arr_brkpt (inte.from + 1) (user_alloc - 1)
  cnnct ← clear d.user_arr_cnnct (inte.from + 1) (user_alloc - 1)
  some (record d {
    select = d.select ++ (inte, take size str) ∷ [];
    user_arr_brkpt = brkpt;
    user_arr_cnnct = cnnct;
  })

-- The callers give an end that is not before the start.
unfoldable pub change_select_interval_and_breakpoint :
    ℕ → ℕ → List ℕ → ChewingData → Option ChewingData
unfolding kill_intersect_loop add_select
change_select_interval_and_breakpoint from to str d = do
  let inte : Interval = record { from = from; to = to }
  let d' = record d { select = kill_intersect_loop (length d.select) inte d.select }
  ensure (ltb (length d'.select) max_phone_seq_len)
  if to - from == 0 then some d' else add_select inte str d'
