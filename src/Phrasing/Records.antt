-- ===== src/Phrasing/Records.antt =====
-- The search for all phrasings of src/tree.c: the records are a list, its head the newest. The
-- records over the intervals that are not in another are saved, scored, sorted and cut.
pub mod Weeded
pub mod Sound
use libchewing.Phrasing.{PhraseInterval, phrase_interval_contain, phrase_interval_intersect}
use libchewing.Phrasing.Score.{load_phrase_and_count_score}
use libchewing.Phrasing.Dp.{RecordNode}
use libchewing.Common.{
  ℕ, zero, suc, ◌+◌, ◌-◌, Bool, true, false, Option, none, some, List, [], ◌∷◌, ◌++◌, length, take,
  drop, get_elem?, ltb, leb, ◌==◌, ◌!=◌, ◌&&◌, if◌then◌else◌, ◌>>=◌, ◌>>◌, ensure, pos, ltb_ℤ,
}

-- The inner loop of `IsRecContain`: the intervals of the first record from one that contains `small`
-- on, or none where it ends without one.
unfoldable pub find_big : List PhraseInterval → PhraseInterval → List ℕ → Option (Option (List ℕ))
unfolding phrase_interval_contain
find_big ivs small [] = some none
find_big ivs small (i ∷ big) = do
  v ← get_elem? ivs i
  let rest = find_big ivs small big
  if ltb v.from small.to
      then (if phrase_interval_contain v small then some (some (i ∷ big)) else rest)
      else some none

unfoldable pub is_rec_contain : List PhraseInterval → List ℕ → List ℕ → Option Bool
unfolding find_big
is_rec_contain ivs int_a [] = some true
is_rec_contain ivs int_a (j ∷ int_b) = do
  small ← get_elem? ivs j
  found ← find_big ivs small int_a
  elim found [ none ↦ some false | some big ↦ is_rec_contain ivs big int_b ]

-- The loop of `SaveRecord`: whether the new record is to be saved, and the records left. The loop ends
-- at a saved record that contains the new one, and drops those that the new one contains.
unfoldable pub weed :
    List PhraseInterval → List ℕ → List RecordNode → Option (Bool × List RecordNode)
unfolding is_rec_contain
weed ivs record_ [] = some (true, [])
weed ivs record_ (p ∷ ps) = do
  old_wins ← is_rec_contain ivs p.arr_index record_
  if old_wins then some (false, p ∷ ps) else (do
    new_wins ← is_rec_contain ivs record_ p.arr_index
    rest ← weed ivs record_ ps
    some (rest.0, if new_wins then rest.1 else p ∷ rest.1))

unfoldable pub save_record :
    List PhraseInterval → List ℕ → List RecordNode → Option (List RecordNode)
unfolding weed
save_record ivs record_ ph_list = do
  rest ← weed ivs record_ ph_list
  some (
      if rest.0
      then record { arr_index = record_; score = pos 0; n_match_cnnct = 0 } ∷ rest.1
      else rest.1)

-- The first interval from `first` on that starts at `to` or later; `rest` are the intervals from
-- `first` on.
unfoldable pub find_first : ℕ → ℕ → List PhraseInterval → ℕ
find_first to first [] = first
find_first to first (v ∷ rest) =
    let later = find_first to (first + 1) rest in if ltb v.from to then later else first

-- The loop of `RecursiveSave` over the intervals from `i` on, as long as they meet `v`; `save` is the
-- call for the record with one more interval.
unfoldable pub save_crossing :
    (ℕ → PhraseInterval → List RecordNode → Option (List RecordNode))
    → PhraseInterval
    → ℕ
    → List PhraseInterval
    → List RecordNode
    → Option (List RecordNode)
unfolding phrase_interval_intersect
save_crossing save v i [] ph_list = some ph_list
save_crossing save v i (u ∷ us) ph_list =
    if phrase_interval_intersect v u
    then (do ph_list' ← save i u ph_list; save_crossing save v (i + 1) us ph_list')
    else some ph_list

-- `RecursiveSave`, where `next` is one more than the last index in the record. Each call goes to a
-- later interval, so that one more than the number of intervals is fuel enough; `none` is also that
-- the fuel runs out, or a write behind the 51 places of `record`, whose first place is not an
-- interval. Of the two writes to `record[depth]` the second goes where the first has gone.
unfoldable pub recursive_save :
    ℕ → List PhraseInterval → ℕ → ℕ → List ℕ → List RecordNode → Option (List RecordNode)
unfolding find_first save_record save_crossing
recursive_save zero ivs next to record_ ph_list = none
recursive_save (suc fuel) ivs next to record_ ph_list =
    let first = find_first to next (drop next ivs) in
    let save =
      λ (i : ℕ) (v : PhraseInterval). recursive_save fuel ivs (suc i) v.to (record_ ++ i ∷ []) in
    elim (get_elem? ivs first) [
      | none ↦ save_record ivs record_ ph_list
      | some v ↦ (do
        ensure (ltb (length record_) 50)
        ph_list' ← save first v ph_list
        save_crossing save v (suc first) (drop (suc first) ivs) ph_list')
    ]

unfoldable pub save_list : List PhraseInterval → Option (List RecordNode)
unfolding recursive_save
save_list ivs = recursive_save (suc (length ivs)) ivs 0 0 [] []

-- The inner loop of `CountMatchCnnct`: an interval of the record goes over the place `i`.
unfoldable goes_over : List PhraseInterval → ℕ → List ℕ → Option Bool
goes_over ivs i [] = some false
goes_over ivs i (k ∷ record_) = do
  v ← get_elem? ivs k
  let rest = goes_over ivs i record_
  if ltb v.from i && ltb i v.to then some true else rest

-- The loop over `count` places from `i` on.
unfoldable match_loop : List PhraseInterval → List ℕ → List ℕ → ℕ → ℕ → Option ℕ
unfolding goes_over
match_loop ivs cnnct record_ zero i = some 0
match_loop ivs cnnct record_ (suc count) i = do
  mark ← get_elem? cnnct i
  sum ← match_loop ivs cnnct record_ count (i + 1)
  over ← (if mark != 0 then goes_over ivs i record_ else some false)
  some (if over then suc sum else sum)

unfoldable pub count_match_cnnct :
    List PhraseInterval → List ℕ → ℕ → List RecordNode → Option (List RecordNode)
unfolding match_loop
count_match_cnnct ivs cnnct n [] = some []
count_match_cnnct ivs cnnct n (p ∷ ps) = do
  sum ← match_loop ivs cnnct p.arr_index (n - 1) 1
  rest ← count_match_cnnct ivs cnnct n ps
  some (record p { n_match_cnnct = sum } ∷ rest)

-- `CompRecord(a, b) > 0`: `b` comes first.
unfoldable comes_after : RecordNode → RecordNode → Bool
comes_after a b =
    if a.n_match_cnnct == b.n_match_cnnct
    then ltb_ℤ a.score b.score
    else ltb a.n_match_cnnct b.n_match_cnnct

-- `qsort` by `CompRecord`; equal records keep their order, which C leaves open.
unfoldable insert_by_score : RecordNode → List RecordNode → List RecordNode
unfolding comes_after
insert_by_score p [] = p ∷ []
insert_by_score p (q ∷ qs) = if comes_after p q then q ∷ insert_by_score p qs else p ∷ q ∷ qs

unfoldable sort_by_score : List RecordNode → List RecordNode
unfolding insert_by_score
sort_by_score [] = []
sort_by_score (p ∷ ps) = insert_by_score p (sort_by_score ps)

unfoldable score_all : List PhraseInterval → List RecordNode → Option (List RecordNode)
unfolding load_phrase_and_count_score
score_all ivs [] = some []
score_all ivs (p ∷ ps) = do
  score ← load_phrase_and_count_score ivs p.arr_index
  rest ← score_all ivs ps
  some (record p { score = score } ∷ rest)

unfoldable pub sort_list_by_score : List PhraseInterval → List RecordNode → Option (List RecordNode)
unfolding sort_by_score score_all
sort_list_by_score ivs ph_list = do
  ensure (ltb 0 (length ph_list))
  scored ← score_all ivs ph_list
  some (sort_by_score scored)

-- `NextCut`: the new `nNumCut` and the list with the wanted record in front.
unfoldable pub next_cut : ℕ → List RecordNode → Option (ℕ × List RecordNode)
next_cut n_num_cut ph_list =
    let cut = if leb (length ph_list) n_num_cut then 0 else n_num_cut in
    if cut == 0 then some (0, ph_list) else (do
      want ← get_elem? ph_list cut
      some (cut, want ∷ (take cut ph_list ++ drop (cut + 1) ph_list)))
