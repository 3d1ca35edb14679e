-- ===== src/Phrasing/Dp.antt =====
-- DoDpPhrasing of src/tree.c: for each end, the best row of intervals from the start of the phones
-- to it. A slot of the array is none where the pointer is NULL; that memory runs out is left out.
pub mod Tiles
pub mod Sorting
pub mod Result
use libchewing.Phrasing.{PhraseInterval}
use libchewing.Phrasing.Score.{load_phrase_and_count_score}
use libchewing.Common.{
  ℕ, zero, suc, ◌+◌, ◌-◌, Bool, true, Option, none, some, List, [], ◌∷◌, ◌++◌, length, set,
  replicate, get_elem?, leb, if◌then◌else◌, ◌>>=◌, ◌>>◌, ensure, ℤ, pos, ltb_ℤ,
}

-- `RecordNode`.
pub record RecordNode : Type 0 where
  pub arr_index : List ℕ
  pub score : ℤ
  pub n_match_cnnct : ℕ

-- `qsort` by `SortByIncreaseEnd`. C leaves the order of equal ends open; here they keep theirs.
unfoldable pub insert_by_end : PhraseInterval → List PhraseInterval → List PhraseInterval
insert_by_end v [] = v ∷ []
insert_by_end v (u ∷ us) = if leb v.to u.to then v ∷ u ∷ us else u ∷ insert_by_end v us

unfoldable pub sort_by_end : List PhraseInterval → List PhraseInterval
unfolding insert_by_end
sort_by_end [] = []
sort_by_end (v ∷ vs) = insert_by_end v (sort_by_end vs)

-- `DuplicateRecordAndInsertInterval`, and `CreateSingleIntervalRecord` on no intervals.
unfoldable pub extend_record : List ℕ → List PhraseInterval → ℕ → Option RecordNode
extend_record before ivs id = do
  score ← load_phrase_and_count_score ivs (before ++ id ∷ [])
  some (record { arr_index = before ++ id ∷ []; score = score; n_match_cnnct = 0 })

abbrev pub improves : Option RecordNode → RecordNode → Bool
improves none tmp = true
improves (some old) tmp = ltb_ℤ old.score tmp.score

-- The record that an interval extends: the best up to its start, which must be there.
unfoldable pub extend :
    List PhraseInterval → List (Option RecordNode) → ℕ → PhraseInterval → Option RecordNode
unfolding extend_record
extend ivs highest id v =
    if leb 1 v.from
    then (do
      slot ← get_elem? highest (v.from - 1)
      best ← slot
      extend_record best.arr_index ivs id)
    else extend_record [] ivs id

unfoldable pub dp_step :
    List PhraseInterval → ℕ → List (Option RecordNode) → Option (List (Option RecordNode))
unfolding extend
dp_step ivs id highest = do
  v ← get_elem? ivs id
  ensure (leb 1 v.to)
  tmp ← extend ivs highest id v
  old ← get_elem? highest (v.to - 1)
  some (if improves old tmp then set highest (v.to - 1) (some tmp) else highest)

-- The loop over `count` intervals from `id` on.
unfoldable pub dp_loop :
    List PhraseInterval → ℕ → ℕ → List (Option RecordNode) → Option (List (Option RecordNode))
unfolding dp_step
dp_loop ivs zero id highest = some highest
dp_loop ivs (suc count) id highest = do
  highest' ← dp_step ivs id highest
  dp_loop ivs count (id + 1) highest'

-- `CreateNullIntervalRecord`.
abbrev pub null_record : RecordNode
null_record = record { arr_index = []; score = pos 0; n_match_cnnct = 0 }

-- The choice of `phList` at the end.
unfoldable pub final_record : ℕ → List (Option RecordNode) → Option RecordNode
final_record zero highest = some null_record
final_record (suc n) highest = do
  slot ← get_elem? highest n
  elim slot [ none ↦ some null_record | some best ↦ some best ]

-- The sorted intervals, and the record over them.
unfoldable pub do_dp_phrasing : ℕ → List PhraseInterval → Option (List PhraseInterval × RecordNode)
unfolding sort_by_end dp_loop final_record
do_dp_phrasing n_phone_seq intervals = do
  let ivs = sort_by_end intervals
  highest ← dp_loop ivs (length ivs) 0 (replicate 50 none)
  best ← final_record n_phone_seq highest
  some (ivs, best)
