-- ===== src/Phrasing/Score.antt =====
-- The rules of src/tree.c that score a list of intervals. Intervals go from left to right, as
-- FindInterval makes them, so a length is never below 0.
use libchewing.Common.{
  ℕ, ◌+◌, ◌-◌, ◌*◌, ◌/◌, Option, some, List, [], ◌∷◌, length, get_elem?, ◌==◌, if◌then◌else◌, ◌>>=◌,
  ℤ, pos, sub_ℕ, min, max,
}
use libchewing.Phrasing.{PhraseInterval}

unfoldable pub rule_largest_sum : List PhraseInterval → List ℕ → Option ℕ
rule_largest_sum ivs [] = some 0
rule_largest_sum ivs (i ∷ record_) = do
  inter ← get_elem? ivs i
  score ← rule_largest_sum ivs record_
  some ((inter.to - inter.from) + score)

unfoldable pub rule_largest_avgwordlen : List PhraseInterval → List ℕ → Option ℕ
unfolding rule_largest_sum
rule_largest_avgwordlen ivs record_ = do
  sum ← rule_largest_sum ivs record_
  some (6 * sum / length record_)

-- The inner loop of `rule_smallest_lenvariance`, for an interval of the length `len`.
unfoldable pub differences : List PhraseInterval → ℕ → List ℕ → Option ℕ
differences ivs len [] = some 0
differences ivs len (j ∷ record_) = do
  inter2 ← get_elem? ivs j
  score ← differences ivs len record_
  let len2 = inter2.to - inter2.from
  some ((max len len2 - min len len2) + score)

-- `rule_smallest_lenvariance` with the sign turned: it is the sum that the rule negates.
unfoldable pub lenvariance : List PhraseInterval → List ℕ → Option ℕ
unfolding differences
lenvariance ivs [] = some 0
lenvariance ivs (i ∷ record_) = do
  inter1 ← get_elem? ivs i
  row ← differences ivs (inter1.to - inter1.from) record_
  score ← lenvariance ivs record_
  some (row + score)

unfoldable pub rule_largest_freqsum : List PhraseInterval → List ℕ → Option ℕ
rule_largest_freqsum ivs [] = some 0
rule_largest_freqsum ivs (i ∷ record_) = do
  inter ← get_elem? ivs i
  score ← rule_largest_freqsum ivs record_
  let freq = inter.p_phr.freq
  some ((if inter.to - inter.from == 1 then freq / 512 else freq) + score)

unfoldable pub load_phrase_and_count_score : List PhraseInterval → List ℕ → Option ℤ
unfolding rule_largest_sum rule_largest_avgwordlen lenvariance rule_largest_freqsum
load_phrase_and_count_score ivs [] = some (pos 0)
load_phrase_and_count_score ivs (i ∷ record_) = do
  sum ← rule_largest_sum ivs (i ∷ record_)
  avg ← rule_largest_avgwordlen ivs (i ∷ record_)
  variance ← lenvariance ivs (i ∷ record_)
  freqsum ← rule_largest_freqsum ivs (i ∷ record_)
  some (sub_ℕ (1000 * sum + 1000 * avg + freqsum) (100 * variance))
