-- ===== src/Phrasing/Discard.antt =====
-- SetInfo, Discard1 and Discard2 of src/tree.c: the places that intervals lead to, and the intervals
-- that are dropped. An interval stands with its flag of `failflag`. Two places are linked in `graph`
-- when an interval goes from one to the other, and the matrix is read as this test.
pub mod Kept
pub mod Preserved
pub mod Leftmost
pub mod Both
use libchewing.Phrasing.{PhraseInterval, phrase_interval_contain}
use libchewing.Common.{
  ℕ, zero, suc, ◌+◌, Bool, true, false, Option, some, List, [], ◌∷◌, length, set, get_elem?, ltb,
  leb, ◌==◌, ◌!=◌, ◌&&◌, ◌||◌, if◌then◌else◌, ◌>>=◌, ◌>>◌, ensure,
}

-- `graph[a][b]`.
unfoldable pub linked : List PhraseInterval → ℕ → ℕ → Bool
linked [] a b = false
linked (v ∷ vs) a b = (v.from == a && v.to == b) || (v.from == b && v.to == a) || linked vs a b

-- The loop that makes `leftmost[i]` the place itself, for `count` places from `i` on.
unfoldable pub places : ℕ → ℕ → List ℕ
places zero i = []
places (suc count) i = i ∷ places count (i + 1)

-- The body of the inner loop.
unfoldable pub relax : List PhraseInterval → ℕ → ℕ → List ℕ → Option (List ℕ)
unfolding linked
relax vs a i leftmost = do
  left_i ← get_elem? leftmost i
  left_a ← get_elem? leftmost a
  some (if linked vs a i && ltb left_i left_a then set leftmost a left_i else leftmost)

unfoldable pub relax_loop : List PhraseInterval → ℕ → ℕ → ℕ → List ℕ → Option (List ℕ)
unfolding relax
relax_loop vs a zero i leftmost = some leftmost
relax_loop vs a (suc count) i leftmost = do
  leftmost' ← relax vs a i leftmost
  relax_loop vs a count (i + 1) leftmost'

unfoldable pub leftmost_loop : List PhraseInterval → ℕ → ℕ → ℕ → List ℕ → Option (List ℕ)
unfolding relax_loop
leftmost_loop vs len zero a leftmost = some leftmost
leftmost_loop vs len (suc count) a leftmost = do
  leftmost' ← relax_loop vs a (suc len) 0 leftmost
  leftmost_loop vs len count (a + 1) leftmost'

-- The intervals are between places of `graph[51][51]`.
unfoldable pub ends_fit : List PhraseInterval → Bool
ends_fit [] = true
ends_fit (v ∷ vs) = leb v.from 50 && (leb v.to 50 && ends_fit vs)

-- `SetInfo`, with `leftmost[51]` as its result.
unfoldable pub set_info : ℕ → List PhraseInterval → Option (List ℕ)
unfolding ends_fit places leftmost_loop
set_info len vs = do
  ensure (leb len 50 && ends_fit vs)
  leftmost_loop vs len (suc len) 0 (places (suc len) 0)

-- The loop over `b`, from `b` on: every other interval is inside, in front or in back.
unfoldable pub stands_alone : ℕ → PhraseInterval → ℕ → List (PhraseInterval × Bool) → Bool
unfolding phrase_interval_contain
stands_alone a v b [] = true
stands_alone a v b ((u, failed) ∷ rest) =
    (a == b || failed || phrase_interval_contain v u || leb u.to v.from || leb v.to u.from)
    && stands_alone a v (b + 1) rest

-- The loop that flags the intervals inside.
unfoldable pub flag_inside :
    ℕ → PhraseInterval → ℕ → List (PhraseInterval × Bool) → List (PhraseInterval × Bool)
unfolding phrase_interval_contain
flag_inside a v i [] = []
flag_inside a v i ((u, failed) ∷ rest) =
    (u, failed || (i != a && phrase_interval_contain v u)) ∷ flag_inside a v (i + 1) rest

unfoldable pub discard1_round :
    ℕ → PhraseInterval × Bool → List (PhraseInterval × Bool) → List (PhraseInterval × Bool)
unfolding stands_alone flag_inside
discard1_round a (v, failed) items =
    if failed then items else (if stands_alone a v 0 items then flag_inside a v 0 items else items)

unfoldable pub discard1_loop :
    ℕ → ℕ → List (PhraseInterval × Bool) → Option (List (PhraseInterval × Bool))
unfolding discard1_round
discard1_loop zero a items = some items
discard1_loop (suc count) a items = do
  item ← get_elem? items a
  discard1_loop count (a + 1) (discard1_round a item items)

abbrev pub unflagged : List PhraseInterval → List (PhraseInterval × Bool)
unflagged [] = []
unflagged (v ∷ vs) = (v, false) ∷ unflagged vs

-- The last loop of both functions.
unfoldable pub kept : List (PhraseInterval × Bool) → List PhraseInterval
kept [] = []
kept ((v, failed) ∷ items) = if failed then kept items else v ∷ kept items

unfoldable pub discard1 : List PhraseInterval → Option (List PhraseInterval)
unfolding discard1_loop kept
discard1 vs = do items ← discard1_loop (length vs) 0 (unflagged vs); some (kept items)

-- The test of Discard2 for the interval `i`: `overwrite`, which the other intervals mark, has a mark
-- in it. That is a common place of it and another interval.
unfoldable pub overwritten : ℕ → PhraseInterval → ℕ → List PhraseInterval → Bool
overwritten i v j [] = false
overwritten i v j (u ∷ us) =
    (j != i && (ltb u.from v.to && (ltb v.from u.to && (ltb u.from u.to && ltb v.from v.to))))
    || overwritten i v (j + 1) us

unfoldable pub discard2_loop :
    List ℕ → List PhraseInterval → ℕ → List PhraseInterval → Option (List (PhraseInterval × Bool))
unfolding overwritten
discard2_loop leftmost all i [] = some []
discard2_loop leftmost all i (v ∷ vs) = do
  left ← get_elem? leftmost v.from
  rest ← discard2_loop leftmost all (i + 1) vs
  some ((v, left != 0 && overwritten i v 0 all) ∷ rest)

unfoldable pub discard2 : List ℕ → List PhraseInterval → Option (List PhraseInterval)
unfolding discard2_loop kept
discard2 leftmost vs = do items ← discard2_loop leftmost vs 0 vs; some (kept items)
