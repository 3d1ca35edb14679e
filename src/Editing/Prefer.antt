-- ===== src/Editing/Prefer.antt =====
-- MakePreferInterval of src/chewingutil.c: the intervals of the phrasing, joined at connect points.
pub mod Parts
pub mod Partition
use libchewing.Common.{
  ℕ, zero, suc, ◌+◌, ◌-◌, min, max, Bool, Option, none, some, List, [], ◌∷◌, length, replicate,
  get_elem?, ltb, ◌==◌, ◌!=◌, if◌then◌else◌, ◌>>=◌,
}
use libchewing.Editing.{Interval, ChewingData, store, max_phone_seq_len}

-- `Union` and `SameSet`. A parent 0 ends the walk; `fuel` is the size of `parent`, whose entries are
-- less than their index.
unfoldable pub union : ℕ → ℕ → List ℕ → Option (List ℕ)
union set1 set2 parent =
    if set1 != set2 then store parent (max set1 set2) (min set1 set2) else some parent

unfoldable pub find_root : ℕ → List ℕ → ℕ → Option ℕ
find_root zero parent s = none
find_root (suc fuel) parent s = get_elem? parent s >>= λ p.
    let rest = find_root fuel parent p in if p == 0 then some s else rest

unfoldable pub same_set : List ℕ → ℕ → ℕ → Option Bool
unfolding find_root
same_set parent set1 set2 = do
  root1 ← find_root (max_phone_seq_len + 1) parent set1
  root2 ← find_root (max_phone_seq_len + 1) parent set2
  some (root1 == root2)

-- `belong_set[j] = value`, for `n` places from `j` on.
unfoldable pub mark_interval : ℕ → ℕ → ℕ → List ℕ → Option (List ℕ)
mark_interval zero j value belong = some belong
mark_interval (suc n) j value belong = store belong j value >>= mark_interval n (j + 1) value

-- The intervals from the `i`-th on.
unfoldable pub mark_all : ℕ → List Interval → List ℕ → Option (List ℕ)
unfolding mark_interval
mark_all i [] belong = some belong
mark_all i (v ∷ is) belong =
    mark_interval (v.to - v.from) v.from (i + 1) belong >>= mark_all (i + 1) is

-- The phones of no interval, in the first `n` places, each get a set of their own.
unfoldable pub number_rest : ℕ → ℕ → List ℕ → Option (List ℕ)
number_rest zero set_no belong = some belong
number_rest (suc n) set_no [] = none
number_rest (suc n) set_no (x ∷ belong) =
    number_rest n (if x == 0 then set_no + 1 else set_no) belong >>= λ rest.
    some ((if x == 0 then set_no else x) ∷ rest)

-- The loop over the connect points, for `n` more from `i` on.
unfoldable pub connect : ℕ → ℕ → List ℕ → List ℕ → List ℕ → Option (List ℕ)
unfolding union
connect zero i cnnct belong parent = some parent
connect (suc n) i cnnct belong parent = do
  c ← get_elem? cnnct i
  a ← get_elem? belong (i - 1)
  b ← get_elem? belong i
  parent' ← (if c != 0 then union a b parent else some parent)
  connect n (i + 1) cnnct belong parent'

-- The inner loop: the first of `n` places from `j` on that is of another set than `i`.
unfoldable pub next_break : ℕ → ℕ → ℕ → List ℕ → List ℕ → Option ℕ
unfolding same_set
next_break zero i j belong parent = some j
next_break (suc n) i j belong parent = do
  a ← get_elem? belong i
  b ← get_elem? belong j
  same ← same_set parent a b
  (if same then next_break n i (j + 1) belong parent else some j)

-- The outer loop; every round moves `i` on, so `n_phone_seq` rounds are enough.
unfoldable pub generate : ℕ → ℕ → ℕ → List ℕ → List ℕ → Option (List Interval)
unfolding next_break
generate zero i n belong parent = if ltb i n then none else some []
generate (suc fuel) i n belong parent =
    if ltb i n
    then (next_break (n - (i + 1)) i (i + 1) belong parent >>= λ j.
        generate fuel j n belong parent >>= λ rest. some (record { from = i; to = j } ∷ rest))
    else some []

-- The intervals `preferInterval`, from those of the phrasing.
unfoldable pub make_prefer_interval : ChewingData → List Interval → Option (List Interval)
unfolding mark_all number_rest connect generate
make_prefer_interval d disp = do
  marked ← mark_all 0 disp (replicate (max_phone_seq_len + 1) 0)
  belong ← number_rest d.n_phone_seq (length disp + 1) marked
  parent ←
      connect (d.n_phone_seq - 1) 1 d.user_arr_cnnct belong (replicate (max_phone_seq_len + 1) 0)
  generate d.n_phone_seq 0 d.n_phone_seq belong parent
