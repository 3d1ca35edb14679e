-- ===== src/Editing/Prefer/Parts.antt =====
-- The arrays of MakePreferInterval of src/chewingutil.c, and what its loops make of them.
use libchewing.Common.{
  ℕ, zero, suc, ◌+◌, ◌-◌, ◌<◌, ◌≤◌, ◌≡◌, ◌⊎◌, inl, inr, refl, ◌∙◌, ap, Bool, Option, some, List, [],
  ◌∷◌, length, get_elem?, set, ◌==◌, if◌then◌else◌, ◌>>=◌, arith, Bool-cases, length-set,
}
use libchewing.Editing.{Interval}
use libchewing.Editing.Arrays.{store-eq}
use libchewing.Editing.Prefer.{find_root, same_set, mark_interval, mark_all, number_rest}

-- The entries of `xs`, which starts at the index `at`, are less than `bound`.
unfoldable pub AllBelow : ℕ → List ℕ → Type 0
AllBelow bound [] = 0 < 1
AllBelow bound (x ∷ xs) = (x < bound) × AllBelow bound xs

-- A parent is 0 or less than its index.
unfoldable pub Descends : ℕ → List ℕ → Type 0
Descends at [] = 0 < 1
Descends at (x ∷ xs) = ((x ≡ 0) ⊎ (x < at)) × Descends (suc at) xs

pub get-AllBelow :
    (bound i : ℕ) (xs : List ℕ)
    → AllBelow bound xs
    → i < length xs
    → (x : ℕ) × (get_elem? xs i ≡ some x) × (x < bound)
unfolding AllBelow
get-AllBelow bound i [] h lt = absurd (omega arith)
get-AllBelow bound zero (x ∷ xs) (hx, h) lt = (x, refl, hx)
get-AllBelow bound (suc i) (x ∷ xs) (hx, h) lt = get-AllBelow bound i xs h (omega arith)

get-Descends :
    (at i : ℕ) (xs : List ℕ)
    → Descends at xs
    → i < length xs
    → (x : ℕ) × (get_elem? xs i ≡ some x) × ((x ≡ 0) ⊎ (x < at + i))
unfolding Descends
get-Descends at i [] h lt = absurd (omega arith)
get-Descends at zero (x ∷ xs) (hx, h) lt = (x, refl, ground (arith, hx))
get-Descends at (suc i) (x ∷ xs) (hx, h) lt =
    let (y, found, small) = get-Descends (suc at) i xs h (omega arith) in
    (y, found, ground (arith, small))

pub set-Descends :
    (at i v : ℕ) (xs : List ℕ) → Descends at xs → v < at + i → Descends at (set xs i v)
unfolding Descends
set-Descends at i v [] h lt = h
set-Descends at zero v (x ∷ xs) (hx, h) lt = (inr (omega arith), h)
set-Descends at (suc i) v (x ∷ xs) (hx, h) lt = (hx, set-Descends (suc at) i v xs h (omega arith))

-- The walk to a root ends.
find_root-some :
    (fuel s : ℕ) (parent : List ℕ)
    → Descends 0 parent
    → s < length parent
    → s < fuel
    → (r : ℕ) × (find_root fuel parent s ≡ some r)
unfolding find_root
find_root-some zero s parent h lt enough = absurd (omega arith)
find_root-some (suc fuel) s parent h lt enough =
    let (p, found, small) = get-Descends 0 s parent h lt in
    elim (Bool-cases (p == 0)) [
      | inl e ↦ rw (found, ◌>>=◌, e) (s, refl)
      | inr e ↦
          let less : p < s = ground (arith, small) in
          rw (found, ◌>>=◌, e) (find_root-some fuel p parent h (omega arith) (omega arith))
    ]

pub record Arrays (belong parent : List ℕ) : Type 0 where
  pub belong_size : length belong ≡ 51
  pub belong_lt : AllBelow 51 belong
  pub parent_size : length parent ≡ 51
  pub descends : Descends 0 parent

pub same_set-some :
    (parent : List ℕ) (a b : ℕ)
    → Descends 0 parent
    → length parent ≡ 51
    → a < 51
    → b < 51
    → (s : Bool) × (same_set parent a b ≡ some s)
unfolding same_set
same_set-some parent a b h size la lb =
    let (r1, e1) = find_root-some 51 a parent h (omega arith) la in
    let (r2, e2) = find_root-some 51 b parent h (omega arith) lb in
    rw (e1, ◌>>=◌, e2, ◌>>=◌) (r1 == r2, refl)

set-AllBelow :
    (bound i v : ℕ) (xs : List ℕ) → AllBelow bound xs → v < bound → AllBelow bound (set xs i v)
unfolding AllBelow
set-AllBelow bound i v [] h lt = h
set-AllBelow bound zero v (x ∷ xs) (hx, h) lt = (lt, h)
set-AllBelow bound (suc i) v (x ∷ xs) (hx, h) lt = (hx, set-AllBelow bound i v xs h lt)

-- An array of set numbers of the size of `belong_set`.
pub record Sets (r : Option (List ℕ)) : Type 0 where
  pub sets : List ℕ
  pub returned : r ≡ some sets
  pub size : length sets ≡ 51
  pub lt : AllBelow 51 sets

mark_interval-Sets :
    (n j value : ℕ) (belong : List ℕ)
    → length belong ≡ 51
    → AllBelow 51 belong
    → j + n ≤ 51
    → value < 51
    → Sets (mark_interval n j value belong)
unfolding mark_interval
mark_interval-Sets zero j value belong size h room small = record {
  sets = belong;
  returned = refl;
  size = size;
  lt = h;
}
mark_interval-Sets (suc n) j value belong size h room small =
    rw (store-eq belong j value (omega (arith, size)), ◌>>=◌)
      (mark_interval-Sets n (j + 1) value (set belong j value) (length-set belong j value ∙ size)
        (set-AllBelow 51 j value belong h small) (omega arith) small)

-- Intervals inside the arrays.
unfoldable pub AllWithin : List Interval → Type 0
AllWithin [] = 0 < 1
AllWithin (i ∷ is) = (i.from ≤ i.to) × (i.to ≤ 51) × AllWithin is

pub mark_all-Sets :
    (i : ℕ) (is : List Interval) (belong : List ℕ)
    → length belong ≡ 51
    → AllBelow 51 belong
    → AllWithin is
    → i + length is ≤ 50
    → Sets (mark_all i is belong)
unfolding mark_all AllWithin
mark_all-Sets i [] belong size h within few = record {
  sets = belong;
  returned = refl;
  size = size;
  lt = h;
}
mark_all-Sets i (v ∷ is) belong size h (ordered, inside, within) few =
    let m =
      mark_interval-Sets (v.to - v.from) v.from (i + 1) belong size h (omega arith) (omega arith) in
    rw (m.returned, ◌>>=◌) (mark_all-Sets (i + 1) is m.sets m.size m.lt within (omega arith))

-- How many of the first `n` phones are in no interval.
unfoldable pub uncovered : ℕ → List ℕ → ℕ
uncovered zero belong = 0
uncovered (suc n) [] = 0
uncovered (suc n) (x ∷ belong) = if x == 0 then suc (uncovered n belong) else uncovered n belong

number_rest-Numbered :
    (n set_no : ℕ) (belong : List ℕ)
    → n ≤ length belong
    → AllBelow 51 belong
    → set_no + uncovered n belong ≤ 51
    → (sets : List ℕ) × (number_rest n set_no belong ≡ some sets)
      × (length sets ≡ length belong)
      × AllBelow 51 sets
unfolding number_rest uncovered AllBelow
number_rest-Numbered zero set_no belong le h few = (belong, refl, refl, h)
number_rest-Numbered (suc n) set_no [] le h few = absurd (omega arith)
number_rest-Numbered (suc n) set_no (x ∷ belong) le (hx, h) few = elim (Bool-cases (x == 0)) [
  | inl e ↦
      let (sets, run, size, lt) =
        number_rest-Numbered n (set_no + 1) belong (omega arith) h (ground arith) in
      rw (e, run, ◌>>=◌) (set_no ∷ sets, refl, ap suc size, (ground arith, lt))
  | inr e ↦
      let (sets, run, size, lt) =
        number_rest-Numbered n set_no belong (omega arith) h (ground arith) in
      rw (e, run, ◌>>=◌) (x ∷ sets, refl, ap suc size, (hx, lt))
]

pub number_rest-Sets :
    (n set_no : ℕ) (belong : List ℕ)
    → length belong ≡ 51
    → n ≤ 51
    → AllBelow 51 belong
    → set_no + uncovered n belong ≤ 51
    → Sets (number_rest n set_no belong)
number_rest-Sets n set_no belong size le h few =
    let (sets, run, same, lt) = number_rest-Numbered n set_no belong (omega (arith, size)) h few in
    record { sets = sets; returned = run; size = same ∙ size; lt = lt }
