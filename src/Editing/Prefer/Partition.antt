-- ===== src/Editing/Prefer/Partition.antt =====
-- The intervals of MakePreferInterval of src/chewingutil.c against a partition of the phones.
use libchewing.Common.{
  ℕ, zero, suc, ◌+◌, ◌-◌, ◌<◌, ◌≤◌, ◌≡◌, refl, ◌∙◌, sym, ap, subst, min, max, false, some, List, [],
  ◌∷◌, length, replicate, get_elem?, set, ltb, ◌!=◌, ◌>>=◌, arith, Bool-cases, length-set, inl, inr,
}
use libchewing.Editing.{Interval, ChewingData}
use libchewing.Editing.Arrays.{store-eq}
use libchewing.Editing.WellFormed.{WellFormed, phones-le}
use libchewing.Editing.Prefer.{union, mark_all, connect, next_break, generate, make_prefer_interval}
use libchewing.Editing.Prefer.Parts.{
  AllBelow, Descends, get-AllBelow, set-Descends, Arrays, same_set-some, AllWithin, mark_all-Sets,
  uncovered, number_rest-Sets,
}

-- The intervals are not empty, and follow one on the other from `i` to `n`.
pub data Covers (n : ℕ) : ℕ → List Interval → Type 0 where
  done : Covers n n []
  next :
      {i j : ℕ} {is : List Interval}
      → i < j
      → Covers n j is
      → Covers n i (record { from = i; to = j } ∷ is)

get-some :
    (i : ℕ) (xs : List ℕ) → i < length xs → (x : ℕ) × (get_elem? xs i ≡ some x) × (i < length xs)
get-some i [] lt = absurd (omega arith)
get-some zero (x ∷ xs) lt = (x, refl, lt)
get-some (suc i) (x ∷ xs) lt = let (y, found, _) = get-some i xs (omega arith) in (y, found, lt)

Covers-end : {i n : ℕ} → i ≡ n → Covers n i []
Covers-end {n = n} e = subst (λ m. Covers n m []) (sym e) done

union-Descends :
    (a b : ℕ) (parent : List ℕ)
    → length parent ≡ 51
    → Descends 0 parent
    → a < 51
    → b < 51
    → (p : List ℕ) × (union a b parent ≡ some p) × (length p ≡ 51) × Descends 0 p
unfolding union
union-Descends a b parent size h la lb = elim (Bool-cases (a != b)) [
  | inl e ↦
      let apart : min a b < max a b = ground arith in
      rw (e, store-eq parent (max a b) (min a b) (omega (arith, size)))
        (
          set parent (max a b) (min a b),
          refl,
          length-set parent (max a b) (min a b) ∙ size,
          set-Descends 0 (max a b) (min a b) parent h (omega arith),
        )
  | inr e ↦ rw e (parent, refl, size, h)
]

connect-Descends :
    (n i : ℕ) (cnnct belong parent : List ℕ)
    → length cnnct ≡ 51
    → length belong ≡ 51
    → AllBelow 51 belong
    → length parent ≡ 51
    → Descends 0 parent
    → i + n ≤ 51
    → (p : List ℕ) × (connect n i cnnct belong parent ≡ some p) × (length p ≡ 51) × Descends 0 p
unfolding connect
connect-Descends zero i cnnct belong parent sc sb hb sp hp room = (parent, refl, sp, hp)
connect-Descends (suc n) i cnnct belong parent sc sb hb sp hp room =
    let (c, at_c, lc) = get-some i cnnct (omega (arith, sc)) in
    let (a, at_a, la) = get-AllBelow 51 (i - 1) belong hb (omega (arith, sb)) in
    let (b, at_b, lb) = get-AllBelow 51 i belong hb (omega (arith, sb)) in
    let (p, run, size, h) = union-Descends a b parent sp hp la lb in
    elim (Bool-cases (c != 0)) [
      | inl e ↦
          rw (at_c, ◌>>=◌, at_a, ◌>>=◌, at_b, ◌>>=◌, e, run, ◌>>=◌)
            (connect-Descends n (i + 1) cnnct belong p sc sb hb size h (omega arith))
      | inr e ↦
          rw (at_c, ◌>>=◌, at_a, ◌>>=◌, at_b, ◌>>=◌, e, ◌>>=◌)
            (connect-Descends n (i + 1) cnnct belong parent sc sb hb sp hp (omega arith))
    ]

module _ (belong parent : List ℕ) (arrays : Arrays belong parent) where
  next_break-some :
      (n i j : ℕ)
      → i < 51
      → j + n ≤ 51
      → (k : ℕ) × (next_break n i j belong parent ≡ some k) × (j ≤ k) × (k ≤ j + n)
  unfolding next_break
  next_break-some zero i j hi room = (j, refl, omega arith, omega arith)
  next_break-some (suc n) i j hi room =
      let (a, at_i, la) =
        get-AllBelow 51 i belong arrays.belong_lt (omega (arith, arrays.belong_size)) in
      let (b, at_j, lb) =
        get-AllBelow 51 j belong arrays.belong_lt (omega (arith, arrays.belong_size)) in
      let (s, run) = same_set-some parent a b arrays.descends arrays.parent_size la lb in
      elim (Bool-cases s) [
        | inl e ↦
            let (k, rest, lo, hi') = next_break-some n i (j + 1) hi (omega arith) in
            rw (at_i, ◌>>=◌, at_j, ◌>>=◌, run, ◌>>=◌, e) (k, rest, omega arith, omega arith)
        | inr e ↦ rw (at_i, ◌>>=◌, at_j, ◌>>=◌, run, ◌>>=◌, e) (j, refl, omega arith, omega arith)
      ]

  generate-Covers :
      (fuel i n : ℕ)
      → n ≤ 50
      → i ≤ n
      → n - i ≤ fuel
      → (is : List Interval) × (generate fuel i n belong parent ≡ some is) × Covers n i is
  unfolding generate
  generate-Covers zero i n small le enough =
      let stop : ltb i n ≡ false = ground arith in rw stop ([], refl, Covers-end (omega arith))
  generate-Covers (suc fuel) i n small le enough = elim (Bool-cases (ltb i n)) [
    | inr e ↦ rw e ([], refl, Covers-end (ground arith))
    | inl e ↦
        let less : i < n = ground arith in
        let (j, run, lo, hi) =
          next_break-some (n - (i + 1)) i (i + 1) (omega arith) (omega arith) in
        let (is, rest, covers) = generate-Covers fuel j n small (omega arith) (omega arith) in
        rw (e, run, ◌>>=◌, rest, ◌>>=◌)
          (record { from = i; to = j } ∷ is, refl, next (omega arith) covers)
  ]

zeros-AllBelow : (n : ℕ) → AllBelow 51 (replicate n 0)
unfolding AllBelow
zeros-AllBelow zero = omega arith
zeros-AllBelow (suc n) = (omega arith, zeros-AllBelow n)

zeros-Descends : (at n : ℕ) → Descends at (replicate n 0)
unfolding Descends
zeros-Descends at zero = omega arith
zeros-Descends at (suc n) = (inl refl, zeros-Descends (suc at) n)

-- In a well-formed state of at most 50 phones, for intervals of the phrasing that lie in the arrays and
-- whose number with the number of phones outside of them is at most 50: `MakePreferInterval` has no
-- fault and ends, and its intervals are not empty, follow one on the other, and cover exactly the
-- phones.
pub make_prefer_interval-Covers :
    (d : ChewingData) (disp : List Interval) (marked : List ℕ)
    → WellFormed d
    → AllWithin disp
    → mark_all 0 disp (replicate 51 0) ≡ some marked
    → length disp + uncovered d.n_phone_seq marked ≤ 50
    → (is : List Interval) × (make_prefer_interval d disp ≡ some is) × Covers d.n_phone_seq 0 is
unfolding make_prefer_interval
make_prefer_interval-Covers d disp marked w within mark few =
    let small : d.n_phone_seq ≤ 50 = omega (arith, phones-le d w, w.len_le) in
    let m = mark_all-Sets 0 disp (replicate 51 0) refl (zeros-AllBelow 51) within (omega arith) in
    let same : m.sets ≡ marked = some_inj (sym m.returned ∙ mark) in
    let below = subst (AllBelow 51) same m.lt in
    let r =
      number_rest-Sets d.n_phone_seq (length disp + 1) marked (ap length (sym same) ∙ m.size)
        (omega arith) below (omega arith) in
    let (parent, run, size, h) =
      connect-Descends (d.n_phone_seq - 1) 1 d.user_arr_cnnct r.sets (replicate 51 0) w.cnnct_size
        r.size r.lt refl (zeros-Descends 0 51) (omega arith) in
    rw (mark, ◌>>=◌, r.returned, ◌>>=◌, run, ◌>>=◌)
      (generate-Covers r.sets parent
        record { belong_size = r.size; belong_lt = r.lt; parent_size = size; descends = h }
        d.n_phone_seq 0 d.n_phone_seq small (omega arith) (omega arith))
  where
    some_inj : {xs ys : List ℕ} → some xs ≡ some ys → xs ≡ ys
    some_inj e = cc
