-- ===== src/Choice/Disjoint.antt =====
-- The selected intervals after ChangeSelectIntervalAndBreakpoint of src/choice.c.
use mathlib.Core.List.{Memᴰ}
use mathlib.Core.List.Memᴰ.{head, tail}
use mathlib.Core.List.Memᴰ
use libchewing.Editing.{Interval}
use libchewing.Phrasing.{is_intersect}
use libchewing.Choice.{kill_intersect_loop}
use libchewing.Common.{
  ℕ, zero, suc, ◌-◌, ◌≤◌, ◌≡◌, inl, inr, refl, sym, subst, false, List, [], ◌∷◌, ◌++◌, length, take,
  drop, arith, All, All-append, Bool-cases, length-append, length-take, length-drop,
  take-append-drop,
}

abbrev pub Selects : Type 0
Selects = List (Interval × List ℕ)

abbrev pub Clear : Interval → Selects → Type 0
Clear i xs = All (λ s. is_intersect i s.0 ≡ false) xs

-- No two of the intervals have a phone in common.
abbrev pub Disjoint : Selects → Type 0
Disjoint [] = Unit
Disjoint (s ∷ xs) = Clear s.0 xs × Disjoint xs

pub is_intersect_sym : (i j : Interval) → is_intersect i j ≡ false → is_intersect j i ≡ false
unfolding is_intersect
is_intersect_sym i j h = ground arith

-- An interval that is disjoint from each of a list, looked at from the list.
pub clear-cons :
    (s : Interval × List ℕ) (xs ys : Selects)
    → Clear s.0 xs
    → All (λ t. Clear t.0 ys) xs
    → All (λ t. Clear t.0 (s ∷ ys)) xs
clear-cons s [] ys h all = tt
clear-cons s (x ∷ xs) ys h all =
    ((is_intersect_sym s.0 x.0 h.0, all.0), clear-cons s xs ys h.1 all.1)

-- The parts of a list in the other order.
All-split :
    (P : Interval × List ℕ → Type 0) (xs ys : Selects) → All P (xs ++ ys) → All P xs × All P ys
All-split P [] ys h = (tt, h)
All-split P (x ∷ xs) ys h = let rest = All-split P xs ys h.1 in ((h.0, rest.0), rest.1)

All-units : (ys : Selects) → All (λ t. Clear t.0 []) ys
All-units [] = tt
All-units (y ∷ ys) = (tt, All-units ys)

Disjoint-split :
    (xs ys : Selects) → Disjoint (xs ++ ys) → Disjoint xs × Disjoint ys × All (λ t. Clear t.0 xs) ys
Disjoint-split [] ys h = (tt, h, All-units ys)
Disjoint-split (x ∷ xs) ys h =
    let parts = All-split _ xs ys h.0 in
    let rest = Disjoint-split xs ys h.1 in
    ((parts.0, rest.0), rest.1, clear-cons x ys xs parts.1 rest.2)

pub Disjoint-join :
    (xs ys : Selects) → Disjoint xs → Disjoint ys → All (λ t. Clear t.0 ys) xs → Disjoint (xs ++ ys)
Disjoint-join [] ys hx hy all = hy
Disjoint-join (x ∷ xs) ys hx hy all =
    (All-append _ xs ys hx.0 all.0, Disjoint-join xs ys hx.1 hy all.1)

-- The last interval first, as `RemoveSelectElement` leaves the rest of the list.
abbrev rotated : Selects → Selects
rotated xs = drop (length xs - 1) xs ++ take (length xs - 1) xs

length-rotated : (xs : Selects) → length (rotated xs) ≡ length xs
length-rotated xs = omega (
  arith,
  length-append (drop (length xs - 1) xs) (take (length xs - 1) xs),
  length-take (length xs - 1) xs,
  length-drop (length xs - 1) xs,
)

Disjoint-rotated : (xs : Selects) → Disjoint xs → Disjoint (rotated xs)
Disjoint-rotated xs h =
    let n = length xs - 1 in
    let parts = Disjoint-split (take n xs) (drop n xs) (rw (take-append-drop n xs) h) in
    Disjoint-join (drop n xs) (take n xs) parts.1 parts.0 parts.2

Mem-rotated : {s : Interval × List ℕ} (xs : Selects) → Memᴰ s xs → Memᴰ s (rotated xs)
Mem-rotated {s} xs m =
    let n = length xs - 1 in
    let m' : Memᴰ s (take n xs ++ drop n xs) = rw (take-append-drop n xs) m in
    elim (Memᴰ.append_cases (take n xs) m') [
      | inl front ↦ Memᴰ.append_right (drop n xs) front
      | inr back ↦ Memᴰ.append_left (take n xs) back
    ]

Mem-of_rotated : {s : Interval × List ℕ} (xs : Selects) → Memᴰ s (rotated xs) → Memᴰ s xs
Mem-of_rotated {s} xs m =
    let n = length xs - 1 in
    let m' : Memᴰ s (take n xs ++ drop n xs) = (elim (Memᴰ.append_cases (drop n xs) m) [
      | inl back ↦ Memᴰ.append_right (take n xs) back
      | inr front ↦ Memᴰ.append_left (drop n xs) front
    ]) in
    subst (Memᴰ s) (take-append-drop n xs) m'

-- What the loop leaves of the intervals.
pub record Left (inte : Interval) (xs out : Selects) : Type 0 where
  pub disjoint : Disjoint out
  pub clear : Clear inte out
  pub fewer : length out ≤ length xs
  pub kept : {s : Interval × List ℕ} → Memᴰ s xs → is_intersect inte s.0 ≡ false → Memᴰ s out
  pub old : {s : Interval × List ℕ} → Memᴰ s out → Memᴰ s xs

-- A property of every member.
All-of_members :
    (P : Interval × List ℕ → Type 0) (xs : Selects)
    → ((s : Interval × List ℕ) → Memᴰ s xs → P s)
    → All P xs
All-of_members P [] f = tt
All-of_members P (x ∷ xs) f = (f x (head refl), All-of_members P xs (λ s m. f s (tail m)))

member-All :
    (P : Interval × List ℕ → Type 0) {s : Interval × List ℕ} (xs : Selects)
    → All P xs
    → Memᴰ s xs
    → P s
member-All P [] h m = absurd (Memᴰ.not-nil m)
member-All P (x ∷ xs) h m = elim (Memᴰ.cases_cons m) [
  | inl e ↦ subst P (sym e) h.0
  | inr m' ↦ member-All P xs h.1 m'
]

pub kill_intersect_loop-Left :
    (n : ℕ) (inte : Interval) (xs : Selects)
    → length xs ≤ n
    → Disjoint xs
    → Left inte xs (kill_intersect_loop n inte xs)
unfolding kill_intersect_loop
kill_intersect_loop-Left zero inte [] le d = record {
  disjoint = tt;
  clear = tt;
  fewer = omega arith;
  kept = λ m c. m;
  old = λ m. m;
}
kill_intersect_loop-Left zero inte (s ∷ xs) le d = absurd (omega arith)
kill_intersect_loop-Left (suc n) inte [] le d = record {
  disjoint = tt;
  clear = tt;
  fewer = omega arith;
  kept = λ m c. m;
  old = λ m. m;
}
kill_intersect_loop-Left (suc n) inte (s ∷ xs) le d = elim (Bool-cases (is_intersect inte s.0)) [
  | inl e ↦
      let rest =
        kill_intersect_loop-Left n inte (rotated xs) (omega (arith, length-rotated xs))
          (Disjoint-rotated xs d.1) in
      rw e (record {
        disjoint = rest.disjoint;
        clear = rest.clear;
        fewer = omega (arith, length-rotated xs, rest.fewer);
        kept = λ m c. elim (Memᴰ.cases_cons m) [
          | inl same ↦ absurd (let c' = subst (λ t. is_intersect inte t.0 ≡ false) same c in cc)
          | inr m' ↦ rest.kept (Mem-rotated xs m') c
        ];
        old = λ m. tail (Mem-of_rotated xs (rest.old m));
      })
  | inr e ↦
      let rest = kill_intersect_loop-Left n inte xs (omega arith) d.1 in
      rw e (record {
        disjoint = (All-of_members _ _ (λ t m. member-All _ xs d.0 (rest.old m)), rest.disjoint);
        clear = (e, rest.clear);
        fewer = omega (arith, rest.fewer);
        kept = λ m c. elim (Memᴰ.cases_cons m) [
          | inl same ↦ head same
          | inr m' ↦ tail (rest.kept m' c)
        ];
        old = λ m. elim (Memᴰ.cases_cons m) [ inl same ↦ head same | inr m' ↦ tail (rest.old m') ];
      })
]
