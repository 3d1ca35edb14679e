-- ===== src/Utf8/Search.antt =====
-- `ueStrStr` against the definition of a first occurrence.
use native.Mathlib.Decide.{dec_le, dec_lt}
use libchewing.Common.{
  ℕ, zero, suc, ◌-◌, ◌≤◌, ◌<◌, ◌≡◌, refl, inl, inr, true, false, Option, none, some, List, [], ◌∷◌,
  length, drop, arith, Bool-cases, ◌++◌, ap, length-append, length-drop, lt→ltb, not_lt→ltb,
}
use libchewing.Utf8.{strncmp_eq, str_str_loop, ue_str_str}

-- What a search over the positions `0 .. ub` may answer: no position matches, or the result is the
-- first position that does.
abbrev pub IsFirst : List ℕ → List ℕ → ℕ → ℕ → Option (List ℕ) → Type 0
IsFirst p sub lsub ub none = (i : ℕ) → i ≤ ub → strncmp_eq (drop i p) sub lsub ≡ false
IsFirst p sub lsub ub (some q) =
    (i : ℕ) × (i ≤ ub)
    × (q ≡ drop i p)
    × (strncmp_eq q sub lsub ≡ true)
    × ((j : ℕ) → j < i → strncmp_eq (drop j p) sub lsub ≡ false)

drop-nil : (i : ℕ) → drop {A = ℕ} i [] ≡ []
drop-nil zero = refl
drop-nil (suc i) = refl

-- One step of the search: the current position does not match, and the rest of them is searched.
IsFirst-next :
    (b : ℕ) (p sub : List ℕ) (lsub ub : ℕ) (r : Option (List ℕ))
    → strncmp_eq (b ∷ p) sub lsub ≡ false
    → IsFirst p sub lsub ub r
    → IsFirst (b ∷ p) sub lsub (suc ub) r
IsFirst-next b p sub lsub ub none no_match rest = nowhere
  where
    nowhere : (i : ℕ) → i ≤ suc ub → strncmp_eq (drop i (b ∷ p)) sub lsub ≡ false
    nowhere zero h = no_match
    nowhere (suc i) h = rest i (omega arith)
IsFirst-next b p sub lsub ub (some q) no_match (i, le, at, here, before) =
    (suc i, omega arith, at, here, earlier)
  where
    earlier : (j : ℕ) → j < suc i → strncmp_eq (drop j (b ∷ p)) sub lsub ≡ false
    earlier zero h = no_match
    earlier (suc j) h = before j (omega arith)

str_str_loop-IsFirst :
    (p sub : List ℕ) (lsub ub : ℕ)
    → ub ≤ length p
    → IsFirst p sub lsub ub (str_str_loop ub p sub lsub)
unfolding str_str_loop
str_str_loop-IsFirst p sub lsub zero le = elim (Bool-cases (strncmp_eq p sub lsub)) [
  | inl e ↦ rw e (0, omega arith, refl, e, λ j h. absurd (omega arith))
  | inr e ↦ rw e (one_position e)
]
  where
    one_position :
        strncmp_eq p sub lsub ≡ false → (i : ℕ) → i ≤ 0 → strncmp_eq (drop i p) sub lsub ≡ false
    one_position e zero h = e
    one_position e (suc i) h = absurd (omega arith)
str_str_loop-IsFirst [] sub lsub (suc ub) le = absurd (omega arith)
str_str_loop-IsFirst (b ∷ p) sub lsub (suc ub) le =
    elim (Bool-cases (strncmp_eq (b ∷ p) sub lsub)) [
      | inl e ↦ rw e (0, omega arith, refl, e, λ j h. absurd (omega arith))
      | inr e ↦
          rw e (IsFirst-next b p sub lsub ub _ e (str_str_loop-IsFirst p sub lsub ub (omega arith)))
    ]

-- `sub` stands at the start of `p`.
abbrev pub Occurs : List ℕ → List ℕ → Type 0
Occurs sub p = (r : List ℕ) × (p ≡ sub ++ r)

Occurs-of_strncmp : (p sub : List ℕ) → strncmp_eq p sub (length sub) ≡ true → Occurs sub p
unfolding strncmp_eq
Occurs-of_strncmp p [] h = (p, refl)
Occurs-of_strncmp [] (c ∷ sub) h = cc
Occurs-of_strncmp (b ∷ p) (c ∷ sub) h =
    let (r, e) = Occurs-of_strncmp p sub (ground arith) in (r, ground (arith, e))

strncmp-append : (sub r : List ℕ) → strncmp_eq (sub ++ r) sub (length sub) ≡ true
unfolding strncmp_eq
strncmp-append [] r = refl
strncmp-append (c ∷ sub) r = ground (arith, strncmp-append sub r)

not-Occurs : (p sub : List ℕ) → strncmp_eq p sub (length sub) ≡ false → Occurs sub p → ⊥
not-Occurs p sub h (r, e) = cc (strncmp-append sub r, ap (λ q. strncmp_eq q sub (length sub)) e)

not-Occurs-short : (p sub : List ℕ) → length p < length sub → Occurs sub p → ⊥
not-Occurs-short p sub h (r, e) = omega (arith, ap length e, length-append sub r)

-- What a search for `sub` in `str` must answer: that it occurs nowhere, or its first occurrence.
abbrev pub IsSearch : List ℕ → List ℕ → Option (List ℕ) → Type 0
IsSearch str sub none = (i : ℕ) → i ≤ length str → Occurs sub (drop i str) → ⊥
IsSearch str sub (some q) =
    (i : ℕ) × (q ≡ drop i str) × Occurs sub q × ((j : ℕ) → j < i → Occurs sub (drop j str) → ⊥)

IsSearch-of_IsFirst :
    (str sub : List ℕ) (r : Option (List ℕ))
    → length sub ≤ length str
    → IsFirst str sub (length sub) (length str - length sub) r
    → IsSearch str sub r
IsSearch-of_IsFirst str sub none fits none_matches = λ i inside.
    elim (dec_le i (length str - length sub)) [
      | yes le ↦ not-Occurs (drop i str) sub (none_matches i le)
      | no gt ↦ not-Occurs-short (drop i str) sub (omega (arith, length-drop i str))
    ]
IsSearch-of_IsFirst str sub (some q) fits (i, le, at, here, before) =
    (i, at, Occurs-of_strncmp q sub here, λ j lt. not-Occurs (drop j str) sub (before j lt))

-- `ueStrStr`, given the lengths of both strings, returns the first occurrence of the second in the
-- first, and `NULL` only where it does not occur.
pub ue_str_str-IsSearch :
    (str sub : List ℕ) → IsSearch str sub (ue_str_str str (length str) sub (length sub))
unfolding ue_str_str
ue_str_str-IsSearch str sub = elim (dec_lt (length str) (length sub)) [
  | yes short ↦
      rw (lt→ltb _ _ short)
        λ i inside. not-Occurs-short (drop i str) sub (omega (arith, length-drop i str))
  | no fits ↦ rw (not_lt→ltb (length str) (length sub) fits) (
      IsSearch-of_IsFirst str sub _ (omega arith)
        (str_str_loop-IsFirst str sub (length sub) (length str - length sub) (omega arith)))
]
