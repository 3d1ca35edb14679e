-- ===== src/Phrasing/Discard/Kept.antt =====
-- The loops of Discard1 of src/tree.c: how an interval that stands alone lies to the others, and what
-- becomes of each entry.
use libchewing.Common.{
  ℕ, zero, suc, ◌+◌, ◌≤◌, ◌≡◌, ◌≢◌, ◌⊎◌, inl, inr, refl, ap, subst, ◌∙◌, Bool, true, false, some,
  List, [], ◌∷◌, get_elem?, leb, ◌==◌, ◌!=◌, ◌&&◌, ◌||◌, arith, Bool-cases, eq_or_ne, some-inj,
}
use libchewing.Phrasing.{PhraseInterval, phrase_interval_contain}
use libchewing.Phrasing.Discard.{stands_alone, flag_inside}

abbrev pub Items : Type 0
Items = List (PhraseInterval × Bool)

-- The interval stands in the list without a flag.
abbrev pub Live : Items → PhraseInterval → Type 0
Live items v = (j : ℕ) × (get_elem? items j ≡ some (v, false))

-- A place that the intervals of `M` lead to from the start.
pub data Led (M : PhraseInterval → Type 0) : ℕ → Type 0 where
  origin : Led M 0
  via : {v : PhraseInterval} {b : ℕ} → M v → v.to ≡ b → Led M v.from → Led M b

pub Led-mono :
    (M N : PhraseInterval → Type 0)
    → ((v : PhraseInterval) → M v → N v)
    → {b : ℕ} → Led M b
    → Led N b
Led-mono M N f origin = origin
Led-mono M N f (via {v} m e l) = via (f v m) e (Led-mono M N f l)

pub contain-eq :
    (v u : PhraseInterval) → phrase_interval_contain v u ≡ true → (v.from ≤ u.from) × (u.to ≤ v.to)
unfolding phrase_interval_contain
contain-eq v u h = ground arith

pub contain_of :
    (v u : PhraseInterval) → v.from ≤ u.from → u.to ≤ v.to → phrase_interval_contain v u ≡ true
unfolding phrase_interval_contain
contain_of v u h k = ground arith

-- How an interval lies to one that stands alone.
pub data Side (v u : PhraseInterval) : Type 0 where
  inside : phrase_interval_contain v u ≡ true → Side v u
  in_front : u.to ≤ v.from → Side v u
  in_back : v.to ≤ u.from → Side v u

Side-of_tests :
    (v u : PhraseInterval)
    → (phrase_interval_contain v u || leb u.to v.from || leb v.to u.from) ≡ true
    → Side v u
Side-of_tests v u h = elim (Bool-cases (phrase_interval_contain v u)) [
  | inl c ↦ inside c
  | inr c ↦ elim (Bool-cases (leb u.to v.from)) [
    | inl f ↦ in_front (ground arith)
    | inr f ↦ in_back (ground arith)
  ]
]

pub stands_alone-Side :
    (a : ℕ) (v : PhraseInterval) (b : ℕ) (items : Items)
    → stands_alone a v b items ≡ true
    → (j : ℕ) (u : PhraseInterval) → get_elem? items j ≡ some (u, false)
    → a ≢ b + j
    → Side v u
unfolding stands_alone
stands_alone-Side a v b [] h j u at ne = absurd (ground arith)
stands_alone-Side a v b ((w, failed) ∷ items) h zero u at ne =
    let same : w ≡ u = ap (λ p. p.0) (some-inj at) in
    let live : failed ≡ false = ap (λ p. p.1) (some-inj at) in
    let ne' : (a == b) ≡ false = ground arith in Side-of_tests v u (ground arith)
stands_alone-Side a v b ((w, failed) ∷ items) h (suc j) u at ne =
    stands_alone-Side a v (b + 1) items (ground arith) j u at (λ e. ne (omega (arith, e)))

-- What becomes of an entry.
pub flag_inside-at :
    (a : ℕ) (v : PhraseInterval) (i : ℕ) (items : Items) (j : ℕ) (u : PhraseInterval) (f : Bool)
    → get_elem? items j ≡ some (u, f)
    → get_elem? (flag_inside a v i items) j
      ≡ some (u, f || (i + j != a && phrase_interval_contain v u))
unfolding flag_inside
flag_inside-at a v i [] j u f at = absurd (ground arith)
flag_inside-at a v i ((w, g) ∷ items) zero u f at =
    let same : w ≡ u = ap (λ p. p.0) (some-inj at) in
    let live : g ≡ f = ap (λ p. p.1) (some-inj at) in
    let here : i ≡ i + 0 = omega arith in rw (same, live, ← here) refl
flag_inside-at a v i ((w, g) ∷ items) (suc j) u f at =
    flag_inside-at a v (i + 1) items j u f at
    ∙ ap (λ k. some (u, f || (k != a && phrase_interval_contain v u))) (omega arith)

-- And where it comes from.
pub flag_inside-from :
    (a : ℕ) (v : PhraseInterval) (i : ℕ) (items : Items) (j : ℕ) (u : PhraseInterval)
    → get_elem? (flag_inside a v i items) j ≡ some (u, false)
    → (get_elem? items j ≡ some (u, false)) × ((i + j ≡ a) ⊎ (phrase_interval_contain v u ≡ false))
unfolding flag_inside
flag_inside-from a v i [] j u at = absurd (ground arith)
flag_inside-from a v i ((w, g) ∷ items) zero u at =
    let same : w ≡ u = ap (λ p. p.0) (some-inj at) in
    let live : (g || (i != a && phrase_interval_contain v w)) ≡ false =
      ap (λ p. p.1) (some-inj at) in
    let fresh : g ≡ false = ground arith in
    (
      rw (same, fresh) refl,
      elim (eq_or_ne i a) [
        | inl e ↦ inl (omega (arith, e))
        | inr ne ↦ inr (let ne' : (i != a) ≡ true = ground arith in ground arith)
      ],
    )
flag_inside-from a v i ((w, g) ∷ items) (suc j) u at =
    let (old, why) = flag_inside-from a v (i + 1) items j u at in
    (old, subst (λ k. (k ≡ a) ⊎ (phrase_interval_contain v u ≡ false)) (omega arith) why)
