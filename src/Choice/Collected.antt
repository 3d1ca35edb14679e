-- ===== src/Choice/Collected.antt =====
-- The candidates that SetChoiceInfo of src/choice.c collects for a phrase.
use mathlib.Core.List.{Memᴰ}
use mathlib.Core.List.Memᴰ.{head, tail}
use mathlib.Core.List.Memᴰ
use libchewing.Choice.Candidates.{first_size, choice_the_same, append_phrases}
use libchewing.Utf8.{ue_bytes_from_char, ue_str_n_bytes, strncmp_eq}
use libchewing.Common.{
  ℕ, zero, suc, ◌+◌, ◌*◌, ◌≤◌, ◌<◌, ◌≡◌, ◌≢◌, ◌⊎◌, inl, inr, refl, ap, sym, subst, ◌∙◌, true, false,
  some, List, [], ◌∷◌, ◌++◌, length, take, ltb, arith, All, All-append, Bool-cases, length-append,
  length-take,
}

-- The text of a phrase as a candidate.
abbrev pub shown : ℕ → List ℕ → List ℕ
shown len w = take (len * first_size w) w

-- A phrase that begins with `len` characters, each with as many bytes as the first one.
pub record Whole (len : ℕ) (w : List ℕ) : Type 0 where
  pub bytes : ue_str_n_bytes w len ≡ some (len * first_size w)
  pub room : len * first_size w < 45
  pub nonempty : 0 < len * first_size w
  pub inside : len * first_size w ≤ length w

-- A candidate of `len` such characters.
abbrev Sized : ℕ → List ℕ → Type 0
Sized len t = (length t ≡ len * first_size t) × (0 < length t)

take-of_same :
    (t w : List ℕ) (n : ℕ) → strncmp_eq t w n ≡ true → length t ≡ n → n ≤ length w → t ≡ take n w
unfolding strncmp_eq
take-of_same [] w zero h e le = refl
take-of_same (b ∷ t) w zero h e le = absurd (omega arith)
take-of_same [] w (suc n) h e le = absurd (omega arith)
take-of_same (b ∷ t) [] (suc n) h e le = absurd (omega arith)
take-of_same (b ∷ t) (c ∷ w) (suc n) h e le =
    let both : (b ≡ c) × (strncmp_eq t w n ≡ true) = (ground arith, ground arith) in
    let rest = take-of_same t w n both.1 (omega arith) (omega arith) in cc

same-take : (w : List ℕ) (n : ℕ) → n ≤ length w → strncmp_eq (take n w) w n ≡ true
unfolding strncmp_eq
same-take w zero le = refl
same-take [] (suc n) le = absurd (omega arith)
same-take (c ∷ w) (suc n) le = let rest = same-take w n (omega arith) in ground arith

-- Strings of one byte or more that begin alike have first characters of one size.
first_size-same :
    (t w : List ℕ) (n : ℕ)
    → strncmp_eq t w n ≡ true
    → 0 < n
    → 0 < length t
    → 0 < length w
    → first_size t ≡ first_size w
unfolding strncmp_eq first_size
first_size-same [] w n h pos lt lw = absurd (omega arith)
first_size-same (b ∷ t) [] n h pos lt lw = absurd (omega arith)
first_size-same (b ∷ t) (c ∷ w) zero h pos lt lw = absurd (omega arith)
first_size-same (b ∷ t) (c ∷ w) (suc n) h pos lt lw =
    let e : b ≡ c = ground arith in ap ue_bytes_from_char e

first_size-take : (w : List ℕ) (n : ℕ) → 0 < n → first_size (take n w) ≡ first_size w
unfolding first_size
first_size-take w zero pos = absurd (omega arith)
first_size-take [] (suc n) pos = refl
first_size-take (b ∷ w) (suc n) pos = refl

module _ (len : ℕ) where
  shown-Sized : (w : List ℕ) → Whole len w → Sized len (shown len w)
  shown-Sized w h =
      let n = len * first_size w in
      let l : length (take n w) ≡ n = omega (arith, length-take n w, h.inside) in
      (l ∙ sym (ap (λ k. len * k) (first_size-take w n h.nonempty)), omega (arith, l, h.nonempty))

  shown-of_same :
      (t w : List ℕ)
      → Sized len t
      → Whole len w
      → strncmp_eq t w (len * first_size w) ≡ true
      → shown len w ≡ t
  shown-of_same t w st hw h =
      let n = len * first_size w in
      let size = first_size-same t w n h hw.nonempty st.1 (omega (arith, hw.inside, hw.nonempty)) in
      sym (take-of_same t w n h (st.0 ∙ ap (λ k. len * k) size) hw.inside)

  -- A phrase that is the same as a candidate is one.
  Mem-of_same :
      (total : List (List ℕ)) (w : List ℕ)
      → All (Sized len) total
      → Whole len w
      → choice_the_same total w (len * first_size w) ≡ true
      → Memᴰ (shown len w) total
  unfolding choice_the_same
  Mem-of_same [] w st hw h = absurd (cc)
  Mem-of_same (t ∷ total) w st hw h = elim (Bool-cases (strncmp_eq t w (len * first_size w))) [
    | inl e ↦ head (shown-of_same t w st.0 hw e)
    | inr e ↦ tail (Mem-of_same total w st.1 hw (ground arith))
  ]

  -- One that is not the same as any differs from all.
  fresh-All :
      (total : List (List ℕ)) (w : List ℕ)
      → Whole len w
      → choice_the_same total w (len * first_size w) ≡ false
      → All (λ t. t ≢ shown len w) total
  unfolding choice_the_same
  fresh-All [] w hw h = tt
  fresh-All (t ∷ total) w hw h =
      let n = len * first_size w in
      let e : strncmp_eq t w n ≡ false = ground arith in
      (
        λ same. absurd (
            let e' : strncmp_eq (take n w) w n ≡ false =
              subst (λ u. strncmp_eq u w n ≡ false) same e in
            let yes = same-take w n hw.inside in cc),
        fresh-All total w hw (ground arith),
      )

-- No two are equal.
abbrev pub Distinct : List (List ℕ) → Type 0
Distinct [] = Unit
Distinct (x ∷ xs) = All (λ y. x ≢ y) xs × Distinct xs

Distinct-append_one :
    (xs : List (List ℕ)) (y : List ℕ) → Distinct xs → All (λ t. t ≢ y) xs → Distinct (xs ++ y ∷ [])
Distinct-append_one [] y d f = (tt, tt)
Distinct-append_one (x ∷ xs) y d f =
    (All-append (λ z. x ≢ z) xs (y ∷ []) d.0 (f.0, tt), Distinct-append_one xs y d.1 f.1)

-- The candidates `out` after the phrases `ws` were added to `total`.
pub record Collected (len : ℕ) (total ws out : List (List ℕ)) : Type 0 where
  pub distinct : Distinct out
  pub sized : All (Sized len) out
  pub had : {x : List ℕ} → Memᴰ x total → Memᴰ x out
  pub complete : {v : List ℕ} → Memᴰ v ws → Memᴰ (shown len v) out
  pub only :
      {x : List ℕ} → Memᴰ x out → Memᴰ x total ⊎ ((w : List ℕ) × Memᴰ w ws × (x ≡ shown len w))
  pub count : length out ≤ length total + length ws

pub append_phrases-Collected :
    (len : ℕ) (total ws : List (List ℕ))
    → Distinct total
    → All (Sized len) total
    → All (Whole len) ws
    → length total + length ws ≤ 567
    → (out : List (List ℕ)) × (append_phrases len total ws ≡ some out) × Collected len total ws out
unfolding append_phrases
append_phrases-Collected len total [] d st hw le = (
  total,
  refl,
  record {
    distinct = d;
    sized = st;
    had = λ m. m;
    complete = λ m. absurd (Memᴰ.not-nil m);
    only = λ m. inl m;
    count = omega arith;
  },
)
append_phrases-Collected len total (w ∷ ws) d st hw le =
    elim (Bool-cases (choice_the_same total w (len * first_size w))) [
      | inl e ↦
          let rest = append_phrases-Collected len total ws d st hw.1 (omega arith) in
          let c = rest.2 in
          (
            rest.0,
            rw e rest.1,
            record {
              distinct = c.distinct;
              sized = c.sized;
              had = c.had;
              complete = λ {v} m. elim (Memᴰ.cases_cons m) [
                | inl same ↦
                    subst (λ u. Memᴰ (shown len u) rest.0) (sym same)
                      (c.had (Mem-of_same len total w st hw.0 e))
                | inr m' ↦ c.complete m'
              ];
              only = λ m. elim (c.only m) [
                | inl old ↦ inl old
                | inr (v, mv, ev) ↦ inr (v, tail mv, ev)
              ];
              count = omega (arith, c.count);
            },
          )
      | inr e ↦
          let new = shown len w in
          let more : length (total ++ new ∷ []) ≡ length total + 1 =
            omega (arith, length-append total (new ∷ [])) in
          let rest =
            append_phrases-Collected len (total ++ new ∷ []) ws
              (Distinct-append_one total new d (fresh-All len total w hw.0 e))
              (All-append (Sized len) total (new ∷ []) st (shown-Sized len w hw.0, tt)) hw.1
              (omega arith) in
          let c = rest.2 in
          let e1 : ltb (len * first_size w) 45 ≡ true = ground (arith, hw.0.room) in
          let e2 : ltb (length total) 567 ≡ true = ground arith in
          (
            rest.0,
            rw (e, hw.0.bytes, e1, e2) rest.1,
            record {
              distinct = c.distinct;
              sized = c.sized;
              had = λ m. c.had (Memᴰ.append_left _ m);
              complete = λ {v} m. elim (Memᴰ.cases_cons m) [
                | inl same ↦
                    subst (λ u. Memᴰ (shown len u) rest.0) (sym same)
                      (c.had (Memᴰ.append_right total (head refl)))
                | inr m' ↦ c.complete m'
              ];
              only = λ m. elim (c.only m) [
                | inl old ↦ elim (Memᴰ.append_cases total old) [
                  | inl before ↦ inl before
                  | inr last ↦ inr (w, head refl, Memᴰ.eq_of_singleton last)
                ]
                | inr (v, mv, ev) ↦ inr (v, tail mv, ev)
              ];
              count = omega (arith, c.count, more);
            },
          )
    ]
