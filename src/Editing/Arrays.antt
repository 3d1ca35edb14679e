-- ===== src/Editing/Arrays.antt =====
-- What memmove and a store leave in an array of src/chewingutil.c, as insertion and deletion.
use libchewing.Common.{
  ℕ, zero, suc, ◌+◌, ◌-◌, ◌<◌, ◌≤◌, ◌≡◌, refl, ◌∙◌, sym, ap, some, List, [], ◌∷◌, ◌++◌, length,
  take, drop, set, get_elem?, ltb, leb, ◌&&◌, arith, append_assoc, length-append, length-take,
  length-drop, take-append_length, if-intro,
}
use libchewing.Editing.{memmove, store, insert_gap}

module _ {A : Type 0} where
  -- The first `n` entries with `v` before the one at `at`.
  abbrev pub inserted : List A → ℕ → ℕ → A → List A
  inserted xs at n v = take at xs ++ v ∷ take (n - at) (drop at xs)

  -- The first `n` entries but the one at `at`.
  abbrev pub deleted : List A → ℕ → ℕ → List A
  deleted xs at n = take at xs ++ take (n - at - 1) (drop (suc at) xs)

  take-append_of : (n : ℕ) (xs ys : List A) → length xs ≡ n → take n (xs ++ ys) ≡ xs
  take-append_of n xs ys e = ap (λ k. take k (xs ++ ys)) (sym e) ∙ take-append_length xs ys

  -- A part of a prefix is a part of the whole.
  take-prefix :
      (j k : ℕ) (xs ys : List A) → j ≤ k → j ≤ length xs → take j (take k xs ++ ys) ≡ take j xs
  take-prefix zero k xs ys h hx = refl
  take-prefix (suc j) zero xs ys h hx = absurd (omega arith)
  take-prefix (suc j) (suc k) [] ys h hx = absurd (omega arith)
  take-prefix (suc j) (suc k) (x ∷ xs) ys h hx =
      ap (λ l. x ∷ l) (take-prefix j k xs ys (omega arith) (omega arith))

  take-past : (n j : ℕ) (xs ys : List A) → n ≡ length xs + j → take n (xs ++ ys) ≡ xs ++ take j ys
  take-past n j [] ys e = ap (λ m. take m ys) (omega (arith, e))
  take-past zero j (x ∷ xs) ys e = absurd (omega (arith, e))
  take-past (suc n) j (x ∷ xs) ys e = ap (λ l. x ∷ l) (take-past n j xs ys (omega (arith, e)))

  set-take-suc :
      (at : ℕ) (xs ys : List A) (v : A)
      → at < length xs
      → set (take (suc at) xs ++ ys) at v ≡ take at xs ++ v ∷ ys
  set-take-suc at [] ys v lt = absurd (omega arith)
  set-take-suc zero (x ∷ xs) ys v lt = refl
  set-take-suc (suc at) (x ∷ xs) ys v lt = ap (λ l. x ∷ l) (set-take-suc at xs ys v (omega arith))

  get_elem?-take-suc :
      (at : ℕ) (xs ys : List A)
      → at < length xs
      → (x : A) × (get_elem? (take (suc at) xs ++ ys) at ≡ some x)
  get_elem?-take-suc at [] ys lt = absurd (omega arith)
  get_elem?-take-suc zero (x ∷ xs) ys lt = (x, refl)
  get_elem?-take-suc (suc at) (x ∷ xs) ys lt = get_elem?-take-suc at xs ys (omega arith)

  take-plus_one : (at : ℕ) (xs : List A) → take (at + 1) xs ≡ take (suc at) xs
  take-plus_one at xs = let e : at + 1 ≡ suc at = omega arith in ap (λ m. take m xs) e

  drop-plus_one : (at : ℕ) (xs : List A) → drop (at + 1) xs ≡ drop (suc at) xs
  drop-plus_one at xs = let e : at + 1 ≡ suc at = omega arith in ap (λ m. drop m xs) e

  memmove-eq :
      (xs : List A) (dest src n : ℕ)
      → dest + n ≤ length xs
      → src + n ≤ length xs
      → memmove xs dest src n ≡ some (take dest xs ++ (take n (drop src xs) ++ drop (dest + n) xs))
  unfolding memmove
  memmove-eq xs dest src n hd hs =
      if-intro (λ r. r ≡ some (take dest xs ++ (take n (drop src xs) ++ drop (dest + n) xs)))
        (leb (dest + n) (length xs) && leb (src + n) (length xs)) (λ _. refl)
        (λ e. absurd (ground arith))

  pub memmove-sized :
      (xs : List A) (dest src n : ℕ)
      → dest + n ≤ length xs
      → src + n ≤ length xs
      → (ys : List A) × (memmove xs dest src n ≡ some ys) × (length ys ≡ length xs)
  memmove-sized xs dest src n hd hs = (
    take dest xs ++ (take n (drop src xs) ++ drop (dest + n) xs),
    memmove-eq xs dest src n hd hs,
    omega (
      arith,
      length-append (take dest xs) (take n (drop src xs) ++ drop (dest + n) xs),
      length-append (take n (drop src xs)) (drop (dest + n) xs),
      length-take dest xs,
      length-take n (drop src xs),
      length-drop src xs,
      length-drop (dest + n) xs,
    ),
  )

  pub store-eq : (xs : List A) (i : ℕ) (v : A) → i < length xs → store xs i v ≡ some (set xs i v)
  unfolding store
  store-eq xs i v lt =
      if-intro (λ r. r ≡ some (set xs i v)) (ltb i (length xs)) (λ _. refl)
        (λ e. absurd (ground arith))

  -- Making a gap of one entry and storing into it: the first `n + 1` entries after it.
  pub record Gap (xs : List A) (at n : ℕ) : Type 0 where
    pub gapped : List A
    pub gap_eq : insert_gap xs at n ≡ some gapped
    pub old : A
    pub old_eq : get_elem? gapped at ≡ some old
    pub length_eq : length gapped ≡ length xs
    pub stored : (v : A) → store gapped at v ≡ some (set gapped at v)
    pub text : (v : A) → take (n + 1) (set gapped at v) ≡ inserted xs at n v

  pub Gap-of_room : (xs : List A) (at n : ℕ) → at ≤ n → n < length xs → Gap xs at n
  Gap-of_room xs at n le lt =
      let moved = take (n - at) (drop at xs) in
      let tail = drop (at + 1 + (n - at)) xs in
      let ys = take (at + 1) xs ++ (moved ++ tail) in
      let size : length ys ≡ length xs = omega (
        arith,
        length-append (take (at + 1) xs) (moved ++ tail),
        length-append moved tail,
        length-take (at + 1) xs,
        length-take (n - at) (drop at xs),
        length-drop at xs,
        length-drop (at + 1 + (n - at)) xs,
      ) in
      let (x, here) = get_elem?-take-suc at xs (moved ++ tail) (omega arith) in
      let first = take-plus_one at xs in
      record {
        gapped = ys;
        gap_eq = memmove-eq xs (at + 1) at (n - at) (omega arith) (omega arith);
        old = x;
        old_eq = ap (λ l. get_elem? (l ++ (moved ++ tail)) at) first ∙ here;
        length_eq = size;
        stored = λ v. store-eq ys at v (omega (arith, size));
        text = λ v.
            ap (λ l. take (n + 1) (set (l ++ (moved ++ tail)) at v)) first
            ∙ ap (take (n + 1)) (set-take-suc at xs (moved ++ tail) v (omega arith))
            ∙ ap (take (n + 1)) (sym (append_assoc (take at xs) (v ∷ moved) tail))
            ∙ take-append_of (n + 1) (inserted xs at n v) tail (
                omega (
                  arith,
                  length-append (take at xs) (v ∷ moved),
                  length-take at xs,
                  length-take (n - at) (drop at xs),
                  length-drop at xs,
                ));
      }

  -- Closing the place of one entry; `k` entries after it are moved.
  pub record Closed (xs : List A) (at k n : ℕ) : Type 0 where
    pub closed : List A
    pub closed_eq : memmove xs at (at + 1) k ≡ some closed
    pub length_eq : length closed ≡ length xs
    pub text : take (n - 1) closed ≡ deleted xs at n

  pub memmove-Closed :
      (xs : List A) (at k n : ℕ)
      → at < n
      → n - at - 1 ≤ k
      → at + 1 + k ≤ length xs
      → Closed xs at k n
  memmove-Closed xs at k n lt less room = record {
    closed = take at xs ++ (take k (drop (at + 1) xs) ++ drop (at + k) xs);
    closed_eq = memmove-eq xs at (at + 1) k (omega arith) (omega arith);
    length_eq = omega (
      arith,
      length-append (take at xs) (take k (drop (at + 1) xs) ++ drop (at + k) xs),
      length-append (take k (drop (at + 1) xs)) (drop (at + k) xs),
      length-take at xs,
      length-take k (drop (at + 1) xs),
      length-drop (at + 1) xs,
      length-drop (at + k) xs,
    );
    text =
        take-past (n - 1) (n - at - 1) (take at xs) _ (omega (arith, length-take at xs))
        ∙ ap (λ l. take at xs ++ l)
            (take-prefix (n - at - 1) k (drop (at + 1) xs) (drop (at + k) xs) less
              (omega (arith, length-drop (at + 1) xs)))
        ∙ ap (λ l. take at xs ++ take (n - at - 1) l) (drop-plus_one at xs);
  }
