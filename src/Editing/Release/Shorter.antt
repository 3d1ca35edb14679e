-- ===== src/Editing/Release/Shorter.antt =====
-- What ReleaseChiSymbolBuf of src/chewingutil.c commits and leaves.
use mathlib.Core.List.{flatten}
use libchewing.Common.{
  ℕ, zero, suc, ◌+◌, ◌-◌, ◌*◌, ◌<◌, ◌≤◌, ◌≡◌, refl, false, Option, none, some, List, [], ◌∷◌, map,
  length, take, leb, ◌==◌, ◌>>=◌, arith, if-intro, lt→ltb, Bool-cases, inl, inr, get_elem?,
}
use libchewing.Editing.{
  PreeditBuf, Interval, ChewingData, is_chinese, chewing_is_chi_at, max_phone_seq_len,
}
use libchewing.Editing.Contents.{take-hole}
use libchewing.Editing.WellFormed.{WellFormed, phones-le}
use libchewing.Editing.Release.{
  comp_interval, insert_interval, sort_intervals, find_interval_from, leading_symbols,
  count_release_num, write_loop,
}

-- Intervals that are not empty, with phones that exist.
unfoldable pub AllInside : ℕ → List Interval → Type 0
AllInside n [] = 0 < 1
AllInside n (i ∷ is) = (i.from < i.to) × (i.to ≤ n) × AllInside n is

-- Every string fits in its array, `char char_[MAX_UTF8_SIZE + 1]`.
unfoldable pub AllFit : List PreeditBuf → Type 0
AllFit [] = 0 < 1
AllFit (c ∷ cells) = (length (c.char_) ≤ 4) × AllFit cells

insert_interval-AllInside :
    (n : ℕ) (i : Interval) (is : List Interval)
    → i.from < i.to
    → i.to ≤ n
    → AllInside n is
    → AllInside n (insert_interval i is)
unfolding insert_interval AllInside
insert_interval-AllInside n i [] full inside h = (full, inside, h)
insert_interval-AllInside n i (j ∷ js) full inside (fj, ij, h) =
    if-intro (AllInside n) (comp_interval i j)
      (λ _. (fj, ij, insert_interval-AllInside n i js full inside h))
      (λ _. (full, inside, (fj, ij, h)))

sort_intervals-AllInside :
    (n : ℕ) (is : List Interval) → AllInside n is → AllInside n (sort_intervals is)
unfolding sort_intervals AllInside
sort_intervals-AllInside n [] h = h
sort_intervals-AllInside n (i ∷ is) (full, inside, h) =
    insert_interval-AllInside n i (sort_intervals is) full inside (sort_intervals-AllInside n is h)

-- What a search for an interval answers.
Inside : ℕ → Option Interval → Type 0
Inside n none = 0 < 1
Inside n (some i) = (i.from < i.to) × (i.to ≤ n)

find_interval_from-Inside :
    (n from : ℕ) (is : List Interval) → AllInside n is → Inside n (find_interval_from from is)
unfolding find_interval_from AllInside Inside
find_interval_from-Inside n from [] h = omega arith
find_interval_from-Inside n from (i ∷ is) (full, inside, h) =
    if-intro (Inside n) (i.from == from) (λ _. (full, inside))
      (λ _. find_interval_from-Inside n from is h)

leading_symbols-le :
    (n : ℕ) (buf : List PreeditBuf)
    → n ≤ length buf
    → (i : ℕ) × (leading_symbols n buf ≡ some i) × (i ≤ n)
unfolding leading_symbols
leading_symbols-le zero buf le = (0, refl, omega arith)
leading_symbols-le (suc n) [] le = absurd (omega arith)
leading_symbols-le (suc n) (c ∷ buf) le = elim (Bool-cases (is_chinese c)) [
  | inl e ↦ rw e (0, refl, omega arith)
  | inr e ↦
      let (i, run, small) = leading_symbols-le n buf (omega arith) in
      rw (e, run, ◌>>=◌) (suc i, refl, omega arith)
]

pub write_loop-flatten :
    (n pos : ℕ) (buf : List PreeditBuf)
    → n ≤ length buf
    → pos + 4 * n < 200
    → AllFit buf
    → write_loop n pos buf ≡ some (flatten (map (λ c. c.char_) (take n buf)))
unfolding write_loop AllFit flatten
write_loop-flatten zero pos buf le room h = refl
write_loop-flatten (suc n) pos [] le room h = absurd (omega arith)
write_loop-flatten (suc n) pos (c ∷ buf) le room (fits, h) =
    rw
      (
        lt→ltb (pos + 5) (max_phone_seq_len * 4 + 1) (omega arith),
        ◌>>=◌,
        write_loop-flatten n (pos + length c.char_) buf (omega arith) (omega arith) h,
        ◌>>=◌,
      )
      refl

-- A symbol at the head is counted, if the cursor is not before it.
leading_symbols-pos :
    (n : ℕ) (buf : List PreeditBuf) (x : PreeditBuf)
    → n ≤ length buf
    → get_elem? buf 0 ≡ some x
    → is_chinese x ≡ false
    → (i : ℕ) × (leading_symbols n buf ≡ some i) × (i ≤ n) × (0 < n → 0 < i)
unfolding leading_symbols
leading_symbols-pos zero buf x le at e = (0, refl, omega arith, λ pos. pos)
leading_symbols-pos (suc n) [] x le at e = absurd (omega arith)
leading_symbols-pos (suc n) (c ∷ buf) x le at e =
    let same : is_chinese c ≡ false = head_eq c x at e in
    let (i, run, small) = leading_symbols-le n buf (omega arith) in
    rw (same, run, ◌>>=◌) (suc i, refl, omega arith, λ pos. omega arith)
  where
    head_eq : (c x : PreeditBuf) → some c ≡ some x → is_chinese x ≡ false → is_chinese c ≡ false
    head_eq c x at e = cc

-- What `CountReleaseNum` answers: entries of the text, some of them if it is too long.
pub record Counted (d : ChewingData) (out : Option (ℕ × ChewingData)) : Type 0 where
  pub k : ℕ
  pub prefer : List Interval
  pub returned : out ≡ some (k, record d { prefer_interval = prefer })
  pub k_le : k ≤ d.chi_symbol_buf_len
  pub some_left : d.max_chi_symbol_len < d.chi_symbol_buf_len → 0 < d.chi_symbol_cursor → 0 < k

module _ (d : ChewingData) (w : WellFormed d) (h : AllInside d.n_phone_seq d.prefer_interval) where
  abbrev sorted : ChewingData
  sorted = record d { prefer_interval = sort_intervals d.prefer_interval }

  interval-Counted :
      (o : Option Interval)
      → Inside d.n_phone_seq o
      → 0 < d.chi_symbol_buf_len
      → Counted d (elim o [ some i ↦ some (i.to - i.from, sorted) | none ↦ some (1, sorted) ])
  unfolding Inside
  interval-Counted none inside pos = record {
    k = 1;
    prefer = sort_intervals d.prefer_interval;
    returned = refl;
    k_le = omega arith;
    some_left = λ a b. omega arith;
  }
  interval-Counted (some i) (full, inside) pos = record {
    k = i.to - i.from;
    prefer = sort_intervals d.prefer_interval;
    returned = refl;
    k_le = omega (arith, phones-le d w);
    some_left = λ a b. omega arith;
  }

  symbols-Counted :
      (x : PreeditBuf)
      → get_elem? d.preedit_buf 0 ≡ some x
      → is_chinese x ≡ false
      → Counted d (leading_symbols d.chi_symbol_cursor d.preedit_buf >>= λ i. some (i, sorted))
  symbols-Counted x at e =
      let (i, run, small, pos) =
        leading_symbols-pos d.chi_symbol_cursor d.preedit_buf x
          (omega (arith, w.cursor_le, w.len_le, w.preedit_size)) at e in
      rw (run, ◌>>=◌)
        record {
          k = i;
          prefer = sort_intervals d.prefer_interval;
          returned = refl;
          k_le = omega (arith, w.cursor_le);
          some_left = λ a b. pos b;
        }

  pub count_release_num-Counted : Counted d (count_release_num d)
  unfolding count_release_num chewing_is_chi_at
  count_release_num-Counted =
      if-intro (Counted d) (leb d.chi_symbol_buf_len d.max_chi_symbol_len)
        (λ e. record {
          k = 0;
          prefer = d.prefer_interval;
          returned = refl;
          k_le = omega arith;
          some_left = λ a b. absurd (ground arith);
        })
        (λ e.
          let long : d.max_chi_symbol_len < d.chi_symbol_buf_len = ground arith in
          let (x, at, eq) = take-hole 0 49 50 d.preedit_buf refl (omega (arith, w.preedit_size)) in
          elim (Bool-cases (is_chinese x)) [
            | inl c ↦
                rw (at, ◌>>=◌, c, ◌>>=◌)
                  (interval-Counted _
                    (find_interval_from-Inside d.n_phone_seq 0 _ (sort_intervals-AllInside _ _ h))
                    (omega arith))
            | inr c ↦ rw (at, ◌>>=◌, c, ◌>>=◌) (symbols-Counted x at c)
          ])
