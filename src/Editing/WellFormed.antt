-- ===== src/Editing/WellFormed.antt =====
-- The invariant of the edit buffer of src/chewingutil.c.
use libchewing.Common.{
  ℕ, zero, suc, ◌-◌, ◌≤◌, ◌≡◌, refl, ◌∙◌, sym, ap, some, List, [], ◌∷◌, ◌++◌, length, take, drop,
  arith, length-take, take-append_length, drop-append_length,
}
use libchewing.Editing.{PreeditBuf, ChewingData, phone_seq_cursor}
use libchewing.Editing.Contents.{
  Cell, view, contents, count_all, count_all-append, count_all-le, phone_seq_cursor-eq, length-view,
  view-append, take-split,
}

-- Arrays have their sizes, the cursor is in the text, and there is a phone for each character.
pub record WellFormed (d : ChewingData) : Type 0 where
  pub preedit_size : length d.preedit_buf ≡ 50
  pub phone_size : length d.phone_seq ≡ 50
  pub phone_alt_size : length d.phone_seq_alt ≡ 50
  pub cnnct_size : length d.user_arr_cnnct ≡ 51
  pub brkpt_size : length d.user_arr_brkpt ≡ 51
  pub key_size : length d.symbol_key_buf ≡ 50
  pub cursor_le : d.chi_symbol_cursor ≤ d.chi_symbol_buf_len
  pub len_le : d.chi_symbol_buf_len ≤ 50
  pub phones : d.n_phone_seq ≡ count_all (take d.chi_symbol_buf_len d.preedit_buf)

-- The text before the entry `at`, and from it on; `k` characters come before it.
pub record Split (d : ChewingData) (at : ℕ) : Type 0 where
  pub k : ℕ
  pub k_eq : k ≡ count_all (take at d.preedit_buf)
  pub cursor_eq : phone_seq_cursor (record d { chi_symbol_cursor = at }) ≡ some k
  pub k_le : k ≤ d.n_phone_seq
  pub phones_before : length (take k d.phone_seq) ≡ k
  pub size_before : length (view (take at d.preedit_buf) (take k d.phone_seq)) ≡ at
  pub text :
      contents d
      ≡ view (take at d.preedit_buf) (take k d.phone_seq)
        ++ view
            (take (d.chi_symbol_buf_len - at) (drop at d.preedit_buf))
            (take (d.n_phone_seq - k) (drop k d.phone_seq))

module _ (d : ChewingData) (w : WellFormed d) where
  pub phones-le : d.n_phone_seq ≤ d.chi_symbol_buf_len
  phones-le = omega (
    arith,
    w.phones,
    count_all-le (take d.chi_symbol_buf_len d.preedit_buf),
    length-take d.chi_symbol_buf_len d.preedit_buf,
  )

  pub Split-at : (at : ℕ) → at ≤ d.chi_symbol_buf_len → Split d at
  Split-at at le =
      let n = d.chi_symbol_buf_len in
      let buf = d.preedit_buf in
      let seq = d.phone_seq in
      let k = count_all (take at buf) in
      let cells = take-split at (n - at) n buf (omega arith) in
      let counts =
        w.phones
        ∙ ap count_all cells
        ∙ count_all-append (take at buf) (take (n - at) (drop at buf)) in
      let before : length (take k seq) ≡ k =
        omega (arith, length-take k seq, counts, phones-le, w.len_le, w.phone_size) in
      let phones = take-split k (d.n_phone_seq - k) d.n_phone_seq seq (omega (arith, counts)) in
      record {
        k = k;
        k_eq = refl;
        cursor_eq =
            phone_seq_cursor-eq (record d { chi_symbol_cursor = at })
              (omega (arith, w.preedit_size, w.len_le));
        k_le = omega (arith, counts);
        phones_before = before;
        size_before =
            length-view (take at buf) (take k seq)
            ∙ omega (arith, length-take at buf, w.preedit_size, w.len_le);
        text =
            ap (λ c. view c (take d.n_phone_seq seq)) cells
            ∙ ap (view (take at buf ++ take (n - at) (drop at buf))) phones
            ∙ view-append _ _ _ _ before;
      }

-- A concatenation cut where its first part ends.
pub cut-append {ℓ} :
    {A : Type ℓ} (at : ℕ) (xs ys : List A)
    → length xs ≡ at
    → (take at (xs ++ ys) ≡ xs) × (drop at (xs ++ ys) ≡ ys)
cut-append at xs ys e = (
  ap (λ n. take n (xs ++ ys)) (sym e) ∙ take-append_length xs ys,
  ap (λ n. drop n (xs ++ ys)) (sym e) ∙ drop-append_length xs ys,
)

module _ (d : ChewingData) (at : ℕ) (s : Split d at) where
  halves :
      (take at (contents d) ≡ view (take at d.preedit_buf) (take s.k d.phone_seq))
      × (drop at (contents d)
          ≡ view
              (take (d.chi_symbol_buf_len - at) (drop at d.preedit_buf))
              (take (d.n_phone_seq - s.k) (drop s.k d.phone_seq)))
  halves =
      let (l, r) =
        cut-append at _
          (view (take (d.chi_symbol_buf_len - at) (drop at d.preedit_buf))
            (take (d.n_phone_seq - s.k) (drop s.k d.phone_seq)))
          s.size_before in
      (ap (take at) s.text ∙ l, ap (drop at) s.text ∙ r)

  -- The text of arrays that agree with `d` before `at`.
  pub Split-view :
      (cells : List PreeditBuf) (ps : List ℕ)
      → view (take at d.preedit_buf ++ cells) (take s.k d.phone_seq ++ ps)
        ≡ take at (contents d) ++ view cells ps
  Split-view cells ps =
      view-append _ cells _ ps (s.phones_before ∙ s.k_eq)
      ∙ ap (λ l. l ++ view cells ps) (sym (halves.0))

  pub Split-rest :
      view
        (take (d.chi_symbol_buf_len - at) (drop at d.preedit_buf))
        (take (d.n_phone_seq - s.k) (drop s.k d.phone_seq))
      ≡ drop at (contents d)
  Split-rest = sym (halves.1)

  -- The entry at `at` and the text after it.
  pub Split-after :
      (cell : Cell) (rest : List Cell)
      → contents d ≡ take at (contents d) ++ cell ∷ rest
      → drop (suc at) (contents d) ≡ rest
  Split-after cell rest e =
      ap (drop (suc at)) e
      ∙ drop-past at (take at (contents d)) cell rest (ap length (halves.0) ∙ s.size_before)
    where
      drop-past :
          (n : ℕ) (l : List Cell) (y : Cell) (r : List Cell)
          → length l ≡ n
          → drop (suc n) (l ++ y ∷ r) ≡ r
      drop-past zero [] y r e = refl
      drop-past zero (z ∷ l) y r e = absurd (omega (arith, e))
      drop-past (suc n) [] y r e = absurd (omega (arith, e))
      drop-past (suc n) (z ∷ l) y r e = drop-past n l y r (omega (arith, e))
