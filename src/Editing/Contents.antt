-- ===== src/Editing/Contents.antt =====
-- The text that the arrays of src/chewingutil.c stand for: characters with their phones, and symbols.
use libchewing.Common.{
  ℕ, zero, suc, ◌+◌, ◌-◌, ◌≤◌, ◌≡◌, refl, sym, ap, true, false, some, List, [], ◌∷◌, ◌++◌, length,
  take, drop, get_elem?, if◌then◌else◌, ◌>>=◌, arith, length-take, Bool-cases, inl, inr,
}
use libchewing.Editing.{PreeditBuf, is_chinese, ChewingData, count_chi, phone_seq_cursor}

-- An entry of the text.
pub data Cell : Type 0 where
  character : ℕ → Cell
  mark : List ℕ → Cell

-- A character takes the next phone.
abbrev pub cell_of : PreeditBuf → List ℕ → Cell
cell_of c phones =
    if is_chinese c then elim phones [ [] ↦ character 0 | p ∷ rest ↦ character p ] else mark c.char_

abbrev pub phones_after : PreeditBuf → List ℕ → List ℕ
phones_after c phones = if is_chinese c then drop 1 phones else phones

unfoldable pub view : List PreeditBuf → List ℕ → List Cell
view [] phones = []
view (c ∷ cells) phones = cell_of c phones ∷ view cells (phones_after c phones)

abbrev pub contents : ChewingData → List Cell
contents d = view (take d.chi_symbol_buf_len d.preedit_buf) (take d.n_phone_seq d.phone_seq)

-- How many characters there are.
unfoldable pub count_all : List PreeditBuf → ℕ
count_all [] = 0
count_all (c ∷ cells) = if is_chinese c then suc (count_all cells) else count_all cells

pub view-character :
    (c : PreeditBuf) (cells : List PreeditBuf) (p : ℕ) (phones : List ℕ)
    → is_chinese c ≡ true
    → view (c ∷ cells) (p ∷ phones) ≡ character p ∷ view cells phones
unfolding view
view-character c cells p phones e = rw e refl

pub view-mark :
    (c : PreeditBuf) (cells : List PreeditBuf) (phones : List ℕ)
    → is_chinese c ≡ false
    → view (c ∷ cells) phones ≡ mark c.char_ ∷ view cells phones
unfolding view
view-mark c cells phones e = rw e refl

pub count_all-character :
    (c : PreeditBuf) (cells : List PreeditBuf)
    → is_chinese c ≡ true
    → count_all (c ∷ cells) ≡ suc (count_all cells)
unfolding count_all
count_all-character c cells e = rw e refl

pub count_all-mark :
    (c : PreeditBuf) (cells : List PreeditBuf)
    → is_chinese c ≡ false
    → count_all (c ∷ cells) ≡ count_all cells
unfolding count_all
count_all-mark c cells e = rw e refl

pub count_all-append :
    (xs ys : List PreeditBuf) → count_all (xs ++ ys) ≡ count_all xs + count_all ys
unfolding count_all
count_all-append [] ys = omega arith
count_all-append (c ∷ xs) ys = ground (arith, count_all-append xs ys)

pub count_all-le : (xs : List PreeditBuf) → count_all xs ≤ length xs
unfolding count_all
count_all-le [] = omega arith
count_all-le (c ∷ xs) = ground (arith, count_all-le xs)

pub count_chi-eq :
    (n : ℕ) (buf : List PreeditBuf)
    → n ≤ length buf
    → count_chi n buf ≡ some (count_all (take n buf))
unfolding count_chi count_all
count_chi-eq zero buf le = refl
count_chi-eq (suc n) [] le = absurd (omega arith)
count_chi-eq (suc n) (c ∷ buf) le = elim (Bool-cases (is_chinese c)) [
  | inl e ↦ rw (count_chi-eq n buf (omega arith), ◌>>=◌, e) refl
  | inr e ↦ rw (count_chi-eq n buf (omega arith), ◌>>=◌, e) refl
]

-- `PhoneSeqCursor` is the number of characters before the cursor.
pub phone_seq_cursor-eq :
    (d : ChewingData)
    → d.chi_symbol_cursor ≤ length d.preedit_buf
    → phone_seq_cursor d ≡ some (count_all (take d.chi_symbol_cursor d.preedit_buf))
unfolding phone_seq_cursor
phone_seq_cursor-eq d le =
    let n = count_all (take d.chi_symbol_cursor d.preedit_buf) in
    let back : d.chi_symbol_cursor - (d.chi_symbol_cursor - n) ≡ n = omega (
      arith,
      count_all-le (take d.chi_symbol_cursor d.preedit_buf),
      length-take d.chi_symbol_cursor d.preedit_buf,
    ) in
    rw (count_chi-eq d.chi_symbol_cursor d.preedit_buf le, ◌>>=◌) (ap some back)

pub length-view : (xs : List PreeditBuf) (ps : List ℕ) → length (view xs ps) ≡ length xs
unfolding view
length-view [] ps = refl
length-view (c ∷ xs) ps = ap suc (length-view xs (phones_after c ps))

pub view-append :
    (xs ys : List PreeditBuf) (ps qs : List ℕ)
    → length ps ≡ count_all xs
    → view (xs ++ ys) (ps ++ qs) ≡ view xs ps ++ view ys qs
unfolding view count_all
view-append [] ys [] qs e = refl
view-append [] ys (p ∷ ps) qs e = absurd (omega (arith, e))
view-append (c ∷ xs) ys [] qs e = elim (Bool-cases (is_chinese c)) [
  | inl t ↦ absurd (ground (arith, e))
  | inr f ↦ rw f (ap (λ l. mark c.char_ ∷ l) (view-append xs ys [] qs (ground (arith, e))))
]
view-append (c ∷ xs) ys (p ∷ ps) qs e = elim (Bool-cases (is_chinese c)) [
  | inl t ↦ rw t (ap (λ l. character p ∷ l) (view-append xs ys ps qs (ground (arith, e))))
  | inr f ↦ rw f (ap (λ l. mark c.char_ ∷ l) (view-append xs ys (p ∷ ps) qs (ground (arith, e))))
]

module _ {A : Type 0} where
  take-nil : (m : ℕ) → take {A = A} m [] ≡ []
  take-nil zero = refl
  take-nil (suc m) = refl

  -- A prefix in two parts.
  pub take-split :
      (at m n : ℕ) (xs : List A) → n ≡ at + m → take n xs ≡ take at xs ++ take m (drop at xs)
  take-split zero m n xs e = let same : n ≡ m = omega (arith, e) in ap (λ k. take k xs) same
  take-split (suc at) m zero xs e = absurd (omega (arith, e))
  take-split (suc at) m (suc n) [] e = sym (take-nil m)
  take-split (suc at) m (suc n) (x ∷ xs) e =
      ap (λ l. x ∷ l) (take-split at m n xs (omega (arith, e)))

  -- And in two parts with the entry between them.
  pub take-hole :
      (at m n : ℕ) (xs : List A)
      → n ≡ suc (at + m)
      → n ≤ length xs
      → (x : A) × (get_elem? xs at ≡ some x)
        × (take n xs ≡ take at xs ++ x ∷ take m (drop (suc at) xs))
  take-hole at m zero xs e le = absurd (omega (arith, e))
  take-hole at m (suc n) [] e le = absurd (omega arith)
  take-hole zero m (suc n) (x ∷ xs) e le =
      let same : n ≡ m = omega (arith, e) in (x, refl, ap (λ k. x ∷ take k xs) same)
  take-hole (suc at) m (suc n) (x ∷ xs) e le =
      let (y, found, eq) = take-hole at m n xs (omega (arith, e)) (omega arith) in
      (y, found, ap (λ l. x ∷ l) eq)
