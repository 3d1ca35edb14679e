-- ===== src/Key2pho/Syllable.antt =====
-- The text of one syllable, through the loops of `PhoneFromUint` and `UintFromPhone`.
use libchewing.Common.{
  ℕ, zero, suc, ◌≤◌, ◌<◌, ◌≡◌, refl, ap, sym, ◌∙◌, true, some, List, [], ◌∷◌, ◌++◌, length, arith,
  append_assoc, append-nil, length-append,
}
use libchewing.Key2pho.{at_end, uint_from_phone_loop, uint_from_phone, symbols_loop, phone_index}
use libchewing.Key2pho.Bits.{pack, or_at, Packed-of_valid}
use libchewing.Key2pho.Tables.{
  Class, class0, class1, class2, class3, classes, initials, medials, finals, tones,
}
use libchewing.Key2pho.Entries.{
  spell, Entry-of_table, apart-of_table, class_table, apart_table, table0, table1, table2, table3,
  apart01, apart02, apart03, apart12, apart13, apart23,
}
use libchewing.Key2pho.Symbols.{
  IsSymbol-nonempty, no_space, no_space-append, uint_from_phone_loop-symbol,
  uint_from_phone_loop-skip,
}

pub at_end-nil : at_end [] ≡ true
unfolding at_end
at_end-nil = refl

-- Nothing is left to read.
loop-end :
    (cs : List Class) (s : List ℕ) (r : ℕ) → at_end s ≡ true → uint_from_phone_loop cs s r ≡ some r
unfolding uint_from_phone_loop
loop-end [] s r h = rw h
loop-end (c ∷ cs) s r h = rw h

-- No symbol of class `c` stands at the start of `s`.
abbrev Skips : Class → List ℕ → Type 0
Skips c s =
    (cs : List Class) (r : ℕ) → uint_from_phone_loop (c ∷ cs) s r ≡ uint_from_phone_loop cs s r

Skips-end : (c : Class) (s : List ℕ) → at_end s ≡ true → Skips c s
Skips-end c s h cs r = loop-end (c ∷ cs) s r h ∙ sym (loop-end cs s r h)

Skips-spell :
    (c c' : Class) (chars : List (List ℕ)) (k : ℕ) (s : List ℕ)
    → class_table c' chars ≡ true
    → apart_table c chars ≡ true
    → k ≤ length chars
    → Skips c s
    → Skips c (spell chars k ++ s)
Skips-spell c c' chars zero s t a le h = h
Skips-spell c c' chars (suc k) s t a le h = λ cs r.
    uint_from_phone_loop-skip c cs s r (Entry-of_table c' chars t k le).symbol
      (apart-of_table c chars a k le)

-- The class reads its own symbol, if it has one, and leaves the rest.
loop-spell :
    (c : Class) (chars : List (List ℕ)) (cs : List Class) (k : ℕ) (s : List ℕ) (r : ℕ)
    → class_table c chars ≡ true
    → k ≤ length chars
    → Skips c s
    → uint_from_phone_loop (c ∷ cs) (spell chars k ++ s) r
      ≡ uint_from_phone_loop cs s (or_at r k c.shift)
loop-spell c chars cs zero s r t le h = h cs r
loop-spell c chars cs (suc k) s r t le h =
    let e = Entry-of_table c chars t k le in uint_from_phone_loop-symbol c cs s r k e.symbol e.index

symbols_loop-spell :
    (c : Class) (chars : List (List ℕ)) (cs : List Class) (k n : ℕ) {t : List ℕ}
    → class_table c chars ≡ true
    → k ≤ length chars
    → phone_index c n ≡ k
    → symbols_loop cs n ≡ some t
    → symbols_loop (c ∷ cs) n ≡ some (spell chars k ++ t)
unfolding symbols_loop
symbols_loop-spell c chars cs zero n table le index rest = rw (index, rest)
symbols_loop-spell c chars cs (suc k) n table le index rest =
    rw (index, (Entry-of_table c chars table k le).text, rest) (ground arith)

length-spell :
    (c : Class) (chars : List (List ℕ)) (k : ℕ)
    → class_table c chars ≡ true
    → k ≤ length chars
    → (length (spell chars k) ≤ 3) × (length (spell chars k) ≡ 0 → k ≡ 0)
length-spell c chars zero t le = (omega arith, λ h. refl)
length-spell c chars (suc k) t le =
    let symbol = (Entry-of_table c chars t k le).symbol in
    (symbol.fits, λ h. absurd (IsSymbol-nonempty _ symbol h))

no_space-spell :
    (c : Class) (chars : List (List ℕ)) (k : ℕ)
    → class_table c chars ≡ true
    → k ≤ length chars
    → no_space (spell chars k) ≡ true
no_space-spell c chars zero t le = refl
no_space-spell c chars (suc k) t le = (Entry-of_table c chars t k le).symbol.no_spaces

-- The text of a syllable, by its four indices.
pub syllable : ℕ → ℕ → ℕ → ℕ → List ℕ
syllable a b c d = spell initials a ++ (spell medials b ++ (spell finals c ++ spell tones d))

module _ {a b c d : ℕ} (ha : a < 22) (hb : b < 4) (hc : c < 14) (hd : d < 5) where
  pub symbols_loop-pack : symbols_loop classes (pack a b c d) ≡ some (syllable a b c d)
  unfolding syllable
  symbols_loop-pack =
      let p = Packed-of_valid a b c d ha hb hc hd in
      let tone = symbols_loop-spell class3 tones [] d _ table3 (omega arith) p.field3 last in
      symbols_loop-spell class0 initials _ a _ table0 (omega arith) p.field0 (
        symbols_loop-spell class1 medials _ b _ table1 (omega arith) p.field1 (
          symbols_loop-spell class2 finals _ c _ table2 (omega arith) p.field2
            (tone ∙ ap some (append-nil (spell tones d)))))
    where
      last : symbols_loop [] (pack a b c d) ≡ some []
      last = unfold symbols_loop in refl

  loop-syllable :
      (rest : List ℕ)
      → at_end rest ≡ true
      → uint_from_phone_loop classes
          (spell initials a ++ (spell medials b ++ (spell finals c ++ (spell tones d ++ rest))))
          0
        ≡ some (pack a b c d)
  loop-syllable rest h =
      let end = λ (k : Class). Skips-end k rest h in
      let skip_tone = λ (k : Class) (apart : apart_table k tones ≡ true).
        Skips-spell k class3 tones d rest table3 apart (omega arith) (end k) in
      let skip_final =
        λ (k : Class) (apart : apart_table k finals ≡ true) (apart' : apart_table k tones ≡ true).
          Skips-spell k class2 finals c _ table2 apart (omega arith) (skip_tone k apart') in
      let skip_medial =
        Skips-spell class0 class1 medials b _ table1 apart01 (omega arith)
          (skip_final class0 apart02 apart03) in
      loop-spell class0 initials _ a _ 0 table0 (omega arith) skip_medial
      ∙ loop-spell class1 medials _ b _ _ table1 (omega arith) (skip_final class1 apart12 apart13)
      ∙ loop-spell class2 finals _ c _ _ table2 (omega arith) (skip_tone class2 apart23)
      ∙ loop-spell class3 tones [] d rest _ table3 (omega arith) (end class3)
      ∙ loop-end [] rest _ h
      ∙ ap some (Packed-of_valid a b c d ha hb hc hd).skipping

  append-syllable :
      (rest : List ℕ)
      → syllable a b c d ++ rest
        ≡ spell initials a ++ (spell medials b ++ (spell finals c ++ (spell tones d ++ rest)))
  unfolding syllable
  append-syllable rest = simp append_assoc

  -- A syllable is read back, up to the end of the string or a space.
  pub uint_from_phone-syllable :
      (rest : List ℕ)
      → at_end rest ≡ true
      → uint_from_phone (syllable a b c d ++ rest) ≡ some (pack a b c d)
  unfolding uint_from_phone
  uint_from_phone-syllable rest h =
      ap (λ s. uint_from_phone_loop classes s 0) (append-syllable rest) ∙ loop-syllable rest h

  pub length-syllable :
      (length (syllable a b c d) ≤ 12)
      × (length (syllable a b c d) ≡ 0 → (a ≡ 0) × (b ≡ 0) × (c ≡ 0) × (d ≡ 0))
  unfolding syllable
  length-syllable =
      let la = length-spell class0 initials a table0 (omega arith) in
      let lb = length-spell class1 medials b table1 (omega arith) in
      let lc = length-spell class2 finals c table2 (omega arith) in
      let ld = length-spell class3 tones d table3 (omega arith) in
      let e1 =
        length-append (spell initials a) (spell medials b ++ (spell finals c ++ spell tones d)) in
      let e2 = length-append (spell medials b) (spell finals c ++ spell tones d) in
      let e3 = length-append (spell finals c) (spell tones d) in
      (
        omega arith,
        λ h. (la.1 (omega arith), lb.1 (omega arith), lc.1 (omega arith), ld.1 (omega arith)),
      )

  pub no_space-syllable : no_space (syllable a b c d) ≡ true
  unfolding syllable
  no_space-syllable =
      no_space-append (spell initials a) _ (no_space-spell class0 initials a table0 (omega arith)) (
        no_space-append (spell medials b) _ (no_space-spell class1 medials b table1 (omega arith)) (
          no_space-append (spell finals c) _ (no_space-spell class2 finals c table2 (omega arith))
            (no_space-spell class3 tones d table3 (omega arith))))
