-- ===== src/Conversion/Prepared.antt =====
-- The marks that CallPhrasing of src/chewingutil.c sets, and the selections that it keeps.
use libchewing.Conversion.{Marks, mark_symbols, kill_across_marks, set_marks}
use libchewing.Editing.{PreeditBuf, Interval, ChewingData, is_chinese, chewing_is_chi_at, store}
use libchewing.Editing.Contents.{count_all, count_all-le}
use libchewing.Editing.WellFormed.{WellFormed, phones-le}
use libchewing.Editing.Index.{
  NoneAcross, chewing_kill_select_interval_across, kill_across_loop,
  kill_select_interval_across-NoneAcross,
}
use libchewing.Common.{
  ℕ, zero, suc, ◌+◌, ◌-◌, ◌≤◌, ◌<◌, ◌≡◌, ◌≢◌, ◌⊎◌, inl, inr, refl, ap, sym, subst, ◌∙◌, true, false,
  some, List, [], ◌∷◌, ◌++◌, length, take, drop, set, replicate, get_elem?, ltb, ◌==◌, ◌&&◌,
  if◌then◌else◌, arith, Bool-cases, if-intro, get_elem?-set_self, get_elem?-set_ne, get_elem?-total,
  eq_or_ne, length-take, some-inj, >>=-eq-some, take-append-drop,
}

length-set : (xs : List ℕ) (i v : ℕ) → length (set xs i v) ≡ length xs
length-set [] i v = refl
length-set (x ∷ xs) zero v = refl
length-set (x ∷ xs) (suc i) v = ap suc (length-set xs i v)

-- One more entry of a text.
count_all-take_one :
    (i : ℕ) (buf : List PreeditBuf) (c : PreeditBuf)
    → get_elem? buf i ≡ some c
    → count_all (take (i + 1) buf)
      ≡ (if is_chinese c then count_all (take i buf) + 1 else count_all (take i buf))
unfolding count_all
count_all-take_one i [] c e = absurd (ground arith)
count_all-take_one zero (x ∷ buf) c e =
    let same : x ≡ c = some-inj e in
    subst (λ y. count_all (take 1 (x ∷ buf)) ≡ (if is_chinese y then 1 else 0)) same (ground arith)
count_all-take_one (suc i) (x ∷ buf) c e =
    let rest = count_all-take_one i buf c e in
    let e1 : suc i + 1 ≡ suc (i + 1) = omega arith in
    subst
      (λ n. count_all (take n (x ∷ buf)) ≡ (
        if is_chinese c
        then count_all (take (suc i) (x ∷ buf)) + 1
        else count_all (take (suc i) (x ∷ buf))))
      (sym e1) (ground (arith, rest))

-- One of the entries from `i` on, before `stop`, is a symbol with `k` characters before it.
pub record SymbolAt (d : ChewingData) (i stop k : ℕ) : Type 0 where
  pub place : ℕ
  pub cell : PreeditBuf
  pub after : i ≤ place
  pub before : place < stop
  pub is_cell : get_elem? (d.preedit_buf) place ≡ some cell
  pub symbol : is_chinese cell ≡ false
  pub characters : count_all (take place d.preedit_buf) ≡ k

SymbolAt-sooner :
    (d : ChewingData) (i i' stop stop' k : ℕ)
    → i ≤ i'
    → stop' ≡ stop
    → SymbolAt d i' stop' k
    → SymbolAt d i stop k
SymbolAt-sooner d i i' stop stop' k le same s = record {
  place = s.place;
  cell = s.cell;
  after = omega (arith, s.after);
  before = omega (arith, s.before);
  is_cell = s.is_cell;
  symbol = s.symbol;
  characters = s.characters;
}

-- What the loop over the entries from `i` on makes of the marks.
record Marked (d : ChewingData) (i stop : ℕ) (marks out : Marks) : Type 0 where
  pub brkpt_size : length out.arr_brkpt ≡ 51
  pub symbol_mark :
      (j : ℕ) (c : PreeditBuf)
      → i ≤ j
      → j < stop
      → get_elem? (d.preedit_buf) j ≡ some c
      → is_chinese c ≡ false
      → (get_elem? (out.symbol_arr_brkpt) j ≡ some 1)
        × (get_elem? (out.arr_brkpt) (count_all (take j d.preedit_buf)) ≡ some 1)
  pub no_mark :
      (j : ℕ) (c : PreeditBuf)
      → get_elem? (d.preedit_buf) j ≡ some c
      → is_chinese c ≡ true
      → get_elem? (out.symbol_arr_brkpt) j ≡ get_elem? (marks.symbol_arr_brkpt) j
  pub symbols_stay :
      (j : ℕ)
      → get_elem? (marks.symbol_arr_brkpt) j ≡ some 1
      → get_elem? (out.symbol_arr_brkpt) j ≡ some 1
  pub marks_stay :
      (k : ℕ)
      → (get_elem? (out.arr_brkpt) k ≡ get_elem? (marks.arr_brkpt) k)
        ⊎ ((get_elem? (out.arr_brkpt) k ≡ some 1) × SymbolAt d i stop k)

module _ (d : ChewingData) (w : WellFormed d) where
  mark_symbols-Marked :
      (count i : ℕ) (marks : Marks)
      → i + count ≤ 50
      → length marks.arr_brkpt ≡ 51
      → length marks.symbol_arr_brkpt ≡ 51
      → (out : Marks) × (mark_symbols count i (count_all (take i d.preedit_buf)) d marks ≡ some out)
        × Marked d i (i + count) marks out
  unfolding mark_symbols chewing_is_chi_at store
  mark_symbols-Marked zero i marks le lb ls = (
    marks,
    refl,
    record {
      brkpt_size = lb;
      symbol_mark = λ j c lo hi e n. absurd (omega arith);
      no_mark = λ j c e y. refl;
      symbols_stay = λ j e. e;
      marks_stay = λ k. inl refl;
    },
  )
  mark_symbols-Marked (suc count) i marks le lb ls =
      let buf = d.preedit_buf in
      let at = get_elem?-total buf i (omega (arith, w.preedit_size)) in
      let k = count_all (take i buf) in
      let step = count_all-take_one i buf at.0 at.1 in
      elim (Bool-cases (is_chinese at.0)) [
        | inl y ↦
            let next : count_all (take (i + 1) buf) ≡ k + 1 = (step ∙ rw y refl) in
            let rest = mark_symbols-Marked count (i + 1) marks (omega arith) lb ls in
            let m = rest.2 in
            (
              rest.0,
              rw (at.1, y)
                  (subst (λ n. mark_symbols count (i + 1) n d marks ≡ some rest.0) next rest.1),
              record {
                brkpt_size = m.brkpt_size;
                symbol_mark = λ j c lo hi e n. elim (eq_or_ne j i) [
                  | inl same ↦ absurd (
                      let e' = subst (λ q. get_elem? buf q ≡ some c) same e in
                      let same_cell : at.0 ≡ c = some-inj (sym at.1 ∙ e') in
                      let y' = subst (λ q. is_chinese q ≡ true) same_cell y in cc)
                  | inr differ ↦ m.symbol_mark j c (omega (arith, differ)) (omega arith) e n
                ];
                no_mark = m.no_mark;
                symbols_stay = m.symbols_stay;
                marks_stay = λ q. elim (m.marks_stay q) [
                  | inl kept ↦ inl kept
                  | inr (one, s) ↦
                      inr (one, SymbolAt-sooner d i (i + 1) _ _ q (omega arith) (omega arith) s)
                ];
              },
            )
        | inr n ↦
            let next : count_all (take (i + 1) buf) ≡ k = (step ∙ rw n refl) in
            let brkpt = set marks.arr_brkpt k 1 in
            let symbols = set marks.symbol_arr_brkpt i 1 in
            let k_le : k ≤ 50 =
              omega (arith, count_all-le (take i buf), length-take i buf, w.preedit_size) in
            let rest =
              mark_symbols-Marked count (i + 1)
                (record { arr_brkpt = brkpt; symbol_arr_brkpt = symbols }) (omega arith)
                (length-set marks.arr_brkpt k 1 ∙ lb)
                (length-set marks.symbol_arr_brkpt i 1 ∙ ls) in
            let m = rest.2 in
            let e1 : ltb k (length marks.arr_brkpt) ≡ true = ground arith in
            let e2 : ltb i (length marks.symbol_arr_brkpt) ≡ true = ground arith in
            let set_b : get_elem? brkpt k ≡ some 1 =
              get_elem?-set_self marks.arr_brkpt k 1 (omega arith) in
            let set_s : get_elem? symbols i ≡ some 1 =
              get_elem?-set_self marks.symbol_arr_brkpt i 1 (omega arith) in
            (
              rest.0,
              rw (at.1, n, e1, e2)
                  (subst
                    (λ q.
                      mark_symbols count (i + 1) q d
                        (record { arr_brkpt = brkpt; symbol_arr_brkpt = symbols })
                      ≡ some rest.0)
                    next rest.1),
              record {
                brkpt_size = m.brkpt_size;
                symbol_mark = λ j c lo hi e n'. elim (eq_or_ne j i) [
                  | inl same ↦
                      subst
                        (λ q.
                          (get_elem? (rest.0.symbol_arr_brkpt) q ≡ some 1)
                          × (get_elem? (rest.0.arr_brkpt) (count_all (take q buf)) ≡ some 1))
                        (sym same)
                        (
                          m.symbols_stay i set_s,
                          elim (m.marks_stay k) [ inl kept ↦ kept ∙ set_b | inr (one, s) ↦ one ],
                        )
                  | inr differ ↦ m.symbol_mark j c (omega (arith, differ)) (omega arith) e n'
                ];
                no_mark = λ j c e y.
                    m.no_mark j c e y
                    ∙ get_elem?-set_ne marks.symbol_arr_brkpt i j 1 (λ same.
                      let e' = subst (λ q. get_elem? buf q ≡ some c) (sym same) e in
                      let same_cell : at.0 ≡ c = some-inj (sym at.1 ∙ e') in
                      let n' = subst (λ q. is_chinese q ≡ false) same_cell n in cc);
                symbols_stay = λ j e. m.symbols_stay j (elim (eq_or_ne j i) [
                  | inl same ↦ subst (λ q. get_elem? symbols q ≡ some 1) (sym same) set_s
                  | inr differ ↦
                      get_elem?-set_ne marks.symbol_arr_brkpt i j 1 (λ same. differ (sym same)) ∙ e
                ]);
                marks_stay = λ q. elim (m.marks_stay q) [
                  | inl kept ↦ elim (eq_or_ne q k) [
                    | inl same ↦ inr (
                      kept ∙ subst (λ r. get_elem? brkpt r ≡ some 1) (sym same) set_b,
                      record {
                        place = i;
                        cell = at.0;
                        after = omega arith;
                        before = omega arith;
                        is_cell = at.1;
                        symbol = n;
                        characters = sym same;
                      },
                    )
                    | inr differ ↦
                        inl (
                          kept ∙ get_elem?-set_ne marks.arr_brkpt k q 1 (λ same. differ (sym same)))
                  ]
                  | inr (one, s) ↦
                      inr (one, SymbolAt-sooner d i (i + 1) _ _ q (omega arith) (omega arith) s)
                ];
              },
            )
      ]

-- The selections are looked at with the mark of one phone after the other.
NoneAcross-split :
    (k : ℕ) (xs ys : List (Interval × List ℕ))
    → NoneAcross k (xs ++ ys)
    → NoneAcross k xs × NoneAcross k ys
unfolding NoneAcross
NoneAcross-split k [] ys h = (omega arith, h)
NoneAcross-split k (x ∷ xs) ys h =
    let rest = NoneAcross-split k xs ys h.1 in ((h.0, rest.0), rest.1)

NoneAcross-join :
    (k : ℕ) (xs ys : List (Interval × List ℕ))
    → NoneAcross k xs
    → NoneAcross k ys
    → NoneAcross k (xs ++ ys)
unfolding NoneAcross
NoneAcross-join k [] ys hx hy = hy
NoneAcross-join k (x ∷ xs) ys hx hy = (hx.0, NoneAcross-join k xs ys hx.1 hy)

NoneAcross-rotated :
    (k n : ℕ) (xs : List (Interval × List ℕ))
    → NoneAcross k xs
    → NoneAcross k (drop n xs ++ take n xs)
NoneAcross-rotated k n xs h =
    let parts =
      NoneAcross-split k (take n xs) (drop n xs)
        (subst (NoneAcross k) (sym (take-append-drop n xs)) h) in
    NoneAcross-join k (drop n xs) (take n xs) parts.1 parts.0

-- What one mark leaves satisfies what the selections satisfied before.
kill_across_loop-stays :
    (n i k : ℕ) (xs : List (Interval × List ℕ))
    → NoneAcross k xs
    → NoneAcross k (kill_across_loop n i xs)
unfolding kill_across_loop NoneAcross
kill_across_loop-stays zero i k xs h = h
kill_across_loop-stays (suc n) i k [] h = h
kill_across_loop-stays (suc n) i k (s ∷ xs) h = elim (Bool-cases (ltb s.0.from i && ltb i s.0.to)) [
  | inl e ↦ rw e (kill_across_loop-stays n i k _ (NoneAcross-rotated k (length xs - 1) xs h.1))
  | inr e ↦ rw e (h.0, kill_across_loop-stays n i k xs h.1)
]

kill_across_marks-stays :
    (count i k : ℕ) (brkpt : List ℕ) (d d' : ChewingData)
    → kill_across_marks count i brkpt d ≡ some d'
    → NoneAcross k d.select
    → NoneAcross k d'.select
unfolding kill_across_marks chewing_kill_select_interval_across
kill_across_marks-stays zero i k brkpt d d' e h =
    subst (λ q. NoneAcross k (q.select)) (some-inj e) h
kill_across_marks-stays (suc count) i k brkpt d d' e h =
    let (mark, at, rest) = >>=-eq-some (get_elem? brkpt i) _ e in
    kill_across_marks-stays count (i + 1) k brkpt _ d' rest (
      if-intro (λ (q : ChewingData). NoneAcross k (q.select)) (mark == 0) (λ c. h)
        (λ c. kill_across_loop-stays (length d.select) i k d.select h))

kill_across_marks-NoneAcross :
    (count i : ℕ) (brkpt : List ℕ) (d : ChewingData)
    → i + count ≤ length brkpt
    → (d' : ChewingData) × (kill_across_marks count i brkpt d ≡ some d')
      × ((j m : ℕ)
          → i ≤ j
          → j < i + count
          → get_elem? brkpt j ≡ some m
          → m ≢ 0
          → NoneAcross j d'.select)
unfolding kill_across_marks
kill_across_marks-NoneAcross zero i brkpt d le = (d, refl, λ j m lo hi e nz. absurd (omega arith))
kill_across_marks-NoneAcross (suc count) i brkpt d le =
    let at = get_elem?-total brkpt i (omega arith) in
    let d1 : ChewingData = if at.0 == 0 then d else chewing_kill_select_interval_across i d in
    let rest = kill_across_marks-NoneAcross count (i + 1) brkpt d1 (omega arith) in
    (
      rest.0,
      rw at.1 rest.1,
      λ j m lo hi e nz. elim (eq_or_ne j i) [
        | inl same ↦
            let e' = subst (λ q. get_elem? brkpt q ≡ some m) same e in
            let mark : at.0 ≡ m = some-inj (sym at.1 ∙ e') in
            let set_ : (at.0 == 0) ≡ false = ground arith in
            let gone : NoneAcross i d1.select =
              (rw set_ (kill_select_interval_across-NoneAcross i d)) in
            subst (λ q. NoneAcross q rest.0.select) (sym same)
              (kill_across_marks-stays count (i + 1) i brkpt d1 rest.0 rest.1 gone)
        | inr differ ↦ rest.2 j m (omega (arith, differ)) (omega arith) e nz
      ],
    )

-- The marks and the selections that the phrasing sees.
pub record Prepared (d d' : ChewingData) (marks : Marks) : Type 0 where
  pub symbol_mark :
      (j : ℕ) (c : PreeditBuf)
      → j < d.chi_symbol_buf_len
      → get_elem? (d.preedit_buf) j ≡ some c
      → is_chinese c ≡ false
      → (get_elem? (marks.symbol_arr_brkpt) j ≡ some 1)
        × (get_elem? (marks.arr_brkpt) (count_all (take j d.preedit_buf)) ≡ some 1)
  pub no_mark :
      (j : ℕ) (c : PreeditBuf)
      → j < d.chi_symbol_buf_len
      → get_elem? (d.preedit_buf) j ≡ some c
      → is_chinese c ≡ true
      → get_elem? (marks.symbol_arr_brkpt) j ≡ some 0
  pub user_mark :
      (k : ℕ)
      → (get_elem? (marks.arr_brkpt) k ≡ get_elem? (d.user_arr_brkpt) k)
        ⊎ ((get_elem? (marks.arr_brkpt) k ≡ some 1) × SymbolAt d 0 d.chi_symbol_buf_len k)
  pub none_across :
      (k m : ℕ)
      → k < d.n_phone_seq
      → get_elem? (marks.arr_brkpt) k ≡ some m
      → m ≢ 0
      → NoneAcross k d'.select

abbrev zeros : ℕ → List ℕ
zeros n = replicate n 0

get_elem?-zeros : (n i : ℕ) → i < n → get_elem? (zeros n) i ≡ some 0
get_elem?-zeros zero i lt = absurd (omega arith)
get_elem?-zeros (suc n) zero lt = refl
get_elem?-zeros (suc n) (suc i) lt = get_elem?-zeros n i (omega arith)

-- For a well-formed buffer, CallPhrasing sets its marks with no fault before it calls Phrasing: each
-- symbol, and no character, has the mark of a symbol, the phone after a symbol has the mark of a
-- break, every phone without a symbol before it has exactly the mark of the user, and no selection that is left has a mark inside.
pub set_marks-Prepared :
    (d : ChewingData)
    → WellFormed d
    → (d' : ChewingData) × (marks : Marks) × (set_marks d ≡ some (d', marks)) × Prepared d d' marks
unfolding set_marks
set_marks-Prepared d w =
    let start : Marks = record {
      arr_brkpt = d.user_arr_brkpt;
      symbol_arr_brkpt = replicate 51 0;
    } in
    let marked =
      mark_symbols-Marked d w d.chi_symbol_buf_len 0 start (omega (arith, w.len_le)) w.brkpt_size
        refl in
    let m = marked.2 in
    let killed =
      kill_across_marks-NoneAcross d.n_phone_seq 0 marked.0.arr_brkpt d
        (omega (arith, m.brkpt_size, phones-le d w, w.len_le)) in
    let first : mark_symbols d.chi_symbol_buf_len 0 0 d start ≡ some marked.0 =
      unfold count_all in marked.1 in
    (
      killed.0,
      marked.0,
      rw (first, killed.1) refl,
      record {
        symbol_mark = λ j c lt e n. m.symbol_mark j c (omega arith) (omega arith) e n;
        no_mark = λ j c lt e y. m.no_mark j c e y ∙ get_elem?-zeros 51 j (omega (arith, w.len_le));
        user_mark = λ k. elim (m.marks_stay k) [
          | inl kept ↦ inl kept
          | inr (one, s) ↦ inr (
            one,
            SymbolAt-sooner d 0 0 d.chi_symbol_buf_len (0 + d.chi_symbol_buf_len) k (omega arith)
                (omega arith) s,
          )
        ];
        none_across = λ k v lt e nz. killed.2 k v (omega arith) (omega arith) e nz;
      },
    )
