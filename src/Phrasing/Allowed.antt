-- ===== src/Phrasing/Allowed.antt =====
-- Which intervals FindInterval of src/tree.c finds.
use libchewing.Common.{
  ℕ, zero, suc, ◌+◌, ◌-◌, ◌≤◌, ◌<◌, ◌≡◌, ◌⊎◌, inl, inr, refl, ap, sym, subst, ◌∙◌, Bool, true,
  false, Option, none, some, List, [], ◌∷◌, get_elem?, ◌!=◌, ◌&&◌, if◌then◌else◌, ◌>>=◌, arith,
  >>=-eq-some, Bool-cases, All,
}
use libchewing.Dictionary.{StaticData, Phrase, tree_find_phrase, phrases_under}
use libchewing.Editing.{Interval}
use libchewing.Phrasing.{
  PhraseInterval, UserPhrase, is_contain, is_intersect, breakpoint_loop, agrees, crosses, user_fits,
  copy_phrase, beats, user_choice, check_user_choose, Verdict, fits, differs, crossed, dict_fits,
  check_choose, Input, user_phrase_at, dict_phrase_at,
}

-- The word has the string of every selection in the interval, and no selection crosses it.
pub record Respects (inte : Interval) (word : List ℕ) (s : Interval × List ℕ) : Type 0 where
  pub same : is_contain inte s.0 ≡ true → agrees word inte.from s.0 s.1 ≡ some true
  pub apart : is_contain inte s.0 ≡ false → is_intersect inte s.0 ≡ false

-- The phrase of an interval is such a word, or a copy of its first characters.
pub record IsChoice (inte : Interval) (select : List (Interval × List ℕ)) (p : Phrase)
    : Type 0 where
  pub word : List ℕ
  pub copied : (p.phrase ≡ word) ⊎ (copy_phrase word (inte.to - inte.from) ≡ some p.phrase)
  pub respected : All (Respects inte word) select

pub record Allowed (d : Input) (v : PhraseInterval) : Type 0 where
  pub nonempty : v.from < v.to
  pub inside : v.to ≤ d.n_phone_seq
  pub short : v.to ≤ v.from + 11
  pub unbroken : (i : ℕ) → v.from < i → i < v.to → get_elem? d.arr_brkpt i ≡ some 0
  pub choice : IsChoice (record { from = v.from; to = v.to }) d.select v.p_phr

pub breakpoint_loop-clear :
    (count i : ℕ) (brkpt : List ℕ)
    → breakpoint_loop count i brkpt ≡ some true
    → (j : ℕ) → i ≤ j
    → j < i + count
    → get_elem? brkpt j ≡ some 0
unfolding breakpoint_loop
breakpoint_loop-clear zero i brkpt h j lo hi = absurd (omega arith)
breakpoint_loop-clear (suc count) i brkpt h j lo hi =
    let (mark, at, h1) = >>=-eq-some (get_elem? brkpt i) _ h in
    elim (Bool-cases (mark != 0)) [
      | inl marked ↦ absurd (let h2 = rw marked at h1 in ground arith)
      | inr clear ↦ elim (i_or_later i j lo) [
        | inl e ↦ ap (get_elem? brkpt) (sym e) ∙ at ∙ ap some (ground arith)
        | inr later ↦
            breakpoint_loop-clear count (i + 1) brkpt (rw clear at h1) j later (omega arith)
      ]
    ]
  where
    i_or_later : (i j : ℕ) → i ≤ j → (i ≡ j) ⊎ (i + 1 ≤ j)
    i_or_later i j h = ground arith

module _ (inte : Interval) where
  user_fits-Respects :
      (select : List (Interval × List ℕ)) (word : List ℕ)
      → crosses inte select ≡ false
      → user_fits inte select word ≡ some true
      → All (Respects inte word) select
  unfolding crosses user_fits
  user_fits-Respects [] word c h = tt
  user_fits-Respects (s ∷ select) word c h = (
    record { same = λ e. ground arith; apart = λ e. ground arith },
    user_fits-Respects select word (ground arith) (ground arith),
  )

  dict_fits-Respects :
      (select : List (Interval × List ℕ)) (word : List ℕ)
      → dict_fits inte select word ≡ some fits
      → All (Respects inte word) select
  unfolding dict_fits
  dict_fits-Respects [] word h = tt
  dict_fits-Respects (s ∷ select) word h = (
    record { same = λ e. ground arith; apart = λ e. ground arith },
    dict_fits-Respects select word (ground arith),
  )

  module _ (select : List (Interval × List ℕ)) where
    -- The best phrase so far after one more phrase of the user.
    abbrev next_best : UserPhrase → Option Phrase → Bool → Option (Option Phrase)
    next_best u best take_it =
        if take_it
        then (do
          word ← copy_phrase u.word_seq (inte.to - inte.from)
          some (some (record { phrase = word; freq = u.userfreq })))
        else some best

    next_best-IsChoice :
        (u : UserPhrase) (fit : Bool) (best best' : Option Phrase)
        → crosses inte select ≡ false
        → ((q : Phrase) → best ≡ some q → IsChoice inte select q)
        → user_fits inte select u.word_seq ≡ some fit
        → next_best u best (fit && beats u.userfreq best) ≡ some best'
        → (q : Phrase) → best' ≡ some q
        → IsChoice inte select q
    next_best-IsChoice u false best best' c old f b q e = old q (ground arith)
    next_best-IsChoice u true best best' c old f b q e = elim (Bool-cases (beats u.userfreq best)) [
      | inl better ↦
          let b' = rw better at b in
          let (word, copied, b'') =
            >>=-eq-some (copy_phrase u.word_seq (inte.to - inte.from)) _ b' in
          let same : word ≡ q.phrase = ground arith in
          record {
            word = u.word_seq;
            copied = inr (copied ∙ ap some same);
            respected = user_fits-Respects select u.word_seq c f;
          }
      | inr worse ↦ old q (let b' = rw worse at b in ground arith)
    ]

    user_choice-IsChoice :
        (us : List UserPhrase) (best : Option Phrase) (p : Phrase)
        → crosses inte select ≡ false
        → ((q : Phrase) → best ≡ some q → IsChoice inte select q)
        → user_choice inte select best us ≡ some (some p)
        → IsChoice inte select p
    unfolding user_choice
    user_choice-IsChoice [] best p c old h = old p (ground arith)
    user_choice-IsChoice (u ∷ us) best p c old h =
        let (fit, f, h1) = >>=-eq-some (user_fits inte select u.word_seq) _ h in
        let (best', b, h2) = >>=-eq-some (next_best u best (fit && beats u.userfreq best)) _ h1 in
        user_choice-IsChoice us best' p c (next_best-IsChoice u fit best best' c old f b) h2

    judged-IsChoice :
        (q p : Phrase) (rest : Option (Option Phrase)) (verdict : Verdict)
        → (rest ≡ some (some p) → IsChoice inte select p)
        → dict_fits inte select q.phrase ≡ some verdict
        → (elim verdict [ fits ↦ some (some q) | crossed ↦ some none | differs ↦ rest ])
          ≡ some (some p)
        → IsChoice inte select p
    judged-IsChoice q p rest fits later f h =
        let e : q ≡ p = ground arith in
        subst (IsChoice inte select) e (record {
          word = q.phrase;
          copied = inl refl;
          respected = dict_fits-Respects select q.phrase f;
        })
    judged-IsChoice q p rest crossed later f h = absurd (ground arith)
    judged-IsChoice q p rest differs later f h = later h

    check_choose-IsChoice :
        (ps : List Phrase) (p : Phrase)
        → check_choose ps inte select ≡ some (some p)
        → IsChoice inte select p
    unfolding check_choose
    check_choose-IsChoice [] p h = absurd (ground arith)
    check_choose-IsChoice (q ∷ ps) p h =
        let (verdict, f, h1) = >>=-eq-some (dict_fits inte select q.phrase) _ h in
        judged-IsChoice q p (check_choose ps inte select) verdict (check_choose-IsChoice ps p) f h1

    check_user_choose-IsChoice :
        (us : List UserPhrase) (p : Phrase)
        → check_user_choose us inte select ≡ some (some p)
        → IsChoice inte select p
    unfolding check_user_choose
    check_user_choose-IsChoice us p h = elim (Bool-cases (crosses inte select)) [
      | inl c ↦ absurd (let h1 = rw c at h in ground arith)
      | inr c ↦ user_choice-IsChoice us none p c (λ q e. absurd (ground arith)) (rw c at h)
    ]

module _ (static : StaticData) (user_phrases : List ℕ → List UserPhrase) (d : Input) where
  pub user_phrase_at-IsChoice :
      (inte : Interval) (phones : List ℕ) (p : Phrase)
      → user_phrase_at static user_phrases phones inte d ≡ some (some p)
      → IsChoice inte d.select p
  unfolding user_phrase_at
  user_phrase_at-IsChoice inte phones p h = at_users (user_phrases phones) h
    where
      at_users :
          (us : List UserPhrase)
          → (elim us [ [] ↦ some none | u ∷ us ↦ check_user_choose (u ∷ us) inte d.select ])
            ≡ some (some p)
          → IsChoice inte d.select p
      at_users [] h = absurd (ground arith)
      at_users (u ∷ us) h = check_user_choose-IsChoice inte d.select (u ∷ us) p h

  pub dict_phrase_at-IsChoice :
      (inte : Interval) (phones : List ℕ) (p : Phrase)
      → dict_phrase_at static user_phrases phones inte d ≡ some (some p)
      → IsChoice inte d.select p
  unfolding dict_phrase_at
  dict_phrase_at-IsChoice inte phones p h =
      let (parent, s, h1) = >>=-eq-some (tree_find_phrase static.tree phones) _ h in
      at_parent parent h1
    where
      at_parent :
          (parent : Option ℕ)
          → (elim parent [
            | none ↦ some none
            | some node ↦ (do ps ← phrases_under static node; check_choose ps inte d.select)
          ])
            ≡ some (some p)
          → IsChoice inte d.select p
      at_parent none h = absurd (ground arith)
      at_parent (some node) h =
          let (ps, s, h1) = >>=-eq-some (phrases_under static node) _ h in
          check_choose-IsChoice inte d.select ps p h1
