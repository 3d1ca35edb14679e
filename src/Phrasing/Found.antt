-- ===== src/Phrasing/Found.antt =====
-- The loops of FindInterval of src/tree.c: all intervals that they find are allowed, and they come
-- in the order of their starts.
use libchewing.Common.{
  ℕ, zero, suc, ◌+◌, ◌-◌, ◌≤◌, ◌<◌, ◌≡◌, inl, inr, refl, ap, sym, subst, ◌∙◌, Option, none, some,
  List, [], ◌∷◌, ◌++◌, get_elem?, take, drop, length, ltb, ensure, arith, min, >>=-eq-some,
  Bool-cases, All, All-append, All-map, if-intro,
}
use libchewing.CString.{str_eq}
use libchewing.Dictionary.{StaticData, Phrase}
use libchewing.Editing.{Interval}
use libchewing.Phrasing.{
  Source, is_user_phrase, is_dict_phrase, PhraseInterval, UserPhrase, check_breakpoint,
  choose_phrase, interval_of, Input, user_phrase_at, dict_phrase_at, interval_at, ends_loop,
  begins_loop, find_interval, max_phrase_len,
}
use libchewing.Phrasing.Allowed.{
  IsChoice, Allowed, breakpoint_loop-clear, user_phrase_at-IsChoice, dict_phrase_at-IsChoice,
}

-- The starts do not fall, from `lo` on.
abbrev pub SortedFrom : ℕ → List PhraseInterval → Type 0
SortedFrom lo [] = Unit
SortedFrom lo (v ∷ vs) = (lo ≤ v.from) × SortedFrom v.from vs

SortedFrom-append :
    (lo mid : ℕ) (xs ys : List PhraseInterval)
    → SortedFrom lo xs
    → All (λ v. v.from ≤ mid) xs
    → lo ≤ mid
    → SortedFrom mid ys
    → SortedFrom lo (xs ++ ys)
SortedFrom-append lo mid [] [] hx hm le hy = tt
SortedFrom-append lo mid [] (y ∷ ys) hx hm le hy = (omega arith, hy.1)
SortedFrom-append lo mid (x ∷ xs) ys hx hm le hy =
    (hx.0, SortedFrom-append x.from mid xs ys hx.1 hm.1 hm.0 hy)

-- The intervals from one start.
record Here (d : Input) (begin : ℕ) (v : PhraseInterval) : Type 0 where
  allowed : Allowed d v
  start : v.from ≡ begin

starts-SortedFrom :
    (d : Input) (begin : ℕ) (vs : List PhraseInterval) → All (Here d begin) vs → SortedFrom begin vs
starts-SortedFrom d begin [] h = tt
starts-SortedFrom d begin (v ∷ vs) h = (
  omega (arith, h.0.start),
  subst (λ b. SortedFrom b vs) (sym h.0.start) (starts-SortedFrom d begin vs h.1),
)

module _ (static : StaticData) (user_phrases : List ℕ → List UserPhrase) (d : Input) where
  module _ (begin end : ℕ) (le : begin ≤ end) (lt : end < d.n_phone_seq) (near : end < begin + 11)
      (clear : (i : ℕ) → begin < i → i < end + 1 → get_elem? d.arr_brkpt i ≡ some 0) where
    abbrev Choice : Phrase → Type 0
    Choice p = IsChoice (record { from = begin; to = end + 1 }) d.select p

    Here-of_Choice :
        (p : Phrase) (source : Source)
        → Choice p
        → Here d begin (record { from = begin; to = end + 1; source = source; p_phr = p })
    Here-of_Choice p source c = record {
      allowed = record {
        nonempty = omega arith;
        inside = omega arith;
        short = omega arith;
        unbroken = clear;
        choice = c;
      };
      start = refl;
    }

    choose_phrase-Here :
        (user dict : Option Phrase)
        → ((p : Phrase) → user ≡ some p → Choice p)
        → ((p : Phrase) → dict ≡ some p → Choice p)
        → All (Here d begin) (interval_of begin end (choose_phrase user dict))
    unfolding choose_phrase
    choose_phrase-Here none none hu hd = tt
    choose_phrase-Here (some u) none hu hd = (Here-of_Choice u is_user_phrase (hu u refl), tt)
    choose_phrase-Here none (some p) hu hd = (Here-of_Choice p is_dict_phrase (hd p refl), tt)
    choose_phrase-Here (some u) (some p) hu hd =
        if-intro (λ o. All (Here d begin) (interval_of begin end o)) (str_eq u.phrase p.phrase)
          (λ _. (Here-of_Choice u is_user_phrase (hu u refl), tt))
          (λ _.
            if-intro (λ o. All (Here d begin) (interval_of begin end o)) (ltb p.freq u.freq)
              (λ _. (Here-of_Choice u is_user_phrase (hu u refl), tt))
              (λ _. (Here-of_Choice p is_dict_phrase (hd p refl), tt)))

    interval_at-Here :
        (vs : List PhraseInterval)
        → interval_at static user_phrases begin end d ≡ some vs
        → All (Here d begin) vs
    unfolding interval_at
    interval_at-Here vs h =
        let inte : Interval = record { from = begin; to = end + 1 } in
        let phones = take (end + 1 - begin) (drop begin d.phone_seq) in
        let (_, e, h1) = >>=-eq-some (ensure (ltb end (length d.phone_seq))) _ h in
        let (user, hu, h2) = >>=-eq-some (user_phrase_at static user_phrases phones inte d) _ h1 in
        let (dict, hd, h3) = >>=-eq-some (dict_phrase_at static user_phrases phones inte d) _ h2 in
        let same : interval_of begin end (choose_phrase user dict) ≡ vs = ground arith in
        subst (All (Here d begin)) same (
          choose_phrase-Here user dict
            (λ p e. user_phrase_at-IsChoice static user_phrases d inte phones p (hu ∙ ap some e))
            (λ p e. dict_phrase_at-IsChoice static user_phrases d inte phones p (hd ∙ ap some e)))

  ends_loop-Here :
      (count begin end : ℕ) (vs : List PhraseInterval)
      → begin ≤ end
      → end + count ≤ d.n_phone_seq
      → end + count ≤ begin + 11
      → ends_loop static user_phrases count begin end d ≡ some vs
      → All (Here d begin) vs
  unfolding ends_loop
  ends_loop-Here zero begin end vs le inside near h =
      let e : [] ≡ vs = ground arith in subst (All (Here d begin)) e tt
  ends_loop-Here (suc count) begin end vs le inside near h =
      let (free, b, h1) = >>=-eq-some (check_breakpoint begin (end + 1) d.arr_brkpt) _ h in
      elim (Bool-cases free) [
        | inl free_ ↦
            let (here, hh, h2) =
              >>=-eq-some (interval_at static user_phrases begin end d) _ (rw free_ at h1) in
            let (later, hl, h3) =
              >>=-eq-some (ends_loop static user_phrases count begin (end + 1) d) _ h2 in
            let same : here ++ later ≡ vs = ground arith in
            subst (All (Here d begin)) same (
              All-append (Here d begin) here later
                (interval_at-Here begin end le (omega arith) (omega arith)
                  (λ i lo hi.
                    breakpoint_loop-clear _ (begin + 1) d.arr_brkpt
                      (unfold check_breakpoint in rw free_ at b) i (omega arith) (omega arith))
                  here hh)
                (ends_loop-Here count begin (end + 1) later (omega arith) (omega arith)
                  (omega arith) hl))
        | inr broken ↦
            let e : [] ≡ vs = (let h2 = rw broken at h1 in ground arith) in
            subst (All (Here d begin)) e tt
      ]

  -- What the outer loop finds from a start on.
  record Found (begin : ℕ) (vs : List PhraseInterval) : Type 0 where
    allowed : All (Allowed d) vs
    sorted : SortedFrom begin vs

  begins_loop-Found :
      (count begin : ℕ) (vs : List PhraseInterval)
      → begin + count ≡ d.n_phone_seq
      → begins_loop static user_phrases count begin d ≡ some vs
      → Found begin vs
  unfolding begins_loop
  begins_loop-Found zero begin vs e h =
      let same : [] ≡ vs = ground arith in
      subst (Found begin) same (record { allowed = tt; sorted = tt })
  begins_loop-Found (suc count) begin vs e h =
      let rounds = min d.n_phone_seq (begin + max_phrase_len) - begin in
      let (here, hh, h1) = >>=-eq-some (ends_loop static user_phrases rounds begin begin d) _ h in
      let (later, hl, h2) =
        >>=-eq-some (begins_loop static user_phrases count (begin + 1) d) _ h1 in
      let same : here ++ later ≡ vs = ground arith in
      let now : All (Here d begin) here =
        ends_loop-Here rounds begin begin here (omega arith) (omega arith) (omega arith) hh in
      let next : Found (begin + 1) later =
        begins_loop-Found count (begin + 1) later (omega arith) hl in
      subst (Found begin) same (record {
        allowed =
            All-append (Allowed d) here later
              (All-map (Here d begin) (Allowed d) here (λ v p. p.allowed) now) next.allowed;
        sorted =
            SortedFrom-append begin (begin + 1) here later (starts-SortedFrom d begin here now)
              (All-map (Here d begin) (λ v. v.from ≤ begin + 1) here (λ v p. omega (arith, p.start))
                now)
              (omega arith) next.sorted;
      })

  -- Every interval that `FindInterval` finds covers one to 11 phones of the buffer and no breakpoint,
  -- crosses no selection, and has a phrase with the text of each selection in it; and the starts of
  -- the intervals do not fall.
  pub find_interval-Allowed :
      (vs : List PhraseInterval)
      → find_interval static user_phrases d ≡ some vs
      → All (Allowed d) vs × SortedFrom 0 vs
  unfolding find_interval
  find_interval-Allowed vs h =
      let f = begins_loop-Found d.n_phone_seq 0 vs (omega arith) h in (f.allowed, f.sorted)
