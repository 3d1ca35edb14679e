-- ===== src/Phrasing/Records/Weeded.antt =====
-- Saving one record, src/tree.c: the saved records that the new one contains go.
use libchewing.Common.{
  ℕ, ◌≤◌, ◌<◌, ◌≡◌, inl, inr, refl, Bool, true, false, Option, none, some, List, [], ◌∷◌, length,
  get_elem?, ltb, if◌then◌else◌, ◌>>=◌, arith, All, Bool-cases, if-intro, >>=-total, pos,
}
use libchewing.Phrasing.{PhraseInterval, phrase_interval_contain}
use libchewing.Phrasing.Dp.{RecordNode}
use libchewing.Phrasing.Records.{find_big, is_rec_contain, weed, save_record}

-- The intervals with these indices follow one another without overlap, the first from `lo` on.
abbrev pub Separate : List PhraseInterval → List ℕ → ℕ → Type 0
Separate ivs [] lo = Unit
Separate ivs (i ∷ is) lo =
    (v : PhraseInterval) × (get_elem? ivs i ≡ some v) × (lo ≤ v.from) × Separate ivs is v.to

one_of :
    (b : Bool) (xs ys : List RecordNode)
    → (b ≡ true → 0 < length xs)
    → (b ≡ false → 0 < length ys)
    → 0 < length (if b then xs else ys)
one_of true xs ys hx hy = hx refl
one_of false xs ys hx hy = hy refl

module _ (ivs : List PhraseInterval) where
  abbrev Indexed : ℕ → Type 0
  Indexed i = (v : PhraseInterval) × (get_elem? ivs i ≡ some v)

  Separate-Indexed : (is : List ℕ) (lo : ℕ) → Separate ivs is lo → All Indexed is
  Separate-Indexed [] lo h = tt
  Separate-Indexed (i ∷ is) lo h =
      let (v, at, le, rest) = h in ((v, at), Separate-Indexed is v.to rest)

  abbrev OptionAll : Option (List ℕ) → Type 0
  OptionAll none = Unit
  OptionAll (some is) = All Indexed is

  find_big-total :
      (small : PhraseInterval) (big : List ℕ)
      → All Indexed big
      → (r : Option (List ℕ)) × (find_big ivs small big ≡ some r) × OptionAll r
  unfolding find_big
  find_big-total small [] h = (none, refl, tt)
  find_big-total small (i ∷ big) h =
      let (v, at) = h.0 in
      let (r, later, all) = find_big-total small big h.1 in
      elim (Bool-cases (ltb v.from small.to)) [
        | inl lt ↦ elim (Bool-cases (phrase_interval_contain v small)) [
          | inl c ↦ (some (i ∷ big), rw (at, ◌>>=◌, lt, c) refl, h)
          | inr c ↦ (r, rw (at, ◌>>=◌, lt, c) later, all)
        ]
        | inr ge ↦ (none, rw (at, ◌>>=◌, ge) refl, tt)
      ]

  is_rec_contain-total :
      (int_a int_b : List ℕ)
      → All Indexed int_a
      → All Indexed int_b
      → (r : Bool) × (is_rec_contain ivs int_a int_b ≡ some r)
  unfolding is_rec_contain
  is_rec_contain-total int_a [] ha hb = (true, refl)
  is_rec_contain-total int_a (j ∷ int_b) ha hb =
      let (small, at) = hb.0 in
      let (found, e, all) = find_big-total small int_a ha in
      >>=-total (get_elem? ivs j) _ at (
        >>=-total (find_big ivs small int_a) _ e
          (after found all (λ big h. is_rec_contain-total big int_b h hb.1)))
    where
      after :
          (found : Option (List ℕ))
          → OptionAll found
          → ((big : List ℕ)
              → All Indexed big
              → (r : Bool) × (is_rec_contain ivs big int_b ≡ some r))
          → (r : Bool) × ((elim found [
            | none ↦ some false
            | some big ↦ is_rec_contain ivs big int_b
          ])
              ≡ some r)
      after none all ih = (false, refl)
      after (some big) all ih = ih big all

  abbrev pub Sound : List RecordNode → Type 0
  Sound ps = All (λ p. Separate ivs p.arr_index 0) ps

  -- The records left are sound, and some are left if the new one is not saved.
  record Weeded (out : Option (Bool × List RecordNode)) : Type 0 where
    fresh : Bool
    left : List RecordNode
    returned : out ≡ some (fresh, left)
    sound : Sound left
    some_left : fresh ≡ false → 0 < length left

  weed-Weeded :
      (record_ : List ℕ) (ps : List RecordNode)
      → Separate ivs record_ 0
      → Sound ps
      → Weeded (weed ivs record_ ps)
  unfolding weed
  weed-Weeded record_ [] h hs = record {
    fresh = true;
    left = [];
    returned = refl;
    sound = tt;
    some_left = λ e. absurd (ground arith);
  }
  weed-Weeded record_ (p ∷ ps) h hs =
      let new = Separate-Indexed record_ 0 h in
      let old = Separate-Indexed p.arr_index 0 hs.0 in
      let (old_wins, e) = is_rec_contain-total p.arr_index record_ old new in
      let (new_wins, e') = is_rec_contain-total record_ p.arr_index new old in
      let r = weed-Weeded record_ ps h hs.1 in
      elim (Bool-cases old_wins) [
        | inl wins ↦ record {
          fresh = false;
          left = p ∷ ps;
          returned = rw (e, ◌>>=◌, wins) refl;
          sound = hs;
          some_left = λ _. omega arith;
        }
        | inr loses ↦ record {
          fresh = r.fresh;
          left = if new_wins then r.left else p ∷ r.left;
          returned = rw (e, ◌>>=◌, loses, e', r.returned) refl;
          sound = if-intro Sound new_wins (λ _. r.sound) (λ _. (hs.0, r.sound));
          some_left =
              λ f. one_of new_wins r.left (p ∷ r.left) (λ _. r.some_left f) (λ _. omega arith);
        }
      ]

  -- What saving leaves.
  pub record Saved (out : Option (List RecordNode)) : Type 0 where
    pub list : List RecordNode
    pub returned : out ≡ some list
    pub sound : Sound list
    pub nonempty : 0 < length list

  pub save_record-Saved :
      (record_ : List ℕ) (ps : List RecordNode)
      → Separate ivs record_ 0
      → Sound ps
      → Saved (save_record ivs record_ ps)
  unfolding save_record
  save_record-Saved record_ ps h hs =
      let r = weed-Weeded record_ ps h hs in
      let new : RecordNode = record { arr_index = record_; score = pos 0; n_match_cnnct = 0 } in
      record {
        list = if r.fresh then new ∷ r.left else r.left;
        returned = rw (r.returned, ◌>>=◌) refl;
        sound = if-intro Sound r.fresh (λ _. (h, r.sound)) (λ _. r.sound);
        nonempty = one_of r.fresh (new ∷ r.left) r.left (λ _. omega arith) (λ e. r.some_left e);
      }
