-- ===== src/UserPhrase/Update/Highest.antt =====
-- LoadOriginalFreq and LoadMaxFreq of src/userphrase-hash.c: what their loops look for.
use libchewing.CString.{str_eq, str_eq_refl, eq_of_str_eq}
use libchewing.Dictionary.{Phrase}
use libchewing.UserPhrase.{UserPhraseData, original_freq, max_dict_freq, max_user_freq}
use libchewing.UserPhrase.Lookup.{the_same_refl, eq_of_the_same}
use libchewing.UserPhrase.Table.{HashItem, phone_seq_the_same}
use libchewing.UserPhrase.Update.{users_in}
use libchewing.Common.{
  ℕ, zero, suc, ◌+◌, ◌≤◌, ◌≡◌, ◌≢◌, ◌⊎◌, inl, inr, refl, ap, sym, subst, ◌∙◌, true, some, List, [],
  ◌∷◌, get_elem?, if◌then◌else◌, ℤ, pos, pos_part, neg_part, ltb_ℤ, arith, some-inj, Bool-cases,
}

-- The frequency of the first phrase that is the word, or 1 where none is.
pub data FirstFreq (word : List ℕ) : List Phrase → ℤ → Type 0 where
  absent : FirstFreq word [] (pos 1)
  here : {p : Phrase} {ps : List Phrase} → p.phrase ≡ word → FirstFreq word (p ∷ ps) (pos p.freq)
  later :
      {p : Phrase} {ps : List Phrase} {f : ℤ}
      → p.phrase ≢ word
      → FirstFreq word ps f
      → FirstFreq word (p ∷ ps) f

pub original_freq-FirstFreq :
    (ps : List Phrase) (word : List ℕ) → FirstFreq word ps (original_freq ps word)
unfolding original_freq
original_freq-FirstFreq [] word = absent
original_freq-FirstFreq (p ∷ ps) word = elim (Bool-cases (str_eq p.phrase word)) [
  | inl e ↦ rw e (here (eq_of_str_eq p.phrase word e))
  | inr other ↦
      let differ : p.phrase ≢ word = λ e.
        (let yes = subst (λ q. str_eq p.phrase q ≡ true) e (str_eq_refl p.phrase) in
          absurd (ground arith)) in
      rw other (later differ (original_freq-FirstFreq ps word))
]

abbrev pub AtMost : ℤ → ℤ → Type 0
AtMost a b = pos_part a + neg_part b ≤ pos_part b + neg_part a

-- 1, the frequencies of the dictionary's phrases for the phones, and those of the user's phrases
-- whose phones are equal to them.
pub data FreqOf (ps : List Phrase) (phones : List ℕ) (chain : List HashItem) : ℤ → Type 0 where
  initial : FreqOf ps phones chain (pos 1)
  dictionary : (j : ℕ) (p : Phrase) → get_elem? ps j ≡ some p → FreqOf ps phones chain (pos p.freq)
  user :
      (j : ℕ) (i : HashItem)
      → get_elem? chain j ≡ some i
      → i.item.phone_seq ≡ phones
      → FreqOf ps phones chain i.item.userfreq

-- The highest of these.
pub record Highest (ps : List Phrase) (phones : List ℕ) (chain : List HashItem) (max : ℤ)
    : Type 0 where
  pub among : FreqOf ps phones chain max
  pub above : (f : ℤ) → FreqOf ps phones chain f → AtMost f max

module _ {A : Type 0} (freq : A → ℤ) where
  max_of : ℤ → List A → ℤ
  max_of low [] = low
  max_of low (x ∷ xs) = max_of (if ltb_ℤ low (freq x) then freq x else low) xs

  record MaxOf (low : ℤ) (xs : List A) (max : ℤ) : Type 0 where
    low_le : AtMost low max
    above : (j : ℕ) (x : A) → get_elem? xs j ≡ some x → AtMost (freq x) max
    among : (max ≡ low) ⊎ ((j : ℕ) × (x : A) × (get_elem? xs j ≡ some x) × (max ≡ freq x))

  max_of-MaxOf : (low : ℤ) (xs : List A) → MaxOf low xs (max_of low xs)
  unfolding max_of
  max_of-MaxOf low [] = record {
    low_le = omega arith;
    above = λ j x at. absurd (ground arith);
    among = inl refl;
  }
  max_of-MaxOf low (x ∷ xs) = elim (Bool-cases (ltb_ℤ low (freq x))) [
    | inl rises ↦
        let r = max_of-MaxOf (freq x) xs in
        rw rises (record {
          low_le = (let lt = r.low_le in ground arith);
          above = λ j y at. above_from (freq x) r (omega arith) j y at;
          among = elim (r.among) [
            | inl e ↦ inr (zero, x, refl, e)
            | inr (j, y, at, e) ↦ inr (suc j, y, at, e)
          ];
        })
    | inr stays ↦
        let r = max_of-MaxOf low xs in
        rw stays (record {
          low_le = r.low_le;
          above = λ j y at. above_from low r (ground arith) j y at;
          among = elim (r.among) [ inl e ↦ inl e | inr (j, y, at, e) ↦ inr (suc j, y, at, e) ];
        })
  ]
    where
      above_from :
          (low' : ℤ)
          → MaxOf low' xs (max_of low' xs)
          → AtMost (freq x) low'
          → (j : ℕ) (y : A) → get_elem? (x ∷ xs) j ≡ some y
          → AtMost (freq y) (max_of low' xs)
      above_from low' r le zero y at =
          let same : x ≡ y = some-inj at in
          subst (λ q. AtMost (freq q) (max_of low' xs)) same (omega (arith, le, r.low_le))
      above_from low' r le (suc j) y at = r.above j y at

max_dict_freq-max_of :
    (low : ℤ) (ps : List Phrase) → max_dict_freq low ps ≡ max_of (λ (p : Phrase). pos p.freq) low ps
unfolding max_dict_freq max_of
max_dict_freq-max_of low [] = refl
max_dict_freq-max_of low (p ∷ ps) =
    max_dict_freq-max_of (if ltb_ℤ low (pos p.freq) then pos p.freq else low) ps

max_user_freq-max_of :
    (low : ℤ) (us : List UserPhraseData)
    → max_user_freq low us ≡ max_of UserPhraseData.userfreq low us
unfolding max_user_freq max_of
max_user_freq-max_of low [] = refl
max_user_freq-max_of low (u ∷ us) =
    max_user_freq-max_of (if ltb_ℤ low u.userfreq then u.userfreq else low) us

module _ (phones : List ℕ) where
  users_in_sound :
      (chain : List HashItem) (j : ℕ) (u : UserPhraseData)
      → get_elem? (users_in phones chain) j ≡ some u
      → (k : ℕ) × (i : HashItem) × (get_elem? chain k ≡ some i)
        × (i.item.phone_seq ≡ phones)
        × (i.item ≡ u)
  unfolding users_in
  users_in_sound [] j u at = absurd (ground arith)
  users_in_sound (i ∷ is) zero u at =
      elim (Bool-cases (phone_seq_the_same i.item.phone_seq phones)) [
        | inl same ↦
            let at' = rw same at at in
            (zero, i, refl, eq_of_the_same i.item.phone_seq phones same, some-inj at')
        | inr other ↦
            let (k, i', at', e, e') = users_in_sound is zero u (rw other at at) in
            (suc k, i', at', e, e')
      ]
  users_in_sound (i ∷ is) (suc j) u at =
      elim (Bool-cases (phone_seq_the_same i.item.phone_seq phones)) [
        | inl same ↦
            let (k, i', at', e, e') = users_in_sound is j u (rw same at at) in
            (suc k, i', at', e, e')
        | inr other ↦
            let (k, i', at', e, e') = users_in_sound is (suc j) u (rw other at at) in
            (suc k, i', at', e, e')
      ]

  users_in_complete :
      (chain : List HashItem) (k : ℕ) (i : HashItem)
      → get_elem? chain k ≡ some i
      → i.item.phone_seq ≡ phones
      → (j : ℕ) × (get_elem? (users_in phones chain) j ≡ some i.item)
  unfolding users_in
  users_in_complete [] k i at e = absurd (ground arith)
  users_in_complete (x ∷ xs) zero i at e =
      let here : x ≡ i = some-inj at in
      let same : phone_seq_the_same x.item.phone_seq phones ≡ true =
        subst (λ q. phone_seq_the_same x.item.phone_seq q ≡ true)
          (ap (λ (q : HashItem). q.item.phone_seq) here ∙ e) (the_same_refl x.item.phone_seq) in
      (zero, rw same (ap (λ (q : HashItem). some q.item) here))
  users_in_complete (x ∷ xs) (suc k) i at e =
      let (j, found) = users_in_complete xs k i at e in
      elim (Bool-cases (phone_seq_the_same x.item.phone_seq phones)) [
        | inl same ↦ (suc j, rw same found)
        | inr other ↦ (j, rw other found)
      ]

  module _ (ps : List Phrase) (chain : List HashItem) (dict max : ℤ)
      (d : MaxOf (λ (p : Phrase). pos p.freq) (pos 1) ps dict)
      (m : MaxOf UserPhraseData.userfreq dict (users_in phones chain) max) where
    maximum_among : FreqOf ps phones chain max
    maximum_among = elim (m.among) [
      | inl e ↦ elim (d.among) [
        | inl e' ↦ subst (FreqOf ps phones chain) (sym (e ∙ e')) initial
        | inr (j, p, at, e') ↦ subst (FreqOf ps phones chain) (sym (e ∙ e')) (dictionary j p at)
      ]
      | inr (j, u, at, e) ↦
          let (k, i, at', equal, e') = users_in_sound chain j u at in
          subst (FreqOf ps phones chain) (ap UserPhraseData.userfreq e' ∙ sym e)
            (user k i at' equal)
    ]

    maximum_above : (f : ℤ) → FreqOf ps phones chain f → AtMost f max
    maximum_above f initial = omega (arith, d.low_le, m.low_le)
    maximum_above f (dictionary j p at) = omega (arith, d.above j p at, m.low_le)
    maximum_above f (user j i at e) =
        let (k, found) = users_in_complete chain j i at e in m.above k i.item found

  -- The maximum of LoadMaxFreq.
  pub max_user_freq-Highest :
      (ps : List Phrase) (chain : List HashItem)
      → Highest ps phones chain (max_user_freq (max_dict_freq (pos 1) ps) (users_in phones chain))
  max_user_freq-Highest ps chain =
      let dict = max_dict_freq (pos 1) ps in
      let us = users_in phones chain in
      let max = max_user_freq dict us in
      let d =
        subst (MaxOf (λ (p : Phrase). pos p.freq) (pos 1) ps)
          (sym (max_dict_freq-max_of (pos 1) ps))
          (max_of-MaxOf (λ (p : Phrase). pos p.freq) (pos 1) ps) in
      let m =
        subst (MaxOf UserPhraseData.userfreq dict us) (sym (max_user_freq-max_of dict us))
          (max_of-MaxOf UserPhraseData.userfreq dict us) in
      record {
        among = maximum_among ps chain dict max d m;
        above = maximum_above ps chain dict max d m;
      }
