-- ===== src/UserPhrase/Lookup.antt =====
-- The table of src/hash.c as a map from phones and a word to an item.
use libchewing.CString.{str_eq, eq_of_str_eq}
use libchewing.Common.{
  ℕ, ◌≡◌, inl, inr, refl, ap, ◌∙◌, Bool, true, false, none, some, List, [], ◌∷◌, ◌==◌, ◌&&◌,
  if◌then◌else◌, arith, if-intro, Bool-cases, Option-cases,
}
use libchewing.UserPhrase.{UserPhraseData}
use libchewing.UserPhrase.Table.{
  HashItem, Table, phone_seq_the_same, hash_func, is_entry, find_entry, hash_find_entry, update,
  hash_insert,
}

pub the_same_refl : (ps : List ℕ) → phone_seq_the_same ps ps ≡ true
unfolding phone_seq_the_same
the_same_refl [] = refl
the_same_refl (p ∷ ps) = ground (arith, the_same_refl ps)

pub eq_of_the_same : (ps qs : List ℕ) → phone_seq_the_same ps qs ≡ true → ps ≡ qs
unfolding phone_seq_the_same
eq_of_the_same [] [] h = refl
eq_of_the_same [] (q ∷ qs) h = cc
eq_of_the_same (p ∷ ps) [] h = cc
eq_of_the_same (p ∷ ps) (q ∷ qs) h = ground (arith, eq_of_the_same ps qs)

-- The item is the entry for the phones and the word.
abbrev pub same_key : UserPhraseData → List ℕ → List ℕ → Bool
same_key d phones word = str_eq d.word_seq word && phone_seq_the_same d.phone_seq phones

pub find_entry-update :
    (t : Table) (h : ℕ) (chain : List HashItem) (phones word : List ℕ)
    → hash_find_entry (update t h chain) phones word ≡ (
        if hash_func phones == h
        then find_entry phones word chain
        else hash_find_entry t phones word)
unfolding hash_find_entry
find_entry-update t h chain phones word = ground arith

module _ (d : UserPhraseData) (t : Table) (phones word : List ℕ) where
  same_key-eq : same_key d phones word ≡ true → (d.word_seq ≡ word) × (d.phone_seq ≡ phones)
  same_key-eq h = (
    eq_of_str_eq d.word_seq word (ground arith),
    eq_of_the_same d.phone_seq phones (ground arith),
  )

  abbrev fresh : HashItem
  fresh = record { item_index = none; item = d }

  skip_fresh :
      (chain : List HashItem)
      → same_key d phones word ≡ false
      → find_entry phones word (fresh ∷ chain) ≡ find_entry phones word chain
  unfolding find_entry is_entry
  skip_fresh chain e = rw e refl

  same_chain :
      (h : ℕ)
      → (if hash_func phones == h
          then find_entry phones word (t h)
          else hash_find_entry t phones word)
        ≡ hash_find_entry t phones word
  unfolding hash_find_entry
  same_chain h =
      if-intro (λ r. r ≡ find_entry phones word (t (hash_func phones))) (hash_func phones == h)
        (λ c.
          let e : h ≡ hash_func phones = ground arith in ap (λ k. find_entry phones word (t k)) e)
        (λ _. refl)

  insert-fresh :
      (same : Bool)
      → same_key d phones word ≡ same
      → hash_find_entry
          (update t (hash_func d.phone_seq) (fresh ∷ t (hash_func d.phone_seq)))
          phones
          word
        ≡ (if same then some fresh else hash_find_entry t phones word)
  insert-fresh true e =
      let (w, p) = same_key-eq e in
      find_entry-update t (hash_func d.phone_seq) (fresh ∷ t (hash_func d.phone_seq)) phones word
      ∙ (unfold find_entry is_entry in
          let h : (hash_func phones == hash_func d.phone_seq) ≡ true =
            (let q = ap hash_func p in ground arith) in
          rw (h, e) refl)
  insert-fresh false e =
      find_entry-update t (hash_func d.phone_seq) (fresh ∷ t (hash_func d.phone_seq)) phones word
      ∙ ap
          (λ r.
            if hash_func phones == hash_func d.phone_seq then r else hash_find_entry t phones word)
          (skip_fresh (t (hash_func d.phone_seq)) e)
      ∙ same_chain (hash_func d.phone_seq)

-- After HashInsert, the phrase's phones and word lead to the item that it returns, which is the old
-- item if there was one; all other phones and words lead where they led before.
pub hash_find_entry-insert :
    (d : UserPhraseData) (t : Table) (phones word : List ℕ)
    → hash_find_entry (hash_insert d t).0 phones word
      ≡ (if same_key d phones word then some (hash_insert d t).1 else hash_find_entry t phones word)
unfolding hash_insert
hash_find_entry-insert d t phones word =
    elim (Option-cases (hash_find_entry t d.phone_seq d.word_seq)) [
      | inl absent ↦ rw (absent, hash_insert) (insert-fresh d t phones word _ refl)
      | inr (old, found) ↦
          rw (found, hash_insert)
            (elim (Bool-cases (same_key d phones word)) [
              | inl same ↦
                  let (w, p) = same_key-eq d t phones word same in rw (same, ← w, ← p) found
              | inr other ↦ rw other refl
            ])
    ]
