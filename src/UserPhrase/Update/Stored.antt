-- ===== src/UserPhrase/Update/Stored.antt =====
-- What UserUpdatePhrase of src/userphrase-hash.c leaves in the table.
use libchewing.CString.{eq_of_str_eq}
use libchewing.UserPhrase.Lookup.{find_entry-update, eq_of_the_same}
use libchewing.UserPhrase.Table.{
  HashItem, hash_func, is_entry, find_entry, hash_find_entry, modify_entry,
}
use libchewing.UserPhrase.Disk.{Store}
use libchewing.UserPhrase.Update.{put_back}
use libchewing.Common.{
  ℕ, ◌≡◌, inl, inr, refl, ap, sym, ◌∙◌, true, false, none, some, List, [], ◌∷◌, ◌==◌, if◌then◌else◌,
  arith, Bool-cases,
}

pub same_word :
    (phones word : List ℕ) (i : HashItem)
    → is_entry phones word i ≡ true
    → (i.item.word_seq ≡ word) × (i.item.phone_seq ≡ phones)
unfolding is_entry
same_word phones word i h = (
  eq_of_str_eq i.item.word_seq word (ground arith),
  eq_of_the_same i.item.phone_seq phones (ground arith),
)

pub is_entry_congr :
    (p w : List ℕ) (i j : HashItem)
    → i.item.word_seq ≡ j.item.word_seq
    → i.item.phone_seq ≡ j.item.phone_seq
    → is_entry p w i ≡ is_entry p w j
unfolding is_entry
is_entry_congr p w i j e f = rw (e, f) refl

module _ (phones word : List ℕ) (new : HashItem) where
  find_entry-modify_self :
      (chain : List HashItem) (old : HashItem)
      → is_entry phones word new ≡ true
      → find_entry phones word chain ≡ some old
      → find_entry phones word (modify_entry phones word new chain) ≡ some new
  unfolding find_entry modify_entry
  find_entry-modify_self [] old k h = cc
  find_entry-modify_self (i ∷ is) old k h = elim (Bool-cases (is_entry phones word i)) [
    | inl e ↦ rw (e, k) refl
    | inr e ↦ rw (e, e) (find_entry-modify_self is old k (rw e at h))
  ]

  find_entry-modify_other :
      (p w : List ℕ) (chain : List HashItem)
      → is_entry phones word new ≡ true
      → is_entry p w new ≡ false
      → find_entry p w (modify_entry phones word new chain) ≡ find_entry p w chain
  unfolding find_entry modify_entry
  find_entry-modify_other p w [] k o = refl
  find_entry-modify_other p w (i ∷ is) k o = elim (Bool-cases (is_entry phones word i)) [
    | inl e ↦
        let (word_eq, phones_eq) = same_word phones word i e in
        let (word_eq', phones_eq') = same_word phones word new k in
        let other : is_entry p w i ≡ false =
          is_entry_congr p w i new (word_eq ∙ sym word_eq') (phones_eq ∙ sym phones_eq') ∙ o in
        rw (e, o, other) refl
    | inr e ↦
        rw e (ap (λ r. if is_entry p w i then some i else r) (find_entry-modify_other p w is k o))
  ]

  -- The table after the item is put back.
  module _ (s : Store) (old : HashItem) (k : is_entry phones word new ≡ true)
      (was : hash_find_entry s.hashtable phones word ≡ some old) where
    pub put_back_self :
        hash_find_entry (put_back phones word new none s).hashtable phones word ≡ some new
    unfolding put_back
    put_back_self =
        find_entry-update s.hashtable (hash_func phones)
          (modify_entry phones word new (s.hashtable (hash_func phones))) phones word
        ∙ (let same : (hash_func phones == hash_func phones) ≡ true = ground arith in
            rw same (
              find_entry-modify_self (s.hashtable (hash_func phones)) old k
                (unfold hash_find_entry in was)))

    pub put_back_other :
        (p w : List ℕ)
        → is_entry p w new ≡ false
        → hash_find_entry (put_back phones word new none s).hashtable p w
          ≡ hash_find_entry s.hashtable p w
    unfolding put_back
    put_back_other p w o =
        find_entry-update s.hashtable (hash_func phones)
          (modify_entry phones word new (s.hashtable (hash_func phones))) p w
        ∙ (elim (Bool-cases (hash_func p == hash_func phones)) [
          | inl same ↦
              let e : hash_func p ≡ hash_func phones = ground arith in
              rw same (
                find_entry-modify_other p w (s.hashtable (hash_func phones)) k o
                ∙ (unfold hash_find_entry in ap (λ h. find_entry p w (s.hashtable h)) (sym e)))
          | inr other ↦ rw other refl
        ])
