-- ===== src/UserPhrase/Walk.antt =====
-- Going through the whole table of src/hash.c with FindNextHash, and through the phrases for some
-- phones with HashFindPhonePhrase.
use libchewing.Common.{
  ◌≢◌, ℕ, zero, suc, ◌+◌, ◌≤◌, ◌≡◌, inl, inr, refl, true, ap, sym, subst, ◌∙◌, List, [], ◌∷◌, ◌++◌,
  length, arith, All, Bool-cases,
}
use libchewing.UserPhrase.Lookup.{the_same_refl, eq_of_the_same}
use libchewing.UserPhrase.Table.{
  HashItem, Table, hash_table_size, phone_seq_the_same, hash_func, find_phones,
  hash_find_phone_phrase, next_bucket, find_next_hash,
}

-- Every item stands in the chain of its phones.
abbrev pub WellPlaced : Table → Type 0
WellPlaced t = (h : ℕ) → All (λ i. hash_func i.item.phone_seq ≡ h) (t h)

-- `count` chains from `h` on, one after the other.
pub chains : Table → ℕ → ℕ → List HashItem
chains t zero h = []
chains t (suc count) h = t h ++ chains t count (h + 1)

-- The items that are met from a pointer on, at most `fuel` of them.
pub walk : ℕ → Table → List HashItem → List HashItem
walk zero t at = []
walk (suc fuel) t [] = []
walk (suc fuel) t (curr ∷ rest) = curr ∷ walk fuel t (find_next_hash t (curr ∷ rest))

walk_nil : (fuel : ℕ) (t : Table) → walk fuel t [] ≡ []
unfolding walk
walk_nil zero t = refl
walk_nil (suc fuel) t = refl

module _ (t : Table) (placed : WellPlaced t) where
  -- A chain, given what comes after it.
  walk_chain :
      (count h : ℕ)
      → hash_table_size ≡ h + 1 + count
      → ((fuel : ℕ)
          → length (chains t count (h + 1)) ≤ fuel
          → walk fuel t (next_bucket t count (h + 1)) ≡ chains t count (h + 1))
      → (fuel : ℕ) (curr : HashItem) (rest : List HashItem)
      → All (λ i. hash_func i.item.phone_seq ≡ h) (curr ∷ rest)
      → length ((curr ∷ rest) ++ chains t count (h + 1)) ≤ fuel
      → walk fuel t (curr ∷ rest) ≡ (curr ∷ rest) ++ chains t count (h + 1)
  unfolding walk
  walk_chain count h size ih zero curr rest all le = absurd (omega arith)
  walk_chain count h size ih (suc fuel) curr [] all le =
      let e : find_next_hash t (curr ∷ []) ≡ next_bucket t count (h + 1) =
        (unfold find_next_hash in
          rw all.0 (ap (λ c. next_bucket t c (h + 1)) (omega (arith, size)))) in
      ap (λ l. curr ∷ l) (ap (walk fuel t) e ∙ ih fuel (omega arith))
  walk_chain count h size ih (suc fuel) curr (next ∷ rest) all le =
      let e : find_next_hash t (curr ∷ next ∷ rest) ≡ next ∷ rest =
        (unfold find_next_hash in refl) in
      ap (λ l. curr ∷ l)
        (ap (walk fuel t) e ∙ walk_chain count h size ih fuel next rest all.1 (omega arith))

  walk_bucket :
      (count h fuel : ℕ)
      → hash_table_size ≡ h + 1 + count
      → ((fuel : ℕ)
          → length (chains t count (h + 1)) ≤ fuel
          → walk fuel t (next_bucket t count (h + 1)) ≡ chains t count (h + 1))
      → (chain : List HashItem) → t h ≡ chain
      → length (chain ++ chains t count (h + 1)) ≤ fuel
      → walk fuel t (next_bucket t (suc count) h) ≡ chain ++ chains t count (h + 1)
  unfolding next_bucket
  walk_bucket count h fuel size ih [] e le = rw (e, next_bucket) (ih fuel le)
  walk_bucket count h fuel size ih (i ∷ is) e le =
      rw (e, next_bucket)
        (walk_chain count h size ih fuel i is
          (subst (λ l. All (λ i. hash_func i.item.phone_seq ≡ h) l) e (placed h)) le)

  walk-chains :
      (count h fuel : ℕ)
      → hash_table_size ≡ h + count
      → length (chains t count h) ≤ fuel
      → walk fuel t (next_bucket t count h) ≡ chains t count h
  unfolding chains
  walk-chains zero h fuel size le = (unfold next_bucket in walk_nil fuel t)
  walk-chains (suc count) h fuel size le =
      walk_bucket count h fuel (omega (arith, size))
        (λ f le'. walk-chains count (h + 1) f (omega (arith, size)) le') (t h) refl le

-- In a table whose items stand in the chains of their phones, FindNextHash meets every item of every
-- chain once, in order, from NULL on, and then ends.
pub find_next_hash-chains :
    (t : Table) (fuel : ℕ)
    → WellPlaced t
    → length (chains t hash_table_size 0) ≤ fuel
    → walk fuel t (find_next_hash t []) ≡ chains t hash_table_size 0
unfolding find_next_hash
find_next_hash-chains t fuel placed le =
    walk-chains t placed hash_table_size 0 fuel (omega arith) le

-- The loop over HashFindPhonePhrase, from a phrase that was found on.
pub walk_phones : ℕ → Table → List ℕ → List HashItem → List HashItem
walk_phones zero t phones at = []
walk_phones (suc fuel) t phones [] = []
walk_phones (suc fuel) t phones (curr ∷ rest) =
    curr ∷ walk_phones fuel t phones (hash_find_phone_phrase t phones (curr ∷ rest))

-- `out` has the items of a chain that have the phones, once each and in order.
pub data WithPhones (phones : List ℕ) : List HashItem → List HashItem → Type 0 where
  ended : WithPhones phones [] []
  taken :
      {i : HashItem} {is out : List HashItem}
      → i.item.phone_seq ≡ phones
      → WithPhones phones is out
      → WithPhones phones (i ∷ is) (i ∷ out)
  passed :
      {i : HashItem} {is out : List HashItem}
      → i.item.phone_seq ≢ phones
      → WithPhones phones is out
      → WithPhones phones (i ∷ is) out

walk_find_phones :
    (t : Table) (phones : List ℕ) (fuel : ℕ) (chain : List HashItem)
    → length chain ≤ fuel
    → WithPhones phones chain (walk_phones fuel t phones (find_phones phones chain))
unfolding walk_phones find_phones
walk_find_phones t phones zero [] le = ended
walk_find_phones t phones (suc fuel) [] le = ended
walk_find_phones t phones zero (i ∷ is) le = absurd (omega arith)
walk_find_phones t phones (suc fuel) (i ∷ is) le =
    elim (Bool-cases (phone_seq_the_same i.item.phone_seq phones)) [
      | inl same ↦
          let e : hash_find_phone_phrase t phones (i ∷ is) ≡ find_phones phones is =
            (unfold hash_find_phone_phrase in refl) in
          rw same (
            taken (eq_of_the_same i.item.phone_seq phones same) (
              subst (λ l. WithPhones phones is (walk_phones fuel t phones l)) (sym e)
                (walk_find_phones t phones fuel is (omega arith))))
      | inr other ↦
          let differ : i.item.phone_seq ≢ phones = λ e.
            let yes : phone_seq_the_same i.item.phone_seq phones ≡ true =
              subst (λ q. phone_seq_the_same i.item.phone_seq q ≡ true) e
                (the_same_refl i.item.phone_seq) in
            absurd (ground arith) in
          rw other (passed differ (walk_find_phones t phones (suc fuel) is (omega arith)))
    ]

-- Going from phrase to phrase with UserGetPhraseFirst and UserGetPhraseNext meets exactly the items of
-- the phones' chain whose phones are equal to these, once each and in order, and then ends.
pub walk_phones-WithPhones :
    (t : Table) (phones : List ℕ) (fuel : ℕ)
    → length (t (hash_func phones)) ≤ fuel
    → WithPhones phones
        (t (hash_func phones))
        (walk_phones fuel t phones (hash_find_phone_phrase t phones []))
unfolding hash_find_phone_phrase
walk_phones-WithPhones t phones fuel le = walk_find_phones t phones fuel (t (hash_func phones)) le
