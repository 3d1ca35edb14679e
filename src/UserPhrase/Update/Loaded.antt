-- ===== src/UserPhrase/Update/Loaded.antt =====
-- The table that InitUserphrase of src/hash.c makes of a file.
use libchewing.UserPhrase.{UserPhraseData, ◌-ℤ◌}
use libchewing.UserPhrase.Record.{hash_item_2_binary, read_hash_item_bin}
use libchewing.UserPhrase.Record.RoundTrip.{Storable, read_hash_item_bin-hash_item_2_binary}
use libchewing.UserPhrase.Table.{HashItem, hash_func}
use libchewing.UserPhrase.Walk.{WellPlaced}
use libchewing.UserPhrase.Disk.{HashFile, Store}
use libchewing.UserPhrase.Update.{
  load_loop, int_max, oldest_of, place_all, no_items, init_userphrase,
}
use libchewing.UserPhrase.Update.Highest.{AtMost}
use libchewing.Common.{
  ℕ, zero, suc, ◌+◌, ◌≡◌, ◌≢◌, ◌⊎◌, refl, ap, sym, subst, ◌∙◌, inl, inr, true, false, Option, none,
  some, List, [], ◌∷◌, get_elem?, ◌==◌, if◌then◌else◌, ◌>>=◌, arith, ℤ, pos, ltb_ℤ, All, eq_or_ne,
  some-inj, if-intro,
}

-- The records of a file are those that HashItem2Binary writes of some phrases, in order, and others
-- that ReadHashItem_bin ignores.
pub data Recorded : List (List ℕ) → List UserPhraseData → Type 0 where
  ended : Recorded [] []
  written :
      {d : UserPhraseData} {r : List ℕ} {rs : List (List ℕ)} {ds : List UserPhraseData}
      → Storable d
      → hash_item_2_binary d ≡ some r
      → Recorded rs ds
      → Recorded (r ∷ rs) (d ∷ ds)
  ignored :
      {r : List ℕ} {rs : List (List ℕ)} {ds : List UserPhraseData}
      → ((k : ℕ) → read_hash_item_bin r k ≡ some none)
      → Recorded rs ds
      → Recorded (r ∷ rs) ds

-- The least time of the phrases, or INT_MAX where there are none.
pub record Oldest (ds : List UserPhraseData) (m : ℤ) : Type 0 where
  pub below : (j : ℕ) (d : UserPhraseData) → get_elem? ds j ≡ some d → AtMost m d.recent_time
  pub among :
      ((ds ≡ []) × (m ≡ pos 2147483647))
      ⊎ ((j : ℕ) × (d : UserPhraseData) × (get_elem? ds j ≡ some d) × (m ≡ d.recent_time))

-- The chain of a hash: the phrases whose phones have it, in the order of the file, each with its
-- number, from `k` on, and with its time less the oldest.
pub data InChain (oldest : ℤ) (h : ℕ) : ℕ → List UserPhraseData → List HashItem → Type 0 where
  ended : {k : ℕ} → InChain oldest h k [] []
  taken :
      {k : ℕ} {d : UserPhraseData} {ds : List UserPhraseData} {is : List HashItem}
      → hash_func d.phone_seq ≡ h
      → InChain oldest h (k + 1) ds is
      → InChain oldest h k (d ∷ ds) (
          record { item_index = some k; item = record d { recent_time = d.recent_time -ℤ oldest } }
          ∷ is)
  passed :
      {k : ℕ} {d : UserPhraseData} {ds : List UserPhraseData} {is : List HashItem}
      → hash_func d.phone_seq ≢ h
      → InChain oldest h (k + 1) ds is
      → InChain oldest h k (d ∷ ds) is

numbered : ℕ → List UserPhraseData → List HashItem
numbered k [] = []
numbered k (d ∷ ds) = record { item_index = some k; item = d } ∷ numbered (k + 1) ds

load_loop-numbered :
    {rs : List (List ℕ)} {ds : List UserPhraseData} (k : ℕ)
    → Recorded rs ds
    → load_loop rs k ≡ some (numbered k ds)
unfolding load_loop numbered
load_loop-numbered k ended = refl
load_loop-numbered k (written {d} {r} w e rest) =
    let read : read_hash_item_bin r k ≡ some (some (record { item_index = some k; item = d })) =
      (let whole = read_hash_item_bin-hash_item_2_binary d k w in rw (e, ◌>>=◌) at whole) in
    rw (read, ◌>>=◌, load_loop-numbered (k + 1) rest) refl
load_loop-numbered k (ignored none_ rest) = rw (none_ k, ◌>>=◌) (load_loop-numbered k rest)

-- What the loop for `oldest` finds from `low` on.
record Least (low : ℤ) (ds : List UserPhraseData) (m : ℤ) : Type 0 where
  le_low : AtMost m low
  below : (j : ℕ) (d : UserPhraseData) → get_elem? ds j ≡ some d → AtMost m d.recent_time
  among :
      (m ≡ low) ⊎ ((j : ℕ) × (d : UserPhraseData) × (get_elem? ds j ≡ some d) × (m ≡ d.recent_time))

Least-add :
    (low : ℤ) (d : UserPhraseData) (ds : List UserPhraseData) (low' m : ℤ)
    → Least low' ds m
    → AtMost low' low
    → AtMost low' d.recent_time
    → (low' ≡ low) ⊎ (low' ≡ d.recent_time)
    → Least low (d ∷ ds) m
Least-add low d ds low' m l le le_d from = record {
  le_low = omega (arith, le, l.le_low);
  below = λ j d' at. below_at j d' at;
  among = elim (l.among) [
    | inr (j, d', at, e) ↦ inr (suc j, d', at, e)
    | inl e ↦ elim from [ inl e' ↦ inl (e ∙ e') | inr e' ↦ inr (zero, d, refl, e ∙ e') ]
  ];
}
  where
    below_at :
        (j : ℕ) (d' : UserPhraseData) → get_elem? (d ∷ ds) j ≡ some d' → AtMost m d'.recent_time
    below_at zero d' at =
        subst (λ (q : UserPhraseData). AtMost m q.recent_time) (some-inj at)
          (omega (arith, le_d, l.le_low))
    below_at (suc j) d' at = l.below j d' at

oldest_of-Least :
    (ds : List UserPhraseData) (k : ℕ) (low : ℤ) → Least low ds (oldest_of (numbered k ds) low)
unfolding oldest_of numbered
oldest_of-Least [] k low = record {
  le_low = omega arith;
  below = λ j d at. absurd (ground arith);
  among = inl refl;
}
oldest_of-Least (d ∷ ds) k low =
    let older = ltb_ℤ d.recent_time low in
    let low' : ℤ = if older then d.recent_time else low in
    Least-add low d ds low' _ (oldest_of-Least ds (k + 1) low')
      (if-intro (λ (q : ℤ). AtMost q low) older (λ c. ground arith) (λ c. omega arith))
      (if-intro (λ (q : ℤ). AtMost q d.recent_time) older (λ c. omega arith) (λ c. ground arith))
      (if-intro (λ (q : ℤ). (q ≡ low) ⊎ (q ≡ d.recent_time)) older (λ c. inr refl) (λ c. inl refl))

first_of_max :
    {rs : List (List ℕ)} {ds : List UserPhraseData} {m : ℤ}
    → Recorded rs ds
    → m ≡ int_max
    → ((d : UserPhraseData) → get_elem? ds 0 ≡ some d → AtMost m d.recent_time)
    → ((ds ≡ []) × (m ≡ pos 2147483647))
      ⊎ ((j : ℕ) × (d : UserPhraseData) × (get_elem? ds j ≡ some d) × (m ≡ d.recent_time))
first_of_max ended e below = inl (refl, e)
first_of_max (ignored none_ rest) e below = first_of_max rest e below
first_of_max {m = m} (written {d} w wrote rest) e below =
    let le : AtMost (pos 2147483647) (pos w.recent_time) =
      subst (λ q. AtMost q (pos w.recent_time)) e
        (subst (AtMost m) w.recent_time_eq (below d refl)) in
    let same : w.recent_time ≡ 2147483647 = omega (arith, le, w.ints) in
    inr (zero, d, refl, e ∙ sym (w.recent_time_eq ∙ ap pos same))

Oldest-of_Least :
    (rs : List (List ℕ)) (ds : List UserPhraseData) (m : ℤ)
    → Recorded rs ds
    → Least int_max ds m
    → Oldest ds m
Oldest-of_Least rs ds m r l = record {
  below = λ j d at. l.below j d at;
  among = elim (l.among) [ inr found ↦ inr found | inl e ↦ first_of_max r e (λ d. l.below zero d) ];
}

place_all-InChain :
    (oldest : ℤ) (ds : List UserPhraseData) (k h : ℕ)
    → InChain oldest h k ds (place_all oldest (numbered k ds) no_items h)
unfolding place_all numbered
place_all-InChain oldest [] k h = ended
place_all-InChain oldest (d ∷ ds) k h = elim (eq_or_ne (hash_func d.phone_seq) h) [
  | inl e ↦
      let here : (h == hash_func d.phone_seq) ≡ true = ground arith in
      rw here (
        taken e (
          subst
            (λ q. InChain oldest h (k + 1) ds (place_all oldest (numbered (k + 1) ds) no_items q))
            (sym e) (place_all-InChain oldest ds (k + 1) h)))
  | inr ne ↦
      let other : (h == hash_func d.phone_seq) ≡ false = ground arith in
      rw other (passed ne (place_all-InChain oldest ds (k + 1) h))
]

InChain-placed :
    {oldest : ℤ} {h k : ℕ} {ds : List UserPhraseData} {is : List HashItem}
    → InChain oldest h k ds is
    → All (λ i. hash_func i.item.phone_seq ≡ h) is
InChain-placed ended = tt
InChain-placed (taken e rest) = (e, InChain-placed rest)
InChain-placed (passed ne rest) = InChain-placed rest

-- The store after InitUserphrase.
pub record Loaded (f : HashFile) (ds : List UserPhraseData) (out : Option Store) : Type 0 where
  pub store : Store
  pub oldest : ℤ
  pub returned : out ≡ some store
  pub is_oldest : Oldest ds oldest
  pub in_chains : (h : ℕ) → InChain oldest h 0 ds (store.hashtable h)
  pub placed : WellPlaced store.hashtable
  pub lifetime : store.chewing_lifetime ≡ f.file_lifetime -ℤ oldest

-- For a file whose records are those that HashItem2Binary writes of storable phrases, in order, and
-- others that ReadHashItem_bin ignores, InitUserphrase loads exactly these phrases: each chain has
-- those whose phones have its hash, in the order of the file, numbered over the file and with their
-- times less the oldest time of a phrase. That is taken from the lifetime, too; where there are no
-- phrases, it is INT_MAX.
pub init_userphrase-Loaded :
    (f : HashFile) (ds : List UserPhraseData)
    → Recorded f.records ds
    → Loaded f ds (init_userphrase f)
unfolding init_userphrase
init_userphrase-Loaded f ds r =
    let oldest = oldest_of (numbered 0 ds) int_max in
    record {
      store = record {
        hashtable = place_all oldest (numbered 0 ds) no_items;
        chewing_lifetime = f.file_lifetime -ℤ oldest;
        hash_file = some f;
      };
      oldest = oldest;
      returned = rw (load_loop-numbered 0 r, ◌>>=◌) refl;
      is_oldest = Oldest-of_Least f.records ds oldest r (oldest_of-Least ds 0 int_max);
      in_chains = λ h. place_all-InChain oldest ds 0 h;
      placed = λ h. InChain-placed (place_all-InChain oldest ds 0 h);
      lifetime = refl;
    }
