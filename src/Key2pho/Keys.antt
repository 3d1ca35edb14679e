-- ===== src/Key2pho/Keys.antt =====
-- Keys to symbols: `PhoneInxFromKey` and the bounds of its tables.
use libchewing.Common.{
  ℕ, zero, suc, ◌+◌, ◌%◌, ◌<◌, ◌≡◌, refl, ap, sym, ◌∙◌, subst, Bool, true, false, Option, none,
  some, List, [], ◌∷◌, length, drop, get_elem?, ltb, ◌==◌, ◌&&◌, if◌then◌else◌, arith, append-nil,
  length-drop, Bool-cases, Option-cases, inl, inr, ◌>>=◌, ==_iff, >>=-eq-some,
}
use libchewing.Common.Table.{holds_below, holds_at}
use libchewing.CString.{strchr_index}
use libchewing.Key2pho.{
  find_key, ph_symbol, PhoneResult, found, failed, phone_from_key, key_string, inx_of_symbol,
  phone_inx_from_key?, phone_inx_from_key,
}
use libchewing.Key2pho.Tables.{Class, class0, class1, class2, class3, classes, key_str}

strchr_index-lt : (s : List ℕ) (c i : ℕ) → strchr_index s c ≡ some i → i < length s
unfolding strchr_index
strchr_index-lt [] c i h = cc
strchr_index-lt (b ∷ s) c zero h = omega arith
strchr_index-lt (b ∷ s) c (suc i) h = ground (arith, strchr_index-lt s c i)

find_key-lt : (n : ℕ) (s : List ℕ) (c i : ℕ) → find_key n s c ≡ some i → i < length s
unfolding find_key
find_key-lt zero s c i h = cc
find_key-lt (suc zero) s c i h = strchr_index-lt s c i h
find_key-lt (suc (suc n)) s c i h =
    let (j, e, h') = >>=-eq-some (strchr_index s c) _ h in
    let (k, e', h'') = >>=-eq-some (find_key (suc n) (drop (j + 1) s) c) _ h' in
    let j_lt = strchr_index-lt s c j e in
    let k_lt = find_key-lt (suc n) (drop (j + 1) s) c k e' in
    ground (arith, h'', j_lt, k_lt, length-drop (j + 1) s)

-- A string of 41 keys for every layout.
abbrev is_key_string : Option (List ℕ) → Bool
is_key_string none = false
is_key_string (some t) = length t == 41

key_string_table : holds_below 13 (λ kbtype. is_key_string (get_elem? key_str kbtype)) ≡ true
unfolding holds_below
key_string_table = refl

abbrev in_range : Class → PhoneResult → Bool
in_range c r = elim (inx_of_symbol c r) [ none ↦ false | some k ↦ ltb k c.num ]

abbrev in_ranges : PhoneResult → Bool
in_ranges r = in_range class0 r && in_range class1 r && in_range class2 r && in_range class3 r

abbrev symbol_in_ranges : Option (List ℕ) → Bool
symbol_in_ranges none = false
symbol_in_ranges (some s) = in_ranges (found s)

symbols_table : holds_below 41 (λ i. symbol_in_ranges (ph_symbol i)) ≡ true
unfolding holds_below ph_symbol inx_of_symbol
symbols_table = refl

no_symbol_in_ranges : (in_ranges failed ≡ true) × (in_ranges (found []) ≡ true)
unfolding inx_of_symbol
no_symbol_in_ranges = (refl, refl)

index-of_in_range :
    (c : Class) (r : PhoneResult)
    → in_range c r ≡ true
    → (k : ℕ) × (inx_of_symbol c r ≡ some k) × (k < c.num)
index-of_in_range c r h = elim (Option-cases (inx_of_symbol c r)) [
  | inl e ↦ absurd (faults e)
  | inr (k, e) ↦ (k, e, inside k e)
]
  where
    faults : inx_of_symbol c r ≡ none → ⊥
    faults e = ground arith

    inside : (k : ℕ) → inx_of_symbol c r ≡ some k → k < c.num
    inside k e = ground arith

symbol-of_index :
    (i : ℕ) → i < 41 → (s : List ℕ) × (ph_symbol i ≡ some s) × (in_ranges (found s) ≡ true)
symbol-of_index i lt = go (ph_symbol i) refl
  where
    go :
        (o : Option (List ℕ))
        → ph_symbol i ≡ o
        → (s : List ℕ) × (ph_symbol i ≡ some s) × (in_ranges (found s) ≡ true)
    go none e = cc (holds_at 41 _ i symbols_table lt, e)
    go (some s) e = (s, e, ap symbol_in_ranges (sym e) ∙ holds_at 41 _ i symbols_table lt)

key_string-of_kbtype :
    (kbtype : ℕ)
    → kbtype < 13
    → (t : List ℕ) × (get_elem? key_str kbtype ≡ some t) × (length t ≡ 41)
key_string-of_kbtype kbtype lt = go (get_elem? key_str kbtype) refl
  where
    go :
        (o : Option (List ℕ))
        → get_elem? key_str kbtype ≡ o
        → (t : List ℕ) × (get_elem? key_str kbtype ≡ some t) × (length t ≡ 41)
    go none e = cc (holds_at 13 _ kbtype key_string_table lt, ap is_key_string e)
    go (some t) e =
        (t, e, (==_iff _ _).0 (ap is_key_string (sym e) ∙ holds_at 13 _ kbtype key_string_table lt))

phone_from_key-empty : (target : List ℕ) (n : ℕ) → phone_from_key target [] n ≡ some (found [])
unfolding phone_from_key
phone_from_key-empty target n = refl

phone_from_key-failed :
    (target : List ℕ) (c n : ℕ)
    → 0 < n
    → find_key n target c ≡ none
    → phone_from_key target (c ∷ []) n ≡ some failed
unfolding phone_from_key
phone_from_key-failed target c n pos e =
    let some_ : (n == 0) ≡ false = ground arith in rw (some_, e, phone_from_key) refl

phone_from_key-found :
    (target : List ℕ) (c n : ℕ) {i : ℕ} {s : List ℕ}
    → 0 < n
    → find_key n target c ≡ some i
    → ph_symbol i ≡ some s
    → phone_from_key target (c ∷ []) n ≡ some (found s)
unfolding phone_from_key
phone_from_key-found target c n pos e at =
    let some_ : (n == 0) ≡ false = ground arith in
    rw (some_, e, phone_from_key, at, ◌>>=◌) (ap (λ t. some (found t)) (append-nil _))

-- Every answer of `PhoneFromKey` for one key is a symbol whose index is in range in each class.
phone_from_key-in_ranges :
    (target : List ℕ) (key search_times : ℕ)
    → 0 < search_times
    → length target ≡ 41
    → (r : PhoneResult) × (phone_from_key target (key_string key) search_times ≡ some r)
      × (in_ranges r ≡ true)
unfolding key_string
phone_from_key-in_ranges target key search_times pos size = elim (Bool-cases (key % 256 == 0)) [
  | inl e ↦ rw e (found [], phone_from_key-empty target search_times, no_symbol_in_ranges.1)
  | inr e ↦ rw e (one_key (key % 256))
]
  where
    one_key :
        (c : ℕ)
        → (r : PhoneResult) × (phone_from_key target (c ∷ []) search_times ≡ some r)
          × (in_ranges r ≡ true)
    one_key c = elim (Option-cases (find_key search_times target c)) [
      | inl e ↦ (failed, phone_from_key-failed target c search_times pos e, no_symbol_in_ranges.0)
      | inr (i, e) ↦
          let (symbol, at, ranges) =
            symbol-of_index i (rw size at (find_key-lt search_times target c i e)) in
          (found symbol, phone_from_key-found target c search_times pos e at, ranges)
    ]

phone_inx_from_key?-eq :
    (key type kbtype search_times : ℕ) {target : List ℕ} {c : Class} {r : PhoneResult}
    → get_elem? key_str kbtype ≡ some target
    → get_elem? classes type ≡ some c
    → phone_from_key target (key_string key) search_times ≡ some r
    → phone_inx_from_key? key type kbtype search_times ≡ inx_of_symbol c r
unfolding phone_inx_from_key?
phone_inx_from_key?-eq key type kbtype search_times at class run =
    rw (at, ◌>>=◌, class, ◌>>=◌, run, ◌>>=◌)

phone_inx_from_key-eq :
    (key type kbtype search_times : ℕ) {inx : ℕ}
    → phone_inx_from_key? key type kbtype search_times ≡ some inx
    → phone_inx_from_key key type kbtype search_times ≡ inx
unfolding phone_inx_from_key
phone_inx_from_key-eq key type kbtype search_times e = rw (e, phone_inx_from_key)

-- `PhoneInxFromKey` reads nothing out of range, and its result is an index of the class.
pub record InRange (key type kbtype search_times num : ℕ) : Type 0 where
  pub no_fault :
      phone_inx_from_key? key type kbtype search_times
      ≡ some (phone_inx_from_key key type kbtype search_times)
  pub inside : phone_inx_from_key key type kbtype search_times < num

InRange-of_class :
    (key type kbtype search_times : ℕ) {c : Class}
    → kbtype < 13
    → 0 < search_times
    → get_elem? classes type ≡ some c
    → ((r : PhoneResult) → in_ranges r ≡ true → in_range c r ≡ true)
    → InRange key type kbtype search_times c.num
InRange-of_class key type kbtype search_times {c} lt pos class pick =
    let (target, at, size) = key_string-of_kbtype kbtype lt in
    let (r, run, ranges) = phone_from_key-in_ranges target key search_times pos size in
    let (inx, e, inside) = index-of_in_range c r (pick r ranges) in
    let whole = phone_inx_from_key?-eq key type kbtype search_times at class run ∙ e in
    let value = phone_inx_from_key-eq key type kbtype search_times whole in
    record { no_fault = whole ∙ ap some (sym value); inside = rw value inside }

-- The number of indices of each class, `zhuin_tab_num`.
abbrev pub zhuin_tab_num : ℕ → ℕ
zhuin_tab_num type = if type == 0 then 22 else if type == 1 then 4 else if type == 2 then 14 else 5

-- For each of the 13 layouts, each class, each key and each number of searches but 0, `PhoneInxFromKey`
-- reads nothing out of range, and its result is less than `zhuin_tab_num` of the class.
pub phone_inx_from_key-InRange :
    (key type kbtype search_times : ℕ)
    → type < 4
    → kbtype < 13
    → 0 < search_times
    → InRange key type kbtype search_times (zhuin_tab_num type)
phone_inx_from_key-InRange key zero kbtype n h k pos =
    InRange-of_class key 0 kbtype n k pos refl (λ r h. ground arith)
phone_inx_from_key-InRange key (suc zero) kbtype n h k pos =
    InRange-of_class key 1 kbtype n k pos refl (λ r h. ground arith)
phone_inx_from_key-InRange key (suc (suc zero)) kbtype n h k pos =
    InRange-of_class key 2 kbtype n k pos refl (λ r h. ground arith)
phone_inx_from_key-InRange key (suc (suc (suc zero))) kbtype n h k pos =
    InRange-of_class key 3 kbtype n k pos refl (λ r h. ground arith)
phone_inx_from_key-InRange key (suc (suc (suc (suc t)))) kbtype n h k pos = absurd (omega arith)

zhuin_tab_num-positive : (type : ℕ) → 0 < zhuin_tab_num type
zhuin_tab_num-positive type = ground arith

-- With no search only the empty string has an index, the same as after one search.
no_search :
    (key type kbtype : ℕ)
    → type < 4
    → kbtype < 13
    → phone_inx_from_key key type kbtype 0 < zhuin_tab_num type
unfolding phone_inx_from_key?
no_search key type kbtype h k = elim (Bool-cases (key % 256 == 0)) [
  | inl e ↦
      let same : phone_inx_from_key key type kbtype 0 ≡ phone_inx_from_key key type kbtype 1 =
        (unfold phone_inx_from_key phone_inx_from_key? key_string phone_from_key in rw e refl) in
      rw same (phone_inx_from_key-InRange key type kbtype 1 h k (omega arith)).inside
  | inr e ↦ elim (Option-cases (phone_inx_from_key? key type kbtype 0)) [
    | inl n ↦
        let zero_ : phone_inx_from_key key type kbtype 0 ≡ 0 =
          (unfold phone_inx_from_key in rw (n, phone_inx_from_key) refl) in
        rw zero_ (zhuin_tab_num-positive type)
    | inr (inx, s) ↦
        let (target, _, s1) = >>=-eq-some (get_elem? key_str kbtype) _ s in
        let (c, _, s2) = >>=-eq-some (get_elem? classes type) _ s1 in
        let (r, searched, _) = >>=-eq-some (phone_from_key target (key_string key) 0) _ s2 in
        let single : key_string key ≡ key % 256 ∷ [] = (unfold key_string in rw e refl) in
        let gone : none ≡ some r =
          (unfold phone_from_key in
            (subst (λ q. phone_from_key target q 0 ≡ some r) single searched)) in
        absurd (ground arith)
  ]
]

-- In each case the result is less than `zhuin_tab_num`.
pub phone_inx_from_key-lt :
    (key type kbtype search_times : ℕ)
    → type < 4
    → kbtype < 13
    → phone_inx_from_key key type kbtype search_times < zhuin_tab_num type
phone_inx_from_key-lt key type kbtype zero h k = no_search key type kbtype h k
phone_inx_from_key-lt key type kbtype (suc n) h k =
    (phone_inx_from_key-InRange key type kbtype (suc n) h k (omega arith)).inside
