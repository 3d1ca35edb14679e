-- ===== src/UserPhrase/Record/RoundTrip.antt =====
-- Reading back the record of a phrase, src/hash.c.
use libchewing.Utf8.{ue_str_len}
use libchewing.Utf8.Chars.{c_string}
use libchewing.UserPhrase.{UserPhraseData}
use libchewing.UserPhrase.Table.{HashItem}
use libchewing.UserPhrase.Record.{
  put_int32, get_int32, put_uint16, put_phones, hash_item_2_binary, is_valid_chinese_string,
  get_phones, is_negative, read_hash_item_bin,
}
use libchewing.Common.{
  ℕ, zero, suc, ◌+◌, ◌-◌, ◌*◌, ◌/◌, ◌%◌, ◌≤◌, ◌<◌, ◌≡◌, ◌≢◌, refl, ap, sym, subst, ◌∙◌, true, false,
  some, List, [], ◌∷◌, ◌++◌, length, take, drop, replicate, get_elem?, ltb, leb, ◌==◌, ◌||◌, ◌&&◌,
  ◌>>=◌, ◌>>◌, ℤ, pos, arith, All, append_assoc, length-append, drop-append_length, get_elem?-drop,
  le→leb, lt→ltb,
}

c_string-append : (s rest : List ℕ) → All (λ b. b ≢ 0) s → c_string (s ++ 0 ∷ rest) ≡ s
c_string-append [] rest h = refl
c_string-append (b ∷ s) rest h =
    let e : (b == 0) ≡ false = (let ne = h.0 in ground arith) in
    rw e (ap (λ l. b ∷ l) (c_string-append s rest h.1))

c_string-All : (s : List ℕ) → All (λ b. b ≢ 0) s → c_string s ≡ s
c_string-All [] h = refl
c_string-All (b ∷ s) h =
    let e : (b == 0) ≡ false = (let ne = h.0 in ground arith) in
    rw e (ap (λ l. b ∷ l) (c_string-All s h.1))

get_int32-put_int32 :
    (n : ℕ) (rest : List ℕ) → n < 2147483648 → get_int32 (put_int32 (pos n) ++ rest) ≡ some (pos n)
unfolding get_int32 put_int32
get_int32-put_int32 n rest lt =
    let e : n % 4294967296 % 256
          + n % 4294967296 / 256 % 256 * 256
          + n % 4294967296 / 65536 % 256 * 65536
          + n % 4294967296 / 16777216 % 256 * 16777216
        ≡ n =
      omega arith in
    rw (e, lt→ltb n 2147483648 lt) refl

abbrev phone_bytes : List ℕ → List ℕ
phone_bytes [] = []
phone_bytes (p ∷ ps) = put_uint16 p ++ phone_bytes ps

put_phones-eq : (ps : List ℕ) → put_phones (length ps) ps ≡ some (phone_bytes ps)
unfolding put_phones
put_phones-eq [] = refl
put_phones-eq (p ∷ []) = refl
put_phones-eq (p ∷ q ∷ ps) = rw (put_phones-eq (q ∷ ps), ◌>>=◌) refl

get_phones-bytes :
    (ps rest : List ℕ)
    → All (λ p. p < 65536) ps
    → get_phones (length ps) (phone_bytes ps ++ rest) ≡ some ps
unfolding get_phones
get_phones-bytes [] rest h = refl
get_phones-bytes (p ∷ ps) rest h =
    let lt = h.0 in
    let e : p % 256 + p / 256 % 256 * 256 ≡ p = omega arith in
    rw (get_phones-bytes ps rest h.1, ◌>>=◌, e) refl

length-phone_bytes : (ps : List ℕ) → length (phone_bytes ps) ≡ 2 * length ps
length-phone_bytes [] = omega arith
length-phone_bytes (p ∷ ps) = omega (arith, length-phone_bytes ps)

abbrev zeros : ℕ → List ℕ
zeros n = replicate n 0

nil-drop : {A : Type 0} (n : ℕ) → [] ≡ drop {A = A} n []
nil-drop zero = refl
nil-drop (suc n) = refl

drop-drop : {A : Type 0} (m n : ℕ) (xs : List A) → drop (m + n) xs ≡ drop n (drop m xs)
drop-drop zero n xs = ap (λ k. drop k xs) (omega arith)
drop-drop {A} (suc m) n [] =
    (let e : suc m + n ≡ suc (m + n) = omega arith in ap (λ k. drop {A = A} k []) e) ∙ nil-drop n
drop-drop (suc m) n (x ∷ xs) =
    (let e : suc m + n ≡ suc (m + n) = omega arith in ap (λ k. drop k (x ∷ xs)) e)
    ∙ drop-drop m n xs

take-replicate : (k n : ℕ) → k ≤ n → take k (zeros n) ≡ zeros k
take-replicate zero n le = refl
take-replicate (suc k) zero le = absurd (omega arith)
take-replicate (suc k) (suc n) le = ap (λ l. 0 ∷ l) (take-replicate k n (omega arith))

take-append_short :
    (n : ℕ) (xs ys : List ℕ) → length xs ≤ n → take n (xs ++ ys) ≡ xs ++ take (n - length xs) ys
take-append_short n [] ys le = ap (λ k. take k ys) (omega arith)
take-append_short zero (x ∷ xs) ys le = absurd (omega arith)
take-append_short (suc n) (x ∷ xs) ys le =
    ap (λ l. x ∷ l)
      (take-append_short n xs ys (omega arith) ∙ ap (λ k. xs ++ take k ys) (omega arith))

take_padded :
    (n : ℕ) (xs : List ℕ) → length xs ≤ n → take n (xs ++ zeros n) ≡ xs ++ zeros (n - length xs)
take_padded n xs le =
    take-append_short n xs (zeros n) le
    ∙ ap (λ l. xs ++ l) (take-replicate (n - length xs) n (omega arith))

-- What a phrase must satisfy: each phone and each byte is not 0, there is a phone for each
-- character, every character has two bytes or more, the numbers are not negative, and the record has
-- room.
pub record Storable (d : UserPhraseData) : Type 0 where
  pub userfreq : ℕ
  pub recent_time : ℕ
  pub maxfreq : ℕ
  pub origfreq : ℕ
  pub userfreq_eq : d.userfreq ≡ pos userfreq
  pub recent_time_eq : d.recent_time ≡ pos recent_time
  pub maxfreq_eq : d.maxfreq ≡ pos maxfreq
  pub origfreq_eq : d.origfreq ≡ pos origfreq
  pub ints :
      (userfreq < 2147483648)
      × (recent_time < 2147483648)
      × (maxfreq < 2147483648)
      × (origfreq < 2147483648)
  pub phones_nonzero : All (λ p. p ≢ 0) d.phone_seq
  pub phones_range : All (λ p. p < 65536) d.phone_seq
  pub bytes_nonzero : All (λ b. b ≢ 0) d.word_seq
  pub characters : ue_str_len d.word_seq ≡ some (length d.phone_seq)
  pub valid : is_valid_chinese_string d.word_seq ≡ some true
  pub room : 2 * length d.phone_seq + length d.word_seq ≤ 106

-- The bytes from the phones on, before a rest.
abbrev word_part : UserPhraseData → List ℕ → List ℕ
word_part d rest = length d.word_seq ∷ (d.word_seq ++ 0 ∷ rest)

abbrev phone_part : UserPhraseData → List ℕ → List ℕ
phone_part d rest = phone_bytes d.phone_seq ++ word_part d rest

abbrev whole : UserPhraseData → List ℕ → List ℕ
whole d rest =
    put_int32 d.userfreq
    ++ (put_int32 d.recent_time
        ++ (put_int32 d.maxfreq
            ++ (put_int32 d.origfreq ++ (length d.phone_seq ∷ phone_part d rest))))

module _ (d : UserPhraseData) (w : Storable d) where
  length-whole : length (whole d []) ≡ 19 + 2 * length d.phone_seq + length d.word_seq
  unfolding put_int32
  length-whole = omega (
    arith,
    length-append (phone_bytes d.phone_seq) (word_part d []),
    length-append d.word_seq (0 ∷ []),
    length-phone_bytes d.phone_seq,
  )

  whole-append : (rest : List ℕ) → whole d [] ++ rest ≡ whole d rest
  unfolding put_int32
  whole-append rest = simp (append_assoc)

  hash_item_2_binary-eq : (rest : List ℕ) × (hash_item_2_binary d ≡ some (whole d rest))
  unfolding hash_item_2_binary
  hash_item_2_binary-eq =
      let pad = zeros (125 - length (whole d [])) in
      let fits : leb 125 (16 + length d.phone_seq * 2 + length d.word_seq) ≡ false =
        (let r = w.room in ground arith) in
      let in_range : leb (length (whole d [])) 126 ≡ true =
        le→leb _ _ (omega (arith, length-whole, w.room)) in
      let padded : take 125 (whole d [] ++ zeros 125) ≡ whole d pad =
        take_padded 125 (whole d []) (omega (arith, length-whole, w.room)) ∙ whole-append pad in
      (
        pad,
        rw (w.characters, ◌>>=◌, fits, put_phones-eq d.phone_seq, in_range, ◌>>◌) (ap some padded),
      )

suc-ne_zero : (n : ℕ) → (suc n == 0) ≡ false
suc-ne_zero n = ground arith

nonempty_of_valid : (s : List ℕ) → is_valid_chinese_string s ≡ some true → (length s == 0) ≡ false
unfolding is_valid_chinese_string
nonempty_of_valid [] h = cc
nonempty_of_valid (b ∷ s) h = suc-ne_zero (length s)

module _ (d : UserPhraseData) (w : Storable d) (rest : List ℕ) where
  int-at :
      (v : ℤ) (n : ℕ) (r : List ℕ)
      → v ≡ pos n
      → n < 2147483648
      → get_int32 (put_int32 v ++ r) ≡ some v
  int-at v n r e lt =
      subst (λ x. get_int32 (put_int32 x ++ r) ≡ some x) (sym e) (get_int32-put_int32 n r lt)

  drop-whole : drop (17 + 2 * length d.phone_seq) (whole d rest) ≡ word_part d rest
  unfolding put_int32
  drop-whole =
      drop-drop 17 (2 * length d.phone_seq) (whole d rest)
      ∙ ap (λ k. drop k (phone_part d rest)) (sym (length-phone_bytes d.phone_seq))
      ∙ drop-append_length (phone_bytes d.phone_seq) (word_part d rest)

  size-at : get_elem? (whole d rest) (17 + 2 * length d.phone_seq) ≡ some (length d.word_seq)
  size-at =
      ap (get_elem? (whole d rest)) (omega arith)
      ∙ sym (get_elem?-drop (17 + 2 * length d.phone_seq) (whole d rest) 0)
      ∙ ap (λ l. get_elem? l 0) drop-whole

  word-at : drop (18 + 2 * length d.phone_seq) (whole d rest) ≡ d.word_seq ++ 0 ∷ rest
  word-at =
      ap (λ k. drop k (whole d rest)) (omega arith)
      ∙ drop-drop (17 + 2 * length d.phone_seq) 1 (whole d rest)
      ∙ ap (drop 1) drop-whole

  not-negative : (v : ℤ) (n : ℕ) → v ≡ pos n → is_negative v ≡ false
  not-negative v n e = ap is_negative e

  abbrev stored : ℕ → HashItem
  stored index = record { item_index = some index; item = d }

  record Parts : Type 0 where
    first : get_int32 (whole d rest) ≡ some d.userfreq
    second : get_int32 (drop 4 (whole d rest)) ≡ some d.recent_time
    third : get_int32 (drop 8 (whole d rest)) ≡ some d.maxfreq
    fourth : get_int32 (drop 12 (whole d rest)) ≡ some d.origfreq
    len : get_elem? (whole d rest) 16 ≡ some (length d.phone_seq)
    phones : get_phones (length d.phone_seq) (drop 17 (whole d rest)) ≡ some d.phone_seq

  parts : Parts
  unfolding put_int32
  parts =
      let (lt1, lt2, lt3, lt4) = w.ints in
      record {
        first = int-at d.userfreq w.userfreq _ w.userfreq_eq lt1;
        second = int-at d.recent_time w.recent_time _ w.recent_time_eq lt2;
        third = int-at d.maxfreq w.maxfreq _ w.maxfreq_eq lt3;
        fourth = int-at d.origfreq w.origfreq _ w.origfreq_eq lt4;
        len = refl;
        phones = get_phones-bytes d.phone_seq (word_part d rest) w.phones_range;
      }

  negatives :
      (is_negative d.userfreq
        || is_negative d.recent_time
        || is_negative d.maxfreq
        || is_negative d.origfreq)
      ≡ false
  negatives =
      rw
        (
          not-negative d.userfreq w.userfreq w.userfreq_eq,
          not-negative d.recent_time w.recent_time w.recent_time_eq,
          not-negative d.maxfreq w.maxfreq w.maxfreq_eq,
          not-negative d.origfreq w.origfreq w.origfreq_eq,
        )
        refl

  -- The string in the record ends there, and is no longer than its length says.
  ends :
      (ltb (length d.word_seq) (length (d.word_seq ++ 0 ∷ rest))
        && leb (length d.word_seq) (length d.word_seq))
      ≡ true
  ends =
      let lt : length d.word_seq < length (d.word_seq ++ 0 ∷ rest) =
        omega (arith, length-append d.word_seq (0 ∷ rest)) in
      rw (lt→ltb _ _ lt, le→leb (length d.word_seq) (length d.word_seq) (omega arith)) refl

  read-whole : (index : ℕ) → read_hash_item_bin (whole d rest) index ≡ some (some (stored index))
  unfolding read_hash_item_bin
  read-whole index =
      let p = parts in
      let short_phones : ltb (length d.phone_seq) 128 ≡ true = lt→ltb _ _ (omega (arith, w.room)) in
      let short_word : ltb (length d.word_seq) 128 ≡ true = lt→ltb _ _ (omega (arith, w.room)) in
      let string = c_string-append d.word_seq rest w.bytes_nonzero in
      rw
        (
          p.first,
          ◌>>=◌,
          p.second,
          p.third,
          p.fourth,
          negatives,
          p.len,
          short_phones,
          ◌>>◌,
          p.phones,
          size-at,
          short_word,
          word-at,
          string,
          ends,
          c_string-All d.phone_seq w.phones_nonzero,
          nonempty_of_valid d.word_seq w.valid,
          w.valid,
        )
        refl

-- The record that HashItem2Binary makes of a phrase, of whole characters of two bytes or more with a
-- phone for each, no phone and no byte 0, with numbers that are not negative and fit in an int and
-- with room in the record, is read by ReadHashItem_bin as the same phrase.
pub read_hash_item_bin-hash_item_2_binary :
    (d : UserPhraseData) (index : ℕ)
    → Storable d
    → (hash_item_2_binary d >>= λ str. read_hash_item_bin str index)
      ≡ some (some (record { item_index = some index; item = d }))
read_hash_item_bin-hash_item_2_binary d index w =
    let (rest, e) = hash_item_2_binary-eq d w in rw (e, ◌>>=◌) (read-whole d w rest index)
