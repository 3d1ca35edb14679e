-- ===== src/Choice/Choices.antt =====
-- SetChoiceInfo of src/choice.c for a length of two characters or more.
use mathlib.Core.List.{Memᴰ}
use mathlib.Core.List.Memᴰ.{head}
use mathlib.Core.List.Memᴰ
use native.Mathlib.Nat as Nat
use libchewing.Choice.{AvailEntry, AvailInfo, ChoiceInfo, word_choice}
use libchewing.Choice.Candidates.{phrases_of, phrase_candidates, candidates, set_choice_info}
use libchewing.Choice.Collected.{shown, Whole, Distinct, append_phrases-Collected}
use libchewing.Dictionary.{StaticData, Phrase}
use libchewing.Editing.{ChewingData, phone_seq_cursor}
use libchewing.UserPhrase.Table.{Table, hash_func}
use libchewing.UserPhrase.Update.{users_in}
use libchewing.Utf8.Chars.{c_string}
use libchewing.Common.{
  ℕ, zero, suc, ◌+◌, ◌-◌, ◌*◌, ◌/◌, ◌≤◌, ◌<◌, ◌≡◌, ◌⊎◌, inl, inr, refl, ap, true, false, Option,
  some, List, [], ◌∷◌, map, length, take, drop, get_elem?, ltb, leb, ◌==◌, ◌!=◌, arith, All,
}

abbrev pub dict_words : List Phrase → List (List ℕ)
dict_words ps = map (λ p. p.phrase) ps

-- The user's words for `len` phones from `cursor` on.
abbrev pub user_words : Table → ℕ → ℕ → ChewingData → List (List ℕ)
user_words hashtable cursor len d =
    let phones = c_string (take len (drop cursor d.phone_seq)) in
    map (λ u. u.word_seq) (users_in phones (hashtable (hash_func phones)))

-- The candidates are the texts of the words, each once.
pub record Listed (len : ℕ) (dict users out : List (List ℕ)) : Type 0 where
  pub distinct : Distinct out
  pub from_dict : {v : List ℕ} → Memᴰ v dict → Memᴰ (shown len v) out
  pub from_users : {v : List ℕ} → Memᴰ v users → Memᴰ (shown len v) out
  pub only :
      {x : List ℕ} → Memᴰ x out → (w : List ℕ) × (Memᴰ w dict ⊎ Memᴰ w users) × (x ≡ shown len w)

phrase_candidates-Listed :
    (static : StaticData) (len : ℕ) (id : Option ℕ) (dict : List Phrase) (users : List (List ℕ))
    → phrases_of static id ≡ some dict
    → All (Whole len) (dict_words dict)
    → All (Whole len) users
    → length (dict_words dict) + length users ≤ 567
    → (out : List (List ℕ)) × (phrase_candidates static len id users ≡ some out)
      × Listed len (dict_words dict) users out
unfolding phrase_candidates
phrase_candidates-Listed static len id dict users e hd hu le =
    let first = append_phrases-Collected len [] (dict_words dict) tt tt hd (omega arith) in
    let c = first.2 in
    let second =
      append_phrases-Collected len first.0 users c.distinct c.sized hu (omega (arith, c.count)) in
    let c' = second.2 in
    (
      second.0,
      rw (e, first.1) second.1,
      record {
        distinct = c'.distinct;
        from_dict = λ m. c'.had (c.complete m);
        from_users = λ m. c'.complete m;
        only = λ m. elim (c'.only m) [
          | inl before ↦ elim (c.only before) [
            | inl nothing ↦ absurd (Memᴰ.not-nil nothing)
            | inr (w, mw, ew) ↦ (w, inl mw, ew)
          ]
          | inr (w, mw, ew) ↦ (w, inr mw, ew)
        ];
      },
    )

member-length : {x : List ℕ} (xs : List (List ℕ)) → Memᴰ x xs → 0 < length xs
member-length [] m = absurd (Memᴰ.not-nil m)
member-length (y ∷ xs) m = omega arith

-- Where there is a phrase there is a candidate.
some_candidate :
    (len : ℕ) (dict users out : List (List ℕ))
    → Listed len dict users out
    → 0 < length dict + length users
    → 0 < length out
some_candidate len [] [] out l some_ = absurd (omega arith)
some_candidate len (v ∷ dict) users out l some_ = member-length out (l.from_dict (head refl))
some_candidate len [] (v ∷ users) out l some_ = member-length out (l.from_users (head refl))

-- The first page and the number of pages.
pub record Paged (cand_per_page : ℕ) (len : ℕ) (dict users : List (List ℕ)) (out : ChoiceInfo)
    : Type 0 where
  pub listed : Listed len dict users out.total_choice_str
  pub enough : length out.total_choice_str ≤ out.n_page * cand_per_page
  pub needed : (out.n_page - 1) * cand_per_page < length out.total_choice_str
  pub first_page : out.page_no ≡ 0
  pub page_size : out.n_choice_per_page ≡ cand_per_page

pages-enough : (n k : ℕ) → 0 < k → n ≤ (n + k - 1) / k * k
pages-enough n k pos =
    let h : n + k - 1 < (n + k - 1) / k * k + k = Nat.lt-div-mul-add pos in omega arith

below_last : (q n k : ℕ) → 0 < n → 0 < k → q * k ≤ n + k - 1 → (q - 1) * k < n
below_last zero n k some_ pos le = omega arith
below_last (suc p) n k some_ pos le =
    let e : suc p * k ≡ p * k + k = grind arith in
    let e' : (suc p - 1) * k ≡ p * k = ap (λ m. m * k) (omega arith) in omega (arith, e, e')

pages-needed : (n k : ℕ) → 0 < n → 0 < k → ((n + k - 1) / k - 1) * k < n
pages-needed n k some_ pos =
    below_last ((n + k - 1) / k) n k some_ pos (Nat.div-mul-le_self (n + k - 1) k)

-- For a length of two or more with its phones in the buffer, where the dictionary can be read, there
-- is at least one phrase and there are at most 567, and the first characters of every phrase, as many
-- as phones, have the same number of bytes and less than 45 together, SetChoiceInfo meets no fault:
-- the candidates are the first characters of exactly the phrases of the dictionary and of the user,
-- each once, on the least number of pages that holds them, with the first page shown.
pub set_choice_info-Paged :
    (static : StaticData) (hashtable : Table) (kb_type cand_per_page cursor : ℕ) (d : ChewingData)
    (pai : AvailInfo) (pci : ChoiceInfo) (entry : AvailEntry) (dict : List Phrase)
    → phone_seq_cursor d ≡ some cursor
    → get_elem? (pai.avail) (pai.current_avail) ≡ some entry
    → 1 < entry.len
    → entry.len < 50
    → cursor + entry.len ≤ length d.phone_seq
    → phrases_of static entry.id ≡ some dict
    → All (Whole entry.len) (dict_words dict)
    → All (Whole entry.len) (user_words hashtable cursor entry.len d)
    → 0 < length (dict_words dict) + length (user_words hashtable cursor entry.len d)
    → length (dict_words dict) + length (user_words hashtable cursor entry.len d) ≤ 567
    → 0 < cand_per_page
    → (out : ChoiceInfo) × (set_choice_info static hashtable kb_type cand_per_page d pai pci
        ≡ some out)
      × Paged cand_per_page entry.len
          (dict_words dict)
          (user_words hashtable cursor entry.len d)
          out
unfolding set_choice_info candidates
set_choice_info-Paged static hashtable kb_type cand_per_page cursor d pai pci entry dict at avail
      long small room read hd hu some_ le pos =
    let users = user_words hashtable cursor entry.len d in
    let all = phrase_candidates-Listed static entry.len entry.id dict users read hd hu le in
    let total = all.0 in
    let any : 0 < length total =
      some_candidate entry.len (dict_words dict) users total all.2 some_ in
    let e1 : (entry.len != 0) ≡ true = ground arith in
    let e2 : (entry.len == 1) ≡ false = ground arith in
    let e3 : leb (cursor + entry.len) (length d.phone_seq) ≡ true = ground arith in
    let e4 : ltb entry.len 50 ≡ true = ground arith in
    let e5 : ltb 0 (length total) ≡ true = ground arith in
    let e6 : ltb 0 cand_per_page ≡ true = ground arith in
    (
      record pci {
        total_choice_str = total;
        n_choice_per_page = cand_per_page;
        n_page = (length total + cand_per_page - 1) / cand_per_page;
        page_no = 0;
        is_symbol = word_choice;
      },
      rw (avail, at, e1, e2, e3, e4, all.1, e5, e6) refl,
      record {
        listed = all.2;
        enough = pages-enough (length total) cand_per_page pos;
        needed = pages-needed (length total) cand_per_page any pos;
        first_page = refl;
        page_size = refl;
      },
    )
