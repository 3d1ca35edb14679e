-- ===== src/Key2pho/Entries.antt =====
-- The symbols of the four classes, each checked against the tables.
use libchewing.Common.{
  ℕ, zero, suc, ◌<◌, ◌≡◌, refl, ap, Bool, true, false, Option, none, some, List, [], length, get_or,
  ◌==◌, ◌&&◌, arith,
}
use libchewing.Common.Table.{holds_below, holds_at}
use libchewing.CString.{strstr, str_eq, eq_of_str_eq}
use libchewing.Utf8.{ue_bytes_from_char}
use libchewing.Key2pho.{inx_of_symbol, found, symbol_at}
use libchewing.Key2pho.Tables.{
  Class, class0, class1, class2, class3, initials, medials, finals, tones,
}
use libchewing.Key2pho.Symbols.{is_symbol, IsSymbol, IsSymbol-of_is_symbol}

-- The text of an index: nothing for 0.
abbrev pub spell : List (List ℕ) → ℕ → List ℕ
spell chars zero = []
spell chars (suc k) = get_or chars k []

abbrev pub is_some_of : Option ℕ → ℕ → Bool
is_some_of none k = false
is_some_of (some n) k = n == k

abbrev pub is_some_text : Option (List ℕ) → List ℕ → Bool
is_some_text none s = false
is_some_text (some t) s = str_eq t s

abbrev pub is_none : Option (List ℕ) → Bool
is_none none = true
is_none (some t) = false

abbrev pub class_table : Class → List (List ℕ) → Bool
class_table c chars = holds_below (length chars) λ k.
    let s = get_or chars k [] in
    is_symbol s
    && is_some_of (inx_of_symbol c (found s)) (suc k)
    && is_some_text (symbol_at c (suc k)) s

abbrev pub apart_table : Class → List (List ℕ) → Bool
apart_table c chars = holds_below (length chars) (λ k. is_none (strstr c.tab (get_or chars k [])))

eq_of_is_some_of : (o : Option ℕ) (k : ℕ) → is_some_of o k ≡ true → o ≡ some k
eq_of_is_some_of none k h = cc
eq_of_is_some_of (some n) k h = ground arith

eq_of_is_some_text : (o : Option (List ℕ)) (s : List ℕ) → is_some_text o s ≡ true → o ≡ some s
eq_of_is_some_text none s h = cc
eq_of_is_some_text (some t) s h = ap some (eq_of_str_eq t s h)

eq_of_is_none : (o : Option (List ℕ)) → is_none o ≡ true → o ≡ none
eq_of_is_none none h = refl
eq_of_is_none (some t) h = cc

and_parts : (a b c : Bool) → (a && b && c) ≡ true → (a ≡ true) × (b ≡ true) × (c ≡ true)
and_parts a b c h = ground arith

-- What the proofs use of a symbol of class `c`.
pub record Entry (c : Class) (s : List ℕ) (k : ℕ) : Type 0 where
  pub symbol : IsSymbol s
  pub index : inx_of_symbol c (found s) ≡ some (suc k)
  pub text : symbol_at c (suc k) ≡ some s

pub Entry-of_table :
    (c : Class) (chars : List (List ℕ))
    → class_table c chars ≡ true
    → (k : ℕ) → k < length chars
    → Entry c (get_or chars k []) k
Entry-of_table c chars h k lt =
    let s = get_or chars k [] in
    let (symbol, index, text) =
      and_parts (is_symbol s) (is_some_of (inx_of_symbol c (found s)) (suc k))
        (is_some_text (symbol_at c (suc k)) s) (holds_at (length chars) _ k h lt) in
    record {
      symbol = IsSymbol-of_is_symbol s symbol;
      index = eq_of_is_some_of _ _ index;
      text = eq_of_is_some_text _ _ text;
    }

pub apart-of_table :
    (c : Class) (chars : List (List ℕ))
    → apart_table c chars ≡ true
    → (k : ℕ) → k < length chars
    → strstr c.tab (get_or chars k []) ≡ none
apart-of_table c chars h k lt = eq_of_is_none _ (holds_at (length chars) _ k h lt)

pub table0 : class_table class0 initials ≡ true
unfolding holds_below ue_bytes_from_char inx_of_symbol symbol_at str_eq
table0 = refl

pub table1 : class_table class1 medials ≡ true
unfolding holds_below ue_bytes_from_char inx_of_symbol symbol_at str_eq
table1 = refl

pub table2 : class_table class2 finals ≡ true
unfolding holds_below ue_bytes_from_char inx_of_symbol symbol_at str_eq
table2 = refl

pub table3 : class_table class3 tones ≡ true
unfolding holds_below ue_bytes_from_char inx_of_symbol symbol_at str_eq
table3 = refl

pub apart01 : apart_table class0 medials ≡ true
unfolding holds_below inx_of_symbol
apart01 = refl

pub apart02 : apart_table class0 finals ≡ true
unfolding holds_below inx_of_symbol
apart02 = refl

pub apart03 : apart_table class0 tones ≡ true
unfolding holds_below inx_of_symbol
apart03 = refl

pub apart12 : apart_table class1 finals ≡ true
unfolding holds_below inx_of_symbol
apart12 = refl

pub apart13 : apart_table class1 tones ≡ true
unfolding holds_below inx_of_symbol
apart13 = refl

pub apart23 : apart_table class2 tones ≡ true
unfolding holds_below inx_of_symbol
apart23 = refl
