-- ===== src/Key2pho/Symbols.antt =====
-- The symbols of each class as characters, and the steps of `UintFromPhone` over one symbol.
use mathlib.Core.List.{flatten}
use libchewing.Common.{
  ℕ, suc, ◌+◌, ◌-◌, ◌≤◌, ◌<◌, ◌≡◌, ◌∙◌, Bool, true, false, none, some, List, [], ◌∷◌, ◌++◌, length,
  replicate, leb, ◌==◌, ◌!=◌, ◌&&◌, arith, append-nil, take-append_length, drop-append_length,
  bit_or, Option-cases, ◌>>=◌, inl, inr,
}
use libchewing.CString.{strstr}
use libchewing.Utf8.{close, ue_bytes_from_char, ue_str_len, ue_str_n_cpy}
use libchewing.Utf8.Chars.{IsChar, NoNul, c_string, ue_str_n_cpy-flatten}
use libchewing.Key2pho.{at_end, uint_from_phone_loop, shl, inx_of_symbol, found, max_utf8_size}
use libchewing.Key2pho.Tables.{Class}

abbrev pub no_nul : List ℕ → Bool
no_nul [] = true
no_nul (b ∷ s) = b != 0 && no_nul s

NoNul-of_no_nul : (s : List ℕ) → no_nul s ≡ true → NoNul s
NoNul-of_no_nul [] h = tt
NoNul-of_no_nul (b ∷ s) h = (ground arith, NoNul-of_no_nul s (ground arith))

-- No byte of `s` is a space.
abbrev pub no_space : List ℕ → Bool
no_space [] = true
no_space (b ∷ s) = b != 0x20 && no_space s

pub no_space-append :
    (s t : List ℕ) → no_space s ≡ true → no_space t ≡ true → no_space (s ++ t) ≡ true
no_space-append [] t hs ht = ht
no_space-append (b ∷ s) t hs ht = ground (arith, no_space-append s t)

-- A character of at most three bytes that is no space.
abbrev pub is_symbol : List ℕ → Bool
is_symbol [] = false
is_symbol (b ∷ t) =
    no_space (b ∷ t)
    && (ue_bytes_from_char b == suc (length t))
    && leb (length t) 2
    && no_nul (b ∷ t)

pub record IsSymbol (s : List ℕ) : Type 0 where
  pub char : IsChar s
  pub no_nul : NoNul s
  pub fits : length s ≤ 3
  pub no_spaces : no_space s ≡ true
  pub more : (rest : List ℕ) → at_end (s ++ rest) ≡ false

pub IsSymbol-of_is_symbol : (s : List ℕ) → is_symbol s ≡ true → IsSymbol s
unfolding at_end
IsSymbol-of_is_symbol [] h = cc
IsSymbol-of_is_symbol (b ∷ t) h = record {
  char = ground arith;
  no_nul = NoNul-of_no_nul (b ∷ t) (ground arith);
  fits = ground arith;
  no_spaces = ground arith;
  more = λ rest. ground arith;
}

pub IsSymbol-nonempty : (s : List ℕ) → IsSymbol s → length s ≡ 0 → ⊥
IsSymbol-nonempty [] h e = h.char
IsSymbol-nonempty (b ∷ t) h e = omega arith

-- `ueStrNCpy` of one symbol into `buf`.
copy-IsSymbol :
    {s : List ℕ} (rest : List ℕ)
    → IsSymbol s
    → (buf : List ℕ) × (ue_str_n_cpy (replicate (max_utf8_size + 1) 0) (s ++ rest) 1 close
        ≡ some (buf, length s))
      × (c_string buf ≡ s)
unfolding flatten
copy-IsSymbol {s} rest h =
    let e : flatten (s ∷ []) ≡ s = append-nil s in
    let nz : NoNul (flatten (s ∷ [])) = rw e h.no_nul in
    let room : length (flatten (s ∷ [])) < 5 = rw e (omega (arith, h.fits)) in
    let (buf, run, held, size) =
      ue_str_n_cpy-flatten (s ∷ []) rest (replicate 5 0) (h.char, tt) nz room in
    (buf, rw e at run, held ∙ e)

-- An index above 0 is that of an occurrence in the string of the class.
inx_of_symbol-found :
    (c : Class) (s : List ℕ) (k : ℕ)
    → inx_of_symbol c (found s) ≡ some (suc k)
    → (pos : List ℕ) × (n : ℕ) × (strstr c.tab s ≡ some pos)
      × (ue_str_len pos ≡ some n)
      × (c.num - n ≡ suc k)
unfolding inx_of_symbol
inx_of_symbol-found c s k h = elim (Option-cases (strstr c.tab s)) [
  | inl e ↦ absurd (not_found e)
  | inr (pos, e) ↦ elim (Option-cases (ue_str_len pos)) [
    | inl e' ↦ absurd (no_length pos e e')
    | inr (n, e') ↦ (pos, n, e, e', index pos n e e')
  ]
]
  where
    not_found : strstr c.tab s ≡ none → ⊥
    not_found e = ground arith

    no_length : (pos : List ℕ) → strstr c.tab s ≡ some pos → ue_str_len pos ≡ none → ⊥
    no_length pos e e' = ground arith

    index :
        (pos : List ℕ) (n : ℕ)
        → strstr c.tab s ≡ some pos
        → ue_str_len pos ≡ some n
        → c.num - n ≡ suc k
    index pos n e e' = ground arith

-- A symbol of the class is taken.
pub uint_from_phone_loop-symbol :
    (c : Class) (cs : List Class) {s : List ℕ} (rest : List ℕ) (r : ℕ) (k : ℕ)
    → IsSymbol s
    → inx_of_symbol c (found s) ≡ some (suc k)
    → uint_from_phone_loop (c ∷ cs) (s ++ rest) r
      ≡ uint_from_phone_loop cs rest (bit_or r (shl (suc k) c.shift))
unfolding uint_from_phone_loop
uint_from_phone_loop-symbol c cs {s} rest r k h index =
    let (buf, run, held) = copy-IsSymbol rest h in
    let (pos, n, at, len, e) = inx_of_symbol-found c s k index in
    rw (
      h.more rest,
      run,
      ◌>>=◌,
      take-append_length s rest,
      at,
      drop-append_length s rest,
      len,
      ◌>>=◌,
      e,
    )

-- A symbol of a later class is left for it.
pub uint_from_phone_loop-skip :
    (c : Class) (cs : List Class) {s : List ℕ} (rest : List ℕ) (r : ℕ)
    → IsSymbol s
    → strstr c.tab s ≡ none
    → uint_from_phone_loop (c ∷ cs) (s ++ rest) r ≡ uint_from_phone_loop cs (s ++ rest) r
unfolding uint_from_phone_loop
uint_from_phone_loop-skip c cs {s} rest r h missing =
    let (buf, run, held) = copy-IsSymbol rest h in
    rw (h.more rest, run, ◌>>=◌, take-append_length s rest, missing)
