-- ===== src/CString.antt =====
-- The functions of C's string.h that the sources call, on strings without their NUL.
use Prim.Native.Char.{code}
use Prim.Native.String.{String}
use libchewing.Common.{
  ℕ, suc, ◌≡◌, refl, Bool, true, false, Option, none, some, List, [], ◌∷◌, arith, ◌==◌,
  if◌then◌else◌, ◌&&◌,
}

-- The bytes of an ASCII literal.
abbrev pub bytes : String → List ℕ
bytes String.[] = []
bytes (String.◌∷◌ c s) = code c ∷ bytes s

-- `n` stands at the start of `s`.
unfoldable pub starts_with : List ℕ → List ℕ → Bool
starts_with s [] = true
starts_with [] (c ∷ n) = false
starts_with (b ∷ s) (c ∷ n) = b == c && starts_with s n

-- The first occurrence, as a suffix of `s`.
unfoldable pub strstr : List ℕ → List ℕ → Option (List ℕ)
unfolding starts_with
strstr [] n = if starts_with [] n then some [] else none
strstr (b ∷ s) n = if starts_with (b ∷ s) n then some (b ∷ s) else strstr s n

-- The index of the first `c`. The sources never look for the NUL with it.
unfoldable pub strchr_index : List ℕ → ℕ → Option ℕ
strchr_index [] c = none
strchr_index (b ∷ s) c =
    let rest = strchr_index s c in
    if b == c then some 0 else elim rest [ none ↦ none | some i ↦ some (suc i) ]

-- `!strcmp(s, t)`.
unfoldable pub str_eq : List ℕ → List ℕ → Bool
str_eq [] [] = true
str_eq [] (c ∷ t) = false
str_eq (b ∷ s) [] = false
str_eq (b ∷ s) (c ∷ t) = b == c && str_eq s t

pub str_eq_refl : (s : List ℕ) → str_eq s s ≡ true
unfolding str_eq
str_eq_refl [] = refl
str_eq_refl (b ∷ s) = ground (arith, str_eq_refl s)

pub eq_of_str_eq : (s t : List ℕ) → str_eq s t ≡ true → s ≡ t
unfolding str_eq
eq_of_str_eq [] [] h = refl
eq_of_str_eq [] (c ∷ t) h = cc
eq_of_str_eq (b ∷ s) [] h = cc
eq_of_str_eq (b ∷ s) (c ∷ t) h = ground (arith, eq_of_str_eq s t)
