-- ===== src/Utf8/Chars.antt =====
-- The walk through a string that consists of whole characters.
use mathlib.Core.List.{flatten}
use libchewing.Common.{
  ℕ, suc, ◌+◌, ◌-◌, ◌<◌, ◌≡◌, refl, ap, ◌∙◌, some, List, [], ◌∷◌, ◌++◌, length, drop, arith, ◌≢◌,
  ◌==◌, if◌then◌else◌, length-drop, append_assoc, take-append_length, length-append, sym,
}
use libchewing.Utf8.{
  ue_bytes_from_char, str_len_loop, ue_str_len, n_bytes_loop, ue_str_n_bytes, seek_loop,
  ue_str_seek, close, ue_str_n_cpy,
}

-- One character: as many bytes as its first byte announces.
abbrev pub IsChar : List ℕ → Type 0
IsChar [] = ⊥
IsChar (b ∷ t) = ue_bytes_from_char b ≡ suc (length t)

abbrev pub AllChars : List (List ℕ) → Type 0
AllChars [] = Unit
AllChars (c ∷ cs) = IsChar c × AllChars cs

-- The bytes of a character after its first are skipped.
str_len_loop-skip : (t s : List ℕ) → str_len_loop (length t) (t ++ s) ≡ str_len_loop 0 s
unfolding str_len_loop
str_len_loop-skip [] s = refl
str_len_loop-skip (b ∷ t) s = str_len_loop-skip t s

seek_loop-skip : (n : ℕ) (t s : List ℕ) → seek_loop n (length t) (t ++ s) ≡ seek_loop n 0 s
unfolding seek_loop
seek_loop-skip n [] s = refl
seek_loop-skip n (b ∷ t) s = seek_loop-skip n t s

n_bytes_loop-skip :
    (n : ℕ) (t s : List ℕ) {m : ℕ}
    → n_bytes_loop n 0 s ≡ some m
    → n_bytes_loop n (length t) (t ++ s) ≡ some (length t + m)
unfolding n_bytes_loop
n_bytes_loop-skip n [] s h = h ∙ ap some (omega arith)
n_bytes_loop-skip n (b ∷ t) s h = rw (n_bytes_loop-skip n t s h) (ap some (omega arith))

rest_of_char : (b : ℕ) (t : List ℕ) → IsChar (b ∷ t) → ue_bytes_from_char b - 1 ≡ length t
rest_of_char b t h = omega arith

-- `ueStrLen` counts the characters of a string of whole characters.
pub ue_str_len-flatten :
    (cs : List (List ℕ)) → AllChars cs → ue_str_len (flatten cs) ≡ some (length cs)
unfolding ue_str_len flatten
ue_str_len-flatten [] h = refl
ue_str_len-flatten ([] ∷ cs) h = absurd h.0
ue_str_len-flatten ((b ∷ t) ∷ cs) h =
    rw (rest_of_char b t h.0, str_len_loop-skip t (flatten cs), ue_str_len-flatten cs h.1)

-- When the string starts with the bytes of whole characters, seeking over as many
-- characters leads to what stands behind them.
pub ue_str_seek-flatten :
    (cs : List (List ℕ)) (s : List ℕ)
    → AllChars cs
    → ue_str_seek (flatten cs ++ s) (length cs) ≡ some s
unfolding ue_str_seek flatten
ue_str_seek-flatten [] s h = refl
ue_str_seek-flatten ([] ∷ cs) s h = absurd h.0
ue_str_seek-flatten ((b ∷ t) ∷ cs) s h =
    ap (λ k. seek_loop (length cs) k ((t ++ flatten cs) ++ s)) (rest_of_char b t h.0)
    ∙ ap (seek_loop (length cs) (length t)) (append_assoc t (flatten cs) s)
    ∙ seek_loop-skip (length cs) t (flatten cs ++ s)
    ∙ ue_str_seek-flatten cs s h.1

-- When the string starts with the bytes of whole characters, the byte count of as many
-- characters is the number of those bytes.
ue_str_n_bytes-flatten :
    (cs : List (List ℕ)) (s : List ℕ)
    → AllChars cs
    → ue_str_n_bytes (flatten cs ++ s) (length cs) ≡ some (length (flatten cs))
unfolding ue_str_n_bytes flatten
ue_str_n_bytes-flatten [] s h = refl
ue_str_n_bytes-flatten ([] ∷ cs) s h = absurd h.0
ue_str_n_bytes-flatten ((b ∷ t) ∷ cs) s h =
    rw
      (
        append_assoc t (flatten cs) s,
        rest_of_char b t h.0,
        n_bytes_loop-skip (length cs) t (flatten cs ++ s) (ue_str_n_bytes-flatten cs s h.1),
      )
      (ap (λ n. some (suc n)) (sym (length-append t (flatten cs))))

-- The string that a buffer holds: its bytes up to the first NUL.
abbrev pub c_string : List ℕ → List ℕ
c_string [] = []
c_string (b ∷ s) = if b == 0 then [] else b ∷ c_string s

abbrev pub NoNul : List ℕ → Type 0
NoNul [] = Unit
NoNul (b ∷ s) = (b ≢ 0) × NoNul s

pub c_string-append : (s r : List ℕ) → NoNul s → c_string (s ++ 0 ∷ r) ≡ s
c_string-append [] r h = refl
c_string-append (b ∷ s) r h = ground (arith, c_string-append s r h.1)

-- `ueStrNCpy` with `STRNCPY_CLOSE`, from a string whose first characters are `cs`, into a buffer
-- that has room: the buffer then holds exactly those characters, and the result is their length.
pub ue_str_n_cpy-flatten :
    (cs : List (List ℕ)) (s dest : List ℕ)
    → AllChars cs
    → NoNul (flatten cs)
    → length (flatten cs) < length dest
    → (buf : List ℕ) × (ue_str_n_cpy dest (flatten cs ++ s) (length cs) close
        ≡ some (buf, length (flatten cs)))
      × (c_string buf ≡ flatten cs)
      × (length buf ≡ length dest)
unfolding ue_str_n_cpy
ue_str_n_cpy-flatten cs s dest h nz room =
    let n : ℕ = length (flatten cs) in
    (
      flatten cs ++ 0 ∷ drop (n + 1) dest,
      rw (ue_str_n_bytes-flatten cs s h, take-append_length (flatten cs) s) (ground arith),
      c_string-append (flatten cs) _ nz,
      rw (length-append (flatten cs)) (omega (arith, length-drop (n + 1) dest)),
    )
