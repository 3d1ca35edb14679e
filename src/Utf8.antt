-- ===== src/Utf8.antt =====
-- src/common/chewing-utf8-util.c: walking through UTF-8 strings.
-- A C string is the list of its bytes before the NUL; a pointer into it is a suffix, and `none` is
-- a pointer that has run past the NUL. A buffer is the list of all its bytes.
pub mod Chars
pub mod Search
use mathlib.Core.Option
use libchewing.Common.{
  ℕ, zero, suc, ◌+◌, ◌-◌, Bool, true, false, Option, none, some, List, [], ◌∷◌, ◌++◌, length,
  get_or, take, drop, replicate, ltb, ◌==◌, if◌then◌else◌, ◌&&◌,
}

abbrev pub utf8len_tab : List ℕ
utf8len_tab =
    replicate 192 1
    ++ replicate 32 2
    ++ replicate 16 3
    ++ replicate 8 4
    ++ replicate 4 5
    ++ replicate 2 6
    ++ replicate 2 1

-- `b` is an `unsigned char`.
unfoldable pub ue_bytes_from_char : ℕ → ℕ
ue_bytes_from_char b = get_or utf8len_tab b 1

-- The loop of `ueStrLen`, `k` bytes before the end of the current character.
pub str_len_loop : ℕ → List ℕ → Option ℕ
str_len_loop zero [] = some 0
str_len_loop (suc k) [] = none
str_len_loop zero (b ∷ s) = Option.map suc (str_len_loop (ue_bytes_from_char b - 1) s)
str_len_loop (suc k) (b ∷ s) = str_len_loop k s

unfoldable pub ue_str_len : List ℕ → Option ℕ
unfolding ue_bytes_from_char str_len_loop
ue_str_len s = str_len_loop 0 s

-- The loops of `ueStrNBytes` and `ueStrSeek`: `n` characters are to come after the `k` bytes that
-- are left of the current one. The NUL counts as a character of one byte, which leads past it.
pub n_bytes_loop : ℕ → ℕ → List ℕ → Option ℕ
n_bytes_loop n (suc k) [] = none
n_bytes_loop n (suc k) (b ∷ s) = Option.map suc (n_bytes_loop n k s)
n_bytes_loop zero zero s = some 0
n_bytes_loop (suc n) zero [] = none
n_bytes_loop (suc n) zero (b ∷ s) = Option.map suc (n_bytes_loop n (ue_bytes_from_char b - 1) s)

unfoldable pub ue_str_n_bytes : List ℕ → ℕ → Option ℕ
unfolding ue_bytes_from_char n_bytes_loop
ue_str_n_bytes s n = n_bytes_loop n 0 s

pub seek_loop : ℕ → ℕ → List ℕ → Option (List ℕ)
seek_loop n (suc k) [] = none
seek_loop n (suc k) (b ∷ s) = seek_loop n k s
seek_loop zero zero s = some s
seek_loop (suc n) zero [] = none
seek_loop (suc n) zero (b ∷ s) = seek_loop n (ue_bytes_from_char b - 1) s

-- `ueStrSeek` and `ueConstStrSeek`.
unfoldable pub ue_str_seek : List ℕ → ℕ → Option (List ℕ)
unfolding ue_bytes_from_char seek_loop
ue_str_seek s n = seek_loop n 0 s

-- `STRNCPY_CLOSE` and `STRNCPY_NOT_CLOSE`.
pub data End : Type 0 where
  close not_close : End

-- `memcpy(dest, src, len)`, and the NUL under `STRNCPY_CLOSE`.
pub copy_bytes : List ℕ → List ℕ → ℕ → End → List ℕ
copy_bytes dest src len close = take len src ++ 0 ∷ drop (len + 1) dest
copy_bytes dest src len not_close = take len src ++ drop len dest

-- How many bytes a copy of `len` bytes writes.
pub written : ℕ → End → ℕ
written len close = len + 1
written len not_close = len

-- The new buffer and the number of bytes copied; `none` is an access out of range.
unfoldable pub ue_str_n_cpy : List ℕ → List ℕ → ℕ → End → Option (List ℕ × ℕ)
unfolding ue_str_n_bytes copy_bytes written Option.bind
ue_str_n_cpy dest src n end = Option.bind (ue_str_n_bytes src n) λ len.
    if ltb (length dest) (written len end) then none else some (copy_bytes dest src len end, len)

-- `!strncmp(p, q, n)`.
unfoldable pub strncmp_eq : List ℕ → List ℕ → ℕ → Bool
strncmp_eq p q zero = true
strncmp_eq [] [] (suc n) = true
strncmp_eq [] (c ∷ q) (suc n) = false
strncmp_eq (b ∷ p) [] (suc n) = false
strncmp_eq (b ∷ p) (c ∷ q) (suc n) = b == c && strncmp_eq p q n

-- The loop of `ueStrStr`, over the positions that are left.
pub str_str_loop : ℕ → List ℕ → List ℕ → ℕ → Option (List ℕ)
str_str_loop zero p sub lsub = if strncmp_eq p sub lsub then some p else none
str_str_loop (suc ub) [] sub lsub = if strncmp_eq [] sub lsub then some [] else none
str_str_loop (suc ub) (b ∷ p) sub lsub =
    if strncmp_eq (b ∷ p) sub lsub then some (b ∷ p) else str_str_loop ub p sub lsub

-- `lstr` and `lsub` are the lengths in bytes that the caller gives.
unfoldable pub ue_str_str : List ℕ → ℕ → List ℕ → ℕ → Option (List ℕ)
unfolding strncmp_eq str_str_loop
ue_str_str str lstr sub lsub =
    if ltb lstr lsub then none else str_str_loop (lstr - lsub) str sub lsub
