-- ===== src/Key2pho/Sequence.antt =====
-- src/common/key2pho.c: sequences of phones and their text, symbols separated by spaces.
pub mod Joined
use libchewing.Common.{
  ℕ, zero, suc, ◌+◌, ◌-◌, Bool, Option, none, some, List, [], ◌∷◌, ◌++◌, length, take, ◌>>=◌, ◌>>◌,
  ensure, leb, ◌==◌, ◌&&◌, if◌then◌else◌, not,
}
use libchewing.Key2pho.{uint_from_phone, phone_from_uint, get_phone_len, get_bopomofo_buf_len}

-- The loop of `BopomofoFromUintArray`, with `cap` bytes left in the buffer. The status of
-- `PhoneFromUint` is not looked at; `none` is a write past the end of the buffer.
pub bopomofo_loop : List ℕ → ℕ → Option (List ℕ)
bopomofo_loop [] cap = some []
bopomofo_loop (p ∷ seq) cap = do
  (status, phone) ← phone_from_uint cap p
  ensure (leb (length phone + 2) cap)
  rest ← bopomofo_loop seq (cap - (length phone + 1))
  some (phone ++ 0x20 ∷ rest)

-- The last space gives way to the NUL, if anything was written.
pub finish_text : ℕ → List ℕ → Option (ℕ × Option (List ℕ))
finish_text buf_len s = some (buf_len, if length s == 0 then none else some (take (length s - 1) s))

-- The result, and the string in `bopomofo_buf`, or `none` where nothing is written to it: where the
-- caller passes no buffer (`given`), a short one, or no phone.
unfoldable pub bopomofo_from_uint_array : Bool → ℕ → List ℕ → Option (ℕ × Option (List ℕ))
bopomofo_from_uint_array given bopomofo_len phone_seq = get_phone_len phone_seq >>= λ len.
    let buf_len = get_bopomofo_buf_len len in
    if given && leb buf_len bopomofo_len
    then bopomofo_loop (take len phone_seq) bopomofo_len >>= finish_text buf_len
    else some (buf_len, none)

-- `GetBopomofoCount`: the number of spaces.
unfoldable pub get_bopomofo_count : List ℕ → ℕ
get_bopomofo_count [] = 0
get_bopomofo_count (b ∷ s) = let rest = get_bopomofo_count s in if b == 0x20 then rest + 1 else rest

-- `strpbrk(bopomofo_buf, " ") + 1`. After the last phone there is no space, and the pointer is not
-- used again.
pub after_space : List ℕ → List ℕ
after_space [] = []
after_space (b ∷ s) = if b == 0x20 then s else after_space s

-- What `UintArrayFromBopomofo` returns: -1, or the number of phones with those it has stored.
pub data ArrayResult : Type 0 where
  failed : ArrayResult
  stored : List ℕ → ArrayResult

-- Its loop, for `n` more phones.
pub phones_loop : ℕ → List ℕ → Option ArrayResult
phones_loop zero buf = some (stored [])
phones_loop (suc n) buf = do
  p ← uint_from_phone buf
  let rest = phones_loop n (after_space buf)
  let next = rest >>= λ r. some (elim r [ failed ↦ failed | stored ps ↦ stored (p ∷ ps) ])
  if p == 0 then some failed else next

-- With no array (`given`) the number of phones is all that is computed. `none` is a fault of
-- `UintFromPhone`.
unfoldable pub uint_array_from_bopomofo : Bool → ℕ → List ℕ → Option (ℕ × ArrayResult)
uint_array_from_bopomofo given phone_len bopomofo_buf =
    let len = get_bopomofo_count bopomofo_buf + 1 in
    let phones = phones_loop len bopomofo_buf >>= λ r. some (len, r) in
    if not given
    then some (len, stored [])
    else if leb phone_len len
    then some (len, failed)
    else phones
