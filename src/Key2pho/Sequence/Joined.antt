-- ===== src/Key2pho/Sequence/Joined.antt =====
-- Phones written out as text and read back.
use libchewing.Common.{
  ℕ, suc, ◌+◌, ◌-◌, ◌*◌, ◌≤◌, ◌<◌, ◌≡◌, refl, ap, sym, ◌∙◌, true, some, List, [], ◌∷◌, ◌++◌, length,
  take, ◌>>=◌, arith, append-nil, le→leb, append_assoc, take-append_length, length-append,
}
use libchewing.Key2pho.{uint_from_phone, get_phone_len, get_bopomofo_buf_len, at_end}
use libchewing.Key2pho.Symbols.{no_space}
use libchewing.Key2pho.Codec.{
  IsPhone, text, length-text, no_space-text, phone_from_uint-text, uint_from_phone-text,
}
use libchewing.Key2pho.Syllable.{at_end-nil}
use libchewing.Key2pho.Sequence.{
  bopomofo_loop, finish_text, bopomofo_from_uint_array, get_bopomofo_count, after_space, stored,
  phones_loop, uint_array_from_bopomofo,
}

abbrev pub IsPhones : List ℕ → Type 0
IsPhones [] = Unit
IsPhones (p ∷ ps) = IsPhone p × IsPhones ps

-- The texts, each with a space behind it; and with spaces only between them.
spaced : (ps : List ℕ) → IsPhones ps → List ℕ
spaced [] h = []
spaced (p ∷ ps) h = text h.0 ++ 0x20 ∷ spaced ps h.1

joined : (p : ℕ) (ps : List ℕ) → IsPhone p → IsPhones ps → List ℕ
joined p [] h hs = text h
joined p (q ∷ ps) h hs = text h ++ 0x20 ∷ joined q ps hs.0 hs.1

spaced-joined :
    (p : ℕ) (ps : List ℕ) (h : IsPhone p) (hs : IsPhones ps)
    → spaced (p ∷ ps) (h, hs) ≡ joined p ps h hs ++ 0x20 ∷ []
unfolding spaced joined
spaced-joined p [] h hs = refl
spaced-joined p (q ∷ ps) h hs =
    ap (λ s. text h ++ 0x20 ∷ s) (spaced-joined q ps hs.0 hs.1)
    ∙ sym (append_assoc (text h) (0x20 ∷ joined q ps hs.0 hs.1) (0x20 ∷ []))

bopomofo_loop-spaced :
    (ps : List ℕ) (cap : ℕ) (hs : IsPhones ps)
    → 17 * length ps ≤ cap
    → bopomofo_loop ps cap ≡ some (spaced ps hs)
unfolding bopomofo_loop spaced
bopomofo_loop-spaced [] cap hs fits = refl
bopomofo_loop-spaced (p ∷ ps) cap hs fits =
    let size = length-text hs.0 in
    rw (
      phone_from_uint-text hs.0 cap (omega arith),
      ◌>>=◌,
      le→leb (length (text hs.0) + 2) cap (omega arith),
      bopomofo_loop-spaced ps (cap - (length (text hs.0) + 1)) hs.1 (omega arith),
    )

get_phone_len-append :
    (ps rest : List ℕ) → IsPhones ps → get_phone_len (ps ++ 0 ∷ rest) ≡ some (length ps)
unfolding get_phone_len
get_phone_len-append [] rest hs = refl
get_phone_len-append (p ∷ ps) rest hs =
    rw (get_phone_len-append ps rest hs.1) (ground (arith, hs.0.nonzero))

count-no_space : (s : List ℕ) → no_space s ≡ true → get_bopomofo_count s ≡ 0
unfolding get_bopomofo_count
count-no_space [] h = refl
count-no_space (b ∷ s) h = ground (arith, count-no_space s)

count-append_space :
    (s t : List ℕ)
    → no_space s ≡ true
    → get_bopomofo_count (s ++ 0x20 ∷ t) ≡ suc (get_bopomofo_count t)
unfolding get_bopomofo_count
count-append_space [] t h = omega arith
count-append_space (b ∷ s) t h = ground (arith, count-append_space s t)

count-joined :
    (p : ℕ) (ps : List ℕ) (h : IsPhone p) (hs : IsPhones ps)
    → get_bopomofo_count (joined p ps h hs) ≡ length ps
unfolding joined
count-joined p [] h hs = count-no_space (text h) (no_space-text h)
count-joined p (q ∷ ps) h hs =
    count-append_space (text h) _ (no_space-text h) ∙ ap suc (count-joined q ps hs.0 hs.1)

after_space-append : (s t : List ℕ) → no_space s ≡ true → after_space (s ++ 0x20 ∷ t) ≡ t
unfolding after_space
after_space-append [] t h = refl
after_space-append (b ∷ s) t h = ground (arith, after_space-append s t)

at_end-space : (s : List ℕ) → at_end (0x20 ∷ s) ≡ true
unfolding at_end
at_end-space s = refl

read_last : (p : ℕ) (h : IsPhone p) → uint_from_phone (text h) ≡ some p
read_last p h =
    ap uint_from_phone (sym (append-nil (text h))) ∙ uint_from_phone-text h [] at_end-nil

phones_loop-joined :
    (p : ℕ) (ps : List ℕ) (h : IsPhone p) (hs : IsPhones ps)
    → phones_loop (suc (length ps)) (joined p ps h hs) ≡ some (stored (p ∷ ps))
unfolding phones_loop joined
phones_loop-joined p [] h hs = rw (read_last p h, ◌>>=◌) (ground (arith, h.nonzero))
phones_loop-joined p (q ∷ ps) h hs =
    rw
      (
        uint_from_phone-text h (0x20 ∷ joined q ps hs.0 hs.1) (at_end-space _),
        ◌>>=◌,
        after_space-append (text h) (joined q ps hs.0 hs.1) (no_space-text h),
        phones_loop-joined q ps hs.0 hs.1,
      )
      (ground (arith, h.nonzero))

take-phones : (ps rest : List ℕ) → take (length ps) (ps ++ rest) ≡ ps
take-phones ps rest = take-append_length ps rest

finish_text-spaced :
    (n p : ℕ) (ps : List ℕ) (h : IsPhone p) (hs : IsPhones ps)
    → finish_text n (spaced (p ∷ ps) (h, hs)) ≡ some (n, some (joined p ps h hs))
unfolding finish_text
finish_text-spaced n p ps h hs =
    let s = joined p ps h hs in
    let size : length (s ++ 0x20 ∷ []) ≡ length s + 1 = length-append s (0x20 ∷ []) in
    let cut : length s + 1 - 1 ≡ length s = omega arith in
    rw (spaced-joined p ps h hs, size, cut, take-append_length s (0x20 ∷ [])) (ground arith)

-- What is written for phones with indices in range, into a buffer that is large enough.
bopomofo_from_uint_array-joined :
    (p : ℕ) (ps rest : List ℕ) (bopomofo_len : ℕ) (h : IsPhone p) (hs : IsPhones ps)
    → get_bopomofo_buf_len (suc (length ps)) ≤ bopomofo_len
    → bopomofo_from_uint_array true bopomofo_len (p ∷ (ps ++ 0 ∷ rest))
      ≡ some (get_bopomofo_buf_len (suc (length ps)), some (joined p ps h hs))
unfolding bopomofo_from_uint_array
bopomofo_from_uint_array-joined p ps rest bopomofo_len h hs room =
    rw
      (
        get_phone_len-append (p ∷ ps) rest (h, hs),
        ◌>>=◌,
        le→leb (get_bopomofo_buf_len (suc (length ps))) bopomofo_len room,
        take-phones (p ∷ ps) (0 ∷ rest),
        bopomofo_loop-spaced (p ∷ ps) bopomofo_len (h, hs)
            (unfold get_bopomofo_buf_len in omega arith),
        ◌>>=◌,
      )
      (finish_text-spaced _ p ps h hs)

uint_array_from_bopomofo-joined :
    (p : ℕ) (ps : List ℕ) (phone_len : ℕ) (h : IsPhone p) (hs : IsPhones ps)
    → suc (length ps) < phone_len
    → uint_array_from_bopomofo true phone_len (joined p ps h hs)
      ≡ some (suc (length ps), stored (p ∷ ps))
unfolding uint_array_from_bopomofo
uint_array_from_bopomofo-joined p ps phone_len h hs places =
    let count : get_bopomofo_count (joined p ps h hs) + 1 ≡ suc (length ps) =
      omega (arith, count-joined p ps h hs) in
    rw (count, phones_loop-joined p ps h hs) (ground arith)

-- `UintArrayFromBopomofo` reads back what `BopomofoFromUintArray` writes for one phone or more,
-- with indices in range, into a buffer of the size that the latter returns; the array of the
-- former needs one place more than there are phones.
pub uint_array-bopomofo :
    (p : ℕ) (ps rest : List ℕ) (bopomofo_len phone_len : ℕ)
    → IsPhones (p ∷ ps)
    → get_bopomofo_buf_len (length (p ∷ ps)) ≤ bopomofo_len
    → length (p ∷ ps) < phone_len
    → (s : List ℕ) × (bopomofo_from_uint_array true bopomofo_len ((p ∷ ps) ++ 0 ∷ rest)
        ≡ some (get_bopomofo_buf_len (length (p ∷ ps)), some s))
      × (uint_array_from_bopomofo true phone_len s ≡ some (length (p ∷ ps), stored (p ∷ ps)))
uint_array-bopomofo p ps rest bopomofo_len phone_len (h, hs) room places = (
  joined p ps h hs,
  bopomofo_from_uint_array-joined p ps rest bopomofo_len h hs room,
  uint_array_from_bopomofo-joined p ps phone_len h hs places,
)
