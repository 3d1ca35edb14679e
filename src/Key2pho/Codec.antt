-- ===== src/Key2pho/Codec.antt =====
-- Phones to text and back: `PhoneFromUint` and `UintFromPhone`.
use native.Mathlib.Decide.{dec_lt}
use libchewing.Common.{
  ℕ, zero, suc, ◌+◌, ◌-◌, ◌≤◌, ◌<◌, ◌≡◌, ◌≢◌, refl, ap, sym, ◌∙◌, true, some, List, [], ◌∷◌, ◌++◌,
  length, take, ◌>>=◌, arith, append-nil,
}
use libchewing.Key2pho.{
  at_end, uint_from_phone, symbols_loop, phone_from_uint, copy_phone, ok, uint_from_phone_inx,
}
use libchewing.Key2pho.Bits.{pack, Packed-of_valid, uint_from_phone_inx-pack}
use libchewing.Key2pho.Tables.{classes}
use libchewing.Key2pho.Symbols.{no_space}
use libchewing.Key2pho.Syllable.{
  at_end-nil, syllable, symbols_loop-pack, uint_from_phone-syllable, length-syllable,
  no_space-syllable,
}

take-all : (s : List ℕ) (n : ℕ) → length s ≤ n → take n s ≡ s
take-all [] zero h = refl
take-all [] (suc n) h = refl
take-all (b ∷ s) zero h = absurd (omega arith)
take-all (b ∷ s) (suc n) h = ap (λ t. b ∷ t) (take-all s n (omega arith))

copy_phone-fits :
    (s : List ℕ) (n : ℕ) → 0 < length s → length s + 1 ≤ n → copy_phone n s ≡ some (ok, s)
unfolding copy_phone
copy_phone-fits s n pos h = ground (arith, take-all s (n - 1))

-- A phone other than 0 whose four indices are in range, as `UintFromPhoneInx` packs them.
pub record IsPhone (n : ℕ) : Type 0 where
  pub initial : ℕ
  pub medial : ℕ
  pub final : ℕ
  pub tone : ℕ
  pub initial_lt : initial < 22
  pub medial_lt : medial < 4
  pub final_lt : final < 14
  pub tone_lt : tone < 5
  pub packed : n ≡ uint_from_phone_inx (initial ∷ medial ∷ final ∷ tone ∷ [])
  pub nonzero : n ≢ 0

abbrev pub text : {n : ℕ} → IsPhone n → List ℕ
text p = syllable p.initial p.medial p.final p.tone

module _ {n : ℕ} (p : IsPhone n) where
  eq-pack : n ≡ pack p.initial p.medial p.final p.tone
  eq-pack =
      p.packed ∙ uint_from_phone_inx-pack _ _ _ _ p.initial_lt p.medial_lt p.final_lt p.tone_lt

  pub length-text : (0 < length (text p)) × (length (text p) ≤ 12)
  length-text =
      let (small, zero_case) = length-syllable p.initial_lt p.medial_lt p.final_lt p.tone_lt in
      let value = (Packed-of_valid _ _ _ _ p.initial_lt p.medial_lt p.final_lt p.tone_lt).value in
      (
        elim (dec_lt 0 (length (text p))) [
          | yes pos ↦ pos
          | no short ↦
              let zeros = zero_case (omega arith) in
              absurd (p.nonzero (omega (arith, eq-pack, value, zeros)))
        ],
        small,
      )

  pub no_space-text : no_space (text p) ≡ true
  no_space-text = no_space-syllable p.initial_lt p.medial_lt p.final_lt p.tone_lt

  pub phone_from_uint-text :
      (phone_len : ℕ) → 17 ≤ phone_len → phone_from_uint phone_len n ≡ some (ok, text p)
  unfolding phone_from_uint
  phone_from_uint-text phone_len h =
      ap (λ k. symbols_loop classes k >>= copy_phone phone_len) eq-pack
      ∙ ap (λ m. m >>= copy_phone phone_len)
          (symbols_loop-pack p.initial_lt p.medial_lt p.final_lt p.tone_lt)
      ∙ copy_phone-fits (text p) phone_len length-text.0 (omega (arith, length-text.1))

  pub uint_from_phone-text :
      (rest : List ℕ) → at_end rest ≡ true → uint_from_phone (text p ++ rest) ≡ some n
  uint_from_phone-text rest h =
      uint_from_phone-syllable p.initial_lt p.medial_lt p.final_lt p.tone_lt rest h
      ∙ ap some (sym eq-pack)

-- The text that `PhoneFromUint` writes for a phone with indices in range, into an array of at
-- least 17 bytes, is read back by `UintFromPhone` as the same phone.
pub uint_from_phone-phone_from_uint :
    {n : ℕ} (phone_len : ℕ)
    → IsPhone n
    → 17 ≤ phone_len
    → (s : List ℕ) × (phone_from_uint phone_len n ≡ some (ok, s)) × (uint_from_phone s ≡ some n)
uint_from_phone-phone_from_uint phone_len p h = (
  text p,
  phone_from_uint-text p phone_len h,
  ap uint_from_phone (sym (append-nil (text p))) ∙ uint_from_phone-text p [] at_end-nil,
)
