-- ===== src/Key2pho/Bits.antt =====
-- The four fields of a phone: packing with `|` and unpacking with `>>` and `&`.
use libchewing.Common.{
  ℕ, zero, suc, ◌+◌, ◌*◌, ◌<◌, ◌≡◌, refl, Bool, true, [], ◌∷◌, ◌&&◌, ◌==◌, arith, bit_or,
}
use libchewing.Common.Table.{holds_below, holds_at}
use libchewing.Key2pho.{phone_index, shl, uint_from_phone_inx}
use libchewing.Key2pho.Tables.{class0, class1, class2, class3}

-- The fold that both encoders compute.
abbrev pub pack : ℕ → ℕ → ℕ → ℕ → ℕ
pack a b c d = bit_or (bit_or (bit_or (bit_or 0 (shl a 9)) (shl b 7)) (shl c 3)) (shl d 0)

-- `|` of the index where there is one, as `UintFromPhone` does it.
abbrev pub or_at : ℕ → ℕ → ℕ → ℕ
or_at r zero k = r
or_at r (suc i) k = bit_or r (shl (suc i) k)

abbrev fields_agree : ℕ → ℕ → ℕ → ℕ → Bool
fields_agree a b c d =
    let n = pack a b c d in
    (n == a * 512 + b * 128 + c * 8 + d)
    && (or_at (or_at (or_at (or_at 0 a 9) b 7) c 3) d 0 == n)
    && (phone_index class0 n == a)
    && (phone_index class1 n == b)
    && (phone_index class2 n == c)
    && (phone_index class3 n == d)

fields_table :
    holds_below 22
      (λ a. holds_below 4 (λ b. holds_below 14 (λ c. holds_below 5 (λ d. fields_agree a b c d))))
    ≡ true
unfolding holds_below phone_index
fields_table = refl

-- What is in the four fields of a packed phone, and its value.
pub record Packed (a b c d : ℕ) : Type 0 where
  pub value : pack a b c d ≡ a * 512 + b * 128 + c * 8 + d
  pub skipping : or_at (or_at (or_at (or_at 0 a 9) b 7) c 3) d 0 ≡ pack a b c d
  pub field0 : phone_index class0 (pack a b c d) ≡ a
  pub field1 : phone_index class1 (pack a b c d) ≡ b
  pub field2 : phone_index class2 (pack a b c d) ≡ c
  pub field3 : phone_index class3 (pack a b c d) ≡ d

Packed-of_agree : (a b c d : ℕ) → fields_agree a b c d ≡ true → Packed a b c d
Packed-of_agree a b c d h = ground arith

pub Packed-of_valid : (a b c d : ℕ) → a < 22 → b < 4 → c < 14 → d < 5 → Packed a b c d
Packed-of_valid a b c d ha hb hc hd =
    Packed-of_agree a b c d
      (holds_at 5 _ d (holds_at 14 _ c (holds_at 4 _ b (holds_at 22 _ a fields_table ha) hb) hc) hd)

-- `UintFromPhoneInx` packs indices that are in range.
pub uint_from_phone_inx-pack :
    (a b c d : ℕ)
    → a < 22
    → b < 4
    → c < 14
    → d < 5
    → uint_from_phone_inx (a ∷ b ∷ c ∷ d ∷ []) ≡ pack a b c d
unfolding uint_from_phone_inx
uint_from_phone_inx-pack a b c d ha hb hc hd = ground arith
