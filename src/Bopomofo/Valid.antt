-- ===== src/Bopomofo/Valid.antt =====
-- The invariant of the state of src/bopomofo.c, and what a key does to a valid state.
use libchewing.Common.{
  ℕ, zero, suc, ◌+◌, ◌*◌, ◌<◌, ◌≤◌, ◌≡◌, refl, ◌∙◌, sym, Bool, true, false, ◌≢◌, ◌⊎◌, inl, inr,
  arith, length, leb, ◌==◌, ◌&&◌, Bool-cases,
}
use libchewing.Key2pho.{uint_from_phone_inx, phone_inx_from_key}
use libchewing.Key2pho.Bits.{Packed-of_valid, uint_from_phone_inx-pack}
use libchewing.Key2pho.Codec.{IsPhone}
use libchewing.Key2pho.Keys.{phone_inx_from_key-lt, zhuin_tab_num}
use libchewing.Bopomofo.{Inx, no_inx, set_inx, to_list, BopomofoData, Rtn, commit, find_type, blank}

-- The indices are in range of their classes.
pub record InxOk (p : Inx) : Type 0 where
  pub lt0 : p.i0 < 22
  pub lt1 : p.i1 < 4
  pub lt2 : p.i2 < 14
  pub lt3 : p.i3 < 5

pub no_inx-InxOk : InxOk no_inx
no_inx-InxOk = ground arith

-- A number that packs indices in range, as `phone` and `phone_alt` do.
pub record IsCode (n : ℕ) : Type 0 where
  pub inx : Inx
  pub inx_ok : InxOk inx
  pub packed : n ≡ uint_from_phone_inx (to_list inx)

pub record Valid (b : BopomofoData) : Type 0 where
  pub kbtype_lt : b.kbtype < 13
  pub inx_ok : InxOk b.pho_inx
  pub alt_ok : InxOk b.pho_inx_alt
  pub phone_ok : IsCode b.phone
  pub phone_alt_ok : IsCode b.phone_alt
  pub key_seq_lt : length b.key_seq < 10

-- A syllable is complete: a character has it, and both buffers are clear again.
pub record Committed (has_word : ℕ → Bool) (b : BopomofoData) : Type 0 where
  pub word : has_word b.phone ≡ true
  pub phone : IsPhone b.phone
  pub cleared : b.pho_inx ≡ no_inx
  pub alt_cleared : b.pho_inx_alt ≡ no_inx

-- The result and the new state of one key.
pub record Step (has_word : ℕ → Bool) (b : BopomofoData) (out : Rtn × BopomofoData) : Type 0 where
  pub valid : Valid (out.1)
  pub same_kbtype : out.1.kbtype ≡ b.kbtype
  pub outcome :
      (out.0 ≢ commit) × (out.1.phone ≡ b.phone) × (out.1.phone_alt ≡ b.phone_alt)
      ⊎ (out.0 ≡ commit) × Committed has_word (out.1)

-- The packed number of indices in range, and when it is not 0.
pub uint_from_phone_inx-IsCode : (p : Inx) → InxOk p → IsCode (uint_from_phone_inx (to_list p))
uint_from_phone_inx-IsCode p ok = record { inx = p; inx_ok = ok; packed = refl }

uint_from_phone_inx-value :
    (p : Inx)
    → InxOk p
    → uint_from_phone_inx (to_list p) ≡ p.i0 * 512 + p.i1 * 128 + p.i2 * 8 + p.i3
uint_from_phone_inx-value p ok =
    uint_from_phone_inx-pack _ _ _ _ ok.lt0 ok.lt1 ok.lt2 ok.lt3
    ∙ (Packed-of_valid _ _ _ _ ok.lt0 ok.lt1 ok.lt2 ok.lt3).value

-- A valid phone fits the `uint16_t` that holds it.
pub IsCode-lt : (n : ℕ) → IsCode n → n < 65536
IsCode-lt n code =
    let value = code.packed ∙ uint_from_phone_inx-value code.inx code.inx_ok in
    let ok = code.inx_ok in omega (arith, value, ok.lt0, ok.lt1, ok.lt2, ok.lt3)

pub uint_from_phone_inx-IsPhone :
    (p : Inx) → InxOk p → (blank p && p.i3 == 0) ≡ false → IsPhone (uint_from_phone_inx (to_list p))
uint_from_phone_inx-IsPhone p ok full = record {
  initial = p.i0;
  medial = p.i1;
  final = p.i2;
  tone = p.i3;
  initial_lt = ok.lt0;
  medial_lt = ok.lt1;
  final_lt = ok.lt2;
  tone_lt = ok.lt3;
  packed = refl;
  nonzero = λ zeroed. some_zero zeroed;
}
  where
    some_zero : uint_from_phone_inx (to_list p) ≢ 0
    some_zero zeroed =
        let value = sym (uint_from_phone_inx-value p ok) ∙ zeroed in ground (arith, value)

pub inx-lt :
    (key type kbtype search_times : ℕ)
    → type < 4
    → kbtype < 13
    → phone_inx_from_key key type kbtype search_times < zhuin_tab_num type
inx-lt key type kbtype n h k = phone_inx_from_key-lt key type kbtype n h k

pub set_inx-InxOk :
    (p : Inx) (type inx : ℕ) → InxOk p → inx < zhuin_tab_num type → InxOk (set_inx p type inx)
unfolding set_inx
set_inx-InxOk p type inx ok lt = ground arith

pub find_type-lt :
    (kbtype key n type : ℕ)
    → kbtype < 13
    → n + type ≤ 4
    → (leb 4 (find_type kbtype key n type).0 ≡ true)
      ⊎ ((find_type kbtype key n type).1 < zhuin_tab_num ((find_type kbtype key n type).0))
unfolding find_type
find_type-lt kbtype key zero type k le = inr (ground arith)
find_type-lt kbtype key (suc n) type k le =
    let inside = inx-lt key type kbtype 1 (omega arith) k in
    let rest = find_type-lt kbtype key n (suc type) k (omega arith) in
    elim (Bool-cases (phone_inx_from_key key type kbtype 1 == 0)) [
      | inl e ↦ rw e rest
      | inr e ↦ rw e (inr inside)
    ]
