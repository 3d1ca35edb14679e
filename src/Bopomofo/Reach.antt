-- ===== src/Bopomofo/Reach.antt =====
-- Sequences of keys for src/bopomofo.c, and the text of the phones that they commit.
use libchewing.Common.{ℕ, ◌<◌, ◌≡◌, Bool, true, List, [], ◌∷◌, inl, inr, some, arith}
use libchewing.Key2pho.{uint_from_phone, phone_from_uint, ok}
use libchewing.Key2pho.Codec.{uint_from_phone-phone_from_uint}
use libchewing.Pinyin.{PinyinTable}
use libchewing.Bopomofo.{BopomofoData, commit}
use libchewing.Bopomofo.Input.{bopomofo_pho_input}
use libchewing.Bopomofo.Valid.{Valid, Committed, IsCode-lt}
use libchewing.Bopomofo.Invariant.{bopomofo_pho_input-Step}
use libchewing.Bopomofo.Syllables.{run}

module _ (table : PinyinTable) (has_word : ℕ → Bool) where
  run-Valid : (keys : List ℕ) (b : BopomofoData) → Valid b → Valid (run table has_word b keys)
  unfolding run
  run-Valid [] b v = v
  run-Valid (key ∷ keys) b v =
      run-Valid keys _ (bopomofo_pho_input-Step has_word table b key v).valid

  committed :
      (b : BopomofoData) (key : ℕ)
      → Valid b
      → (bopomofo_pho_input table has_word b key).0 ≡ commit
      → Committed has_word ((bopomofo_pho_input table has_word b key).1)
  committed b key v e = elim (bopomofo_pho_input-Step has_word table b key v).outcome [
    | inl other ↦ absurd (other.0 e)
    | inr done ↦ done.1
  ]

  -- After any keys from a valid state, on every layout: when the next key commits, a word has the
  -- phone, the phone fits in 16 bits, `PhoneFromUint` prints it into a buffer of 17 bytes without
  -- an error, and `UintFromPhone` reads the text back as the same phone.
  pub committed-text :
      (keys : List ℕ) (b : BopomofoData) (key : ℕ)
      → Valid b
      → (bopomofo_pho_input table has_word (run table has_word b keys) key).0 ≡ commit
      → let n = (bopomofo_pho_input table has_word (run table has_word b keys) key).1.phone in
        (has_word n ≡ true)
        × (n < 65536)
        × (s : List ℕ) × (phone_from_uint 17 n ≡ some (ok, s))
        × (uint_from_phone s ≡ some n)
  committed-text keys b key v e =
      let before = run-Valid keys b v in
      let done = committed _ key before e in
      let after = (bopomofo_pho_input-Step has_word table _ key before).valid in
      let (text, printed, read) = uint_from_phone-phone_from_uint 17 done.phone (omega arith) in
      (done.word, IsCode-lt _ after.phone_ok, text, printed, read)
