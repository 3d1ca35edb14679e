-- ===== src/Editing/Kill.antt =====
-- ChewingKillChar of src/chewingutil.c: what it leaves in each array.
use libchewing.Common.{
  ℕ, ◌+◌, ◌-◌, ◌<◌, ◌≤◌, ◌≡◌, refl, ◌∙◌, some, List, length, take, set, ◌>>=◌, arith, length-set,
  le→leb, lt→ltb,
}
use libchewing.Editing.{
  PreeditBuf, ChewingData, kill_select_loop, kill_char_in_select_interval_and_brkpt, kill_phone,
  kill_entry,
}
use libchewing.Editing.Arrays.{memmove-sized, store-eq, memmove-Closed, deleted}
use libchewing.Editing.WellFormed.{WellFormed, phones-le}

-- The arrays that every entry stands in.
pub record EntryKilled (d : ChewingData) (at minus : ℕ) : Type 0 where
  pub keys : List ℕ
  pub buf : List PreeditBuf
  pub returned :
      kill_entry d at minus
      ≡ some (record d {
        symbol_key_buf = keys;
        preedit_buf = buf;
        chi_symbol_buf_len = d.chi_symbol_buf_len - 1;
        chi_symbol_cursor = d.chi_symbol_cursor - minus;
      })
  pub keys_size : length keys ≡ 50
  pub buf_size : length buf ≡ 50
  pub cells : take (d.chi_symbol_buf_len - 1) buf ≡ deleted d.preedit_buf at d.chi_symbol_buf_len

pub kill_entry-EntryKilled :
    (d : ChewingData) (at minus : ℕ)
    → length d.preedit_buf ≡ 50
    → length d.symbol_key_buf ≡ 50
    → at < d.chi_symbol_buf_len
    → d.chi_symbol_buf_len < 50
    → EntryKilled d at minus
unfolding kill_entry
kill_entry-EntryKilled d at minus preedit_size key_size inside room =
    let len = d.chi_symbol_buf_len in
    let zeroed = set d.symbol_key_buf at 0 in
    let size = length-set d.symbol_key_buf at 0 ∙ key_size in
    let (keys, keys_eq, keys_size) =
      memmove-sized zeroed at (at + 1) (len - at) (omega (arith, size)) (omega (arith, size)) in
    let buf =
      memmove-Closed d.preedit_buf at (len - at) len inside (omega arith)
        (omega (arith, preedit_size)) in
    record {
      keys = keys;
      buf = buf.closed;
      returned =
          rw
            (
              store-eq d.symbol_key_buf at 0 (omega (arith, key_size)),
              ◌>>=◌,
              lt→ltb at len inside,
              ◌>>=◌,
              keys_eq,
              ◌>>=◌,
              buf.closed_eq,
              ◌>>=◌,
            )
            refl;
      keys_size = keys_size ∙ size;
      buf_size = buf.length_eq ∙ preedit_size;
      cells = buf.text;
    }

-- The arrays that only characters stand in.
pub record PhoneKilled (d : ChewingData) (k : ℕ) : Type 0 where
  pub seq : List ℕ
  pub cnnct : List ℕ
  pub brkpt : List ℕ
  pub returned :
      kill_phone d k
      ≡ some (record d {
        select = kill_select_loop (length d.select) k d.select;
        user_arr_brkpt = brkpt;
        user_arr_cnnct = cnnct;
        phone_seq = seq;
        n_phone_seq = d.n_phone_seq - 1;
      })
  pub seq_size : length seq ≡ 50
  pub cnnct_size : length cnnct ≡ 51
  pub brkpt_size : length brkpt ≡ 51
  pub phones : take (d.n_phone_seq - 1) seq ≡ deleted d.phone_seq k d.n_phone_seq

pub kill_phone-PhoneKilled :
    (d : ChewingData) (k : ℕ) → WellFormed d → k < d.n_phone_seq → PhoneKilled d k
unfolding kill_phone kill_char_in_select_interval_and_brkpt
kill_phone-PhoneKilled d k w inside =
    let n = d.n_phone_seq in
    let few : n ≤ 50 = omega (arith, phones-le d w, w.len_le) in
    let (brkpt, brkpt_eq, brkpt_size) =
      memmove-sized d.user_arr_brkpt k (k + 1) (n - k) (omega (arith, w.brkpt_size))
        (omega (arith, w.brkpt_size)) in
    let (cnnct, cnnct_eq, cnnct_size) =
      memmove-sized d.user_arr_cnnct k (k + 1) (n - k) (omega (arith, w.cnnct_size))
        (omega (arith, w.cnnct_size)) in
    let seq =
      memmove-Closed d.phone_seq k (n - k - 1) n inside (omega arith)
        (omega (arith, w.phone_size)) in
    record {
      seq = seq.closed;
      cnnct = cnnct;
      brkpt = brkpt;
      returned =
          rw
            (
              le→leb k n (omega arith),
              ◌>>=◌,
              brkpt_eq,
              ◌>>=◌,
              cnnct_eq,
              ◌>>=◌,
              le→leb (k + 1) n (omega arith),
              ◌>>=◌,
              seq.closed_eq,
              ◌>>=◌,
            )
            refl;
      seq_size = seq.length_eq ∙ w.phone_size;
      cnnct_size = cnnct_size ∙ w.cnnct_size;
      brkpt_size = brkpt_size ∙ w.brkpt_size;
      phones = seq.text;
    }
