-- ===== src/Editing/Delete.antt =====
-- ChewingKillChar of src/chewingutil.c against deletion from the text.
use libchewing.Common.{
  ℕ, suc, ◌-◌, ◌<◌, ◌≤◌, ◌≡◌, refl, ◌∙◌, sym, ap, true, false, Option, some, List, ◌∷◌, ◌++◌,
  length, take, drop, ◌>>=◌, arith, Bool-cases, inl, inr,
}
use libchewing.Editing.{
  PreeditBuf, is_chinese, ChewingData, chewing_is_chi_at, kill_select_loop, kill_phone, kill_entry,
  chewing_kill_char,
}
use libchewing.Editing.Kill.{kill_entry-EntryKilled, kill_phone-PhoneKilled}
use libchewing.Editing.Contents.{
  character, mark, view, contents, count_all, count_all-append, view-character, view-mark,
  count_all-character, count_all-mark, take-split, take-hole,
}
use libchewing.Editing.WellFormed.{WellFormed, Split, phones-le, Split-at, Split-view, Split-after}

-- `out` is a well-formed state without the entry `at` of `d`.
pub record Deleted (d : ChewingData) (at minus : ℕ) (out : Option ChewingData) : Type 0 where
  pub state : ChewingData
  pub returned : out ≡ some state
  pub well_formed : WellFormed state
  pub text : contents state ≡ take at (contents d) ++ drop (suc at) (contents d)
  pub cursor : state.chi_symbol_cursor ≡ d.chi_symbol_cursor - minus
  pub alt_stays : state.phone_seq_alt ≡ d.phone_seq_alt

module _ (d : ChewingData) (w : WellFormed d) (at minus : ℕ) (inside : at < d.chi_symbol_buf_len)
    (room : d.chi_symbol_buf_len < 50)
    (stays : d.chi_symbol_cursor - minus < d.chi_symbol_buf_len) where
  s : Split d at
  s = Split-at d w at (omega arith)

  abbrev before : List PreeditBuf
  before = take at d.preedit_buf

  abbrev after : List PreeditBuf
  after = take (d.chi_symbol_buf_len - at - 1) (drop (suc at) d.preedit_buf)

  -- Deleting a character, whose phone goes too.
  kill-character :
      (x : PreeditBuf)
      → is_chinese x ≡ true
      → take d.chi_symbol_buf_len d.preedit_buf ≡ before ++ x ∷ after
      → Deleted d at minus (kill_phone d s.k >>= λ d'. kill_entry d' at minus)
  kill-character x chi cells =
      let len = d.chi_symbol_buf_len in
      let n = d.n_phone_seq in
      let counts = w.phones ∙ ap count_all cells ∙ count_all-append before (x ∷ after) in
      let one_more = count_all-character x after chi in
      let here : s.k < n = omega (arith, counts, one_more, s.k_eq) in
      let few : n ≤ 50 = omega (arith, phones-le d w, w.len_le) in
      let pa = take (n - s.k - 1) (drop (suc s.k) d.phone_seq) in
      let (p, found, phones) =
        take-hole s.k (n - s.k - 1) n d.phone_seq (omega arith) (omega (arith, w.phone_size)) in
      let killed = kill_phone-PhoneKilled d s.k w here in
      let entry =
        kill_entry-EntryKilled
          (record d {
            select = kill_select_loop (length d.select) s.k d.select;
            user_arr_brkpt = killed.brkpt;
            user_arr_cnnct = killed.cnnct;
            phone_seq = killed.seq;
            n_phone_seq = n - 1;
          })
          at minus w.preedit_size w.key_size inside room in
      let old : contents d ≡ take at (contents d) ++ character p ∷ view after pa =
        ap (λ c. view c (take n d.phone_seq)) cells
        ∙ ap (view (before ++ x ∷ after)) phones
        ∙ Split-view d at s (x ∷ after) (p ∷ pa)
        ∙ ap (λ r. take at (contents d) ++ r) (view-character x after p pa chi) in
      record {
        state = record d {
          select = kill_select_loop (length d.select) s.k d.select;
          user_arr_brkpt = killed.brkpt;
          user_arr_cnnct = killed.cnnct;
          phone_seq = killed.seq;
          n_phone_seq = n - 1;
          symbol_key_buf = entry.keys;
          preedit_buf = entry.buf;
          chi_symbol_buf_len = len - 1;
          chi_symbol_cursor = d.chi_symbol_cursor - minus;
        };
        returned = rw (killed.returned, ◌>>=◌) entry.returned;
        well_formed = record {
          preedit_size = entry.buf_size;
          phone_size = killed.seq_size;
          phone_alt_size = w.phone_alt_size;
          cnnct_size = killed.cnnct_size;
          brkpt_size = killed.brkpt_size;
          key_size = entry.keys_size;
          cursor_le = omega arith;
          len_le = omega arith;
          phones =
              omega (arith, counts, one_more)
              ∙ sym (count_all-append before after)
              ∙ ap count_all (sym entry.cells);
        };
        text =
            ap (λ c. view c (take (n - 1) killed.seq)) entry.cells
            ∙ ap (view (before ++ after)) killed.phones
            ∙ Split-view d at s after pa
            ∙ ap (λ r. take at (contents d) ++ r) (sym (Split-after d at s _ _ old));
        cursor = refl;
        alt_stays = refl;
      }

  -- Deleting a symbol.
  kill-mark :
      (x : PreeditBuf)
      → is_chinese x ≡ false
      → take d.chi_symbol_buf_len d.preedit_buf ≡ before ++ x ∷ after
      → Deleted d at minus (kill_entry d at minus)
  kill-mark x chi cells =
      let n = d.n_phone_seq in
      let counts = w.phones ∙ ap count_all cells ∙ count_all-append before (x ∷ after) in
      let no_more = count_all-mark x after chi in
      let pa = take (n - s.k) (drop s.k d.phone_seq) in
      let phones = take-split s.k (n - s.k) n d.phone_seq (omega (arith, s.k_le)) in
      let entry = kill_entry-EntryKilled d at minus w.preedit_size w.key_size inside room in
      let old : contents d ≡ take at (contents d) ++ mark x.char_ ∷ view after pa =
        ap (λ c. view c (take n d.phone_seq)) cells
        ∙ ap (view (before ++ x ∷ after)) phones
        ∙ Split-view d at s (x ∷ after) pa
        ∙ ap (λ r. take at (contents d) ++ r) (view-mark x after pa chi) in
      record {
        state = record d {
          symbol_key_buf = entry.keys;
          preedit_buf = entry.buf;
          chi_symbol_buf_len = d.chi_symbol_buf_len - 1;
          chi_symbol_cursor = d.chi_symbol_cursor - minus;
        };
        returned = entry.returned;
        well_formed = record {
          preedit_size = entry.buf_size;
          phone_size = w.phone_size;
          phone_alt_size = w.phone_alt_size;
          cnnct_size = w.cnnct_size;
          brkpt_size = w.brkpt_size;
          key_size = entry.keys_size;
          cursor_le = omega arith;
          len_le = omega arith;
          phones =
              omega (arith, counts, no_more)
              ∙ sym (count_all-append before after)
              ∙ ap count_all (sym entry.cells);
        };
        text =
            ap (λ c. view c (take n d.phone_seq)) entry.cells
            ∙ ap (view (before ++ after)) phones
            ∙ Split-view d at s after pa
            ∙ ap (λ r. take at (contents d) ++ r) (sym (Split-after d at s _ _ old));
        cursor = refl;
        alt_stays = refl;
      }

  -- In a well-formed state of less than 50 entries, `ChewingKillChar` at an entry of the text has no
  -- fault if the new cursor is still in the text: that entry goes, with its phone if it is a
  -- character, all other entries keep their phones, and the state stays well-formed. The array
  -- `phoneSeqAlt` stays as it is, also where a phone goes.
  pub chewing_kill_char-Deleted : Deleted d at minus (chewing_kill_char d at minus)
  unfolding chewing_kill_char chewing_is_chi_at
  chewing_kill_char-Deleted =
      let len = d.chi_symbol_buf_len in
      let (x, found, cells) =
        take-hole at (len - at - 1) len d.preedit_buf (omega arith)
          (omega (arith, w.preedit_size)) in
      elim (Bool-cases (is_chinese x)) [
        | inl chi ↦ rw (s.cursor_eq, ◌>>=◌, found, ◌>>=◌, chi) (kill-character x chi cells)
        | inr chi ↦ rw (s.cursor_eq, ◌>>=◌, found, ◌>>=◌, chi, ◌>>=◌) (kill-mark x chi cells)
      ]
