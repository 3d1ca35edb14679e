-- ===== src/Editing/Insert.antt =====
-- AddChi and SymbolInput of src/chewingutil.c against insertion into the text.
use libchewing.Common.{
  ℕ, ◌+◌, ◌-◌, ◌<◌, ◌≡◌, refl, ◌∙◌, sym, ap, true, false, Option, some, [], ◌∷◌, ◌++◌, map, take,
  drop, set, ltb, ◌&&◌, ◌>>=◌, arith, length-take, length-set, if-intro, le→leb,
}
use libchewing.Editing.{
  PreeditBuf, chinese, symbol, ChewingData, shift_select, add_chi, isprint, toupper, SymbolRtn,
  symbol_key_ok, symbol_key_error, insert_symbol, symbol_input, max_phone_seq_len,
}
use libchewing.Editing.Arrays.{memmove-sized, store-eq, Gap-of_room}
use libchewing.Editing.Contents.{
  Cell, character, mark, view, contents, count_all, count_all-append, count_all-le, take-split,
  phone_seq_cursor-eq,
}
use libchewing.Editing.WellFormed.{WellFormed, phones-le, Split-at, Split-view, Split-rest}

-- `out` is a well-formed state with `cell` at the cursor of `d` and the cursor after it.
pub record Inserted (d : ChewingData) (cell : Cell) (out : Option ChewingData) : Type 0 where
  pub state : ChewingData
  pub returned : out ≡ some state
  pub well_formed : WellFormed state
  pub text :
      contents state
      ≡ take d.chi_symbol_cursor (contents d) ++ cell ∷ drop d.chi_symbol_cursor (contents d)
  pub cursor : state.chi_symbol_cursor ≡ d.chi_symbol_cursor + 1

module _ (d : ChewingData) (w : WellFormed d) (room : d.chi_symbol_buf_len < 50) where
  -- In a well-formed state with room for one more entry, `AddChi` has no fault: the character with its
  -- phone goes before the entry at the cursor, the cursor moves past it, all other entries keep their
  -- phones, and the state stays well-formed.
  pub add_chi-Inserted :
      (phone phone_alt : ℕ) → Inserted d (character phone) (add_chi phone phone_alt d)
  unfolding add_chi view count_all
  add_chi-Inserted phone phone_alt =
      let c = d.chi_symbol_cursor in
      let len = d.chi_symbol_buf_len in
      let n = d.n_phone_seq in
      let s = Split-at d w c w.cursor_le in
      let k = s.k in
      let few : n < 50 = omega (arith, phones-le d w) in
      let (brkpt, brkpt_eq, brkpt_size) =
        memmove-sized d.user_arr_brkpt (k + 2) (k + 1) (n - k) (omega (arith, w.brkpt_size, s.k_le))
          (omega (arith, w.brkpt_size, s.k_le)) in
      let (cnnct, cnnct_eq, cnnct_size) =
        memmove-sized d.user_arr_cnnct (k + 2) (k + 1) (n - k) (omega (arith, w.cnnct_size, s.k_le))
          (omega (arith, w.cnnct_size, s.k_le)) in
      let seq = Gap-of_room d.phone_seq k n s.k_le (omega (arith, w.phone_size)) in
      let alt = Gap-of_room d.phone_seq_alt k n s.k_le (omega (arith, w.phone_alt_size)) in
      let buf = Gap-of_room d.preedit_buf c len w.cursor_le (omega (arith, w.preedit_size)) in
      let cell = record (buf.old) { category = chinese } in
      let before = take c d.preedit_buf in
      let after = take (len - c) (drop c d.preedit_buf) in
      let cells = buf.text cell in
      let phones = seq.text phone in
      let counts =
        w.phones
        ∙ ap count_all (take-split c (len - c) len d.preedit_buf (omega (arith, w.cursor_le)))
        ∙ count_all-append before after in
      record {
        state = record d {
          preedit_buf = set buf.gapped c cell;
          chi_symbol_cursor = c + 1;
          chi_symbol_buf_len = len + 1;
          phone_seq = set seq.gapped k phone;
          phone_seq_alt = set alt.gapped k phone_alt;
          n_phone_seq = n + 1;
          select = map (shift_select k) d.select;
          user_arr_cnnct = cnnct;
          user_arr_brkpt = brkpt;
        };
        returned =
            rw
              (
                s.cursor_eq,
                ◌>>=◌,
                le→leb k n s.k_le,
                ◌>>=◌,
                brkpt_eq,
                ◌>>=◌,
                cnnct_eq,
                ◌>>=◌,
                seq.gap_eq,
                ◌>>=◌,
                seq.stored phone,
                ◌>>=◌,
                alt.gap_eq,
                ◌>>=◌,
                alt.stored phone_alt,
                ◌>>=◌,
                le→leb c len w.cursor_le,
                ◌>>=◌,
                buf.gap_eq,
                ◌>>=◌,
                buf.old_eq,
                ◌>>=◌,
                buf.stored cell,
                ◌>>=◌,
              )
              refl;
        well_formed = record {
          preedit_size = length-set buf.gapped c cell ∙ buf.length_eq ∙ w.preedit_size;
          phone_size = length-set seq.gapped k phone ∙ seq.length_eq ∙ w.phone_size;
          phone_alt_size = length-set alt.gapped k phone_alt ∙ alt.length_eq ∙ w.phone_alt_size;
          cnnct_size = cnnct_size ∙ w.cnnct_size;
          brkpt_size = brkpt_size ∙ w.brkpt_size;
          key_size = w.key_size;
          cursor_le = omega (arith, w.cursor_le);
          len_le = omega arith;
          phones =
              omega (arith, counts)
              ∙ sym (count_all-append before (cell ∷ after))
              ∙ ap count_all (sym cells);
        };
        text =
            ap (λ l. view l (take (n + 1) (set seq.gapped k phone))) cells
            ∙ ap (view (before ++ cell ∷ after)) phones
            ∙ Split-view d c s (cell ∷ after) (phone ∷ take (n - k) (drop k d.phone_seq))
            ∙ ap (λ r. take c (contents d) ++ character phone ∷ r) (Split-rest d c s);
        cursor = refl;
      }

  insert_symbol-Inserted : (key : ℕ) → Inserted d (mark (key ∷ [])) (insert_symbol key d)
  unfolding insert_symbol view count_all
  insert_symbol-Inserted key =
      let c = d.chi_symbol_cursor in
      let len = d.chi_symbol_buf_len in
      let n = d.n_phone_seq in
      let s = Split-at d w c w.cursor_le in
      let k = s.k in
      let buf = Gap-of_room d.preedit_buf c len w.cursor_le (omega (arith, w.preedit_size)) in
      let keys = Gap-of_room d.symbol_key_buf c len w.cursor_le (omega (arith, w.key_size)) in
      let cell : PreeditBuf = record { category = symbol; char_ = key ∷ [] } in
      let buf' = set buf.gapped c cell in
      let size = length-set buf.gapped c cell ∙ buf.length_eq ∙ w.preedit_size in
      let k' = count_all (take c buf') in
      let at_cursor =
        phone_seq_cursor-eq (record d { preedit_buf = buf' }) (omega (arith, size, w.cursor_le)) in
      let mark_free = store-eq d.user_arr_cnnct k' 0 (
        omega (arith, count_all-le (take c buf'), length-take c buf', w.cnnct_size, w.cursor_le)) in
      let before = take c d.preedit_buf in
      let after = take (len - c) (drop c d.preedit_buf) in
      let cells = buf.text cell in
      let phones = take-split k (n - k) n d.phone_seq (omega (arith, s.k_le)) in
      let counts =
        w.phones
        ∙ ap count_all (take-split c (len - c) len d.preedit_buf (omega (arith, w.cursor_le)))
        ∙ count_all-append before after in
      record {
        state = record d {
          preedit_buf = buf';
          chi_symbol_cursor = c + 1;
          chi_symbol_buf_len = len + 1;
          user_arr_cnnct = set d.user_arr_cnnct k' 0;
          symbol_key_buf = set keys.gapped c (toupper key);
        };
        returned =
            rw
              (
                le→leb c len w.cursor_le,
                ◌>>=◌,
                buf.gap_eq,
                ◌>>=◌,
                buf.stored cell,
                ◌>>=◌,
                keys.gap_eq,
                ◌>>=◌,
                keys.stored (toupper key),
                ◌>>=◌,
                at_cursor,
                ◌>>=◌,
                mark_free,
                ◌>>=◌,
              )
              refl;
        well_formed = record {
          preedit_size = size;
          phone_size = w.phone_size;
          phone_alt_size = w.phone_alt_size;
          cnnct_size = length-set d.user_arr_cnnct k' 0 ∙ w.cnnct_size;
          brkpt_size = w.brkpt_size;
          key_size = length-set keys.gapped c (toupper key) ∙ keys.length_eq ∙ w.key_size;
          cursor_le = omega (arith, w.cursor_le);
          len_le = omega arith;
          phones = counts ∙ sym (count_all-append before (cell ∷ after)) ∙ ap count_all (sym cells);
        };
        text =
            ap (λ l. view l (take n d.phone_seq)) cells
            ∙ ap (view (before ++ cell ∷ after)) phones
            ∙ Split-view d c s (cell ∷ after) (take (n - k) (drop k d.phone_seq))
            ∙ ap (λ r. take c (contents d) ++ mark (key ∷ []) ∷ r) (Split-rest d c s);
        cursor = refl;
      }

-- What `SymbolInput` does: a printable key goes into a text with room, and any other is refused.
pub data SymbolOutcome (key : ℕ) (d : ChewingData) : Option (SymbolRtn × ChewingData) → Type 0 where
  accepted :
      {d' : ChewingData}
      → isprint key ≡ true
      → d.chi_symbol_buf_len < 50
      → Inserted d (mark (key ∷ [])) (some d')
      → SymbolOutcome key d (some (symbol_key_ok, d'))
  refused :
      (isprint key && ltb d.chi_symbol_buf_len 50) ≡ false
      → SymbolOutcome key d (some (symbol_key_error, d))

-- In a well-formed state `SymbolInput` has no fault. A printable key goes as a symbol before the
-- entry at the cursor if the text has room for it, and the state stays well-formed; for any other
-- key, or in a full text, the result is SYMBOL_KEY_ERROR and the state stays as it is.
pub symbol_input-SymbolOutcome :
    (key : ℕ) (d : ChewingData) → WellFormed d → SymbolOutcome key d (symbol_input key d)
unfolding symbol_input
symbol_input-SymbolOutcome key d w =
    if-intro (SymbolOutcome key d) (isprint key && ltb d.chi_symbol_buf_len max_phone_seq_len)
      (λ e.
        let i = insert_symbol-Inserted d w (ground arith) key in
        rw (i.returned, ◌>>=◌)
          (accepted (ground arith) (ground arith) record {
            state = i.state;
            returned = refl;
            well_formed = i.well_formed;
            text = i.text;
            cursor = i.cursor;
          }))
      (λ e. refused e)
