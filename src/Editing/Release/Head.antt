-- ===== src/Editing/Release/Head.antt =====
-- ReleaseChiSymbolBuf of src/chewingutil.c against the text and its strings.
use mathlib.Core.List.{flatten}
use libchewing.Common.{
  ℕ, ◌<◌, ◌≤◌, ◌≡◌, ◌⊎◌, inl, inr, refl, ap, Option, none, some, List, map, take, drop, ltb, leb,
  ◌!=◌, if◌then◌else◌, ◌>>=◌, arith, Bool-cases,
}
use libchewing.Editing.{ChewingData}
use libchewing.Editing.Contents.{contents}
use libchewing.Editing.WellFormed.{WellFormed}
use libchewing.Editing.Compose.{kill_from_left-drop}
use libchewing.Editing.Release.{release_chi_symbol_buf, write_chi_symbol_to_commit_buf}
use libchewing.Editing.Release.Shorter.{
  AllInside, AllFit, write_loop-flatten, Counted, count_release_num-Counted,
}

-- `k` entries of `d` are committed, and `state` has the others.
pub record Released (d : ChewingData) (out : Option (ℕ × Option (List ℕ) × ChewingData))
    : Type 0 where
  pub k : ℕ
  pub committed : Option (List ℕ)
  pub state : ChewingData
  pub returned : out ≡ some (k, committed, state)
  pub well_formed : WellFormed state
  pub k_le : k ≤ d.chi_symbol_buf_len
  pub left : contents state ≡ drop k (contents d)
  pub commit_text :
      committed
      ≡ (if k != 0 then some (flatten (map (λ c. c.char_) (take k d.preedit_buf))) else none)
  pub progress : (d.chi_symbol_buf_len ≤ d.max_chi_symbol_len) ⊎ (d.chi_symbol_cursor ≡ 0) ⊎ (0 < k)

progress-of_Counted :
    (d : ChewingData) {out : Option (ℕ × ChewingData)} (c : Counted d out)
    → (d.chi_symbol_buf_len ≤ d.max_chi_symbol_len) ⊎ (d.chi_symbol_cursor ≡ 0) ⊎ (0 < c.k)
progress-of_Counted d c = elim (Bool-cases (leb d.chi_symbol_buf_len d.max_chi_symbol_len)) [
  | inl e ↦ inl (ground arith)
  | inr e ↦ elim (Bool-cases (ltb 0 d.chi_symbol_cursor)) [
    | inl p ↦ inr (inr (c.some_left (ground arith) (ground arith)))
    | inr p ↦ inr (inl (ground arith))
  ]
]

-- From a well-formed state of less than 50 entries, where the preferred intervals are not empty and
-- inside the phones and each entry's string fits in its array, `ReleaseChiSymbolBuf` has no fault: it
-- commits the strings of the first entries of the text, as many as it returns, and leaves the
-- other entries with their phones in a well-formed state. It commits at least one entry if the text
-- is longer than `maxChiSymbolLen` and the cursor is not at its start.
pub release_chi_symbol_buf-Released :
    (d : ChewingData)
    → WellFormed d
    → AllInside d.n_phone_seq d.prefer_interval
    → AllFit d.preedit_buf
    → d.chi_symbol_buf_len < 50
    → Released d (release_chi_symbol_buf d)
unfolding release_chi_symbol_buf write_chi_symbol_to_commit_buf
release_chi_symbol_buf-Released d w h fit room =
    let c = count_release_num-Counted d w h in
    let sorted = record d { prefer_interval = c.prefer } in
    let w' : WellFormed sorted = record {
      preedit_size = w.preedit_size;
      phone_size = w.phone_size;
      phone_alt_size = w.phone_alt_size;
      cnnct_size = w.cnnct_size;
      brkpt_size = w.brkpt_size;
      key_size = w.key_size;
      cursor_le = w.cursor_le;
      len_le = w.len_le;
      phones = w.phones;
    } in
    let written =
      write_loop-flatten c.k 0 d.preedit_buf (omega (arith, c.k_le, w.preedit_size))
        (omega (arith, c.k_le)) fit in
    let (state, run, ws, text) = kill_from_left-drop c.k sorted w' c.k_le room in
    elim (Bool-cases (c.k != 0)) [
      | inl e ↦
          rw (c.returned, ◌>>=◌, e, written, ◌>>=◌, run, ◌>>=◌)
            record {
              k = c.k;
              committed = some (flatten (map (λ c. c.char_) (take c.k d.preedit_buf)));
              state = state;
              returned = refl;
              well_formed = ws;
              k_le = c.k_le;
              left = text;
              commit_text = rw e refl;
              progress = progress-of_Counted d c;
            }
      | inr e ↦
          let z : 0 ≡ c.k = ground arith in
          rw (c.returned, ◌>>=◌, e)
            record {
              k = c.k;
              committed = none;
              state = sorted;
              returned = ap (λ n. some (n, none, sorted)) z;
              well_formed = w';
              k_le = c.k_le;
              left = ap (λ n. drop n (contents d)) z;
              commit_text = rw e refl;
              progress = progress-of_Counted d c;
            }
    ]
