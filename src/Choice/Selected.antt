-- ===== src/Choice/Selected.antt =====
-- ChoiceSelect of src/choice.c: the selection that it makes.
use mathlib.Core.List.{Memᴰ}
use mathlib.Core.List.Memᴰ.{head}
use mathlib.Core.List.Memᴰ
use libchewing.Choice.{
  AvailEntry, word_choice, kill_intersect_loop, zeros_at, clear, add_select,
  change_select_interval_and_breakpoint,
}
use libchewing.Choice.Disjoint.{Disjoint, kill_intersect_loop-Left, Disjoint-join, is_intersect_sym}
use libchewing.Choice.Session.{Session, choice_select, choice_end_choice}
use libchewing.Editing.{Interval, ChewingData, phone_seq_cursor}
use libchewing.Editing.WellFormed.{WellFormed}
use libchewing.Phrasing.{is_intersect}
use libchewing.Utf8.{ue_str_n_bytes}
use libchewing.Common.{
  ℕ, zero, suc, ◌+◌, ◌-◌, ◌≤◌, ◌<◌, ◌≡◌, ◌⊎◌, inl, inr, refl, true, false, some, List, [], ◌∷◌,
  ◌++◌, length, take, get_elem?, ltb, leb, ◌==◌, arith, All-map,
}

zeros_at-inside :
    (at n i : ℕ) (xs : List ℕ)
    → at + n ≤ length xs
    → at ≤ i
    → i < at + n
    → get_elem? (zeros_at at n xs) i ≡ some 0
unfolding zeros_at
zeros_at-inside zero zero i xs le lo hi = absurd (omega arith)
zeros_at-inside zero (suc n) i [] le lo hi = absurd (omega arith)
zeros_at-inside zero (suc n) zero (x ∷ xs) le lo hi = refl
zeros_at-inside zero (suc n) (suc i) (x ∷ xs) le lo hi =
    zeros_at-inside zero n i xs (omega arith) (omega arith) (omega arith)
zeros_at-inside (suc at) n i [] le lo hi = absurd (omega arith)
zeros_at-inside (suc at) n zero (x ∷ xs) le lo hi = absurd (omega arith)
zeros_at-inside (suc at) n (suc i) (x ∷ xs) le lo hi =
    zeros_at-inside at n i xs (omega arith) (omega arith) (omega arith)

zeros_at-outside :
    (at n i : ℕ) (xs : List ℕ)
    → (i < at) ⊎ (at + n ≤ i)
    → get_elem? (zeros_at at n xs) i ≡ get_elem? xs i
unfolding zeros_at
zeros_at-outside zero zero i xs out = refl
zeros_at-outside zero (suc n) i [] out = refl
zeros_at-outside zero (suc n) zero (x ∷ xs) out = absurd (omega arith)
zeros_at-outside zero (suc n) (suc i) (x ∷ xs) out =
    zeros_at-outside zero n i xs (inr (omega arith))
zeros_at-outside (suc at) n i [] out = refl
zeros_at-outside (suc at) n zero (x ∷ xs) out = refl
zeros_at-outside (suc at) n (suc i) (x ∷ xs) out =
    zeros_at-outside at n i xs
      (elim out [ inl lt ↦ inl (omega arith) | inr le ↦ inr (omega arith) ])

-- The marks inside an interval are gone, and all others stay.
pub record Joined (inte : Interval) (xs out : List ℕ) : Type 0 where
  pub inside : (i : ℕ) → inte.from < i → i < inte.to → get_elem? out i ≡ some 0
  pub outside : (i : ℕ) → (i ≤ inte.from) ⊎ (inte.to ≤ i) → get_elem? out i ≡ get_elem? xs i

clear-Joined :
    (inte : Interval) (xs : List ℕ)
    → inte.from < inte.to
    → inte.to ≤ length xs
    → (out : List ℕ) × (clear xs (inte.from + 1) (inte.to - inte.from - 1) ≡ some out)
      × Joined inte xs out
unfolding clear
clear-Joined inte xs lt le =
    let at = inte.from + 1 in
    let n = inte.to - inte.from - 1 in
    let fits : leb (at + n) (length xs) ≡ true = ground arith in
    (
      zeros_at at n xs,
      rw fits refl,
      record {
        inside = λ i lo hi. zeros_at-inside at n i xs (omega arith) (omega arith) (omega arith);
        outside = λ i out.
            zeros_at-outside at n i xs
              (elim out [ inl lo ↦ inl (omega arith) | inr hi ↦ inr (omega arith) ]);
      },
    )

-- The state after the selection of `word` for an interval.
pub record Selected (inte : Interval) (word : List ℕ) (d d' : ChewingData) : Type 0 where
  pub disjoint : Disjoint d'.select
  pub chosen : Memᴰ (inte, word) d'.select
  pub kept :
      {s : Interval × List ℕ} → Memᴰ s d.select → is_intersect inte s.0 ≡ false → Memᴰ s d'.select
  pub old : {s : Interval × List ℕ} → Memᴰ s d'.select → Memᴰ s d.select ⊎ (s ≡ (inte, word))
  pub brkpt : Joined inte d.user_arr_brkpt d'.user_arr_brkpt
  pub cnnct : Joined inte d.user_arr_cnnct d'.user_arr_cnnct
  pub phones : d'.phone_seq ≡ d.phone_seq
  pub text : d'.preedit_buf ≡ d.preedit_buf
  pub size : d'.chi_symbol_buf_len ≡ d.chi_symbol_buf_len

change_select-Selected :
    (from to size : ℕ) (str : List ℕ) (d : ChewingData)
    → WellFormed d
    → from < to
    → to ≤ 50
    → ue_str_n_bytes str (to - from) ≡ some size
    → size < 201
    → length d.select < 50
    → Disjoint d.select
    → (d' : ChewingData) × (change_select_interval_and_breakpoint from to str d ≡ some d')
      × Selected (record { from = from; to = to }) (take size str) d d'
unfolding change_select_interval_and_breakpoint add_select
change_select-Selected from to size str d w lt le bytes room few dis =
    let inte : Interval = record { from = from; to = to } in
    let left = kill_intersect_loop-Left (length d.select) inte d.select (omega arith) dis in
    let brkpt = clear-Joined inte d.user_arr_brkpt lt (omega (arith, w.brkpt_size)) in
    let cnnct = clear-Joined inte d.user_arr_cnnct lt (omega (arith, w.cnnct_size)) in
    let out = kill_intersect_loop (length d.select) inte d.select in
    let e1 : ltb (length out) 50 ≡ true = ground (arith, left.fewer) in
    let e2 : (to - from == 0) ≡ false = ground arith in
    let e3 : ltb size 201 ≡ true = ground arith in
    (
      record d {
        select = out ++ (inte, take size str) ∷ [];
        user_arr_brkpt = brkpt.0;
        user_arr_cnnct = cnnct.0;
      },
      rw (e1, e2, bytes, e3, brkpt.1, cnnct.1) refl,
      record {
        disjoint =
            Disjoint-join out ((inte, take size str) ∷ []) left.disjoint (tt, tt)
              (All-map _ _ out (λ s c. (is_intersect_sym inte s.0 c, tt)) left.clear);
        chosen = Memᴰ.append_right out (head refl);
        kept = λ m c. Memᴰ.append_left _ (left.kept m c);
        old = λ m. elim (Memᴰ.append_cases out m) [
          | inl m' ↦ inl (left.old m')
          | inr m' ↦ inr (Memᴰ.eq_of_singleton m')
        ];
        brkpt = brkpt.2;
        cnnct = cnnct.2;
        phones = refl;
        text = refl;
        size = refl;
      },
    )

-- When a candidate is selected whose characters are as many as the phones it is for, in a well-formed
-- buffer with disjoint selections and room for one more, ChoiceSelect meets no fault. The phones have
-- the candidate as their selection, the selections are disjoint again, exactly those that had a phone
-- in common with it are gone, the user's marks inside of it are gone and no others, the text is as it
-- was, and the choice has ended with the cursor where it started.
pub choice_select-Selected :
    (select_no cursor size : ℕ) (entry : AvailEntry) (str : List ℕ) (s : Session)
    → WellFormed s.edit
    → phone_seq_cursor s.edit ≡ some cursor
    → get_elem? (s.avail_info.avail) (s.avail_info.current_avail) ≡ some entry
    → get_elem? (s.choice_info.total_choice_str) select_no ≡ some str
    → 0 < entry.len
    → cursor + entry.len ≤ 50
    → ue_str_n_bytes str entry.len ≡ some size
    → size < 201
    → length s.edit.select < 50
    → Disjoint s.edit.select
    → s.choice_info.old_chi_symbol_cursor ≤ s.edit.chi_symbol_buf_len
    → (s' : Session) × (choice_select select_no s ≡ some s')
      × Selected (record { from = cursor; to = cursor + entry.len }) (take size str) s.edit s'.edit
      × (s'.b_select ≡ false)
      × (s'.edit.chi_symbol_cursor ≡ s.choice_info.old_chi_symbol_cursor)
unfolding choice_select choice_end_choice
choice_select-Selected select_no cursor size entry str s w at avail chosen long le bytes room few
      dis old =
    let len : cursor + entry.len - cursor ≡ entry.len = omega arith in
    let change =
      change_select-Selected cursor (cursor + entry.len) size str s.edit w (omega arith) le
        (rw len bytes) room few dis in
    let pci = s.choice_info in
    let same : change.0.chi_symbol_buf_len ≡ s.edit.chi_symbol_buf_len = change.2.size in
    let fits : leb pci.old_chi_symbol_cursor change.0.chi_symbol_buf_len ≡ true =
      ground (arith, same) in
    (
      record s {
        b_select = false;
        choice_info = record pci { total_choice_str = []; n_page = 0; is_symbol = word_choice };
        edit = record (change.0) { chi_symbol_cursor = pci.old_chi_symbol_cursor };
      },
      rw (at, avail, chosen, change.1, fits) refl,
      record {
        disjoint = change.2.disjoint;
        chosen = change.2.chosen;
        kept = change.2.kept;
        old = change.2.old;
        brkpt = change.2.brkpt;
        cnnct = change.2.cnnct;
        phones = change.2.phones;
        text = change.2.text;
        size = same;
      },
      refl,
      refl,
    )
