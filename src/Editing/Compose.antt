-- ===== src/Editing/Compose.antt =====
-- Operations of src/chewingutil.c one after the other: what is typed is taken back, KillFromLeft, and
-- the phones of the second reading.
use libchewing.Common.{
  ℕ, zero, suc, ◌-◌, ◌<◌, ◌≤◌, ◌≡◌, refl, ◌∙◌, sym, ap, Option, some, List, [], ◌∷◌, ◌++◌, length,
  take, drop, ◌>>=◌, arith, length-take, length-drop,
}
use libchewing.Editing.{ChewingData, add_chi, chewing_kill_char, kill_from_left}
use libchewing.Editing.Contents.{Cell, character, contents, length-view}
use libchewing.Editing.WellFormed.{WellFormed}
use libchewing.Editing.Insert.{add_chi-Inserted}
use libchewing.Editing.Delete.{chewing_kill_char-Deleted}

pub length-contents : (d : ChewingData) → WellFormed d → length (contents d) ≡ d.chi_symbol_buf_len
length-contents d w =
    length-view _ _
    ∙ omega (arith, length-take d.chi_symbol_buf_len d.preedit_buf, w.preedit_size, w.len_le)

-- Insertion of one entry and deletion at the same place.
insert-delete :
    (at : ℕ) (l : List Cell) (x : Cell)
    → at ≤ length l
    → take at (take at l ++ x ∷ drop at l) ++ drop (suc at) (take at l ++ x ∷ drop at l) ≡ l
insert-delete zero l x le = refl
insert-delete (suc at) [] x le = absurd (omega arith)
insert-delete (suc at) (y ∷ l) x le = ap (λ m. y ∷ m) (insert-delete at l x (omega arith))

length-inserted :
    (at : ℕ) (l : List Cell) (x : Cell) → length (take at l ++ x ∷ drop at l) ≡ suc (length l)
length-inserted zero l x = refl
length-inserted (suc at) [] x = refl
length-inserted (suc at) (y ∷ l) x = ap suc (length-inserted at l x)

pub record Restored (d : ChewingData) (out : Option ChewingData) : Type 0 where
  pub state : ChewingData
  pub returned : out ≡ some state
  pub well_formed : WellFormed state
  pub text : contents state ≡ contents d
  pub cursor : state.chi_symbol_cursor ≡ d.chi_symbol_cursor

-- In a well-formed state of less than 49 entries, adding a character with `AddChi` and then killing
-- the entry before the cursor with `ChewingKillChar`, as Backspace does, has no fault and restores
-- the text, its phones and the cursor.
pub kill_char-add_chi :
    (d : ChewingData) (phone phone_alt : ℕ)
    → WellFormed d
    → d.chi_symbol_buf_len < 49
    → Restored d
        (add_chi phone phone_alt d >>= λ d'. chewing_kill_char d' (d'.chi_symbol_cursor - 1) 1)
kill_char-add_chi d phone phone_alt w room =
    let i = add_chi-Inserted d w (omega arith) phone phone_alt in
    let after = i.state in
    let size : after.chi_symbol_buf_len ≡ suc d.chi_symbol_buf_len =
      sym (length-contents after i.well_formed)
      ∙ ap length i.text
      ∙ length-inserted d.chi_symbol_cursor (contents d) (character phone)
      ∙ ap suc (length-contents d w) in
    let at = after.chi_symbol_cursor - 1 in
    let same : at ≡ d.chi_symbol_cursor = omega (arith, i.cursor) in
    let k =
      chewing_kill_char-Deleted after i.well_formed at 1 (omega (arith, same, size, w.cursor_le))
        (omega (arith, size)) (omega (arith, same, size, w.cursor_le)) in
    let text =
      k.text
      ∙ ap (λ l. take at l ++ drop (suc at) l) i.text
      ∙ ap (λ n. take n (grown d phone) ++ drop (suc n) (grown d phone)) same
      ∙ insert-delete d.chi_symbol_cursor (contents d) (character phone)
          (omega (arith, length-contents d w, w.cursor_le)) in
    rw (i.returned, ◌>>=◌)
      record {
        state = k.state;
        returned = k.returned;
        well_formed = k.well_formed;
        text = text;
        cursor = k.cursor ∙ same;
      }
  where
    grown : ChewingData → ℕ → List Cell
    grown d phone =
        take d.chi_symbol_cursor (contents d)
        ++ character phone ∷ drop d.chi_symbol_cursor (contents d)

-- `KillFromLeft` drops the first `n` entries of a well-formed state of less than 50 entries, with
-- their phones and with no fault, and the state stays well-formed.
pub kill_from_left-drop :
    (n : ℕ) (d : ChewingData)
    → WellFormed d
    → n ≤ d.chi_symbol_buf_len
    → d.chi_symbol_buf_len < 50
    → (d' : ChewingData) × (kill_from_left n d ≡ some d')
      × WellFormed d'
      × (contents d' ≡ drop n (contents d))
unfolding kill_from_left
kill_from_left-drop zero d w le room = (d, refl, w, refl)
kill_from_left-drop (suc n) d w le room =
    let k = chewing_kill_char-Deleted d w 0 1 (omega arith) room (omega (arith, w.cursor_le)) in
    let size : k.state.chi_symbol_buf_len ≡ d.chi_symbol_buf_len - 1 =
      sym (length-contents k.state k.well_formed)
      ∙ ap length k.text
      ∙ omega (arith, length-drop 1 (contents d), length-contents d w) in
    let (d', run, w', text) =
      kill_from_left-drop n k.state k.well_formed (omega (arith, size)) (omega (arith, size)) in
    rw (k.returned, ◌>>=◌) (d', run, w', text ∙ ap (drop n) k.text ∙ drop-drop n (contents d))
  where
    drop-drop : (n : ℕ) (l : List Cell) → drop n (drop 1 l) ≡ drop (suc n) l
    drop-drop n [] = drop-nil n
      where
        drop-nil : (n : ℕ) → drop {A = Cell} n [] ≡ []
        drop-nil zero = refl
        drop-nil (suc n) = refl
    drop-drop n (x ∷ l) = refl
