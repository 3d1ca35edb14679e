-- ===== src/Bopomofo/Removal.antt =====
-- BopomofoRemoveLast and BopomofoIsEntering of src/bopomofo.c.
use libchewing.Common.{
  ℕ, zero, suc, ◌+◌, ◌-◌, ◌<◌, ◌≤◌, ◌≡◌, ◌≢◌, refl, ◌∙◌, sym, ap, List, [], ◌∷◌, ◌++◌, replicate,
  true, false, Option, some, inl, inr, length, take, length-take, ◌>>=◌, arith, leb, ◌==◌, ◌!=◌,
  if◌then◌else◌, Bool-cases, if-intro,
}
use libchewing.Bopomofo.{
  Inx, to_list, BopomofoData, kb_hanyu_pinyin, bopomofo_remove_last, bopomofo_is_entering,
}
use libchewing.Bopomofo.Valid.{Valid, InxOk}

abbrev flag : ℕ → ℕ
flag n = if n == 0 then 0 else 1

-- How many keys can be removed.
abbrev pub entered : BopomofoData → ℕ
entered b =
    if leb kb_hanyu_pinyin b.kbtype
    then length b.key_seq
    else flag b.pho_inx.i0 + flag b.pho_inx.i1 + flag b.pho_inx.i2 + flag b.pho_inx.i3

pub is_entering-entered : (b : BopomofoData) → bopomofo_is_entering b ≡ (entered b != 0)
unfolding bopomofo_is_entering
is_entering-entered b = ground arith

-- `b'` is `b` without its last letter, or with its last slot that is set cleared.
pub data LastRemoved (b b' : BopomofoData) : Type 0 where
  letter :
      (c : ℕ)
      → leb kb_hanyu_pinyin b.kbtype ≡ true
      → b.key_seq ≡ b'.key_seq ++ c ∷ []
      → b' ≡ record b { key_seq = b'.key_seq }
      → LastRemoved b b'
  slot :
      (before : List ℕ) (x after : ℕ)
      → leb kb_hanyu_pinyin b.kbtype ≡ false
      → x ≢ 0
      → to_list b.pho_inx ≡ before ++ x ∷ replicate after 0
      → to_list b'.pho_inx ≡ before ++ 0 ∷ replicate after 0
      → b' ≡ record b { pho_inx = b'.pho_inx }
      → LastRemoved b b'

last_split : (ks : List ℕ) → 0 < length ks → (c : ℕ) × (ks ≡ take (length ks - 1) ks ++ c ∷ [])
last_split [] pos = absurd (omega arith)
last_split (x ∷ []) pos = (x, refl)
last_split (x ∷ y ∷ ks) pos =
    let (c, e) = last_split (y ∷ ks) (omega arith) in
    let n : length (x ∷ y ∷ ks) - 1 ≡ suc (length (y ∷ ks) - 1) = omega arith in
    (c, ap (λ l. x ∷ l) e ∙ ap (λ m. take m (x ∷ y ∷ ks) ++ c ∷ []) (sym n))

-- `r` is a valid state with the last key removed, and one key less to remove.
pub record Removed (b : BopomofoData) (r : Option BopomofoData) : Type 0 where
  pub state : BopomofoData
  pub returned : r ≡ some state
  pub one_less : entered b ≡ suc (entered state)
  pub last : LastRemoved b state
  pub valid : Valid state

module _ (b : BopomofoData) (v : Valid b) where
  keys-Removed :
      leb kb_hanyu_pinyin b.kbtype ≡ true
      → 0 < length b.key_seq
      → Removed b (some (record b { key_seq = take (length b.key_seq - 1) b.key_seq }))
  keys-Removed pinyin pos = record {
    state = record b { key_seq = take (length b.key_seq - 1) b.key_seq };
    returned = refl;
    one_less = ground (arith, length-take (length b.key_seq - 1) b.key_seq);
    last = (let (c, e) = last_split b.key_seq pos in letter c pinyin e refl);
    valid = record {
      kbtype_lt = v.kbtype_lt;
      inx_ok = v.inx_ok;
      alt_ok = v.alt_ok;
      phone_ok = v.phone_ok;
      phone_alt_ok = v.phone_alt_ok;
      key_seq_lt = ground (arith, v.key_seq_lt, length-take (length b.key_seq - 1) b.key_seq);
    };
  }

  slot-Removed :
      (p : Inx)
      → InxOk p
      → entered b ≡ suc (entered (record b { pho_inx = p }))
      → LastRemoved b (record b { pho_inx = p })
      → Removed b (some (record b { pho_inx = p }))
  slot-Removed p ok less last = record {
    state = record b { pho_inx = p };
    returned = refl;
    one_less = less;
    last = last;
    valid = record {
      kbtype_lt = v.kbtype_lt;
      inx_ok = ok;
      alt_ok = v.alt_ok;
      phone_ok = v.phone_ok;
      phone_alt_ok = v.phone_alt_ok;
      key_seq_lt = v.key_seq_lt;
    };
  }

  -- While something is entered, `BopomofoRemoveLast` writes in range and takes exactly the last key
  -- away: the last letter of a pinyin string, else the last slot that is set. Nothing else changes, and
  -- the state stays valid.
  pub bopomofo_remove_last-Removed :
      bopomofo_is_entering b ≡ true → Removed b (bopomofo_remove_last b)
  unfolding bopomofo_remove_last
  bopomofo_remove_last-Removed entering =
      let some_left = sym (is_entering-entered b) ∙ entering in
      let p = b.pho_inx in
      let ok = v.inx_ok in
      if-intro (Removed b) (leb kb_hanyu_pinyin b.kbtype)
        (λ py.
          if-intro (Removed b) (length b.key_seq == 0) (λ e. absurd (ground (arith, some_left)))
            (λ e. keys-Removed py (ground arith)))
        (λ py.
          if-intro (Removed b) (p.i3 != 0)
            (λ e.
              slot-Removed (record p { i3 = 0 }) (ground arith) (ground arith)
                (slot (p.i0 ∷ p.i1 ∷ p.i2 ∷ []) p.i3 0 py (ground arith) refl refl refl))
            (λ e3.
              if-intro (Removed b) (p.i2 != 0)
                (λ e.
                  let z3 : p.i3 ≡ 0 = ground arith in
                  slot-Removed (record p { i2 = 0 }) (ground arith) (ground arith)
                    (slot (p.i0 ∷ p.i1 ∷ []) p.i2 1 py (ground arith) (cc) (cc) refl))
                (λ e2.
                  if-intro (Removed b) (p.i1 != 0)
                    (λ e.
                      let z3 : p.i3 ≡ 0 = ground arith in
                      let z2 : p.i2 ≡ 0 = ground arith in
                      slot-Removed (record p { i1 = 0 }) (ground arith) (ground arith)
                        (slot (p.i0 ∷ []) p.i1 2 py (ground arith) (cc) (cc) refl))
                    (λ e1.
                      if-intro (Removed b) (p.i0 != 0)
                        (λ e.
                          let z3 : p.i3 ≡ 0 = ground arith in
                          let z2 : p.i2 ≡ 0 = ground arith in
                          let z1 : p.i1 ≡ 0 = ground arith in
                          slot-Removed (record p { i0 = 0 }) (ground arith) (ground arith)
                            (slot [] p.i0 3 py (ground arith) (cc) (cc) refl))
                        (λ e0. absurd (ground (arith, some_left)))))))

-- `BopomofoRemoveLast` again and again while something is entered, at most `n` times.
unfoldable pub remove_while : ℕ → BopomofoData → Option BopomofoData
remove_while zero b = some b
remove_while (suc n) b =
    if bopomofo_is_entering b then bopomofo_remove_last b >>= remove_while n else some b

remove_while-stops :
    (b : BopomofoData) (n : ℕ)
    → Valid b
    → entered b ≤ n
    → (b' : BopomofoData) × (remove_while n b ≡ some b')
      × (bopomofo_is_entering b' ≡ false)
      × Valid b'
unfolding remove_while
remove_while-stops b zero v le = (b, refl, is_entering-entered b ∙ ground arith, v)
remove_while-stops b (suc n) v le = elim (Bool-cases (bopomofo_is_entering b)) [
  | inr e ↦ rw e (b, refl, e, v)
  | inl e ↦
      let r = bopomofo_remove_last-Removed b v e in
      rw (e, r.returned, ◌>>=◌) (remove_while-stops r.state n r.valid (omega (arith, r.one_less)))
]

entered-lt : (b : BopomofoData) → Valid b → entered b < 10
entered-lt b v = ground (arith, v.key_seq_lt)

-- From every valid state, removing the last key while something is entered stops after at most nine
-- removals, with no write out of range, in a valid state with nothing entered.
pub remove_while-empty :
    (b : BopomofoData)
    → Valid b
    → (b' : BopomofoData) × (remove_while 9 b ≡ some b')
      × (bopomofo_is_entering b' ≡ false)
      × Valid b'
remove_while-empty b v = remove_while-stops b 9 v (omega (arith, entered-lt b v))
