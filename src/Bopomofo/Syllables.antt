-- ===== src/Bopomofo/Syllables.antt =====
-- Whole syllables on the layouts of src/bopomofo.c with one key for each symbol.
use libchewing.Common.{
  ℕ, zero, suc, ◌<◌, ◌≡◌, refl, ◌∙◌, sym, ap, subst, Bool, true, false, List, [], ◌∷◌, ◌⊎◌, inl,
  inr, arith, ◌==◌, ◌!=◌, ◌&&◌, ◌||◌, if◌then◌else◌, Bool-cases, if-intro,
}
use libchewing.Key2pho.{uint_from_phone_inx, phone_inx_from_key}
use libchewing.Key2pho.Keys.{zhuin_tab_num}
use libchewing.Pinyin.{PinyinTable}
use libchewing.Bopomofo.{
  Inx, no_inx, set_inx, to_list, blank, BopomofoData, Rtn, commit, no_word, def_pho_input,
  is_def_pho_end_key, end_key_process, commit_phone, set_tone, bopomofo_remove_all,
}
use libchewing.Bopomofo.Input.{bopomofo_pho_input}
use libchewing.Bopomofo.Typing.{is_plain, key_of, KeyAgrees-of_symbol, space-no_tone}
use libchewing.Bopomofo.Commit.{put, dispatch, symbol-absorbed}

-- A symbol is its class with its index.
abbrev pub Symbol : Type 0
Symbol = ℕ × ℕ

-- Initials, medials and finals that exist.
unfoldable pub AllSymbols : List Symbol → Type 0
AllSymbols [] = 0 < 1
AllSymbols (s ∷ symbols) = (s.0 < 3) × (0 < s.1) × (s.1 < zhuin_tab_num (s.0)) × AllSymbols symbols

-- The index of a class that was typed last, `before` if none was.
unfoldable pub last_of : ℕ → List Symbol → ℕ → ℕ
last_of type [] before = before
last_of type (s ∷ symbols) before = last_of type symbols (if s.0 == type then s.1 else before)

abbrev pub typed : List Symbol → Inx → Inx
typed symbols p = record {
  i0 = last_of 0 symbols p.i0;
  i1 = last_of 1 symbols p.i1;
  i2 = last_of 2 symbols p.i2;
  i3 = 0;
}

abbrev pub keys_of : ℕ → List Symbol → List ℕ
keys_of kbtype [] = []
keys_of kbtype (s ∷ symbols) = key_of kbtype (s.0) (s.1) ∷ keys_of kbtype symbols

-- The key of a tone; the first tone is the space.
abbrev pub tone_key_of : ℕ → ℕ → ℕ
tone_key_of kbtype zero = b' '
tone_key_of kbtype (suc n) = key_of kbtype 3 (suc n)

put-no_tone : (p : Inx) (type inx : ℕ) → type < 3 → (put p type inx).i3 ≡ 0
unfolding set_inx
put-no_tone p type inx lt = ground arith

last_of-pos :
    (type : ℕ) (symbols : List Symbol) (before : ℕ)
    → AllSymbols symbols
    → 0 < before
    → 0 < last_of type symbols before
unfolding last_of AllSymbols
last_of-pos type [] before all pos = pos
last_of-pos type (s ∷ symbols) before (lt, here, inside, all) pos =
    last_of-pos type symbols (if s.0 == type then s.1 else before) all (ground arith)

-- A buffer in which something was typed is not blank.
typed-full :
    (s : Symbol) (symbols : List Symbol) (p : Inx)
    → AllSymbols (s ∷ symbols)
    → blank (typed (s ∷ symbols) p) ≡ false
unfolding last_of AllSymbols
typed-full (zero, inx) symbols p (lt, here, inside, all) =
    ground (arith, last_of-pos 0 symbols inx all here)
typed-full (suc zero, inx) symbols p (lt, here, inside, all) =
    ground (arith, last_of-pos 1 symbols inx all here)
typed-full (suc (suc zero), inx) symbols p (lt, here, inside, all) =
    ground (arith, last_of-pos 2 symbols inx all here)
typed-full (suc (suc (suc t)), inx) symbols p (lt, here, inside, all) = absurd (omega arith)

module _ (table : PinyinTable) (has_word : ℕ → Bool) where
  -- The state after keys.
  unfoldable pub run : BopomofoData → List ℕ → BopomofoData
  run b [] = b
  run b (key ∷ keys) = run (bopomofo_pho_input table has_word b key).1 keys

  -- What a tone's key is for the machine.
  tone_key-inx :
      (kbtype tone : ℕ)
      → is_plain kbtype ≡ true
      → tone < 5
      → (phone_inx_from_key (tone_key_of kbtype tone) 3 kbtype 1 ≡ tone)
        × ((tone_key_of kbtype tone == b'`') ≡ false)
        × ((tone ≡ 0) × ((tone_key_of kbtype tone == b' ') ≡ true) ⊎ (0 < tone))
  tone_key-inx kbtype zero plain lt = (space-no_tone kbtype plain, refl, inl (refl, refl))
  tone_key-inx kbtype (suc n) plain lt =
      let k = KeyAgrees-of_symbol kbtype plain 3 (suc n) (omega arith) (omega arith) lt in
      (k.its_tone, k.not_symbols, inr (omega arith))

  put-typed :
      (p : Inx) (s : Symbol) (symbols : List Symbol)
      → s.0 < 3
      → typed symbols (put p (s.0) (s.1)) ≡ typed (s ∷ symbols) p
  unfolding last_of set_inx
  put-typed p (zero, inx) symbols lt = refl
  put-typed p (suc zero, inx) symbols lt = refl
  put-typed p (suc (suc zero), inx) symbols lt = refl
  put-typed p (suc (suc (suc t)), inx) symbols lt = absurd (omega arith)

  run-keys_of :
      (b : BopomofoData) (symbols : List Symbol)
      → is_plain b.kbtype ≡ true
      → AllSymbols symbols
      → b.pho_inx.i3 ≡ 0
      → run b (keys_of b.kbtype symbols) ≡ record b { pho_inx = typed symbols b.pho_inx }
  unfolding run AllSymbols last_of
  run-keys_of b [] plain all no_tone =
      ap (λ t. record b { pho_inx = record (b.pho_inx) { i3 = t } }) no_tone
  run-keys_of b (s ∷ symbols) plain (lt, pos, inside, all) no_tone =
      ap (λ r. run (r.1) (keys_of b.kbtype symbols))
        (symbol-absorbed table has_word b (s.0) (s.1) plain lt pos inside)
      ∙ run-keys_of (record b { pho_inx = put b.pho_inx (s.0) (s.1) }) symbols plain all
          (put-no_tone b.pho_inx _ _ lt)
      ∙ ap (λ p. record b { pho_inx = p }) (put-typed b.pho_inx s symbols lt)

  -- The key of a tone, after at least one symbol.
  tone_key-commit_phone :
      (b : BopomofoData) (tone : ℕ)
      → is_plain b.kbtype ≡ true
      → blank b.pho_inx ≡ false
      → b.pho_inx.i3 ≡ 0
      → tone < 5
      → bopomofo_pho_input table has_word b (tone_key_of b.kbtype tone)
        ≡ commit_phone has_word (set_tone b tone)
  unfolding def_pho_input is_def_pho_end_key end_key_process
  tone_key-commit_phone b tone plain full no_tone lt =
      let tone_inx = tone_key-inx b.kbtype tone plain lt in
      let goal = λ (r : Rtn × BopomofoData). r ≡ commit_phone has_word (set_tone b tone) in
      let key = tone_key_of b.kbtype tone in
      dispatch table has_word b key plain (tone_inx.1)
      ∙ if-intro goal (is_def_pho_end_key key b.kbtype)
          (λ _.
            if-intro goal (blank b.pho_inx && b.pho_inx.i3 == 0)
              (λ e. absurd (ground (arith, full)))
              (λ f.
                if-intro goal (blank b.pho_inx && b.pho_inx.i3 == 0)
                  (λ e. absurd (ground (arith, full)))
                  (λ _.
                    if-intro goal (b.pho_inx.i3 == 0)
                      (λ _. ap (λ n. commit_phone has_word (set_tone b n)) (tone_inx.0))
                      (λ e. absurd (ground (arith, no_tone))))))
          (λ e. absurd (not_end key e (tone_inx.0) (tone_inx.2)))
    where
      not_end :
          {n tone : ℕ} (key : ℕ)
          → (n != 0 || key == b' ') ≡ false
          → n ≡ tone
          → (tone ≡ 0) × ((key == b' ') ≡ true) ⊎ (0 < tone)
          → ⊥
      not_end key h e t = ground arith

  -- The result of the key that ends a syllable of the phone `n`, typed in the state `b`.
  pub record Ends (b : BopomofoData) (n : ℕ) (out : Rtn × BopomofoData) : Type 0 where
    pub result : out.0 ≡ (if has_word n then commit else no_word)
    pub phone : out.1.phone ≡ (if has_word n then n else b.phone)
    pub cleared : out.1.pho_inx ≡ no_inx
    pub same_kbtype : out.1.kbtype ≡ b.kbtype

  commit_phone-Ends :
      (b : BopomofoData)
      → Ends b (uint_from_phone_inx (to_list b.pho_inx)) (commit_phone has_word b)
  unfolding commit_phone bopomofo_remove_all
  commit_phone-Ends b = elim (Bool-cases (has_word (uint_from_phone_inx (to_list b.pho_inx)))) [
    | inl e ↦
        rw e record { result = rw e refl; phone = rw e refl; cleared = refl; same_kbtype = refl }
    | inr e ↦
        rw e record { result = rw e refl; phone = rw e refl; cleared = refl; same_kbtype = refl }
  ]

  -- On each layout with one key for each symbol, from a clear buffer: at least one initial, medial or
  -- final typed in any order, then the key of a tone, end the syllable. Its phone packs the last
  -- index typed in each class, 0 where there is none, with the tone. It is committed exactly if a
  -- word has it; else the result is BOPOMOFO_NO_WORD and the phone stays. The buffer is clear again.
  pub typing-Ends :
      (b : BopomofoData) (s : Symbol) (symbols : List Symbol) (tone : ℕ)
      → is_plain b.kbtype ≡ true
      → b.pho_inx ≡ no_inx
      → AllSymbols (s ∷ symbols)
      → tone < 5
      → Ends b
          (uint_from_phone_inx (
            last_of 0 (s ∷ symbols) 0
            ∷ last_of 1 (s ∷ symbols) 0
            ∷ last_of 2 (s ∷ symbols) 0
            ∷ tone
            ∷ []))
          (bopomofo_pho_input table has_word
            (run b (keys_of b.kbtype (s ∷ symbols)))
            (tone_key_of b.kbtype tone))
  unfolding set_tone
  typing-Ends b s symbols tone plain clear all lt =
      let after = record b { pho_inx = typed (s ∷ symbols) no_inx } in
      let typed_eq =
        run-keys_of b (s ∷ symbols) plain all (ap (λ p. p.i3) clear)
        ∙ ap (λ p. record b { pho_inx = typed (s ∷ symbols) p }) clear in
      let full = typed-full s symbols no_inx all in
      let ended = commit_phone-Ends (set_tone after tone) in
      let whole =
        ap (λ c. bopomofo_pho_input table has_word c (tone_key_of b.kbtype tone)) typed_eq
        ∙ tone_key-commit_phone after tone plain full refl lt in
      subst (Ends b _) (sym whole) record {
        result = ended.result;
        phone = ended.phone;
        cleared = ended.cleared;
        same_kbtype = ended.same_kbtype;
      }
