-- ===== src/Bopomofo/EndKey.antt =====
-- The key that ends a syllable, and the slot that a key fills: what they do to a valid state.
use libchewing.Common.{
  ℕ, ◌<◌, ◌≡◌, ◌≢◌, refl, Bool, false, List, [], inl, inr, arith, length, leb, ◌==◌, ◌!=◌, ◌&&◌,
  if◌then◌else◌, Bool-cases, if-intro,
}
use libchewing.Key2pho.{uint_from_phone_inx}
use libchewing.Key2pho.Keys.{zhuin_tab_num}
use libchewing.Bopomofo.{
  Inx, no_inx, to_list, blank, BopomofoData, Rtn, commit, absorb, no_word, key_error, commit_phone,
  set_tone, end_key_process, find_type, def_absorb, def_pho_input, is_def_pho_end_key, isalpha,
}
use libchewing.Bopomofo.Hsu.{fill}
use libchewing.Bopomofo.Valid.{
  InxOk, no_inx-InxOk, IsCode, Valid, Step, uint_from_phone_inx-IsCode, uint_from_phone_inx-IsPhone,
  inx-lt, set_inx-InxOk, find_type-lt,
}

module _ (has_word : ℕ → Bool) where
  -- A key that commits nothing.
  pub stay :
      (b : BopomofoData) (r : Rtn) (p q : Inx) (key_seq : List ℕ)
      → Valid b
      → InxOk p
      → InxOk q
      → length key_seq < 10
      → r ≢ commit
      → Step has_word b (r, record b { pho_inx = p; pho_inx_alt = q; key_seq = key_seq })
  stay b r p q key_seq v hp hq short not_commit = record {
    valid = record {
      kbtype_lt = v.kbtype_lt;
      inx_ok = hp;
      alt_ok = hq;
      phone_ok = v.phone_ok;
      phone_alt_ok = v.phone_alt_ok;
      key_seq_lt = short;
    };
    same_kbtype = refl;
    outcome = inl (not_commit, refl, refl);
  }

  alt-IsCode :
      (p q : Inx)
      → InxOk p
      → InxOk q
      → IsCode
          (if blank q then uint_from_phone_inx (to_list p) else uint_from_phone_inx (to_list q))
  alt-IsCode p q hp hq = elim (Bool-cases (blank q)) [
    | inl e ↦ rw e (uint_from_phone_inx-IsCode p hp)
    | inr e ↦ rw e (uint_from_phone_inx-IsCode q hq)
  ]

  commit_phone-Step :
      (b : BopomofoData)
      → Valid b
      → (blank b.pho_inx && b.pho_inx.i3 == 0) ≡ false
      → Step has_word b (commit_phone has_word b)
  unfolding commit_phone
  commit_phone-Step b v full =
      elim (Bool-cases (has_word (uint_from_phone_inx (to_list b.pho_inx)))) [
        | inr e ↦
            rw e (stay b no_word no_inx b.pho_inx_alt [] v no_inx-InxOk v.alt_ok (omega arith) cc)
        | inl e ↦ rw e record {
          valid = record {
            kbtype_lt = v.kbtype_lt;
            inx_ok = no_inx-InxOk;
            alt_ok = no_inx-InxOk;
            phone_ok = uint_from_phone_inx-IsCode b.pho_inx v.inx_ok;
            phone_alt_ok = alt-IsCode b.pho_inx b.pho_inx_alt v.inx_ok v.alt_ok;
            key_seq_lt = v.key_seq_lt;
          };
          same_kbtype = refl;
          outcome = inr (
            refl,
            record {
              word = e;
              phone = uint_from_phone_inx-IsPhone b.pho_inx v.inx_ok full;
              cleared = refl;
              alt_cleared = refl;
            },
          );
        }
      ]

  set_tone-Step :
      (b : BopomofoData) (inx : ℕ)
      → Valid b
      → inx < 5
      → blank b.pho_inx ≡ false
      → Step has_word b (commit_phone has_word (set_tone b inx))
  unfolding set_tone
  set_tone-Step b inx v lt full =
      let set = set_tone b inx in
      let s =
        commit_phone-Step set
          record {
            kbtype_lt = v.kbtype_lt;
            inx_ok = record {
              lt0 = v.inx_ok.lt0;
              lt1 = v.inx_ok.lt1;
              lt2 = v.inx_ok.lt2;
              lt3 = lt;
            };
            alt_ok = record {
              lt0 = v.alt_ok.lt0;
              lt1 = v.alt_ok.lt1;
              lt2 = v.alt_ok.lt2;
              lt3 = lt;
            };
            phone_ok = v.phone_ok;
            phone_alt_ok = v.phone_alt_ok;
            key_seq_lt = v.key_seq_lt;
          }
          (rw full refl) in
      record { valid = s.valid; same_kbtype = s.same_kbtype; outcome = s.outcome }

  -- The key after a tone: it takes the tone's place, or is the space that ends the syllable.
  second_tone-Step :
      (b : BopomofoData) (key inx : ℕ)
      → Valid b
      → inx < 5
      → (blank b.pho_inx && b.pho_inx.i3 == 0) ≡ false
      → Step has_word b (if key != b' ' then (no_word, set_tone b inx) else commit_phone has_word b)
  unfolding set_tone
  second_tone-Step b key inx v lt full =
      let hp = v.inx_ok in
      let hq = v.alt_ok in
      if-intro (Step has_word b) (key != b' ')
        (λ _.
          stay b no_word _ _ b.key_seq v
            record { lt0 = hp.lt0; lt1 = hp.lt1; lt2 = hp.lt2; lt3 = lt }
            record { lt0 = hq.lt0; lt1 = hq.lt1; lt2 = hq.lt2; lt3 = lt } v.key_seq_lt cc)
        (λ _. commit_phone-Step b v full)

  pub end_key_process-Step :
      (b : BopomofoData) (key search_times : ℕ)
      → Valid b
      → Step has_word b (end_key_process has_word b key search_times)
  unfolding end_key_process
  end_key_process-Step b key n v =
      let lt = inx-lt key 3 b.kbtype n (omega arith) v.kbtype_lt in
      if-intro (Step has_word b) (blank b.pho_inx && b.pho_inx.i3 == 0)
        (λ _.
          stay b (if key == b' ' then key_error else no_word) _ _ b.key_seq v v.inx_ok v.alt_ok
            v.key_seq_lt (ground arith))
        (λ full.
          if-intro (Step has_word b) (b.pho_inx.i3 == 0)
            (λ t. set_tone-Step b _ v lt (ground arith)) (λ t. second_tone-Step b key _ v lt full))

  pub fill-Step :
      (b : BopomofoData) (key type inx : ℕ) (p : Inx)
      → Valid b
      → InxOk p
      → ((type == 3) ≡ false → inx < zhuin_tab_num type)
      → Step has_word b (fill b key type inx p)
  unfolding fill
  fill-Step b key type inx p v hp inside =
      if-intro (Step has_word b) (type == 3)
        (λ _.
          stay b (if isalpha key then no_word else key_error) p b.pho_inx_alt b.key_seq v hp
            v.alt_ok v.key_seq_lt (ground arith))
        (λ e.
          stay b absorb _ b.pho_inx_alt b.key_seq v (set_inx-InxOk p type inx hp (inside e))
            v.alt_ok v.key_seq_lt cc)

  def_absorb-Step : (b : BopomofoData) (key : ℕ) → Valid b → Step has_word b (def_absorb b key)
  unfolding def_absorb
  def_absorb-Step b key v = elim (find_type-lt b.kbtype key 4 0 v.kbtype_lt (omega arith)) [
    | inl e ↦
        rw e
          (stay b key_error b.pho_inx b.pho_inx_alt b.key_seq v v.inx_ok v.alt_ok v.key_seq_lt cc)
    | inr inside ↦ elim (Bool-cases (leb 4 (find_type b.kbtype key 4 0).0)) [
      | inl e ↦
          rw e
            (stay b key_error b.pho_inx b.pho_inx_alt b.key_seq v v.inx_ok v.alt_ok v.key_seq_lt cc)
      | inr e ↦ rw e (
          stay b absorb _ b.pho_inx_alt b.key_seq v
            (set_inx-InxOk b.pho_inx ((find_type b.kbtype key 4 0).0) _ v.inx_ok inside) v.alt_ok
            v.key_seq_lt cc)
    ]
  ]

  pub def_pho_input-Step :
      (b : BopomofoData) (key : ℕ) → Valid b → Step has_word b (def_pho_input has_word b key)
  unfolding def_pho_input
  def_pho_input-Step b key v =
      if-intro (Step has_word b) (is_def_pho_end_key key b.kbtype)
        (λ _.
          if-intro (Step has_word b) (blank b.pho_inx && b.pho_inx.i3 == 0)
            (λ _. def_absorb-Step b key v) (λ _. end_key_process-Step b key 1 v))
        (λ _. without_tone v.inx_ok)
    where
      without_tone :
          InxOk b.pho_inx
          → Step has_word b (def_absorb (record b { pho_inx = record (b.pho_inx) { i3 = 0 } }) key)
      without_tone ok =
          let s =
            def_absorb-Step (record b { pho_inx = record (b.pho_inx) { i3 = 0 } }) key
              record {
                kbtype_lt = v.kbtype_lt;
                inx_ok = record { lt0 = ok.lt0; lt1 = ok.lt1; lt2 = ok.lt2; lt3 = omega arith };
                alt_ok = v.alt_ok;
                phone_ok = v.phone_ok;
                phone_alt_ok = v.phone_alt_ok;
                key_seq_lt = v.key_seq_lt;
              } in
          record { valid = s.valid; same_kbtype = s.same_kbtype; outcome = s.outcome }
