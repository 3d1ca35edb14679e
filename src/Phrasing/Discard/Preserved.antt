-- ===== src/Phrasing/Discard/Preserved.antt =====
-- What Discard1 of src/tree.c keeps: intervals that contain the dropped ones, and the places that
-- the intervals lead to, as far as a phrasing needs them.
use libchewing.Common.{
  ℕ, zero, suc, ◌+◌, ◌≤◌, ◌<◌, ◌≡◌, ◌⊎◌, inl, inr, refl, ap, sym, subst, ◌∙◌, Bool, true, false,
  some, [], ◌∷◌, length, get_elem?, ◌!=◌, ◌&&◌, ◌>>=◌, arith, if-intro, Bool-cases, eq_or_ne,
  lt_or_le, some-inj, get_elem?-total,
}
use libchewing.Phrasing.{PhraseInterval, phrase_interval_contain}
use libchewing.Phrasing.Discard.{stands_alone, flag_inside, discard1_round, discard1_loop}
use libchewing.Phrasing.Discard.Kept.{
  Items, Live, Led, origin, via, contain-eq, contain_of, Side, inside, in_front, in_back,
  stands_alone-Side, flag_inside-at, flag_inside-from,
}

-- Every interval has a phone, and ends at `n` or before.
abbrev pub InBounds : ℕ → Items → Type 0
InBounds n items = (u : PhraseInterval) → Live items u → (u.from < u.to) × (u.to ≤ n)

-- What a round keeps of the intervals.
pub record Preserved (n : ℕ) (old new : Items) : Type 0 where
  pub still : (u : PhraseInterval) → Live new u → Live old u
  pub size : length new ≡ length old
  pub end_led : Led (Live old) n → Led (Live new) n
  pub starts_led : (u : PhraseInterval) → Live new u → Led (Live old) u.from → Led (Live new) u.from
  pub covered :
      (u : PhraseInterval)
      → Live old u
      → (w : PhraseInterval) × Live new w × (phrase_interval_contain w u ≡ true)

contain_refl : (u : PhraseInterval) → phrase_interval_contain u u ≡ true
contain_refl u = contain_of u u (omega arith) (omega arith)

contain_trans :
    (w v u : PhraseInterval)
    → phrase_interval_contain w v ≡ true
    → phrase_interval_contain v u ≡ true
    → phrase_interval_contain w u ≡ true
contain_trans w v u h k =
    let (a, b) = contain-eq w v h in
    let (c, d) = contain-eq v u k in contain_of w u (omega arith) (omega arith)

Preserved-refl : (n : ℕ) (items : Items) → Preserved n items items
Preserved-refl n items = record {
  still = λ u l. l;
  size = refl;
  end_led = λ l. l;
  starts_led = λ u l led. led;
  covered = λ u l. (u, l, contain_refl u);
}

Preserved-trans :
    (n : ℕ) (xs ys zs : Items) → Preserved n xs ys → Preserved n ys zs → Preserved n xs zs
Preserved-trans n xs ys zs p q = record {
  still = λ u l. p.still u (q.still u l);
  size = q.size ∙ p.size;
  end_led = λ l. q.end_led (p.end_led l);
  starts_led = λ u l led. q.starts_led u l (p.starts_led u (q.still u l) led);
  covered = λ u l.
      let (v, lv, c) = p.covered u l in
      let (w, lw, d) = q.covered v lv in (w, lw, contain_trans w v u d c);
}

length-flag_inside :
    (a : ℕ) (v : PhraseInterval) (i : ℕ) (items : Items)
    → length (flag_inside a v i items) ≡ length items
unfolding flag_inside
length-flag_inside a v i [] = refl
length-flag_inside a v i ((u, f) ∷ items) = ap suc (length-flag_inside a v (i + 1) items)

-- A round in which the interval at `a` stands alone.
module _ (n a : ℕ) (v : PhraseInterval) (items : Items) (here : get_elem? items a ≡ some (v, false))
    (alone : stands_alone a v 0 items ≡ true) (bounds : InBounds n items) where
  abbrev flagged : Items
  flagged = flag_inside a v 0 items

  v-Live : Live flagged v
  v-Live = (
    a,
    flag_inside-at a v 0 items a v false here
        ∙ (let same : (0 + a != a) ≡ false = ground arith in rw same refl),
  )

  -- An interval that is not in it stays.
  outside-Live :
      (u : PhraseInterval) → Live items u → phrase_interval_contain v u ≡ false → Live flagged u
  outside-Live u (j, at) out = (
    j,
    flag_inside-at a v 0 items j u false at
        ∙ (let off : (0 + j != a && phrase_interval_contain v u) ≡ false = ground arith in
            rw off refl),
  )

  side : (u : PhraseInterval) → Live items u → Side v u
  side u (j, at) = elim (eq_or_ne j a) [
    | inl e ↦
        let same : v ≡ u =
          ap (λ p. p.0) (some-inj (sym here ∙ ap (get_elem? items) (sym e) ∙ at)) in
        subst (Side v) same (inside (contain_refl v))
    | inr ne ↦ stands_alone-Side a v 0 items alone j u at (λ e. ne (omega (arith, e)))
  ]

  -- A place that the intervals lead to is still led to if it is not inside; if it is, the start of
  -- the interval is.
  record Leads (b : ℕ) : Type 0 where
    outer : (b ≤ v.from) ⊎ (v.to ≤ b) → Led (Live flagged) b
    inner : v.from < b → b < v.to → Led (Live flagged) v.from

  via-Leads :
      (u : PhraseInterval) (b : ℕ)
      → Live items u
      → u.to ≡ b
      → Leads u.from
      → Side v u
      → (c : Bool) → phrase_interval_contain v u ≡ c
      → Leads b
  via-Leads u b l e ih s true con =
      let (le_from, le_to) = contain-eq v u con in
      let (nonempty, _) = bounds u l in
      let to_start : Led (Live flagged) v.from = elim (lt_or_le v.from u.from) [
        | inl lt ↦ ih.inner lt (omega arith)
        | inr le ↦ subst (Led (Live flagged)) (omega arith) (ih.outer (inl le))
      ] in
      record {
        outer = λ out. elim out [
          | inl le ↦ absurd (omega (arith, e))
          | inr le ↦ via v-Live (omega (arith, e)) to_start
        ];
        inner = λ lo hi. to_start;
      }
  via-Leads u b l e ih (inside con) false out = absurd (ground arith)
  via-Leads u b l e ih (in_front le) false out =
      let (nonempty, _) = bounds u l in
      record {
        outer = λ _. via (outside-Live u l out) e (ih.outer (inl (omega arith)));
        inner = λ lo hi. absurd (omega (arith, e));
      }
  via-Leads u b l e ih (in_back le) false out =
      let (nonempty, _) = bounds u l in
      record {
        outer = λ _. via (outside-Live u l out) e (ih.outer (inr le));
        inner = λ lo hi. absurd (omega (arith, e));
      }

  Led-Leads : {b : ℕ} → Led (Live items) b → Leads b
  Led-Leads origin = record { outer = λ _. origin; inner = λ lo hi. absurd (omega arith) }
  Led-Leads (via {v = u} {b} l e led) =
      via-Leads u b l e (Led-Leads led) (side u l) (phrase_interval_contain v u) refl

  start_outer :
      (u : PhraseInterval)
      → Live items u
      → Side v u
      → phrase_interval_contain v u ≡ false
      → (u.from ≤ v.from) ⊎ (v.to ≤ u.from)
  start_outer u l (inside c) out = absurd (ground arith)
  start_outer u l (in_front le) out = let (nonempty, _) = bounds u l in inl (omega arith)
  start_outer u l (in_back le) out = inr le

  start_Led :
      (u : PhraseInterval) (j : ℕ)
      → get_elem? flagged j ≡ some (u, false)
      → Led (Live items) u.from
      → Led (Live flagged) u.from
  start_Led u j at led =
      let (old, why) = flag_inside-from a v 0 items j u at in
      elim why [
        | inl e ↦
            let same : u ≡ v =
              ap (λ p. p.0) (some-inj (sym old ∙ ap (get_elem? items) (omega (arith, e)) ∙ here)) in
            (Led-Leads led).outer (inl (rw same (omega arith)))
        | inr out ↦ (Led-Leads led).outer (start_outer u (j, old) (side u (j, old)) out)
      ]

  round-Preserved : Preserved n items flagged
  round-Preserved = record {
    still = λ u (j, at). (j, (flag_inside-from a v 0 items j u at).0);
    size = length-flag_inside a v 0 items;
    end_led = λ led. let (_, le) = bounds v (a, here) in (Led-Leads led).outer (inr le);
    starts_led = λ u (j, at) led. start_Led u j at led;
    covered = λ u l. elim (Bool-cases (phrase_interval_contain v u)) [
      | inl c ↦ (v, v-Live, c)
      | inr c ↦ (u, outside-Live u l c, contain_refl u)
    ];
  }

discard1_round-Preserved :
    (n a : ℕ) (v : PhraseInterval) (failed : Bool) (items : Items)
    → get_elem? items a ≡ some (v, failed)
    → InBounds n items
    → Preserved n items (discard1_round a (v, failed) items)
unfolding discard1_round
discard1_round-Preserved n a v true items here bounds = Preserved-refl n items
discard1_round-Preserved n a v false items here bounds =
    if-intro (Preserved n items) (stands_alone a v 0 items)
      (λ alone. round-Preserved n a v items here alone bounds) (λ _. Preserved-refl n items)

pub discard1_loop-Preserved :
    (n count a : ℕ) (items : Items)
    → a + count ≡ length items
    → InBounds n items
    → (last : Items) × (discard1_loop count a items ≡ some last) × Preserved n items last
unfolding discard1_loop
discard1_loop-Preserved n zero a items e bounds = (items, refl, Preserved-refl n items)
discard1_loop-Preserved n (suc count) a items e bounds =
    let ((v, failed), at) = get_elem?-total items a (omega (arith, e)) in
    let p = discard1_round-Preserved n a v failed items at bounds in
    let next = discard1_round a (v, failed) items in
    let (last, looped, q) =
      discard1_loop-Preserved n count (a + 1) next (omega (arith, e, p.size))
        (λ u l. bounds u (p.still u l)) in
    (last, rw (at, ◌>>=◌) looped, Preserved-trans n items next last p q)
