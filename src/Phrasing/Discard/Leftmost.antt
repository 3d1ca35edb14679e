-- ===== src/Phrasing/Discard/Leftmost.antt =====
-- SetInfo of src/tree.c: `leftmost` is 0 at every place that intervals lead to from the start.
use libchewing.Common.{
  ℕ, zero, suc, ◌+◌, ◌≤◌, ◌<◌, ◌≡◌, inl, inr, refl, ap, sym, subst, ◌∙◌, true, some, List, [], ◌∷◌,
  length, set, get_elem?, ltb, ◌&&◌, if◌then◌else◌, ◌>>=◌, ◌>>◌, leb, arith, if-intro, eq_or_ne,
  some-inj, get_elem?-total, length-set, get_elem?-set_self, get_elem?-set_ne,
}
use libchewing.Phrasing.{PhraseInterval}
use libchewing.Phrasing.Dp.Sorting.{Among}
use libchewing.Phrasing.Dp.Tiles.{Reach, start, by}
use libchewing.Phrasing.Discard.{
  linked, places, relax, relax_loop, leftmost_loop, ends_fit, set_info,
}

abbrev pub ZeroAt : List ℕ → ℕ → Type 0
ZeroAt leftmost b = get_elem? leftmost b ≡ some 0

joined_of_Among :
    (v : PhraseInterval) (vs : List PhraseInterval) → Among v vs → linked vs v.to v.from ≡ true
unfolding linked
joined_of_Among v [] (j, at) = absurd (ground arith)
joined_of_Among v (u ∷ vs) (zero, at) = let e = some-inj at in ground arith
joined_of_Among v (u ∷ vs) (suc j, at) = ground (arith, joined_of_Among v vs (j, at))

-- A step, or a loop, of the relaxation: it keeps the size and every zero.
record Relaxed (old new : List ℕ) : Type 0 where
  size : length new ≡ length old
  zeros : (b : ℕ) → ZeroAt old b → ZeroAt new b

Relaxed-refl : (xs : List ℕ) → Relaxed xs xs
Relaxed-refl xs = record { size = refl; zeros = λ b z. z }

Relaxed-trans : (xs ys zs : List ℕ) → Relaxed xs ys → Relaxed ys zs → Relaxed xs zs
Relaxed-trans xs ys zs p q = record {
  size = q.size ∙ p.size;
  zeros = λ b z. q.zeros b (p.zeros b z);
}

ends_fit_of :
    (vs : List PhraseInterval)
    → ((v : PhraseInterval) → Among v vs → v.from ≤ 50)
    → ((v : PhraseInterval) → Among v vs → v.to ≤ 50)
    → ends_fit vs ≡ true
unfolding ends_fit
ends_fit_of [] from_fits to_fits = refl
ends_fit_of (v ∷ vs) from_fits to_fits =
    let rest =
      ends_fit_of vs (λ u m. from_fits u (suc m.0, m.1)) (λ u m. to_fits u (suc m.0, m.1)) in
    ground (arith, rest, from_fits v (0, refl), to_fits v (0, refl))

module _ (vs : List PhraseInterval) (a : ℕ) where
  set-Relaxed :
      (left : List ℕ) (x y : ℕ) → get_elem? left a ≡ some y → x < y → Relaxed left (set left a x)
  set-Relaxed left x y at lt = record {
    size = length-set left a x;
    zeros = λ b z. elim (eq_or_ne a b) [
      | inl e ↦
          absurd (let same = some-inj (sym at ∙ ap (get_elem? left) e ∙ z) in omega (arith, same))
      | inr ne ↦ get_elem?-set_ne left a b x ne ∙ z
    ];
  }

  -- The zero of a linked place comes over.
  abbrev After : ℕ → List ℕ → List ℕ → Type 0
  After i left next = Relaxed left next × (linked vs a i ≡ true → ZeroAt left i → ZeroAt next a)

  relax_lem :
      (i : ℕ) (left : List ℕ)
      → a < length left
      → i < length left
      → (next : List ℕ) × (relax vs a i left ≡ some next) × After i left next
  unfolding relax
  relax_lem i left lt_a lt_i =
      let (x, at_i) = get_elem?-total left i lt_i in
      let (y, at_a) = get_elem?-total left a lt_a in
      (
        if linked vs a i && ltb x y then set left a x else left,
        rw (at_i, ◌>>=◌, at_a) refl,
        if-intro (After i left) (linked vs a i && ltb x y)
            (λ c. (
              set-Relaxed left x y at_a (ground arith),
              λ j z.
                  let e : x ≡ 0 = some-inj (sym at_i ∙ z) in
                  get_elem?-set_self left a x lt_a ∙ ap some e,
            ))
            (λ c. (
              Relaxed-refl left,
              λ j z.
                  let e : x ≡ 0 = some-inj (sym at_i ∙ z) in
                  let e' : y ≡ 0 = ground arith in at_a ∙ ap some e',
            )),
      )

  relax_loop_lem :
      (count i : ℕ) (left : List ℕ)
      → a < length left
      → i + count ≤ length left
      → (next : List ℕ) × (relax_loop vs a count i left ≡ some next)
        × Relaxed left next
        × ((k : ℕ) → i ≤ k → k < i + count → linked vs a k ≡ true → ZeroAt left k → ZeroAt next a)
  unfolding relax_loop
  relax_loop_lem zero i left lt_a le =
      (left, refl, Relaxed-refl left, λ k lo hi j z. absurd (omega arith))
  relax_loop_lem (suc count) i left lt_a le =
      let (mid, stepped, (kept, over)) = relax_lem i left lt_a (omega arith) in
      let (next, looped, kept', over') =
        relax_loop_lem count (i + 1) mid (omega (arith, kept.size)) (omega (arith, kept.size)) in
      (
        next,
        rw (stepped, ◌>>=◌) looped,
        Relaxed-trans left mid next kept kept',
        λ k lo hi j z. elim (eq_or_ne i k) [
          | inl e ↦
              kept'.zeros a
                (over (subst (λ x. linked vs a x ≡ true) (sym e) j) (subst (ZeroAt left) (sym e) z))
          | inr ne ↦ over' k (omega arith) (omega arith) j (kept.zeros k z)
        ],
      )

module _ (vs : List PhraseInterval) (len : ℕ)
    (nonempty : (v : PhraseInterval) → Among v vs → v.from < v.to) where
  -- Before the round of `k`.
  record Lefts (k : ℕ) (left : List ℕ) : Type 0 where
    size : length left ≡ suc len
    first : ZeroAt left 0
    done : (b : ℕ) → b < k → Reach vs b → ZeroAt left b

  reached-ZeroAt :
      (k : ℕ) (left next : List ℕ)
      → k ≤ len
      → Lefts k left
      → Relaxed left next
      → ((i : ℕ) → i < suc len → linked vs k i ≡ true → ZeroAt left i → ZeroAt next k)
      → Reach vs k
      → ZeroAt next k
  reached-ZeroAt k left next le inv kept over start = kept.zeros 0 inv.first
  reached-ZeroAt k left next le inv kept over (by j {v} at e r) =
      let lt = nonempty v (j, at) in
      over v.from (omega (arith, e, lt))
        (subst (λ x. linked vs x v.from ≡ true) e (joined_of_Among v vs (j, at)))
        (inv.done v.from (omega (arith, e, lt)) r)

  leftmost_loop-Lefts :
      (count k : ℕ) (left : List ℕ)
      → k + count ≡ suc len
      → Lefts k left
      → (last : List ℕ) × (leftmost_loop vs len count k left ≡ some last) × Lefts (suc len) last
  unfolding leftmost_loop
  leftmost_loop-Lefts zero k left e inv =
      (left, refl, subst (λ x. Lefts x left) (omega (arith, e)) inv)
  leftmost_loop-Lefts (suc count) k left e inv =
      let (next, looped, kept, over) =
        relax_loop_lem vs k (suc len) 0 left (omega (arith, e, inv.size))
          (omega (arith, inv.size)) in
      let inv' : Lefts (k + 1) next = record {
        size = kept.size ∙ inv.size;
        first = kept.zeros 0 inv.first;
        done = λ b lt r. elim (eq_or_ne k b) [
          | inl same ↦ subst (ZeroAt next) same (
              reached-ZeroAt k left next (omega (arith, e)) inv kept
                (λ i lt_i. over i (omega arith) (omega arith)) (subst (Reach vs) (sym same) r))
          | inr ne ↦ kept.zeros b (inv.done b (omega (arith, ne)) r)
        ];
      } in
      let (last, looped', end_) = leftmost_loop-Lefts count (k + 1) next (omega (arith, e)) inv' in
      (last, rw (looped, ◌>>=◌) looped', end_)

  length-places : (count i : ℕ) → length (places count i) ≡ count
  unfolding places
  length-places zero i = refl
  length-places (suc count) i = ap suc (length-places count (i + 1))

  -- What SetInfo gives, for intervals of one or more phones within the 51 places.
  pub set_info-ZeroAt :
      len ≤ 50
      → ((v : PhraseInterval) → Among v vs → v.to ≤ 50)
      → (left : List ℕ) × (set_info len vs ≡ some left)
        × (length left ≡ suc len)
        × ((b : ℕ) → b ≤ len → Reach vs b → ZeroAt left b)
  unfolding set_info places
  set_info-ZeroAt small inside =
      let fit : ends_fit vs ≡ true =
        ends_fit_of vs (λ v m. (let lt = nonempty v m in omega (arith, lt, inside v m))) inside in
      let room : (leb len 50 && ends_fit vs) ≡ true = ground arith in
      let (left, looped, l) =
        leftmost_loop-Lefts (suc len) 0 (places (suc len) 0) (omega arith) (record {
          size = length-places (suc len) 0;
          first = refl;
          done = λ b lt r. absurd (omega arith);
        }) in
      (left, rw (room, ◌>>◌, ◌>>=◌) looped, l.size, λ b le r. l.done b (omega arith) r)
