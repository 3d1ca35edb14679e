-- ===== src/Phrasing/Dp/Tiles.antt =====
-- The record that DoDpPhrasing of src/tree.c chooses covers the phones without gap or overlap.
use libchewing.Common.{
  ℕ, zero, suc, ◌+◌, ◌-◌, ◌*◌, ◌/◌, ◌≤◌, ◌<◌, ◌≡◌, ◌≢◌, ◌⊎◌, inl, inr, refl, ap, sym, subst, ◌∙◌,
  Option, none, some, List, [], ◌∷◌, ◌++◌, length, set, get_elem?, if◌then◌else◌, ◌>>=◌, ◌>>◌,
  arith, ℤ, >>=-total, length-set, eq_or_ne, some-inj, if-intro, le→leb, get_elem?-set_self,
  get_elem?-set_ne, get_elem?-total, All,
}
use libchewing.Phrasing.{PhraseInterval}
use libchewing.Phrasing.Score.{
  rule_largest_sum, rule_largest_avgwordlen, differences, lenvariance, rule_largest_freqsum,
  load_phrase_and_count_score,
}
use libchewing.Phrasing.Dp.{RecordNode, extend_record, improves, extend, dp_step, dp_loop}

-- The intervals with these indices follow one another from `a` to `b`.
abbrev pub Chain : List PhraseInterval → List ℕ → ℕ → ℕ → Type 0
Chain ivs [] a b = a ≡ b
Chain ivs (i ∷ is) a b =
    (v : PhraseInterval) × (get_elem? ivs i ≡ some v) × (v.from ≡ a) × Chain ivs is v.to b

-- A place that intervals lead to from the start.
pub data Reach (ivs : List PhraseInterval) : ℕ → Type 0 where
  start : Reach ivs 0
  by :
      (j : ℕ) {v : PhraseInterval} {b : ℕ}
      → get_elem? ivs j ≡ some v
      → v.to ≡ b
      → Reach ivs v.from
      → Reach ivs b

module _ (ivs : List PhraseInterval) where
  abbrev Indexed : ℕ → Type 0
  Indexed i = (v : PhraseInterval) × (get_elem? ivs i ≡ some v)

  Chain-append :
      (is js : List ℕ) (a b c : ℕ) → Chain ivs is a b → Chain ivs js b c → Chain ivs (is ++ js) a c
  Chain-append [] js a b c h k = subst (λ x. Chain ivs js x c) (sym h) k
  Chain-append (i ∷ is) js a b c h k =
      let (v, at, from_eq, rest) = h in (v, at, from_eq, Chain-append is js v.to b c rest k)

  Chain-Indexed : (is : List ℕ) (a b : ℕ) → Chain ivs is a b → All Indexed is
  Chain-Indexed [] a b h = tt
  Chain-Indexed (i ∷ is) a b h =
      let (v, at, from_eq, rest) = h in ((v, at), Chain-Indexed is v.to b rest)

  largest_sum-total : (is : List ℕ) → All Indexed is → (s : ℕ) × (rule_largest_sum ivs is ≡ some s)
  unfolding rule_largest_sum
  largest_sum-total [] h = (0, refl)
  largest_sum-total (i ∷ is) h =
      let (v, at) = h.0 in
      let (s, e) = largest_sum-total is h.1 in ((v.to - v.from) + s, rw (at, ◌>>=◌, e) refl)

  differences-total :
      (len : ℕ) (is : List ℕ) → All Indexed is → (s : ℕ) × (differences ivs len is ≡ some s)
  unfolding differences
  differences-total len [] h = (0, refl)
  differences-total len (i ∷ is) h =
      let (v, at) = h.0 in
      let (s, e) = differences-total len is h.1 in
      >>=-total (get_elem? ivs i) _ at (>>=-total (differences ivs len is) _ e (_, refl))

  lenvariance-total : (is : List ℕ) → All Indexed is → (s : ℕ) × (lenvariance ivs is ≡ some s)
  unfolding lenvariance
  lenvariance-total [] h = (0, refl)
  lenvariance-total (i ∷ is) h =
      let (v, at) = h.0 in
      let (row, r) = differences-total (v.to - v.from) is h.1 in
      let (s, e) = lenvariance-total is h.1 in (row + s, rw (at, ◌>>=◌, r, e) refl)

  freqsum-total : (is : List ℕ) → All Indexed is → (s : ℕ) × (rule_largest_freqsum ivs is ≡ some s)
  unfolding rule_largest_freqsum
  freqsum-total [] h = (0, refl)
  freqsum-total (i ∷ is) h =
      let (v, at) = h.0 in
      let (s, e) = freqsum-total is h.1 in
      >>=-total (get_elem? ivs i) _ at (>>=-total (rule_largest_freqsum ivs is) _ e (_, refl))

  score-total :
      (is : List ℕ) → All Indexed is → (s : ℤ) × (load_phrase_and_count_score ivs is ≡ some s)
  unfolding load_phrase_and_count_score rule_largest_avgwordlen
  score-total [] h = (_, refl)
  score-total (i ∷ is) h =
      let (sum, e1) = largest_sum-total (i ∷ is) h in
      let (variance, e2) = lenvariance-total (i ∷ is) h in
      let (freq, e3) = freqsum-total (i ∷ is) h in
      let avg : rule_largest_avgwordlen ivs (i ∷ is) ≡ some (6 * sum / length (i ∷ is)) =
        rw (e1, ◌>>=◌) refl in
      >>=-total (rule_largest_sum ivs (i ∷ is)) _ e1 (
        >>=-total (rule_largest_avgwordlen ivs (i ∷ is)) _ avg (
          >>=-total (lenvariance ivs (i ∷ is)) _ e2
            (>>=-total (rule_largest_freqsum ivs (i ∷ is)) _ e3 (_, refl))))

  -- A row that is extended by an interval that starts where it ends.
  extend_record-Chain :
      (before : List ℕ) (id b : ℕ) (v : PhraseInterval)
      → Chain ivs before 0 b
      → get_elem? ivs id ≡ some v
      → v.from ≡ b
      → (r : RecordNode) × (extend_record before ivs id ≡ some r) × Chain ivs r.arr_index 0 v.to
  unfolding extend_record
  extend_record-Chain before id b v c at e =
      let longer : Chain ivs (before ++ id ∷ []) 0 v.to =
        Chain-append before (id ∷ []) 0 b v.to c (v, at, e, refl) in
      let (s, scored) =
        score-total (before ++ id ∷ []) (Chain-Indexed (before ++ id ∷ []) 0 v.to longer) in
      (
        record { arr_index = before ++ id ∷ []; score = s; n_match_cnnct = 0 },
        rw (scored, ◌>>=◌) refl,
        longer,
      )

  -- After `k` intervals: what a slot holds, and which slots hold something.
  pub record DpInv (k : ℕ) (highest : List (Option RecordNode)) : Type 0 where
    pub size : length highest ≡ 50
    pub tiled :
        (e : ℕ) (r : RecordNode)
        → get_elem? highest e ≡ some (some r)
        → Chain ivs r.arr_index 0 (suc e)
    pub filled :
        (j : ℕ) (v : PhraseInterval)
        → j < k
        → get_elem? ivs j ≡ some v
        → (r : RecordNode) × (get_elem? highest (v.to - 1) ≡ some (some r))

  -- What the intervals of a phrasing satisfy.
  pub record Phrasable : Type 0 where
    pub bounds :
        (j : ℕ) (v : PhraseInterval) → get_elem? ivs j ≡ some v → (v.from < v.to) × (v.to ≤ 50)
    pub sorted :
        (i j : ℕ) (u v : PhraseInterval)
        → i ≤ j
        → get_elem? ivs i ≡ some u
        → get_elem? ivs j ≡ some v
        → u.to ≤ v.to
    pub reached : (j : ℕ) (v : PhraseInterval) → get_elem? ivs j ≡ some v → Reach ivs v.from

  pub Reach-inv :
      {b : ℕ}
      → Reach ivs b
      → (b ≡ 0) ⊎ ((j : ℕ) × (u : PhraseInterval) × (get_elem? ivs j ≡ some u) × (u.to ≡ b))
  Reach-inv start = inl refl
  Reach-inv (by j {v} at e r) = inr (j, v, at, e)

  module _ (w : Phrasable) (k : ℕ) (highest : List (Option RecordNode)) (inv : DpInv k highest)
      (v : PhraseInterval) (at : get_elem? ivs k ≡ some v) where
    extend_from :
        1 ≤ v.from
        → (j : ℕ) (u : PhraseInterval) → get_elem? ivs j ≡ some u
        → u.to ≡ v.from
        → (r : RecordNode) × (extend ivs highest k v ≡ some r) × Chain ivs r.arr_index 0 v.to
    unfolding extend
    extend_from pos j u at_u e =
        let later : ¬ (k ≤ j) = λ le. omega (arith, w.sorted k j v u le at at_u, w.bounds k v at) in
        let (best, slot) = inv.filled j u (omega (arith, later)) at_u in
        let slot' : get_elem? highest (v.from - 1) ≡ some (some best) =
          subst (λ x. get_elem? highest (x - 1) ≡ some (some best)) e slot in
        let tiled = inv.tiled (v.from - 1) best slot' in
        let (r, made, c) =
          extend_record-Chain best.arr_index k (suc (v.from - 1)) v tiled at (omega arith) in
        (r, rw (le→leb 1 v.from pos, slot', ◌>>=◌) made, c)

    extend-Chain :
        (r : RecordNode) × (extend ivs highest k v ≡ some r) × Chain ivs r.arr_index 0 v.to
    unfolding extend
    extend-Chain = elim (Reach-inv (w.reached k v at)) [
      | inl zero_from ↦
          let (r, made, c) = extend_record-Chain [] k 0 v refl at zero_from in
          (r, rw zero_from made, c)
      | inr (j, u, at_u, e) ↦ extend_from (omega (arith, e, (w.bounds j u at_u).0)) j u at_u e
    ]

    -- The slot of the interval's end takes a row of intervals to it.
    set-DpInv :
        (r : RecordNode)
        → Chain ivs r.arr_index 0 v.to
        → DpInv (suc k) (set highest (v.to - 1) (some r))
    set-DpInv r c =
        let (lt, le) = w.bounds k v at in
        let here : get_elem? (set highest (v.to - 1) (some r)) (v.to - 1) ≡ some (some r) =
          get_elem?-set_self highest (v.to - 1) (some r) (omega (arith, inv.size)) in
        record {
          size = length-set highest (v.to - 1) (some r) ∙ inv.size;
          tiled = λ e s slot. elim (eq_or_ne (v.to - 1) e) [
            | inl same ↦
                let r_s : r ≡ s = some-inj (
                  some-inj
                    (sym here ∙ ap (get_elem? (set highest (v.to - 1) (some r))) same ∙ slot)) in
                subst (λ x. Chain ivs (RecordNode.arr_index x) 0 (suc e)) r_s
                  (subst (Chain ivs r.arr_index 0) (omega (arith, same)) c)
            | inr ne ↦
                inv.tiled e s (sym (get_elem?-set_ne highest (v.to - 1) e (some r) ne) ∙ slot)
          ];
          filled = λ j u lt_j at_u. elim (eq_or_ne (v.to - 1) (u.to - 1)) [
            | inl same ↦ (r, ap (get_elem? (set highest (v.to - 1) (some r))) (sym same) ∙ here)
            | inr ne ↦
                let other : j ≢ k = λ e. ne (
                  ap (λ x. PhraseInterval.to x - 1)
                    (some-inj (sym at ∙ ap (get_elem? ivs) (sym e) ∙ at_u))) in
                let (s, slot) = inv.filled j u (omega (arith, other)) at_u in
                (s, get_elem?-set_ne highest (v.to - 1) (u.to - 1) (some r) ne ∙ slot)
          ];
        }

    keep-DpInv :
        (old : RecordNode) → get_elem? highest (v.to - 1) ≡ some (some old) → DpInv (suc k) highest
    keep-DpInv old e = record {
      size = inv.size;
      tiled = inv.tiled;
      filled = λ j u lt_j at_u. elim (eq_or_ne j k) [
        | inl same ↦
            let v_u : v ≡ u = some-inj (sym at ∙ ap (get_elem? ivs) (sym same) ∙ at_u) in
            (old, subst (λ x. get_elem? highest (PhraseInterval.to x - 1) ≡ some (some old)) v_u e)
        | inr ne ↦ inv.filled j u (omega (arith, ne)) at_u
      ];
    }

    -- What the step makes of the slot and the new row.
    abbrev After : Type 0
    After =
        (next : List (Option RecordNode)) × (dp_step ivs k highest ≡ some next) × DpInv (suc k) next

    dp_step-choose :
        (old : Option RecordNode) (r : RecordNode)
        → get_elem? highest (v.to - 1) ≡ some old
        → extend ivs highest k v ≡ some r
        → Chain ivs r.arr_index 0 v.to
        → DpInv (suc k) (if improves old r then set highest (v.to - 1) (some r) else highest)
    dp_step-choose none r slot made c = set-DpInv r c
    dp_step-choose (some old) r slot made c =
        if-intro (DpInv (suc k)) (improves (some old) r) (λ _. set-DpInv r c)
          (λ _. keep-DpInv old slot)

    dp_step-DpInv : After
    unfolding dp_step
    dp_step-DpInv =
        let (r, made, c) = extend-Chain in
        let (lt, le) = w.bounds k v at in
        let (old, slot) = get_elem?-total highest (v.to - 1) (omega (arith, inv.size)) in
        (
          if improves old r then set highest (v.to - 1) (some r) else highest,
          rw (at, ◌>>=◌, le→leb 1 v.to (omega arith), ◌>>◌, made, slot) refl,
          dp_step-choose old r slot made c,
        )

  pub dp_loop-DpInv :
      Phrasable
      → (count k : ℕ) (highest : List (Option RecordNode)) → k + count ≡ length ivs
      → DpInv k highest
      → (last : List (Option RecordNode)) × (dp_loop ivs count k highest ≡ some last)
        × DpInv (length ivs) last
  unfolding dp_loop
  dp_loop-DpInv w zero k highest e inv =
      (highest, refl, subst (λ n. DpInv n highest) (omega (arith, e)) inv)
  dp_loop-DpInv w (suc count) k highest e inv =
      let (v, at) = get_elem?-total ivs k (omega (arith, e)) in
      let (next, stepped, inv') = dp_step-DpInv w k highest inv v at in
      let (last, looped, inv'') =
        dp_loop-DpInv w count (k + 1) next (omega (arith, e))
          (subst (λ n. DpInv n next) (omega arith) inv') in
      (last, rw (stepped, ◌>>=◌) looped, inv'')
