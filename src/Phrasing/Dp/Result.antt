-- ===== src/Phrasing/Dp/Result.antt =====
-- What DoDpPhrasing of src/tree.c gives the rest of the phrasing.
use mathlib.Core.List.{Perm}
use libchewing.Common.{
  ℕ, zero, suc, ◌≤◌, ◌<◌, ◌≡◌, ◌⊎◌, inl, inr, refl, subst, Option, none, some, List, [], length,
  replicate, get_elem?, ◌>>=◌, arith, All, All-at, lt_of_get_elem?, get_elem?-total,
}
use libchewing.Phrasing.{PhraseInterval}
use libchewing.Phrasing.Dp.{RecordNode, sort_by_end, null_record, final_record, do_dp_phrasing}
use libchewing.Phrasing.Dp.Tiles.{
  Chain, Reach, start, by, Reach-inv, DpInv, Phrasable, dp_loop-DpInv,
}
use libchewing.Phrasing.Dp.Sorting.{
  Among, le_of_Ascending, sort_by_end-Ascending, sort_by_end-perm, All-sort_by_end,
  Among-sort_by_end,
}

pub Reach-mono :
    (xs ys : List PhraseInterval)
    → ((v : PhraseInterval) → Among v xs → Among v ys)
    → {b : ℕ} → Reach xs b
    → Reach ys b
Reach-mono xs ys f start = start
Reach-mono xs ys f (by j {v} at e r) =
    let (k, at') = f v (j, at) in by k at' e (Reach-mono xs ys f r)

-- What the chosen row is.
pub record Phrased (n : ℕ) (intervals : List PhraseInterval) : Type 0 where
  pub sorted : List PhraseInterval
  pub best : RecordNode
  pub returned : do_dp_phrasing n intervals ≡ some (sorted, best)
  pub rearranged : Perm sorted intervals
  pub row : Chain sorted best.arr_index 0 n ⊎ ((best.arr_index ≡ []) × ¬ Reach intervals n)

module _ (intervals : List PhraseInterval) where
  abbrev sorted_intervals : List PhraseInterval
  sorted_intervals = sort_by_end intervals

  Reach-sorted : {b : ℕ} → Reach intervals b → Reach sorted_intervals b
  Reach-sorted r = Reach-mono intervals sorted_intervals (λ v. Among-sort_by_end v intervals) r

  -- The record of the last slot, and that it is there if intervals lead to the end.
  final-row :
      (n : ℕ) (highest : List (Option RecordNode))
      → n ≤ 50
      → DpInv sorted_intervals (length sorted_intervals) highest
      → (best : RecordNode) × (final_record n highest ≡ some best)
        × (Chain sorted_intervals best.arr_index 0 n
            ⊎ ((best.arr_index ≡ []) × ¬ Reach intervals n))
  unfolding final_record
  final-row zero highest le inv = (null_record, refl, inl refl)
  final-row (suc n) highest le inv =
      let (slot, at) = get_elem?-total highest n (omega (arith, inv.size)) in at_slot slot at
    where
      unreached : get_elem? highest n ≡ some none → ¬ Reach intervals (suc n)
      unreached at r = elim (Reach-inv sorted_intervals (Reach-sorted r)) [
        | inl e ↦ absurd (omega (arith, e))
        | inr (j, u, at_u, e) ↦
            let (best, full) = inv.filled j u (lt_of_get_elem? sorted_intervals j at_u) at_u in
            let slot : get_elem? highest n ≡ some (some best) =
              subst (λ x. get_elem? highest x ≡ some (some best)) (omega (arith, e)) full in
            absurd (ground arith)
      ]

      at_slot :
          (slot : Option RecordNode)
          → get_elem? highest n ≡ some slot
          → (best : RecordNode) × ((do
            slot ← get_elem? highest n
            elim slot [ none ↦ some null_record | some best ↦ some best ])
              ≡ some best)
            × (Chain sorted_intervals best.arr_index 0 (suc n)
                ⊎ ((best.arr_index ≡ []) × ¬ Reach intervals (suc n)))
      at_slot none at = (null_record, rw (at, ◌>>=◌) refl, inr (refl, unreached at))
      at_slot (some best) at = (best, rw (at, ◌>>=◌) refl, inl (inv.tiled n best at))

  empty_slots : DpInv sorted_intervals 0 (replicate 50 none)
  empty_slots = record {
    size = refl;
    tiled = λ e r slot. absurd (no_record 50 e r slot);
    filled = λ j v lt at. absurd (omega arith);
  }
    where
      no_record :
          (n e : ℕ) (r : RecordNode)
          → ¬ (get_elem? {A = Option RecordNode} (replicate n none) e ≡ some (some r))
      no_record zero e r h = ground arith
      no_record (suc n) zero r h = ground arith
      no_record (suc n) (suc e) r h = no_record n e r h

  -- For at most 50 phones, and intervals of one or more phones in the first 50 that each start where
  -- a row of the intervals from the first phone ends, `DoDpPhrasing` meets no NULL pointer, and
  -- chooses a row of intervals that covers all phones without gap or overlap; it chooses the empty
  -- row only when there is no phone or no row covers them.
  pub do_dp_phrasing-Phrased :
      (n : ℕ)
      → n ≤ 50
      → All (λ v. (v.from < v.to) × (v.to ≤ 50)) intervals
      → All (λ v. Reach intervals v.from) intervals
      → Phrased n intervals
  unfolding do_dp_phrasing
  do_dp_phrasing-Phrased n le bounds reached =
      let bounds' = All-sort_by_end (λ v. (v.from < v.to) × (v.to ≤ 50)) intervals bounds in
      let reached' = All-sort_by_end (λ v. Reach intervals v.from) intervals reached in
      let w : Phrasable sorted_intervals = record {
        bounds =
            λ j v at. All-at (λ v. (v.from < v.to) × (v.to ≤ 50)) sorted_intervals j bounds' at;
        sorted = le_of_Ascending sorted_intervals (sort_by_end-Ascending intervals);
        reached = λ j v at.
            Reach-sorted (All-at (λ v. Reach intervals v.from) sorted_intervals j reached' at);
      } in
      let (last, looped, inv) =
        dp_loop-DpInv sorted_intervals w (length sorted_intervals) 0 (replicate 50 none)
          (omega arith) empty_slots in
      let (best, chosen, row) = final-row n last le inv in
      record {
        sorted = sorted_intervals;
        best = best;
        returned = rw (looped, ◌>>=◌, chosen) refl;
        rearranged = sort_by_end-perm intervals;
        row = row;
      }
