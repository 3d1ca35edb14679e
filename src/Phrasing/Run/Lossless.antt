-- ===== src/Phrasing/Run/Lossless.antt =====
-- The choice of the best record in Phrasing of src/tree.c, from the intervals that are found on.
use libchewing.Common.{ℕ, ◌≤◌, ◌<◌, ◌≡◌, refl, some, List, ◌>>=◌, arith}
use libchewing.Phrasing.{PhraseInterval}
use libchewing.Phrasing.Discard.Both.{Lossless, discard1-Lossless, discard2-eq}
use libchewing.Phrasing.Discard.Leftmost.{set_info-ZeroAt}
use libchewing.Phrasing.Dp.Sorting.{Among}
use libchewing.Phrasing.Dp.Tiles.{Reach}
use libchewing.Phrasing.Run.{useful_intervals}

-- Intervals within the first `n` phones that each start where a row of them from the start ends.
pub record Connected (n : ℕ) (found : List PhraseInterval) : Type 0 where
  pub bounds : (u : PhraseInterval) → Among u found → (u.from < u.to) × (u.to ≤ n)
  pub reached : (u : PhraseInterval) → Among u found → Reach found u.from

-- For at most 50 phones and found intervals that are connected, SetInfo, Discard1 and Discard2 meet no fault, leave some of
-- the intervals, a connected set again, that contain every one that is left out; and if a row of the
-- found intervals covers all phones, so does a row of those that are left.
pub useful_intervals-Lossless :
    (n : ℕ) (found : List PhraseInterval)
    → n ≤ 50
    → Connected n found
    → (ivs : List PhraseInterval) × (useful_intervals n found ≡ some ivs)
      × Lossless n found ivs
      × Connected n ivs
unfolding useful_intervals
useful_intervals-Lossless n found small c =
    let (left, set, _, zeros) =
      set_info-ZeroAt found n (λ v m. (c.bounds v m).0) small
        (λ v m. (let inside = (c.bounds v m).1 in omega arith)) in
    let (ivs, discarded, l) = discard1-Lossless n found c.bounds in
    let all_kept = discard2-eq left ivs (λ u m.
      let (nonempty, inside) = c.bounds u (l.among u m) in
      zeros u.from (omega arith) (c.reached u (l.among u m))) in
    (
      ivs,
      rw (set, ◌>>=◌, discarded, all_kept) refl,
      l,
      record {
        bounds = λ u m. c.bounds u (l.among u m);
        reached = λ u m. l.starts_reached u m (c.reached u (l.among u m));
      },
    )
