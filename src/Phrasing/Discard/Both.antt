-- ===== src/Phrasing/Discard/Both.antt =====
-- What is left of the intervals after Discard1 and Discard2 of src/tree.c.
use libchewing.Common.{
  ℕ, zero, suc, ◌+◌, ◌≤◌, ◌<◌, ◌≡◌, refl, ap, Bool, true, false, some, List, [], ◌∷◌, length, ◌>>=◌,
  arith, some-inj,
}
use libchewing.Phrasing.{PhraseInterval, phrase_interval_contain}
use libchewing.Phrasing.Discard.{unflagged, kept, discard1, discard2_loop, discard2}
use libchewing.Phrasing.Discard.Kept.{Items, Live, Led, origin, via, Led-mono}
use libchewing.Phrasing.Discard.Leftmost.{ZeroAt}
use libchewing.Phrasing.Discard.Preserved.{discard1_loop-Preserved}
use libchewing.Phrasing.Dp.Sorting.{Among}
use libchewing.Phrasing.Dp.Tiles.{Reach, start, by}

Among-later : (u v : PhraseInterval) (vs : List PhraseInterval) → Among v vs → Among v (u ∷ vs)
Among-later u v vs (j, at) = (suc j, at)

kept-Among : (items : Items) (v : PhraseInterval) → Live items v → Among v (kept items)
unfolding kept
kept-Among [] v (j, at) = absurd (ground arith)
kept-Among ((u, f) ∷ items) v (zero, at) =
    let same : u ≡ v = ap (λ p. p.0) (some-inj at) in
    let live : f ≡ false = ap (λ p. p.1) (some-inj at) in rw live (0, ap some same)
kept-Among ((u, true) ∷ items) v (suc j, at) = kept-Among items v (j, at)
kept-Among ((u, false) ∷ items) v (suc j, at) =
    Among-later u v (kept items) (kept-Among items v (j, at))

Live-later :
    (i : PhraseInterval × Bool) (v : PhraseInterval) (items : Items)
    → Live items v
    → Live (i ∷ items) v
Live-later i v items (j, at) = (suc j, at)

Live-of_kept : (items : Items) (v : PhraseInterval) → Among v (kept items) → Live items v
unfolding kept
Live-of_kept [] v (j, at) = absurd (ground arith)
Live-of_kept ((u, true) ∷ items) v m = Live-later (u, true) v items (Live-of_kept items v m)
Live-of_kept ((u, false) ∷ items) v (zero, at) =
    let same : u ≡ v = some-inj at in (0, ap (λ w. some (w, false)) same)
Live-of_kept ((u, false) ∷ items) v (suc j, at) =
    Live-later (u, false) v items (Live-of_kept items v (j, at))

Live-of_Among : (vs : List PhraseInterval) (v : PhraseInterval) → Among v vs → Live (unflagged vs) v
Live-of_Among [] v (j, at) = absurd (ground arith)
Live-of_Among (u ∷ vs) v (zero, at) =
    let same : u ≡ v = some-inj at in (0, ap (λ w. some (w, false)) same)
Live-of_Among (u ∷ vs) v (suc j, at) =
    Live-later (u, false) v (unflagged vs) (Live-of_Among vs v (j, at))

Among-of_Live : (vs : List PhraseInterval) (v : PhraseInterval) → Live (unflagged vs) v → Among v vs
Among-of_Live [] v (j, at) = absurd (ground arith)
Among-of_Live (u ∷ vs) v (zero, at) =
    let same : u ≡ v = ap (λ p. p.0) (some-inj at) in (0, ap some same)
Among-of_Live (u ∷ vs) v (suc j, at) = Among-later u v vs (Among-of_Live vs v (j, at))

Led-of_Reach : (vs : List PhraseInterval) {b : ℕ} → Reach vs b → Led (λ v. Among v vs) b
Led-of_Reach vs start = origin
Led-of_Reach vs (by j at e r) = via (j, at) e (Led-of_Reach vs r)

Reach-of_Led : (vs : List PhraseInterval) {b : ℕ} → Led (λ v. Among v vs) b → Reach vs b
Reach-of_Led vs origin = start
Reach-of_Led vs (via m e l) = by m.0 m.1 e (Reach-of_Led vs l)

-- What the discarding makes of the intervals.
pub record Lossless (n : ℕ) (old new : List PhraseInterval) : Type 0 where
  pub among : (u : PhraseInterval) → Among u new → Among u old
  pub end_reached : Reach old n → Reach new n
  pub starts_reached : (u : PhraseInterval) → Among u new → Reach old u.from → Reach new u.from
  pub covered :
      (u : PhraseInterval)
      → Among u old
      → (w : PhraseInterval) × Among w new × (phrase_interval_contain w u ≡ true)

length-unflagged : (vs : List PhraseInterval) → length (unflagged vs) ≡ length vs
length-unflagged [] = refl
length-unflagged (v ∷ vs) = ap suc (length-unflagged vs)

pub discard1-Lossless :
    (n : ℕ) (vs : List PhraseInterval)
    → ((u : PhraseInterval) → Among u vs → (u.from < u.to) × (u.to ≤ n))
    → (ws : List PhraseInterval) × (discard1 vs ≡ some ws) × Lossless n vs ws
unfolding discard1
discard1-Lossless n vs bounds =
    let (last, looped, p) =
      discard1_loop-Preserved n (length vs) 0 (unflagged vs) (omega (arith, length-unflagged vs))
        (λ u l. bounds u (Among-of_Live vs u l)) in
    let back = λ (b : ℕ) (l : Led (Live last) b).
      Reach-of_Led (kept last)
        (Led-mono (Live last) (λ v. Among v (kept last)) (kept-Among last) l) in
    let forth = λ (b : ℕ) (r : Reach vs b).
      Led-mono (λ v. Among v vs) (Live (unflagged vs)) (Live-of_Among vs) (Led-of_Reach vs r) in
    (
      kept last,
      rw (looped, ◌>>=◌) refl,
      record {
        among = λ u m. Among-of_Live vs u (p.still u (Live-of_kept last u m));
        end_reached = λ r. back n (p.end_led (forth n r));
        starts_reached =
            λ u m r. back u.from (p.starts_led u (Live-of_kept last u m) (forth u.from r));
        covered = λ u m.
            let (w, l, c) = p.covered u (Live-of_Among vs u m) in (w, kept-Among last w l, c);
      },
    )

-- Discard2 keeps intervals whose starts are marked as reached.
discard2_loop-Live :
    (left : List ℕ) (all : List PhraseInterval) (i : ℕ) (vs : List PhraseInterval)
    → ((u : PhraseInterval) → Among u vs → ZeroAt left u.from)
    → discard2_loop left all i vs ≡ some (unflagged vs)
unfolding discard2_loop
discard2_loop-Live left all i [] zeros = refl
discard2_loop-Live left all i (v ∷ vs) zeros =
    let here = zeros v (0, refl) in
    let rest = discard2_loop-Live left all (i + 1) vs (λ u m. zeros u (Among-later v u vs m)) in
    rw (here, ◌>>=◌, rest) refl

kept-unflagged : (vs : List PhraseInterval) → kept (unflagged vs) ≡ vs
unfolding kept
kept-unflagged [] = refl
kept-unflagged (v ∷ vs) = ap (λ l. v ∷ l) (kept-unflagged vs)

pub discard2-eq :
    (left : List ℕ) (vs : List PhraseInterval)
    → ((u : PhraseInterval) → Among u vs → ZeroAt left u.from)
    → discard2 left vs ≡ some vs
unfolding discard2
discard2-eq left vs zeros =
    rw (discard2_loop-Live left vs 0 vs zeros, ◌>>=◌, kept-unflagged vs) refl
