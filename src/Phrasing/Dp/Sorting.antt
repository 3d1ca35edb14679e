-- ===== src/Phrasing/Dp/Sorting.antt =====
-- The order that DoDpPhrasing of src/tree.c sorts the intervals into.
use mathlib.Core.List.Perm
use mathlib.Core.List.{Perm}
use libchewing.Common.{
  ℕ, zero, suc, ◌≤◌, ◌≡◌, refl, ◌∙◌, some, List, [], ◌∷◌, get_elem?, leb, arith, All, All-at,
  All-map, if-intro, leb→le, some-inj, sym, subst,
}
use libchewing.Phrasing.{PhraseInterval}
use libchewing.Phrasing.Dp.{insert_by_end, sort_by_end}

-- The ends do not fall.
abbrev pub Ascending : List PhraseInterval → Type 0
Ascending [] = Unit
Ascending (v ∷ vs) = All (λ u. v.to ≤ u.to) vs × Ascending vs

abbrev pub Among : PhraseInterval → List PhraseInterval → Type 0
Among v vs = (j : ℕ) × (get_elem? vs j ≡ some v)

later : (u v : PhraseInterval) (vs : List PhraseInterval) → Among v vs → Among v (u ∷ vs)
later u v vs (j, at) = (suc j, at)

module _ {κ} (P : PhraseInterval → Type κ) where
  All-insert_by_end :
      (v : PhraseInterval) (us : List PhraseInterval) → P v → All P us → All P (insert_by_end v us)
  unfolding insert_by_end
  All-insert_by_end v [] h hs = (h, tt)
  All-insert_by_end v (u ∷ us) h hs =
      if-intro (All P) (leb v.to u.to) (λ _. (h, hs)) (λ _. (hs.0, All-insert_by_end v us h hs.1))

  pub All-sort_by_end : (vs : List PhraseInterval) → All P vs → All P (sort_by_end vs)
  unfolding sort_by_end
  All-sort_by_end [] h = tt
  All-sort_by_end (v ∷ vs) h = All-insert_by_end v (sort_by_end vs) h.0 (All-sort_by_end vs h.1)

insert_by_end-Ascending :
    (v : PhraseInterval) (us : List PhraseInterval) → Ascending us → Ascending (insert_by_end v us)
unfolding insert_by_end
insert_by_end-Ascending v [] h = (tt, tt)
insert_by_end-Ascending v (u ∷ us) h =
    if-intro Ascending (leb v.to u.to)
      (λ c.
        let le : v.to ≤ u.to = leb→le v.to u.to c in
        ((le, All-map _ _ us (λ w k. omega arith) h.0), h))
      (λ c. (
        All-insert_by_end (λ w. u.to ≤ w.to) v us (ground arith) h.0,
        insert_by_end-Ascending v us h.1,
      ))

pub sort_by_end-Ascending : (vs : List PhraseInterval) → Ascending (sort_by_end vs)
unfolding sort_by_end
sort_by_end-Ascending [] = tt
sort_by_end-Ascending (v ∷ vs) =
    insert_by_end-Ascending v (sort_by_end vs) (sort_by_end-Ascending vs)

pub le_of_Ascending :
    (vs : List PhraseInterval)
    → Ascending vs
    → (i j : ℕ) (u v : PhraseInterval) → i ≤ j
    → get_elem? vs i ≡ some u
    → get_elem? vs j ≡ some v
    → u.to ≤ v.to
le_of_Ascending [] h i j u v le at_u at_v = absurd (ground arith)
le_of_Ascending (w ∷ vs) h zero zero u v le at_u at_v =
    let e = some-inj (sym at_u) in
    subst (λ x. PhraseInterval.to u ≤ PhraseInterval.to x) (e ∙ some-inj at_v) (omega arith)
le_of_Ascending (w ∷ vs) h zero (suc j) u v le at_u at_v =
    subst (λ x. PhraseInterval.to x ≤ v.to) (some-inj at_u)
      (All-at (λ x. w.to ≤ PhraseInterval.to x) vs j h.0 at_v)
le_of_Ascending (w ∷ vs) h (suc i) zero u v le at_u at_v = absurd (omega arith)
le_of_Ascending (w ∷ vs) h (suc i) (suc j) u v le at_u at_v =
    le_of_Ascending vs h.1 i j u v (omega arith) at_u at_v

insert_by_end-perm :
    (v : PhraseInterval) (us : List PhraseInterval) → Perm (insert_by_end v us) (v ∷ us)
unfolding insert_by_end
insert_by_end-perm v [] = Perm.refl (v ∷ [])
insert_by_end-perm v (u ∷ us) =
    if-intro (λ l. Perm l (v ∷ u ∷ us)) (leb v.to u.to) (λ _. Perm.refl (v ∷ u ∷ us))
      (λ _. Perm.trans (Perm.cons u (insert_by_end-perm v us)) (Perm.swap v u us))

pub sort_by_end-perm : (vs : List PhraseInterval) → Perm (sort_by_end vs) vs
unfolding sort_by_end
sort_by_end-perm [] = Perm.refl []
sort_by_end-perm (v ∷ vs) =
    Perm.trans (insert_by_end-perm v (sort_by_end vs)) (Perm.cons v (sort_by_end-perm vs))

insert_by_end-first : (v : PhraseInterval) (us : List PhraseInterval) → Among v (insert_by_end v us)
unfolding insert_by_end
insert_by_end-first v [] = (0, refl)
insert_by_end-first v (u ∷ us) =
    if-intro (Among v) (leb v.to u.to) (λ _. (0, refl))
      (λ _. later u v (insert_by_end v us) (insert_by_end-first v us))

insert_by_end-others :
    (v w : PhraseInterval) (us : List PhraseInterval) → Among w us → Among w (insert_by_end v us)
unfolding insert_by_end
insert_by_end-others v w [] (j, at) = absurd (ground arith)
insert_by_end-others v w (u ∷ us) (zero, at) =
    if-intro (Among w) (leb v.to u.to) (λ _. (1, at)) (λ _. (0, at))
insert_by_end-others v w (u ∷ us) (suc j, at) =
    if-intro (Among w) (leb v.to u.to) (λ _. (suc (suc j), at))
      (λ _. later u w (insert_by_end v us) (insert_by_end-others v w us (j, at)))

pub Among-sort_by_end :
    (v : PhraseInterval) (vs : List PhraseInterval) → Among v vs → Among v (sort_by_end vs)
unfolding sort_by_end
Among-sort_by_end v [] (j, at) = absurd (ground arith)
Among-sort_by_end v (w ∷ vs) (zero, at) =
    subst (λ x. Among x (insert_by_end w (sort_by_end vs))) (some-inj at)
      (insert_by_end-first w (sort_by_end vs))
Among-sort_by_end v (w ∷ vs) (suc j, at) =
    insert_by_end-others w v (sort_by_end vs) (Among-sort_by_end v vs (j, at))
