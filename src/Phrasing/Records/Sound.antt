-- ===== src/Phrasing/Records/Sound.antt =====
-- The records that the search of src/tree.c for all phrasings saves.
use libchewing.Common.{
  ℕ, zero, suc, ◌+◌, ◌≤◌, ◌<◌, ◌≡◌, inl, inr, refl, ap, sym, subst, ◌∙◌, Option, none, some, List,
  [], ◌∷◌, ◌++◌, length, drop, get_elem?, ltb, ◌>>=◌, ◌>>◌, lt→ltb, true, arith, All, Option-cases,
  if-intro, lt_of_get_elem?, some-inj, get_elem?-drop,
}
use libchewing.Phrasing.{PhraseInterval, phrase_interval_intersect}
use libchewing.Phrasing.Found.{SortedFrom}
use libchewing.Phrasing.Dp.{RecordNode}
use libchewing.Phrasing.Records.Weeded.{Separate, Sound, Saved, save_record-Saved}
use libchewing.Phrasing.Records.{find_first, save_crossing, recursive_save, save_list}

-- The place behind the last interval.
abbrev Ends : List PhraseInterval → List ℕ → ℕ → ℕ → Type 0
Ends ivs [] lo to = lo ≡ to
Ends ivs (i ∷ is) lo to =
    (v : PhraseInterval) × (get_elem? ivs i ≡ some v) × (lo ≤ v.from) × Ends ivs is v.to to

from_le :
    (vs : List PhraseInterval) (lo : ℕ)
    → SortedFrom lo vs
    → (j : ℕ) (v : PhraseInterval) → get_elem? vs j ≡ some v
    → lo ≤ v.from
from_le [] lo h j v at = absurd (ground arith)
from_le (u ∷ vs) lo h zero v at = subst (λ x. lo ≤ PhraseInterval.from x) (some-inj at) h.0
from_le (u ∷ vs) lo h (suc j) v at = omega (arith, h.0, from_le vs u.from h.1 j v at)

later_from :
    (vs : List PhraseInterval) (lo : ℕ)
    → SortedFrom lo vs
    → (i j : ℕ) (u v : PhraseInterval) → i ≤ j
    → get_elem? vs i ≡ some u
    → get_elem? vs j ≡ some v
    → u.from ≤ v.from
later_from [] lo h i j u v le at_u at_v = absurd (ground arith)
later_from (w ∷ vs) lo h zero zero u v le at_u at_v =
    let same : u ≡ v = some-inj (sym at_u ∙ at_v) in rw same (omega arith)
later_from (w ∷ vs) lo h zero (suc j) u v le at_u at_v =
    subst (λ x. PhraseInterval.from x ≤ v.from) (some-inj at_u) (from_le vs w.from h.1 j v at_v)
later_from (w ∷ vs) lo h (suc i) zero u v le at_u at_v = absurd (omega arith)
later_from (w ∷ vs) lo h (suc i) (suc j) u v le at_u at_v =
    later_from vs w.from h.1 i j u v (omega arith) at_u at_v

module _ (ivs : List PhraseInterval) where
  Ends-append :
      (is : List ℕ) (i lo to : ℕ) (v : PhraseInterval)
      → Ends ivs is lo to
      → get_elem? ivs i ≡ some v
      → to ≤ v.from
      → Ends ivs (is ++ i ∷ []) lo v.to
  Ends-append [] i lo to v h at le = (v, at, omega (arith, h), refl)
  Ends-append (j ∷ is) i lo to v h at le =
      let (u, at_u, le_u, rest) = h in (u, at_u, le_u, Ends-append is i u.to to v rest at le)

  Separate-of_Ends : (is : List ℕ) (lo to : ℕ) → Ends ivs is lo to → Separate ivs is lo
  Separate-of_Ends [] lo to h = tt
  Separate-of_Ends (j ∷ is) lo to h =
      let (u, at_u, le_u, rest) = h in (u, at_u, le_u, Separate-of_Ends is u.to to rest)

  find_first-from :
      (to next : ℕ) (rest : List PhraseInterval)
      → ((k : ℕ) → get_elem? rest k ≡ get_elem? ivs (next + k))
      → (next ≤ find_first to next rest)
        × ((v : PhraseInterval) → get_elem? ivs (find_first to next rest) ≡ some v → to ≤ v.from)
  unfolding find_first
  find_first-from to next [] link = (
    omega arith,
    λ v at.
        let gone : none ≡ get_elem? ivs next = link 0 ∙ ap (get_elem? ivs) (omega arith) in
        absurd (ground arith),
  )
  find_first-from to next (u ∷ rest) link =
      let (le, starts) =
        find_first-from to (next + 1) rest (λ k. link (suc k) ∙ ap (get_elem? ivs) (omega arith)) in
      if-intro (λ f. (next ≤ f) × ((v : PhraseInterval) → get_elem? ivs f ≡ some v → to ≤ v.from))
        (ltb u.from to) (λ _. (omega (arith, le), starts))
        (λ c. (
          omega arith,
          λ v at.
              let same : u ≡ v = some-inj (link 0 ∙ ap (get_elem? ivs) (omega arith) ∙ at) in
              subst (λ x. to ≤ PhraseInterval.from x) same (ground arith),
        ))

  save_crossing-Saved :
      (save : ℕ → PhraseInterval → List RecordNode → Option (List RecordNode)) (v : PhraseInterval)
      (first : ℕ)
      → ((k : ℕ) (u : PhraseInterval) (list : List RecordNode)
          → first ≤ k
          → get_elem? ivs k ≡ some u
          → Sound ivs list
          → Saved ivs (save k u list))
      → (us : List PhraseInterval) (i : ℕ) (list : List RecordNode) → first ≤ i
      → ((k : ℕ) → get_elem? us k ≡ get_elem? ivs (i + k))
      → Sound ivs list
      → 0 < length list
      → Saved ivs (save_crossing save v i us list)
  unfolding save_crossing
  save_crossing-Saved save v first saves [] i list le link sound nonempty = record {
    list = list;
    returned = refl;
    sound = sound;
    nonempty = nonempty;
  }
  save_crossing-Saved save v first saves (u ∷ us) i list le link sound nonempty =
      let here : get_elem? ivs i ≡ some u = ap (get_elem? ivs) (omega arith) ∙ sym (link 0) in
      let s = saves i u list le here sound in
      let r =
        save_crossing-Saved save v first saves us (i + 1) s.list (omega arith)
          (λ k. link (suc k) ∙ ap (get_elem? ivs) (omega arith)) s.sound s.nonempty in
      if-intro (Saved ivs) (phrase_interval_intersect v u)
        (λ _. record {
          list = r.list;
          returned = rw (s.returned, ◌>>=◌) r.returned;
          sound = r.sound;
          nonempty = r.nonempty;
        })
        (λ _. record { list = list; returned = refl; sound = sound; nonempty = nonempty })

  length-Ends :
      ((j : ℕ) (v : PhraseInterval) → get_elem? ivs j ≡ some v → v.from < v.to)
      → (is : List ℕ) (lo to : ℕ) → Ends ivs is lo to
      → lo + length is ≤ to
  length-Ends nonempty [] lo to h = omega (arith, h)
  length-Ends nonempty (j ∷ is) lo to h =
      let (u, at_u, le_u, rest) = h in
      omega (arith, le_u, nonempty j u at_u, length-Ends nonempty is u.to to rest)

  recursive_save-Saved :
      SortedFrom 0 ivs
      → ((j : ℕ) (v : PhraseInterval) → get_elem? ivs j ≡ some v → (v.from < v.to) × (v.to ≤ 50))
      → (fuel next to : ℕ) (record_ : List ℕ) (list : List RecordNode) → next ≤ length ivs
      → length ivs < fuel + next
      → Ends ivs record_ 0 to
      → Sound ivs list
      → Saved ivs (recursive_save fuel ivs next to record_ list)
  unfolding recursive_save
  recursive_save-Saved sorted inside zero next to record_ list le enough ends sound =
      absurd (omega arith)
  recursive_save-Saved sorted inside (suc fuel) next to record_ list le enough ends sound =
      let first = find_first to next (drop next ivs) in
      let (later, starts) = find_first-from to next (drop next ivs) (get_elem?-drop next ivs) in
      elim (Option-cases (get_elem? ivs first)) [
        | inl none_ ↦
            let s = save_record-Saved ivs record_ list (Separate-of_Ends record_ 0 to ends) sound in
            record {
              list = s.list;
              returned = rw (none_, recursive_save) s.returned;
              sound = s.sound;
              nonempty = s.nonempty;
            }
        | inr (v, at) ↦
            let (nonempty, short) = inside first v at in
            let room : ltb (length record_) 50 ≡ true = lt→ltb _ _ (
              omega (
                arith,
                nonempty,
                short,
                starts v at,
                length-Ends (λ j u at_u. (inside j u at_u).0) record_ 0 to ends,
              )) in
            let save = λ (i : ℕ) (u : PhraseInterval).
              recursive_save fuel ivs (suc i) u.to (record_ ++ i ∷ []) in
            let saves =
              λ (k : ℕ) (u : PhraseInterval) (l : List RecordNode) (le_k : first ≤ k)
                  (at_u : get_elem? ivs k ≡ some u) (hs : Sound ivs l).
                recursive_save-Saved sorted inside fuel (suc k) u.to (record_ ++ k ∷ []) l
                  (omega (arith, lt_of_get_elem? ivs k at_u)) (omega (arith, later))
                  (Ends-append record_ k 0 to u ends at_u
                    (omega (arith, starts v at, later_from ivs 0 sorted first k v u le_k at at_u)))
                  hs in
            let s = saves first v list (omega arith) at sound in
            let r =
              save_crossing-Saved save v first saves (drop (suc first) ivs) (suc first) s.list
                (omega arith) (get_elem?-drop (suc first) ivs) s.sound s.nonempty in
            record {
              list = r.list;
              returned = rw (at, room, ◌>>◌, recursive_save, s.returned, ◌>>=◌) r.returned;
              sound = r.sound;
              nonempty = r.nonempty;
            }
      ]

-- The search for all phrasings, on intervals of one or more of the first 50 phones whose starts do
-- not fall, ends with no fault: the number of intervals is depth enough, and no write goes behind the
-- 51 places for a record. It saves at least one record, and in each saved record the intervals
-- follow one another without overlap.
pub save_list-Separate :
    (ivs : List PhraseInterval)
    → SortedFrom 0 ivs
    → ((j : ℕ) (v : PhraseInterval) → get_elem? ivs j ≡ some v → (v.from < v.to) × (v.to ≤ 50))
    → (list : List RecordNode) × (save_list ivs ≡ some list)
      × (0 < length list)
      × All (λ p. Separate ivs p.arr_index 0) list
unfolding save_list
save_list-Separate ivs sorted inside =
    let s =
      recursive_save-Saved ivs sorted inside (suc (length ivs)) 0 0 [] [] (omega arith)
        (omega arith) refl tt in
    (s.list, s.returned, s.nonempty, s.sound)
