-- ===== src/UserPhrase/Frequency.antt =====
-- How far UpdateFreq of src/userphrase-hash.c moves a frequency.
use libchewing.Common.{
  ℕ, ◌+◌, ◌-◌, ◌/◌, ◌≤◌, ◌<◌, ◌≡◌, ◌⊎◌, inl, inr, refl, Bool, true, false, if◌then◌else◌, arith, ℤ,
  pos, ltb_ℤ, if-intro, sym, ap, ◌∙◌, subst, lt_or_le,
}
use libchewing.UserPhrase.{quotient, min_ℤ, max_ℤ, ◌+ℤ◌, ◌-ℤ◌, raised, update_freq, max_allow_freq}

-- The new frequency, and where it lies.
pub record Moved (freq origfreq : ℕ) (up : Bool) (out : ℤ) : Type 0 where
  pub new : ℕ
  pub returned : out ≡ pos new
  pub least : origfreq ≤ new
  pub most : new ≤ 99999999
  pub rises : up ≡ true → (freq < new) ⊎ (new ≡ 99999999)
  pub falls : up ≡ false → new ≤ freq

minus-pos : (a b : ℕ) → b ≤ a → (pos a -ℤ pos b) ≡ pos (a - b)
minus-pos a b le = ground arith

plus-pos : (a b : ℕ) → (pos a +ℤ pos b) ≡ pos (a + b)
plus-pos a b = ground arith

module _ (freq maxfreq origfreq : ℕ) (top : freq ≤ 99999999) (orig_max : origfreq ≤ maxfreq)
    (orig_freq : origfreq ≤ freq) where
  raise_by :
      (delta : ℕ)
      → 1 ≤ delta
      → Moved freq origfreq true (min_ℤ (pos freq +ℤ pos delta) max_allow_freq)
  raise_by delta le =
      subst (λ x. Moved freq origfreq true (min_ℤ x max_allow_freq)) (sym (plus-pos freq delta))
        (if-intro (Moved freq origfreq true) (ltb_ℤ (pos (freq + delta)) max_allow_freq)
          (λ c. record {
            new = freq + delta;
            returned = refl;
            least = omega arith;
            most = ground arith;
            rises = λ _. inl (omega arith);
            falls = λ e. absurd (ground arith);
          })
          (λ c. record {
            new = 99999999;
            returned = refl;
            least = omega arith;
            most = omega arith;
            rises = λ _. inr refl;
            falls = λ e. absurd (ground arith);
          }))

  raised-Moved :
      (part step : ℕ)
      → 1 ≤ step
      → Moved freq origfreq true (raised (pos freq) (pos maxfreq) (pos origfreq) part (pos step))
  unfolding raised
  raised-Moved part step le =
      let P = λ (x : ℤ). Moved freq origfreq true (min_ℤ (pos freq +ℤ x) max_allow_freq) in
      let share = (maxfreq - origfreq) / part + 1 in
      let e : (quotient (pos maxfreq -ℤ pos origfreq) part +ℤ pos 1) ≡ pos share =
        ap (λ x. quotient x part +ℤ pos 1) (minus-pos maxfreq origfreq orig_max)
        ∙ plus-pos ((maxfreq - origfreq) / part) 1 in
      let by_share : P (pos share) = raise_by share (omega arith) in
      let by_step : P (pos step) = raise_by step le in
      subst
        (λ x. P (if ltb_ℤ (pos freq) (pos maxfreq) then max_ℤ x (pos step) else min_ℤ x (pos step)))
        (sym e)
        (if-intro P (ltb_ℤ (pos freq) (pos maxfreq))
          (λ _. if-intro P (ltb_ℤ (pos step) (pos share)) (λ _. by_share) (λ _. by_step))
          (λ _. if-intro P (ltb_ℤ (pos share) (pos step)) (λ _. by_share) (λ _. by_step)))

  lower_by : (delta : ℕ) → Moved freq origfreq false (max_ℤ (pos freq -ℤ pos delta) (pos origfreq))
  lower_by delta = elim (lt_or_le freq delta) [
    | inl lt ↦
        let e : max_ℤ (pos freq -ℤ pos delta) (pos origfreq) ≡ pos origfreq = ground arith in
        record {
          new = origfreq;
          returned = e;
          least = omega arith;
          most = omega arith;
          rises = λ e. absurd (ground arith);
          falls = λ _. orig_freq;
        }
    | inr le ↦
        subst (λ x. Moved freq origfreq false (max_ℤ x (pos origfreq)))
          (sym (minus-pos freq delta le))
          (if-intro (Moved freq origfreq false) (ltb_ℤ (pos origfreq) (pos (freq - delta)))
            (λ c. record {
              new = freq - delta;
              returned = refl;
              least = ground arith;
              most = omega arith;
              rises = λ e. absurd (ground arith);
              falls = λ _. omega arith;
            })
            (λ c. record {
              new = origfreq;
              returned = refl;
              least = omega arith;
              most = omega arith;
              rises = λ e. absurd (ground arith);
              falls = λ _. orig_freq;
            }))
  ]

  lowered-Moved :
      Moved freq origfreq false
        (max_ℤ (pos freq -ℤ max_ℤ (quotient (pos freq -ℤ pos origfreq) 5) (pos 10)) (pos origfreq))
  lowered-Moved =
      let P = λ (x : ℤ). Moved freq origfreq false (max_ℤ (pos freq -ℤ x) (pos origfreq)) in
      subst (λ x. P (max_ℤ (quotient x 5) (pos 10))) (sym (minus-pos freq origfreq orig_freq))
        (if-intro P (ltb_ℤ (pos 10) (pos ((freq - origfreq) / 5)))
          (λ _. lower_by ((freq - origfreq) / 5)) (λ _. lower_by 10))

-- From a frequency between the original one and the limit of 99999999, where the original one is not
-- above the highest one, UpdateFreq stays in that range. At a time below 50000 it rises or reaches the
-- limit; from 50000 on it does not rise.
pub update_freq-Moved :
    (freq maxfreq origfreq : ℕ) (deltatime : ℤ)
    → freq ≤ 99999999
    → origfreq ≤ maxfreq
    → origfreq ≤ freq
    → Moved freq origfreq
        (ltb_ℤ deltatime (pos 50000))
        (update_freq (pos freq) (pos maxfreq) (pos origfreq) deltatime)
unfolding update_freq
update_freq-Moved freq maxfreq origfreq deltatime top om of_ =
    let P = λ (b : Bool) (x : ℤ). Moved freq origfreq b x in
    if-intro (P (ltb_ℤ deltatime (pos 50000))) (ltb_ℤ deltatime (pos 4000))
      (λ c.
        let soon : ltb_ℤ deltatime (pos 50000) ≡ true = ground arith in
        subst (λ b. P b (raised (pos freq) (pos maxfreq) (pos origfreq) 5 (pos 10))) (sym soon)
          (raised-Moved freq maxfreq origfreq top om of_ 5 10 (omega arith)))
      (λ c.
        if-intro (P (ltb_ℤ deltatime (pos 50000))) (ltb_ℤ deltatime (pos 50000))
          (λ soon.
            subst (λ b. P b (raised (pos freq) (pos maxfreq) (pos origfreq) 10 (pos 5))) (sym soon)
              (raised-Moved freq maxfreq origfreq top om of_ 10 5 (omega arith)))
          (λ late.
            subst
              (λ b. P b (
                max_ℤ (pos freq -ℤ max_ℤ (quotient (pos freq -ℤ pos origfreq) 5) (pos 10))
                  (pos origfreq)))
              (sym late) (lowered-Moved freq maxfreq origfreq top om of_)))
