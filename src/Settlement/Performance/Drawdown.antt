-- ===== src/Settlement/Performance/Drawdown.antt =====
-- The largest fall of a running total, described without the loop.
use football_agent.Prelude.{
  Bool, true, false, not, some, List, [], ◌∷◌, ◌≡◌, ◌⊎◌, inl, inr, refl, sym, ap, ◌∙◌, All, Some,
  All-map, Bool-cases, if◌then◌else◌,
}
use mathlib.Core.Path.{subst}
use football_agent.Prelude.Number.{Number, IsOrdered, nought}
use football_agent.Settlement.Performance.{drawdown_loop, calc_max_drawdown}

-- What is used of subtraction.
pub record IsDifference {F : Type 0} (f : Number F) : Type 0 where
  pub sub_self : (a : F) → f.sub a a ≡ f.of_nat 0
  pub sub_mono : (a b c : F) → f.le a b ≡ true → f.le (f.sub a c) (f.sub b c) ≡ true

module _ {F : Type 0} ⦃f : Number F⦄ where
  -- The running totals after each number, from a total.
  abbrev pub totals : F → List F → List F
  totals c [] = []
  totals c (p ∷ ps) = f.add c p ∷ totals (f.add c p) ps

  -- No fall from a total to a later one is more than `d`.
  abbrev pub Bounds : F → List F → Type 0
  Bounds d [] = Unit
  Bounds d (x ∷ xs) = All (λ y. f.le (f.sub x y) d ≡ true) xs × Bounds d xs

  -- Some fall from a total to a later one is `d`.
  abbrev pub IsFall : F → List F → Type 0
  IsFall d [] = ⊥
  IsFall d (x ∷ xs) = Some (λ y. d ≡ f.sub x y) xs ⊎ IsFall d xs

  -- The largest fall of a running total that starts at 0; 0 where it never falls.
  pub record IsDrawdown (d : F) (pls : List F) : Type 0 where
    pub above_zero : f.le nought d ≡ true
    pub bounds : Bounds d (nought ∷ totals nought pls)
    pub attained : (d ≡ nought) ⊎ IsFall d (nought ∷ totals nought pls)

not_inj : (b c : Bool) → not b ≡ not c → b ≡ c
not_inj true true e = refl
not_inj true false e = absurd (cc e)
not_inj false true e = absurd (cc e)
not_inj false false e = refl

module _ {F : Type 0} ⦃f : Number F⦄ (laws : IsOrdered f) (diff : IsDifference f) where
  lt-le : (a b : F) → f.lt a b ≡ true → f.le a b ≡ true
  lt-le a b e = laws.le_total b a (not_inj (f.le b a) false (sym (laws.lt-eq-not-le a b) ∙ e))

  not-lt-le : (a b : F) → f.lt a b ≡ false → f.le b a ≡ true
  not-lt-le a b e = not_inj (f.le b a) true (sym (laws.lt-eq-not-le a b) ∙ e)

  -- The greater of two, as the loop picks it.
  le-pick_left : (a b : F) → f.le a (if f.lt a b then b else a) ≡ true
  le-pick_left a b = elim (Bool-cases (f.lt a b)) [
    | inl on ↦ rw on (lt-le a b on)
    | inr off ↦ rw off (laws.le_refl a)
  ]

  le-pick_right : (a b : F) → f.le b (if f.lt a b then b else a) ≡ true
  le-pick_right a b = elim (Bool-cases (f.lt a b)) [
    | inl on ↦ rw on (laws.le_refl b)
    | inr off ↦ rw off (not-lt-le a b off)
  ]

  abbrev pick : F → F → F
  pick a b = if f.lt a b then b else a

  -- What the loop comes to bounds every fall, also from the peak that it starts with.
  loop-Bounds :
      (peak total m : F) (ps : List F)
      → let d = drawdown_loop peak total m ps in
        (f.le m d ≡ true)
        × All (λ y. f.le (f.sub peak y) d ≡ true) (totals total ps)
        × Bounds d (totals total ps)
  loop-Bounds peak total m [] = (laws.le_refl m, tt, tt)
  loop-Bounds peak total m (p ∷ ps) =
      let c = f.add total p in
      let top = pick peak c in
      let dd = f.sub top c in
      let (more, falls, rest) = loop-Bounds top c (pick m dd) ps in
      let d = drawdown_loop top c (pick m dd) ps in
      let below = λ (x : F) (le : f.le x top ≡ true) (y : F) (k : f.le (f.sub top y) d ≡ true).
        laws.le_trans (f.sub x y) (f.sub top y) d (diff.sub_mono x top y le) k in
      let up = le-pick_left peak c in
      let here = laws.le_trans dd (pick m dd) d (le-pick_right m dd) more in
      (
        laws.le_trans m (pick m dd) d (le-pick_left m dd) more,
        (below peak up c here, All-map (below peak up) (totals c ps) falls),
        (All-map (below c (le-pick_right peak c)) (totals c ps) falls, rest),
      )

  -- A fall from `x` that is larger than something not negative is no fall from `x` to itself.
  no_self_fall : (m x : F) → f.le nought m ≡ true → ¬ (f.lt m (f.sub x x) ≡ true)
  no_self_fall m x le lt =
      let less : f.lt m nought ≡ true = sym (ap (f.lt m) (diff.sub_self x)) ∙ lt in
      let turned : not (f.le nought m) ≡ true = sym (laws.lt-eq-not-le m nought) ∙ less in
      let never : false ≡ true = sym (ap not le) ∙ turned in absurd (cc never)

  abbrev Attained : F → F → F → List F → Type 0
  Attained d m peak ts = (d ≡ m) ⊎ (Some (λ y. d ≡ f.sub peak y) ts ⊎ IsFall d ts)

  -- What the loop comes to is what it starts with, or a fall.
  loop-Attained :
      (peak total m : F) (ps : List F)
      → f.le nought m ≡ true
      → Attained (drawdown_loop peak total m ps) m peak (totals total ps)
  loop-Attained peak total m [] le = inl refl
  loop-Attained peak total m (p ∷ ps) le =
      let c = f.add total p in
      let top = pick peak c in
      let dd = f.sub top c in
      let m' = pick m dd in
      let d = drawdown_loop top c m' ps in
      let le' = laws.le_trans nought m m' le (le-pick_left m dd) in
      let ih : Attained d m' top (totals c ps) = loop-Attained top c m' ps le' in
      elim (Bool-cases (f.lt peak c)) [
        | inl rise ↦
            let is_c : top ≡ c = rw rise refl in
            elim ih [
              | inl e ↦ elim (Bool-cases (f.lt m dd)) [
                | inl on ↦
                    let self : f.lt m (f.sub c c) ≡ true =
                      ap (λ t. f.lt m (f.sub t c)) (sym is_c) ∙ on in
                    absurd (no_self_fall m c le self)
                | inr off ↦ let same : m' ≡ m = rw off refl in inl (e ∙ same)
              ]
              | inr (inl k) ↦
                  inr (inr (inl (subst (λ t. Some (λ y. d ≡ f.sub t y) (totals c ps)) is_c k)))
              | inr (inr k) ↦ inr (inr (inr k))
            ]
        | inr stay ↦
            let is_peak : top ≡ peak = rw stay refl in
            elim ih [
              | inl e ↦ elim (Bool-cases (f.lt m dd)) [
                | inl on ↦
                    let same : m' ≡ dd = rw on refl in
                    inr (inl (inl (e ∙ same ∙ ap (λ t. f.sub t c) is_peak)))
                | inr off ↦ let same : m' ≡ m = rw off refl in inl (e ∙ same)
              ]
              | inr (inl k) ↦
                  inr (inl (inr (subst (λ t. Some (λ y. d ≡ f.sub t y) (totals c ps)) is_peak k)))
              | inr (inr k) ↦ inr (inr (inr k))
            ]
      ]

  Bounds-mono : (d e : F) (xs : List F) → f.le d e ≡ true → Bounds d xs → Bounds e xs
  Bounds-mono d e [] le h = tt
  Bounds-mono d e (x ∷ xs) le h =
      (All-map (λ y k. laws.le_trans (f.sub x y) d e k le) xs h.0, Bounds-mono d e xs le h.1)

  -- Of numbers that are ordered and subtracted as usual, the drawdown of some profits and losses
  -- is the largest fall of their running total, from 0 or any later value to one after it, and 0
  -- where there is no fall; it is none only where there are no bets.
  pub calc_max_drawdown-IsDrawdown :
      (pl : F) (pls : List F)
      → (d : F) × (calc_max_drawdown (pl ∷ pls) ≡ some d) × IsDrawdown d (pl ∷ pls)
  unfolding calc_max_drawdown
  calc_max_drawdown-IsDrawdown pl pls =
      let d = drawdown_loop nought nought nought (pl ∷ pls) in
      let (least, falls, rest) = loop-Bounds nought nought nought (pl ∷ pls) in
      let found = loop-Attained nought nought nought (pl ∷ pls) (laws.le_refl nought) in
      elim (Bool-cases (f.lt nought d)) [
        | inl on ↦ (
          d,
          rw on refl,
          record {
            above_zero = least;
            bounds = (falls, rest);
            attained = elim found [ inl e ↦ inl e | inr k ↦ inr k ];
          },
        )
        | inr off ↦ (
          nought,
          rw off refl,
          record {
            above_zero = laws.le_refl nought;
            bounds =
                Bounds-mono d nought (nought ∷ totals nought (pl ∷ pls)) (not-lt-le nought d off)
                  (falls, rest);
            attained = inl refl;
          },
        )
      ]
