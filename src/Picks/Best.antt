-- ===== src/Picks/Best.antt =====
-- app/services/daily_top_picks.py: the best value of the selections that qualify.
use football_agent.Prelude.{
  Bool, true, some, List, [], ◌∷◌, ◌≡◌, ◌⊎◌, inl, inr, refl, sym, ◌∙◌, arith, All, Some, Bool-cases,
  keep,
}
use mathlib.Core.Path.{subst}
use football_agent.Prelude.Number.{Number, IsOrdered, max_of}
use football_agent.Picks.Whitelist.{CompetitionWhitelist}
use football_agent.Picks.{
  SelectionAnalysis, DetailedAnalysis, PickLimits, PickServices, qualifies, best_from, best_of,
  best_ev,
}

module _ {F S : Type 0} ⦃f : Number F⦄ (env : PickServices F S) (limits : PickLimits F)
    (whitelist : CompetitionWhitelist) where
  -- The gate recommends the selection, and its figures reach the limits.
  abbrev pub Meets : SelectionAnalysis F → Type 0
  Meets s =
      (s.recommended ≡ true)
      × (f.le limits.min_ev s.expected_value ≡ true)
      × (f.le limits.min_kelly s.kelly_fraction ≡ true)
      × (f.le limits.min_confidence s.confidence ≡ true)

  -- One of the selections that meet the limits has this value, and none of them a greater one.
  abbrev pub IsBest : List (SelectionAnalysis F) → F → Type 0
  IsBest ss ev =
      Some (λ s. Meets s × (s.expected_value ≡ ev)) ss
      × All (λ s. Meets s → f.le s.expected_value ev ≡ true) ss

  abbrev passes : SelectionAnalysis F → Bool
  passes s = qualifies env limits whitelist s

  qualifies-Meets : (s : SelectionAnalysis F) → passes s ≡ true → Meets s
  qualifies-Meets s h = ground arith

  Meets-qualifies : (s : SelectionAnalysis F) → Meets s → passes s ≡ true
  Meets-qualifies s h = ground arith

  keep-Some :
      (P : SelectionAnalysis F → Type 0) (ss : List (SelectionAnalysis F))
      → Some P (keep passes ss)
      → Some (λ s. Meets s × P s) ss
  keep-Some P [] h = h
  keep-Some P (s ∷ ss) h = elim (Bool-cases (passes s)) [
    | inl on ↦ elim (rw on at h) [
      | inl p ↦ inl (qualifies-Meets s on, p)
      | inr k ↦ inr (keep-Some P ss k)
    ]
    | inr off ↦ inr (keep-Some P ss (rw off at h))
  ]

  keep-All :
      (P : SelectionAnalysis F → Type 0) (ss : List (SelectionAnalysis F))
      → All P (keep passes ss)
      → All (λ s. Meets s → P s) ss
  keep-All P [] h = tt
  keep-All P (s ∷ ss) h = elim (Bool-cases (passes s)) [
    | inl on ↦ let k : P s × All P (keep passes ss) = rw on at h in (λ _. k.0, keep-All P ss k.1)
    | inr off ↦
        (λ m. let t = Meets-qualifies s m in absurd (cc (off, t)), keep-All P ss (rw off at h))
  ]

  module _ (laws : IsOrdered f) where
    max_of-above :
        (a b : F)
        → (f.le a (max_of a b) ≡ true)
          × (f.le b (max_of a b) ≡ true)
          × ((max_of a b ≡ a) ⊎ (max_of a b ≡ b))
    max_of-above a b =
        let e = laws.lt-eq-not-le a b in
        let t = laws.le_total a b in
        let ta = laws.le_total a a in
        let tb = laws.le_total b b in
        elim (Bool-cases (f.lt a b)) [
          | inl on ↦ rw on (ground arith, ground arith, inr refl)
          | inr off ↦ rw off (ground arith, ground arith, inl refl)
        ]

    best_from_lem :
        (ev : F) (ss : List (SelectionAnalysis F))
        → let b = best_from env limits whitelist ev ss in
          ((ev ≡ b) ⊎ Some (λ s. s.expected_value ≡ b) ss)
          × (f.le ev b ≡ true)
          × All (λ s. f.le s.expected_value b ≡ true) ss
    best_from_lem ev [] = let t = laws.le_total ev ev in (inl refl, ground arith, tt)
    best_from_lem ev (s ∷ ss) =
        let b = best_from env limits whitelist (max_of ev s.expected_value) ss in
        let (low, high, which) = max_of-above ev s.expected_value in
        let (found, above, rest) = best_from_lem (max_of ev s.expected_value) ss in
        (
          elim found [
            | inl e ↦ elim which [ inl a ↦ inl (sym a ∙ e) | inr a ↦ inr (inl (sym a ∙ e)) ]
            | inr k ↦ inr (inr k)
          ],
          laws.le_trans ev (max_of ev s.expected_value) b low above,
          (laws.le_trans s.expected_value (max_of ev s.expected_value) b high above, rest),
        )

    best_of_lem :
        (ss : List (SelectionAnalysis F)) (ev : F)
        → best_of env limits whitelist ss ≡ some ev
        → Some (λ s. s.expected_value ≡ ev) ss × All (λ s. f.le s.expected_value ev ≡ true) ss
    best_of_lem [] ev e = absurd (cc e)
    best_of_lem (s ∷ ss) ev e =
        let same : best_from env limits whitelist s.expected_value ss ≡ ev = cc e in
        let (found, above, rest) = best_from_lem s.expected_value ss in
        subst
          (λ v.
            Some (λ x. x.expected_value ≡ v) (s ∷ ss)
            × All (λ x. f.le x.expected_value v ≡ true) (s ∷ ss))
          same (found, (above, rest))

    pub best_ev-IsBest :
        (d : DetailedAnalysis F) (ev : F)
        → best_ev env limits whitelist d ≡ some ev
        → IsBest d.selections ev
    best_ev-IsBest d ev e =
        let (found, above) = best_of_lem (keep passes d.selections) ev e in
        (
          keep-Some (λ s. s.expected_value ≡ ev) d.selections found,
          keep-All (λ s. f.le s.expected_value ev ≡ true) d.selections above,
        )
