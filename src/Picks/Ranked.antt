-- ===== src/Picks/Ranked.antt =====
-- The order of the fixtures that qualify.
use football_agent.Prelude.{
  ℕ, true, false, List, [], ◌∷◌, ◌≡◌, inl, inr, refl, arith, All, All-map, Bool-cases, length, ◌+◌,
}
use mathlib.Core.List.{Perm}
use mathlib.Core.List.Perm
use football_agent.Prelude.Number.{Number, IsOrdered}
use football_agent.Picks.Whitelist.{CompetitionWhitelist}
use football_agent.Picks.{PickLimits, PickServices, insert_scored, sort_scored}

module _ {F S : Type 0} ⦃f : Number F⦄ (env : PickServices F S) (limits : PickLimits F)
    (whitelist : CompetitionWhitelist) where
  -- No pair has a better value than one before it.
  abbrev pub IsRanked : List (ℕ × F) → Type 0
  IsRanked [] = Unit
  IsRanked (x ∷ xs) = All (λ y. f.lt x.1 y.1 ≡ false) xs × IsRanked xs

  All-insert_scored :
      (P : ℕ × F → Type 0) (e : ℕ × F) (xs : List (ℕ × F))
      → P e
      → All P xs
      → All P (insert_scored env limits whitelist e xs)
  All-insert_scored P e [] p h = (p, tt)
  All-insert_scored P e (x ∷ xs) p h = elim (Bool-cases (f.lt e.1 x.1)) [
    | inl on ↦ rw on (h.0, All-insert_scored P e xs p h.1)
    | inr off ↦ rw off (p, h)
  ]

  pub All-sort_scored :
      (P : ℕ × F → Type 0) (es : List (ℕ × F))
      → All P es
      → All P (sort_scored env limits whitelist es)
  All-sort_scored P [] h = tt
  All-sort_scored P (e ∷ es) h =
      All-insert_scored P e (sort_scored env limits whitelist es) h.0 (All-sort_scored P es h.1)

  length-insert_scored :
      (e : ℕ × F) (xs : List (ℕ × F))
      → length (insert_scored env limits whitelist e xs) ≡ 1 + length xs
  length-insert_scored e [] = refl
  length-insert_scored e (x ∷ xs) = ground (arith, length-insert_scored e xs)

  pub length-sort_scored :
      (es : List (ℕ × F)) → length (sort_scored env limits whitelist es) ≡ length es
  length-sort_scored [] = refl
  length-sort_scored (e ∷ es) =
      omega
        (arith, length-insert_scored e (sort_scored env limits whitelist es), length-sort_scored es)

  insert_scored-Perm :
      (e : ℕ × F) (xs : List (ℕ × F)) → Perm (insert_scored env limits whitelist e xs) (e ∷ xs)
  insert_scored-Perm e [] = Perm.rfl
  insert_scored-Perm e (x ∷ xs) = elim (Bool-cases (f.lt e.1 x.1)) [
    | inl on ↦ rw on (Perm.trans (Perm.cons x (insert_scored-Perm e xs)) (Perm.swap e x xs))
    | inr off ↦ rw off Perm.rfl
  ]

  pub sort_scored-Perm : (es : List (ℕ × F)) → Perm (sort_scored env limits whitelist es) es
  sort_scored-Perm [] = Perm.rfl
  sort_scored-Perm (e ∷ es) =
      Perm.trans (insert_scored-Perm e (sort_scored env limits whitelist es))
        (Perm.cons e (sort_scored-Perm es))

  module _ (laws : IsOrdered f) where
    lt_asym : (a b : F) → f.lt a b ≡ true → f.lt b a ≡ false
    lt_asym a b h =
        let t = laws.le_total b a in
        let e = laws.lt-eq-not-le a b in let e' = laws.lt-eq-not-le b a in ground arith

    not_lt_trans : (a b c : F) → f.lt a b ≡ false → f.lt b c ≡ false → f.lt a c ≡ false
    not_lt_trans a b c h k =
        let t = laws.le_trans c b a in
        let e = laws.lt-eq-not-le a b in
        let e' = laws.lt-eq-not-le b c in let e'' = laws.lt-eq-not-le a c in ground arith

    insert_scored-IsRanked :
        (e : ℕ × F) (xs : List (ℕ × F))
        → IsRanked xs
        → IsRanked (insert_scored env limits whitelist e xs)
    insert_scored-IsRanked e [] h = (tt, tt)
    insert_scored-IsRanked e (x ∷ xs) h = elim (Bool-cases (f.lt e.1 x.1)) [
      | inl on ↦ rw on (
        All-insert_scored (λ y. f.lt x.1 y.1 ≡ false) e xs (lt_asym e.1 x.1 on) h.0,
        insert_scored-IsRanked e xs h.1,
      )
      | inr off ↦ rw off ((off, All-map (λ y k. not_lt_trans e.1 x.1 y.1 off k) xs h.0), h)
    ]

    pub sort_scored-IsRanked : (es : List (ℕ × F)) → IsRanked (sort_scored env limits whitelist es)
    sort_scored-IsRanked [] = tt
    sort_scored-IsRanked (e ∷ es) =
        insert_scored-IsRanked e (sort_scored env limits whitelist es) (sort_scored-IsRanked es)
