-- ===== src/Settlement/Batch/Rule.antt =====
-- The rule by which facts are carried through the settlement loop.
use football_agent.Prelude.{ℕ, List, [], ◌∷◌, Bool, true, false, ◌≡◌, refl, All, if◌then◌else◌}
use football_agent.Prelude.Number.{Number}
use football_agent.Prelude.Dict.{Dict}
use football_agent.Settlement.State.{AuthoritativeSettlementState}
use football_agent.Settlement.Evidence.{AuthoritativeVoidEvidence}
use football_agent.Settlement.Plan.{Candidate}
use football_agent.Settlement.Batch.{Tally, Progress, next, failed, settle_one, settle_loop}

module _ {D F : Type 0} where
  -- `P` holds of a round that goes on, and `E` where an exception leaves the loop.
  abbrev pub Holds : Type 0 → (Tally D F → Type 0) → Progress D F → Type 0
  Holds E P (next t) = P t
  Holds E P (failed _ t) = E

  pub Holds-if :
      (E : Type 0) (P : Tally D F → Type 0) (b : Bool) (x y : Progress D F)
      → (b ≡ true → Holds E P x)
      → (b ≡ false → Holds E P y)
      → Holds E P (if b then x else y)
  Holds-if E P true x y h k = h refl
  Holds-if E P false x y h k = k refl

  pub Holds-elim :
      (E : Type 0) (P Q : Tally D F → Type 0) (o : Progress D F) (rest : Tally D F → Progress D F)
      → Holds E P o
      → ((t : Tally D F) → P t → Holds E Q (rest t))
      → Holds E Q (elim o [ failed e t ↦ failed e t | next t ↦ rest t ])
  Holds-elim E P Q (next t) rest h k = k t h
  Holds-elim E P Q (failed e t) rest h k = h

module _ {D F : Type 0} ⦃d : Number D⦄ ⦃f : Number F⦄ where
  pub settle_loop_rule :
      (E : Type 0) (P : Tally D F → Type 0) (Q : Candidate D F → Type 0)
      (states : Dict AuthoritativeSettlementState) (found : Dict AuthoritativeVoidEvidence)
      (still : List ℕ)
      → ((c : Candidate D F) (t : Tally D F)
          → Q c
          → P t
          → Holds E P (settle_one states found still c t))
      → (cs : List (Candidate D F)) (t : Tally D F) → All Q cs
      → P t
      → Holds E P (settle_loop states found still cs t)
  unfolding settle_loop
  settle_loop_rule E P Q states found still step [] t q p = p
  settle_loop_rule E P Q states found still step (c ∷ cs) t q p =
      Holds-elim E P P (settle_one states found still c t)
        (λ t'. settle_loop states found still cs t') (step c t q.0 p)
        (λ t' p'. settle_loop_rule E P Q states found still step cs t' q.1 p')
