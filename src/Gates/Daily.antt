-- ===== src/Gates/Daily.antt =====
-- app/services/daily_selection.py: the recommendations of a day, from the candidates that the gate
-- has judged. `sorted(..., reverse=True)` is a stable sort: here by insertion, each candidate
-- before the ones that do not come before it.
pub mod Ranked
use football_agent.Prelude.{
  ℕ, String, Bool, not, Option, none, some, List, [], ◌∷◌, take, drop, keep, leb, length, ltb,
  if◌then◌else◌,
}
use football_agent.Prelude.Number.{Number}
use football_agent.Prelude.Int.{ℤ, pos, negsuc}
use football_agent.Gates.Recommendation.{GateInput, GateDecision}

pub record CandidateEvaluation (F : Type 0) : Type 0 where
  pub label : String
  pub gate_input : GateInput F
  pub gate_decision : GateDecision

pub record DailySelectionResult (F : Type 0) : Type 0 where
  pub selected : List (CandidateEvaluation F)
  pub rejected : List (CandidateEvaluation F)
  pub over_limit : List (CandidateEvaluation F)

-- `__init__`: the limit of a service, which is not negative.
abbrev pub make_limit : ℤ → Option ℕ
make_limit (pos n) = some n
make_limit (negsuc n) = none

abbrev pub has_recommendations : {F : Type 0} → DailySelectionResult F → Bool
has_recommendations r = ltb 0 (length r.selected)

abbrev pub is_approved : {F : Type 0} → CandidateEvaluation F → Bool
is_approved c = c.gate_decision.approved

module _ {F : Type 0} ⦃f : Number F⦄ where
  -- `_sort_key(a) < _sort_key(b)`, as Python compares tuples: by the first parts that differ.
  abbrev pub key_below : CandidateEvaluation F → CandidateEvaluation F → Bool
  key_below a b =
      if f.eq a.gate_input.expected_value b.gate_input.expected_value
      then f.lt a.gate_input.decision_score b.gate_input.decision_score
      else f.lt a.gate_input.expected_value b.gate_input.expected_value

  abbrev pub insert_ranked :
      CandidateEvaluation F → List (CandidateEvaluation F) → List (CandidateEvaluation F)
  insert_ranked c [] = c ∷ []
  insert_ranked c (x ∷ xs) =
      let rest = insert_ranked c xs in if key_below c x then x ∷ rest else c ∷ x ∷ xs

  unfoldable pub ranked : List (CandidateEvaluation F) → List (CandidateEvaluation F)
  ranked [] = []
  ranked (c ∷ cs) = insert_ranked c (ranked cs)

  unfoldable pub select : ℕ → List (CandidateEvaluation F) → DailySelectionResult F
  select max_recommendations candidates =
      let order = ranked (keep is_approved candidates) in
      record {
        selected = take max_recommendations order;
        rejected = keep (λ c. not (is_approved c)) candidates;
        over_limit = drop max_recommendations order;
      }
