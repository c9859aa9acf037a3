-- ===== src/Gates/Recommendation.antt =====
-- app/services/recommendation_gate.py, and the values of app/models/value_objects/decision.py that
-- it reads. A reason is a value: the text that is made of it is not modelled.
use football_agent.Prelude.{
  ℕ, Bool, true, false, ◌&&◌, Option, none, some, not, List, [], ◌∷◌, ◌++◌, ◌≡◌, ◌↔◌, ◌≢◌, leb,
  if◌then◌else◌, arith,
}
use football_agent.Prelude.Number.{Number, nought}

pub data EvidenceLevel : Type 0 where
  a b c d e : EvidenceLevel

abbrev pub rank : EvidenceLevel → ℕ
rank EvidenceLevel.a = 5
rank EvidenceLevel.b = 4
rank EvidenceLevel.c = 3
rank EvidenceLevel.d = 2
rank EvidenceLevel.e = 1

abbrev pub meets_minimum : EvidenceLevel → EvidenceLevel → Bool
meets_minimum level minimum = leb (rank minimum) (rank level)

pub data RiskLevel : Type 0 where
  low medium high : RiskLevel

abbrev pub is_high : RiskLevel → Bool
is_high RiskLevel.high = true
is_high _ = false

pub data GateReason : Type 0 where
  low_completeness low_evidence no_value low_score high_risk conflict all_met : GateReason

pub record GateDecision : Type 0 where
  pub approved : Bool
  pub reasons : List GateReason

-- The decision score and the data completeness are the numbers that these two values hold.
pub record GateInput (F : Type 0) : Type 0 where
  pub decision_score : F
  pub expected_value : F
  pub data_completeness : F
  pub evidence_level : EvidenceLevel
  pub risk_level : RiskLevel

-- The thresholds that a gate is made with.
pub record Thresholds (F : Type 0) : Type 0 where
  pub min_decision_score : F
  pub min_data_completeness : F
  pub min_evidence_level : EvidenceLevel

abbrev pub failed_if : Bool → GateReason → List GateReason
failed_if ok why = if ok then [] else why ∷ []

module _ {F : Type 0} ⦃f : Number F⦄ where
  -- `DecisionScore` and `DataCompleteness` take values from 0 to 100.
  abbrev pub make_percentage : F → Option F
  make_percentage v = if f.le nought v && f.le v (f.of_nat 100) then some v else none

  abbrev pub default_thresholds : Thresholds F
  default_thresholds = record {
    min_decision_score = f.of_nat 85;
    min_data_completeness = f.of_nat 90;
    min_evidence_level = EvidenceLevel.b;
  }

  abbrev pub completeness_ok : Thresholds F → GateInput F → Bool
  completeness_ok g i = f.le g.min_data_completeness i.data_completeness

  abbrev pub evidence_ok : Thresholds F → GateInput F → Bool
  evidence_ok g i = meets_minimum i.evidence_level g.min_evidence_level

  abbrev pub value_ok : GateInput F → Bool
  value_ok i = f.lt nought i.expected_value

  abbrev pub score_ok : Thresholds F → GateInput F → Bool
  score_ok g i = f.le g.min_decision_score i.decision_score

  abbrev pub risk_ok : GateInput F → Bool
  risk_ok i = not (is_high i.risk_level)

  abbrev pub in_conflict : Thresholds F → GateInput F → Bool
  in_conflict g i =
      value_ok i && score_ok g i && completeness_ok g i && evidence_ok g i && not (risk_ok i)

  -- Every rule is tried; the last reason records that only the risk stands against the bet.
  unfoldable pub failures : Thresholds F → GateInput F → List GateReason
  failures g i =
      failed_if (completeness_ok g i) GateReason.low_completeness
      ++ failed_if (evidence_ok g i) GateReason.low_evidence
      ++ failed_if (value_ok i) GateReason.no_value
      ++ failed_if (score_ok g i) GateReason.low_score
      ++ failed_if (risk_ok i) GateReason.high_risk
      ++ failed_if (not (in_conflict g i)) GateReason.conflict

  unfoldable pub evaluate : Thresholds F → GateInput F → GateDecision
  evaluate g i = elim (failures g i) [
    | [] ↦ record { approved = true; reasons = GateReason.all_met ∷ [] }
    | w ∷ ws ↦ record { approved = false; reasons = w ∷ ws }
  ]

  -- What the five rules ask.
  abbrev pub Meets : Thresholds F → GateInput F → Type 0
  Meets g i =
      (f.le g.min_data_completeness i.data_completeness ≡ true)
      × (leb (rank g.min_evidence_level) (rank i.evidence_level) ≡ true)
      × (f.lt nought i.expected_value ≡ true)
      × (f.le g.min_decision_score i.decision_score ≡ true)
      × (i.risk_level ≢ RiskLevel.high)

  -- A bet is approved exactly when its data are complete enough, its evidence good enough, its
  -- expected value positive, its score high enough and its risk not high.
  pub evaluate-Meets :
      (g : Thresholds F) (i : GateInput F) → ((evaluate g i).approved ≡ true) ↔ Meets g i
  unfolding evaluate failures
  evaluate-Meets g i = ground arith

  -- The reasons are those of a conflict, high risk and then the conflict, exactly when the risk is
  -- high and the four other rules are met.
  pub evaluate_conflict :
      (g : Thresholds F) (i : GateInput F)
      → ((evaluate g i).reasons ≡ GateReason.high_risk ∷ GateReason.conflict ∷ [])
        ↔ ((i.risk_level ≡ RiskLevel.high) × Meets g (record i { risk_level = RiskLevel.low }))
  unfolding evaluate failures
  evaluate_conflict g i = ground arith
