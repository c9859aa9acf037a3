-- ===== src/Settlement/Evidence.antt =====
-- app/services/settlement.py: explicit VOID instructions, and the detail that one makes.
use football_agent.Prelude.{
  ◌≡◌, ℕ, String, Bool, true, false, ◌||◌, not, Option, none, some, ltb, ◌==◌, if◌then◌else◌,
  str_eq, strip, str_len,
}
use football_agent.Prelude.Number.{Number, nought}
use football_agent.Domain.Entities.{Fixture, ValueBet, SettlementResult}
use football_agent.Settlement.Resolve.{SettlementDetail}

pub record AuthoritativeVoidEvidence : Type 0 where
  pub value_bet_id : ℕ
  pub fixture_id : ℕ
  pub reason_code : String
  pub source : String
  pub evidence_reference : String
  pub bookmaker_id : Option ℕ

-- A value, or the text of the exception that was raised.
pub data Outcome {ℓ} (A : Type ℓ) : Type ℓ where
  ok : A → Outcome A
  raised : String → Outcome A

abbrev pub bind_outcome : {A B : Type 0} → Outcome A → (A → Outcome B) → Outcome B
bind_outcome (raised text) k = Outcome.raised text
bind_outcome (ok a) k = k a

-- `__post_init__`: the three texts are stripped and checked.
unfoldable pub make_evidence : AuthoritativeVoidEvidence → Outcome AuthoritativeVoidEvidence
make_evidence e =
    let reason = strip e.reason_code in
    let source = strip e.source in
    let reference = strip e.evidence_reference in
    if str_eq reason "" || ltb 64 (str_len reason)
    then Outcome.raised "VOID reason code must contain 1-64 characters"
    else if str_eq source ""
    then Outcome.raised "VOID evidence requires an authoritative source"
    else if str_eq reference ""
    then Outcome.raised "VOID evidence requires an evidence reference"
    else Outcome.ok
        (record e { reason_code = reason; source = source; evidence_reference = reference })

-- The evidence came out of its constructor.
abbrev pub IsEvidence : AuthoritativeVoidEvidence → Type 0
IsEvidence e = (raw : AuthoritativeVoidEvidence) × (make_evidence raw ≡ Outcome.ok e)

abbrev pub opt_id_eq : Option ℕ → Option ℕ → Bool
opt_id_eq none none = true
opt_id_eq none (some _) = false
opt_id_eq (some _) none = false
opt_id_eq (some a) (some b) = a == b

module _ {D F : Type 0} where
  -- `_validate_void_evidence`
  unfoldable pub validate_void_evidence :
      AuthoritativeVoidEvidence → ValueBet D F → Fixture → Outcome (Unit {0})
  validate_void_evidence e bet fixture =
      if not (e.value_bet_id == bet.id) || not (e.fixture_id == fixture.id)
      then Outcome.raised "VOID evidence identity does not match the settlement candidate"
      else if not (opt_id_eq e.bookmaker_id bet.bookmaker_id)
      then Outcome.raised "VOID evidence bookmaker does not match the value bet"
      else Outcome.ok tt

  -- `_void_result`
  abbrev pub void_result :
      ⦃d : Number D⦄ → ValueBet D F → Fixture → AuthoritativeVoidEvidence → SettlementDetail D
  void_result bet fixture e = record {
    value_bet_id = bet.id;
    fixture_id = fixture.id;
    result = SettlementResult.void;
    score_home = none;
    score_away = none;
    profit_loss = nought;
    bankroll_before = nought;
    bankroll_after = nought;
    settled = true;
    message = "authoritative VOID evidence accepted";
    void_reason_code = some e.reason_code;
  }
