-- ===== src/Settlement/Batch/Ledger.antt =====
-- The settlement rows and the bankroll entries of one run as a ledger.
use football_agent.Prelude.{
  ℕ, ◌+◌, not, String, List, [], ◌∷◌, ◌++◌, true, ◌≡◌, refl, sym, ◌∙◌, ap, Option, none, some,
  arith, All, length, length-append, contains, if◌then◌else◌,
}
use football_agent.Prelude.Number.{Number}
use football_agent.Prelude.Dict.{Dict, lookup}
use football_agent.Domain.Score.{Score}
use football_agent.Domain.Entities.{
  Fixture, ValueBet, Settlement, make_settlement, check_void, check_played,
}
use football_agent.Settlement.State.{AuthoritativeSettlementState, can_settle}
use football_agent.Settlement.Resolve.{SettlementDetail, resolve}
use football_agent.Settlement.Evidence.{AuthoritativeVoidEvidence, void_result}
use football_agent.Settlement.Ports.{BankrollEntry}
use football_agent.Settlement.Plan.{Candidate}
use football_agent.Settlement.Batch.Rule.{Holds, Holds-if, settle_loop_rule}
use football_agent.Settlement.Batch.{
  Tally, next, row_of, entry_of, record_result, settle_one, settle_loop, total_pl_from, settle_in,
  add_checked, skip_detail, settle_scored,
}

module _ {D : Type 0} ⦃d : Number D⦄ where
  -- Each row starts from the balance that the row before it left, and adds its profit or loss.
  abbrev pub Chain : D → List (Settlement D) → D → Type 0
  Chain start [] end = start ≡ end
  Chain start (r ∷ rs) end =
      (r.bankroll_before ≡ start)
      × (r.bankroll_after ≡ d.add start r.profit_loss)
      × Chain r.bankroll_after rs end

  Chain-snoc :
      (start middle end : D) (rs : List (Settlement D)) (r : Settlement D)
      → Chain start rs middle
      → r.bankroll_before ≡ middle
      → r.bankroll_after ≡ d.add middle r.profit_loss
      → r.bankroll_after ≡ end
      → Chain start (rs ++ (r ∷ [])) end
  Chain-snoc start middle end [] r c h k l =
      (h ∙ sym c, k ∙ ap (λ b. d.add b r.profit_loss) (sym c), l)
  Chain-snoc start middle end (x ∷ rs) r c h k l =
      (c.0, c.1, Chain-snoc x.bankroll_after middle end rs r c.2 h k l)

  total_pl_from-snoc :
      (acc : D) (rs : List (SettlementDetail D)) (r : SettlementDetail D)
      → total_pl_from acc (rs ++ (r ∷ []))
        ≡ (if r.settled then d.add (total_pl_from acc rs) r.profit_loss else total_pl_from acc rs)
  unfolding total_pl_from
  total_pl_from-snoc acc [] r = refl
  total_pl_from-snoc acc (x ∷ rs) r =
      total_pl_from-snoc (if x.settled then d.add acc x.profit_loss else acc) rs r

  -- A checked row is the row that was given, but for the text of its reason code.
  abbrev pub SameRow : Settlement D → Option (Settlement D) → Type 0
  SameRow r none = Unit
  SameRow r (some s) =
      (s.value_bet_id ≡ r.value_bet_id)
      × (s.profit_loss ≡ r.profit_loss)
      × (s.bankroll_before ≡ r.bankroll_before)
      × (s.bankroll_after ≡ r.bankroll_after)
      × (s.result ≡ r.result)
      × (s.fixture_id ≡ r.fixture_id)

  pub make_settlement-SameRow : (r : Settlement D) → SameRow r (make_settlement r)
  unfolding make_settlement check_void check_played
  make_settlement-SameRow r = ground arith

module _ {D F : Type 0} ⦃d : Number D⦄ where
  -- The entries are those of the rows, in their order.
  abbrev pub Matched : List (Settlement D) → List (BankrollEntry D F) → Type 0
  Matched [] [] = Unit
  Matched [] (_ ∷ _) = ⊥
  Matched (_ ∷ _) [] = ⊥
  Matched (r ∷ rs) (e ∷ es) =
      (e.amount ≡ r.profit_loss) × (e.balance_after ≡ r.bankroll_after) × Matched rs es

  Matched-snoc :
      (rs : List (Settlement D)) (es : List (BankrollEntry D F)) (r : Settlement D)
      (e : BankrollEntry D F)
      → Matched rs es
      → e.amount ≡ r.profit_loss
      → e.balance_after ≡ r.bankroll_after
      → Matched (rs ++ (r ∷ [])) (es ++ (e ∷ []))
  Matched-snoc [] [] r e m h k = (h, k, tt)
  Matched-snoc [] (_ ∷ _) r e m h k = absurd m
  Matched-snoc (_ ∷ _) [] r e m h k = absurd m
  Matched-snoc (x ∷ rs) (y ∷ es) r e m h k = (m.0, m.1, Matched-snoc rs es r e m.2 h k)

  -- The ledger of a run that began with the balance `start`.
  pub record IsLedger (start : D) (t : Tally D F) : Type 0 where
    pub chain : Chain start t.store.settlements t.running_balance
    pub matched : Matched t.store.settlements t.store.bankroll
    pub paid : total_pl_from start t.details ≡ t.running_balance
    pub counted : t.settled ≡ length t.store.settlements
    pub eligible_counted : t.eligible ≡ t.settled + t.skipped

  -- In a round the bet has been counted as eligible already.
  pub record IsPending (start : D) (t : Tally D F) : Type 0 where
    pub chain : Chain start t.store.settlements t.running_balance
    pub matched : Matched t.store.settlements t.store.bankroll
    pub paid : total_pl_from start t.details ≡ t.running_balance
    pub counted : t.settled ≡ length t.store.settlements
    pub eligible_counted : t.eligible ≡ t.settled + t.skipped + 1

  add_checked-IsLedger :
      (start : D) (bet : ValueBet D F) (r : SettlementDetail D) (basis : String) (t : Tally D F)
      (o : Option (Settlement D))
      → IsPending start t
      → r.settled ≡ true
      → let after = d.add t.running_balance r.profit_loss in
        SameRow (row_of r t.running_balance after) o
        → Holds Unit (IsLedger start) (add_checked bet r basis o after t)
  add_checked-IsLedger start bet r basis t none p b same = tt
  add_checked-IsLedger start bet r basis t (some s) p b same =
      let after = d.add t.running_balance r.profit_loss in
      let entry = entry_of bet r basis after in
      let paid_row = record r { bankroll_before = t.running_balance; bankroll_after = after } in
      record {
        chain =
            Chain-snoc start t.running_balance after t.store.settlements s p.chain same.2
              (same.3 ∙ ap (d.add t.running_balance) (sym same.1)) same.3;
        matched =
            Matched-snoc t.store.settlements t.store.bankroll s entry p.matched (sym same.1)
              (sym same.3);
        paid = total_pl_from-snoc start t.details paid_row ∙ ground (arith, p.paid);
        counted = omega (arith, length-append t.store.settlements (s ∷ []), p.counted);
        eligible_counted = omega (arith, p.eligible_counted);
      }

  record_result-IsLedger :
      (start : D) (bet : ValueBet D F) (r : SettlementDetail D) (basis : String) (t : Tally D F)
      → IsPending start t
      → Holds Unit (IsLedger start) (record_result bet r basis t)
  unfolding record_result
  record_result-IsLedger start bet r basis t p =
      let after = d.add t.running_balance r.profit_loss in
      let row = row_of r t.running_balance after in
      Holds-if Unit (IsLedger start) (not r.settled) (next (skip_detail r t))
        (add_checked bet r basis (make_settlement row) after t)
        (λ e. record {
          chain = p.chain;
          matched = p.matched;
          paid = total_pl_from-snoc start t.details r ∙ ground (arith, p.paid);
          counted = p.counted;
          eligible_counted = omega (arith, p.eligible_counted);
        })
        (λ e.
          add_checked-IsLedger start bet r basis t (make_settlement row) p (ground arith)
            (make_settlement-SameRow row))

  settle_in-IsLedger :
      ⦃f : Number F⦄ (start : D) (bet : ValueBet D F) (fixture : Fixture)
      (state : Option AuthoritativeSettlementState) (e : Option AuthoritativeVoidEvidence)
      (t : Tally D F)
      → IsPending start t
      → Holds Unit (IsLedger start) (settle_in bet fixture state e t)
  settle_in-IsLedger start bet fixture none e t p = tt
  settle_in-IsLedger start bet fixture (some state) (some e) t p =
      record_result-IsLedger start bet (void_result bet fixture e) _ t p
  settle_in-IsLedger start bet fixture (some state) none t p =
      Holds-if Unit (IsLedger start) (not (can_settle state)) _ _ (λ _. skipped_one)
        (λ _. scored state.regulation_score state.score_basis)
    where
      skipped_one : IsLedger start (record t { skipped = t.skipped + 1 })
      skipped_one = record {
        chain = p.chain;
        matched = p.matched;
        paid = p.paid;
        counted = p.counted;
        eligible_counted = omega (arith, p.eligible_counted);
      }

      scored :
          (score : Option Score) (basis : Option String)
          → Holds Unit (IsLedger start) (settle_scored bet fixture score basis t)
      scored none basis = tt
      scored (some score) none = tt
      scored (some score) (some basis) =
          record_result-IsLedger start bet (resolve bet fixture score) basis t p

pub All-Unit {ℓ} : {A : Type ℓ} (xs : List A) → All (λ _. Unit {0}) xs
All-Unit [] = tt
All-Unit (x ∷ xs) = (tt, All-Unit xs)

module _ {D F : Type 0} ⦃d : Number D⦄ ⦃f : Number F⦄ where
  settle_one-IsLedger :
      (states : Dict AuthoritativeSettlementState) (found : Dict AuthoritativeVoidEvidence)
      (still : List ℕ) (start : D) (c : Candidate D F) (t : Tally D F)
      → IsLedger start t
      → Holds Unit (IsLedger start) (settle_one states found still c t)
  unfolding settle_one
  settle_one-IsLedger states found still start (bet, fixture) t l =
      Holds-if Unit (IsLedger start) (not (contains bet.id still)) _ _ (λ _. l)
        λ _.
          settle_in-IsLedger start bet fixture (lookup fixture.id states) (lookup bet.id found)
            (record t { eligible = t.eligible + 1 })
            record {
              chain = l.chain;
              matched = l.matched;
              paid = l.paid;
              counted = l.counted;
              eligible_counted = omega (arith, l.eligible_counted);
            }

  pub settle_loop-IsLedger :
      (states : Dict AuthoritativeSettlementState) (found : Dict AuthoritativeVoidEvidence)
      (still : List ℕ) (start : D) (cs : List (Candidate D F)) (t : Tally D F)
      → IsLedger start t
      → Holds Unit (IsLedger start) (settle_loop states found still cs t)
  settle_loop-IsLedger states found still start cs t l =
      settle_loop_rule Unit (IsLedger start) (λ _. Unit) states found still
        (λ c t' _ l'. settle_one-IsLedger states found still start c t' l') cs t (All-Unit cs) l
