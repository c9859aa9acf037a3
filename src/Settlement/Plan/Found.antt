-- ===== src/Settlement/Plan/Found.antt =====
-- What the reading part knows: each candidate has a state, and each state was made for a fixture
-- of that id.
use football_agent.Prelude.{
  ℕ, ◌+◌, List, [], ◌∷◌, true, ◌≡◌, refl, sym, ap, ◌∙◌, Option, none, some, is_some, arith, All,
  All-append, inl, inr, ◌⊎◌,
}
use football_agent.Prelude.Dict.{
  Dict, lookup, insert, All-insert, All-lookup, is_some-insert, lookup-insert, is_some-insert_self,
}
use football_agent.Domain.Entities.{Fixture, ValueBet}
use football_agent.Settlement.State.{AuthoritativeSettlementState}
use football_agent.Settlement.Evidence.{Outcome, ok, raised}
use football_agent.Settlement.Ports.{Ports}
use football_agent.Settlement.Plan.{
  Candidate, Gathered, gather, with_fixture, gather_bet, fixture_state, refresh_states,
}

module _ {D F : Type 0} where
  -- The fixture is one that the repository gives, under some id.
  abbrev pub IsFetched : Ports D F → Fixture → Type 0
  IsFetched ports fixture = (k : ℕ) × (ports.get_fixture k ≡ some fixture)

  -- Each fixture was fetched, and stands under its own id.
  abbrev pub IsKeyed : Ports D F → Dict Fixture → Type 0
  IsKeyed ports = All (λ e. (e.0 ≡ e.1.id) × IsFetched ports e.1)

  -- The bet is one that the repository gives, and the fixture one that it gives for the id of the
  -- bet's fixture, or that has this id.
  abbrev pub IsListed : Ports D F → Candidate D F → Type 0
  IsListed ports (bet, fixture) =
      ((i : ℕ) × (ports.get_value_bet i ≡ some bet))
      × ((k : ℕ) × (ports.get_fixture k ≡ some fixture)
          × ((k ≡ bet.fixture_id) ⊎ (fixture.id ≡ bet.fixture_id)))

  abbrev pub IsKnown : Dict Fixture → Candidate D F → Type 0
  IsKnown ds c = is_some (lookup c.1.id ds) ≡ true

  abbrev pub IsGathered : Ports D F → Gathered D F → Type 0
  IsGathered ports (cs, ds) = IsKeyed ports ds × All (IsKnown ds) cs × All (IsListed ports) cs

  IsKnown-insert :
      (k : ℕ) (v : Fixture) (ds : Dict Fixture) (cs : List (Candidate D F))
      → All (IsKnown ds) cs
      → All (IsKnown (insert k v ds)) cs
  IsKnown-insert k v ds [] h = tt
  IsKnown-insert k v ds (c ∷ cs) h =
      (is_some-insert c.1.id k v ds h.0, IsKnown-insert k v ds cs h.1)

  with_fixture-IsGathered :
      (ports : Ports D F) (i : ℕ) (bet : ValueBet D F) (o fetched : Option Fixture)
      (acc : Gathered D F)
      → IsGathered ports acc
      → ports.get_value_bet i ≡ some bet
      → lookup bet.fixture_id acc.1 ≡ o
      → ports.get_fixture bet.fixture_id ≡ fetched
      → IsGathered ports (with_fixture bet o fetched acc)
  with_fixture-IsGathered ports i bet (some known) fetched (cs, ds) h b e g =
      let (same, (k, got)) =
        All-lookup (λ e. (e.0 ≡ e.1.id) × IsFetched ports e.1) bet.fixture_id known ds h.0 e in
      (
        h.0,
        All-append (IsKnown ds) cs _ h.1 (ap is_some (ap (λ k. lookup k ds) (sym same) ∙ e), tt),
        All-append (IsListed ports) cs _ h.2 (((i, b), (k, got, inr (sym same))), tt),
      )
  with_fixture-IsGathered ports i bet none none acc h b e g = h
  with_fixture-IsGathered ports i bet none (some fixture) (cs, ds) h b e g = (
    All-insert (λ e. (e.0 ≡ e.1.id) × IsFetched ports e.1) fixture.id fixture ds h.0
        (refl, (bet.fixture_id, g)),
    All-append (IsKnown (insert fixture.id fixture ds)) cs _
        (IsKnown-insert fixture.id fixture ds cs h.1)
        (is_some-insert_self fixture.id fixture ds, tt),
    All-append (IsListed ports) cs _ h.2 (((i, b), (bet.fixture_id, g, inl refl)), tt),
  )

  pub gather-IsGathered :
      (ports : Ports D F) (ids : List ℕ) (acc : Gathered D F)
      → IsGathered ports acc
      → IsGathered ports (gather ports ids acc)
  unfolding gather
  gather-IsGathered ports [] acc h = h
  gather-IsGathered ports (i ∷ ids) acc h =
      gather-IsGathered ports ids (gather_bet ports (ports.get_value_bet i) acc)
        (bet_step (ports.get_value_bet i) refl)
    where
      bet_step :
          (o : Option (ValueBet D F))
          → ports.get_value_bet i ≡ o
          → IsGathered ports (gather_bet ports o acc)
      bet_step none b = h
      bet_step (some bet) b =
          with_fixture-IsGathered ports i bet (lookup bet.fixture_id acc.1)
            (ports.get_fixture bet.fixture_id) acc h b refl refl

  -- A state under `k` was made for a fixture that was fetched and whose id is `k`.
  pub record IsMade (ports : Ports D F) (e : ℕ × AuthoritativeSettlementState) : Type 0 where
    pub fixture : Fixture
    pub same : fixture.id ≡ e.0
    pub fetched : IsFetched ports fixture
    pub requests : ℕ
    pub made : fixture_state ports fixture ≡ ok (e.1, requests)

  -- What a completed reading of the states gives.
  abbrev pub Refreshed :
      Ports D F
      → Dict Fixture
      → Dict AuthoritativeSettlementState
      → Outcome (Dict AuthoritativeSettlementState × ℕ)
      → Type 0
  Refreshed ports ds before (raised e) = Unit
  Refreshed ports ds before (ok (states, n)) =
      All (IsMade ports) states
      × ((k : ℕ)
          → (is_some (lookup k ds) ≡ true) ⊎ (is_some (lookup k before) ≡ true)
          → is_some (lookup k states) ≡ true)

  widen :
      (ports : Ports D F) (j : ℕ) (fixture : Fixture) (ds : Dict Fixture)
      (state : AuthoritativeSettlementState) (before : Dict AuthoritativeSettlementState)
      (r : Outcome (Dict AuthoritativeSettlementState × ℕ))
      → j ≡ fixture.id
      → Refreshed ports ds (insert fixture.id state before) r
      → Refreshed ports ((j, fixture) ∷ ds) before r
  widen ports j fixture ds state before (raised e) same h = tt
  widen ports j fixture ds state before (ok (states, n)) same h =
      (h.0, λ k known. h.1 k (covered k known))
    where
      covered :
          (k : ℕ)
          → (is_some (lookup k ((j, fixture) ∷ ds)) ≡ true) ⊎ (is_some (lookup k before) ≡ true)
          → (is_some (lookup k ds) ≡ true)
            ⊎ (is_some (lookup k (insert fixture.id state before)) ≡ true)
      covered k (inr e) = inr (is_some-insert k fixture.id state before e)
      covered k (inl e) = ground (arith, lookup-insert k fixture.id state before)

  refresh_step :
      (ports : Ports D F) (j : ℕ) (fixture : Fixture) (ds : Dict Fixture)
      (before : Dict AuthoritativeSettlementState) (n : ℕ)
      → IsKeyed ports ((j, fixture) ∷ ds)
      → All (IsMade ports) before
      → (o : Outcome (AuthoritativeSettlementState × ℕ)) → fixture_state ports fixture ≡ o
      → ((state : AuthoritativeSettlementState) (asked : ℕ)
          → All (IsMade ports) (insert fixture.id state before)
          → Refreshed ports ds
              (insert fixture.id state before)
              (refresh_states ports ds (insert fixture.id state before) (n + asked)))
      → Refreshed ports ((j, fixture) ∷ ds) before (elim o [
        | raised e ↦ raised e
        | ok (state, asked) ↦ refresh_states ports ds (insert fixture.id state before) (n + asked)
      ])
  refresh_step ports j fixture ds before n keyed made (raised e) eq ih = tt
  refresh_step ports j fixture ds before n keyed made (ok (state, asked)) eq ih =
      widen ports j fixture ds state before _ keyed.0.0 (
        ih state asked (
          All-insert (IsMade ports) fixture.id state before made (record {
            fixture = fixture;
            same = refl;
            fetched = keyed.0.1;
            requests = asked;
            made = eq;
          })))

  pub refresh_states-Refreshed :
      (ports : Ports D F) (ds : Dict Fixture) (before : Dict AuthoritativeSettlementState) (n : ℕ)
      → IsKeyed ports ds
      → All (IsMade ports) before
      → Refreshed ports ds before (refresh_states ports ds before n)
  unfolding refresh_states
  refresh_states-Refreshed ports [] before n keyed made =
      (made, λ k h. elim h [ inl e ↦ cc | inr e ↦ e ])
  refresh_states-Refreshed ports ((j, fixture) ∷ ds) before n keyed made =
      refresh_step ports j fixture ds before n keyed made (fixture_state ports fixture) refl
        (λ state asked made'.
          refresh_states-Refreshed ports ds (insert fixture.id state before) (n + asked) keyed.1
            made')
