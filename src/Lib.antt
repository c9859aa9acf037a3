-- ===== src/Lib.antt =====
-- A model of football-agent, which recommends value bets on football matches and keeps their books.
--
-- Bets are settled by `SettlementService` (app/services/settlement.py). Domain models the values
-- and entities that it reads and writes (app/models, app/providers/schemas): Domain/Score,
-- Domain/Markets, Domain/Entities. Settlement/State models the fixture lifecycle and
-- `_authoritative_state`, Settlement/Resolve `_resolve`, `_result` and `_skip`,
-- Settlement/Evidence the VOID evidence, Settlement/Ports what the service is given and what it
-- writes, Settlement/Plan the part of `settle_all` before the lock (gathering the candidates,
-- refreshing the fixtures, asking for evidence, the deferred fixtures), and Settlement/Batch the
-- loop under the lock and the report. The theorems stand in the children of these modules and in
-- Settlement/Run, Settlement/FailClosed and Settlement/Once; Settlement/Tests runs the service on
-- concrete data. Prelude has the texts, integers, dictionaries and number interfaces.
--
-- Before a bet is recommended it passes the gates: Gates/Recommendation models the admission rules
-- (app/services/recommendation_gate.py), Gates/Daily the choice of the day
-- (app/services/daily_selection.py, whose `sorted` is an insertion sort here), Gates/Lineup the
-- verified lineups and their gate (app/services/verified_lineup.py,
-- app/services/lineup_admission_gate.py) on the entity of Gates/Lineup/Entity, and
-- Gates/PreKickoff the state and the checkpoint of a fixture before kickoff
-- (app/services/pre_kickoff_state_resolver.py, app/services/pre_kickoff_checkpoint_resolver.py).
-- Their theorems stand in the children, and Gates/Tests has the examples. Reasons are values of
-- data types: the texts made of them are not modelled.
--
-- Gates/MarketQuote models the verification of a 1X2 market (app/services/verified_market_quote.py):
-- its data and their constructors, and in its children Latest the newest snapshot of each
-- bookmaker, Quote a selection's quote, and Service the service. Prices are any numbers with the
-- operators of Prelude/Number.
--
-- Gates/MarketMovement compares two such markets (app/services/verified_market_movement.py).
--
-- Odds come from outside: Odds/TeamNames and Odds/Matching model how an odds event finds its
-- fixture (app/services/odds_matching.py, `normalize_team_name` on ASCII text), Odds/Aliases the
-- names that count as one team (app/services/team_aliases.py), Odds/Schema what
-- the providers report (app/providers/schemas/odds.py), and Odds/Prioritized, with its child
-- Targeted, the provider that asks a second one where the first has no quote
-- (app/providers/impl/prioritized_odds_provider.py). A provider is a record of functions on the
-- states of a world.
--
-- Odds/Ingestion models how the events of a provider become snapshots (app/services/odds_ingestion.py,
-- `_process_events` and what it calls), on the tables of Odds/Ingestion/Tables
-- (app/repositories/sqlalchemy/odds_snapshot_repository.py, reference_repositories.py). A run
-- carries its tables, its cache of bookmakers, its counters and its samples.
--
-- Picks models the daily run that spends reviews on the best fixtures only
-- (app/services/daily_top_picks.py), Picks/Whitelist the competitions that count
-- (app/config/whitelist.py). The other services of a run are a record of operations with laws.
--
-- Settlement/Performance models the figures over all settlements
-- (app/services/performance_tracker.py), its Drawdown the largest fall of the running total.
--
-- Workers/Lock models the file lock under which a scheduler's command runs
-- (app/workers/scheduler_runner.py, `acquire_lock`, `release_lock`, and `main` around a command):
-- each access to the file is a step, Runs has the processes as a step relation. A call makes at
-- most six steps: it opens, reads, judges and breaks, then opens and writes.
--
-- Quota/RequestLimiter models the limiter of the API-Football requests
-- (app/providers/api_football_rate_limit.py): a round of the loop in `admit` is a function of what
-- it reads from the clock, and Quota/RequestLimiter/Trace runs rounds and observations in any
-- order. The loop itself takes fuel; two rounds more than the deque holds calls are enough.
--
-- Quota/TokenBucket models the token bucket of the Odds-API.io requests (app/utils/rate_limiter.py):
-- each operation as it runs under the lock. Its children are Redis (the counts in Redis), Shared
-- (the whole operations, which read Redis first and write it afterwards) and Grants (a run of
-- operations in any order, with the tokens it grants).
--
-- The settlement's repositories and providers are functions in the record `Ports`. What they answer may be an
-- exception, a value of `Outcome`. Rows that are written are kept in a `Store`; an exception ends
-- the run with the rows written so far, which the transaction then rolls back. Decimal and float
-- are types with an instance of `Number`; the laws that a theorem needs of them are the
-- hypotheses `IsExact`, `IsOrdered` and `IsDifference`, which hold for the integers. UUIDs are
-- natural numbers. A dictionary is an association list in the order of insertion.
--
-- Every other loop recurs on the list that it goes through, so no fuel is needed. `str.strip` and
-- `str.upper` are written out for ASCII text.
--
-- Not modelled: the statistical models, whose floating-point estimates have no exact law to state;
-- the statistics of a team's form; the committee's review and the other language-model calls; the
-- mappings and queries of the repositories, which a database runs; the adapters of the providers,
-- the dashboard, the HTTP interface, the migrations and the scripts, which are input and output.
pub mod Prelude
pub mod Domain
pub mod Gates
pub mod Odds
pub mod Picks
pub mod Quota
pub mod Settlement
pub mod Workers
