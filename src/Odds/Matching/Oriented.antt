-- ===== src/Odds/Matching/Oriented.antt =====
-- An odds event is matched to a fixture only the right way round.
use football_agent.Prelude.{
  ℕ, String, true, ◌&&◌, some, List, [], ◌∷◌, ◌≡◌, ◌↔◌, ◌≤◌, leb, code_eq, dist, keep, All, arith,
  ◌++◌, refl, Bool, false, none, Option, if◌then◌else◌, Bool-cases, inl, inr, ap, ◌∙◌, sym,
}
use football_agent.Prelude.Dict.{Dict, lookup}
use football_agent.Domain.Entities.{Fixture}
use football_agent.Odds.TeamNames.{normalize_team_name, code_eq_iff}
use football_agent.Odds.Matching.{
  OddsEvent, NamedFixture, named_by, named_fixtures, is_reversed, is_oriented, unless_reversed,
  pick_hit, match_odds_event_to_fixture, minutes,
}
use football_agent.Odds.Matching.Sole.{IsSole, keep-IsSole, keep_empty}
use football_agent.Odds.Matching.Unique.{and_parts}

-- The event is of teams of these names, first and second, near the fixture's kick-off.
abbrev pub Names : OddsEvent → ℕ → Fixture → String → String → Type 0
Names event tolerance f first second =
    (normalize_team_name event.home_team ≡ normalize_team_name first)
    × (normalize_team_name event.away_team ≡ normalize_team_name second)
    × (dist f.kickoff.tick event.commence_time ≤ tolerance)

-- Both teams of the fixture have a name, and the event names its home team first, or its away
-- team first.
abbrev pub Oriented : OddsEvent → ℕ → Dict String → Fixture → Type 0
Oriented event tolerance names f =
    (home : String) × (away : String) × (lookup f.home_team_id names ≡ some home)
    × (lookup f.away_team_id names ≡ some away)
    × Names event tolerance f home away

abbrev pub Reversed : OddsEvent → ℕ → Dict String → Fixture → Type 0
Reversed event tolerance names f =
    (home : String) × (away : String) × (lookup f.home_team_id names ≡ some home)
    × (lookup f.away_team_id names ≡ some away)
    × Names event tolerance f away home

Names-iff :
    (event : OddsEvent) (tolerance : ℕ) (first second : String) (f : Fixture)
    → ((code_eq (normalize_team_name event.home_team) (normalize_team_name first)
          && code_eq (normalize_team_name event.away_team) (normalize_team_name second)
          && leb (dist f.kickoff.tick event.commence_time) tolerance)
        ≡ true)
      ↔ Names event tolerance f first second
Names-iff event tol first second f =
    let h = code_eq_iff (normalize_team_name event.home_team) (normalize_team_name first) in
    let a = code_eq_iff (normalize_team_name event.away_team) (normalize_team_name second) in
    let d : (leb (dist f.kickoff.tick event.commence_time) tol ≡ true)
        ↔ (dist f.kickoff.tick event.commence_time ≤ tol) =
      ground arith in
    (
      λ k. let (x, y, z) = and_parts _ _ _ k in (h.0 x, a.0 y, d.0 z),
      λ k. rw (h.1 k.0, a.1 k.1) (d.1 k.2),
    )

-- A test of a fixture by its names, which fails where one is missing.
abbrev named_test : (NamedFixture → Bool) → Fixture → Option String → Option String → Bool
named_test p f none away = false
named_test p f (some home) none = false
named_test p f (some home) (some away) =
    p (record { fixture = f; home = normalize_team_name home; away = normalize_team_name away })

abbrev fixtures_in : List NamedFixture → List Fixture
fixtures_in [] = []
fixtures_in (n ∷ ns) = n.fixture ∷ fixtures_in ns

module _ (p : NamedFixture → Bool) (names : Dict String) where
  abbrev test : Fixture → Bool
  test f = named_test p f (lookup f.home_team_id names) (lookup f.away_team_id names)

  fixtures_in-keep :
      (f : Fixture) (home away : Option String) (rest : List NamedFixture) (fs : List Fixture)
      → fixtures_in (keep p rest) ≡ fs
      → fixtures_in (keep p (named_by f home away ++ rest))
        ≡ (if named_test p f home away then f ∷ fs else fs)
  fixtures_in-keep f none away rest fs h = h
  fixtures_in-keep f (some home) none rest fs h = h
  fixtures_in-keep f (some home) (some away) rest fs h =
      let n : NamedFixture = record {
        fixture = f;
        home = normalize_team_name home;
        away = normalize_team_name away;
      } in
      elim (Bool-cases (p n)) [ inl e ↦ rw e (ap (λ r. f ∷ r) h) | inr e ↦ rw e h ]

  named_fixtures_lem :
      (fs : List Fixture) → fixtures_in (keep p (named_fixtures names fs)) ≡ keep test fs
  named_fixtures_lem [] = refl
  named_fixtures_lem (f ∷ fs) =
      fixtures_in-keep f (lookup f.home_team_id names) (lookup f.away_team_id names)
        (named_fixtures names fs) (keep test fs) (named_fixtures_lem fs)

module _ (event : OddsEvent) (tol : ℕ) (f : Fixture) where
  oriented_iff :
      (home away : Option String)
      → (named_test (is_oriented event tol) f home away ≡ true)
        ↔ ((h : String) × (a : String) × (home ≡ some h) × (away ≡ some a) × Names event tol f h a)
  oriented_iff none away = (λ h. absurd (cc h), λ (x, y, e, k, l). absurd (cc e))
  oriented_iff (some home) none = (λ h. absurd (cc h), λ (x, y, e, k, l). absurd (cc k))
  oriented_iff (some home) (some away) =
      let n = Names-iff event tol home away f in
      (
        λ h. (home, away, refl, refl, n.0 h),
        λ (x, y, e, k, l). n.1 (
            let e' : x ≡ home = cc e in
            let k' : y ≡ away = cc k in
            (l.0 ∙ ap normalize_team_name e', l.1 ∙ ap normalize_team_name k', l.2)),
      )

  reversed_iff :
      (home away : Option String)
      → (named_test (is_reversed event tol) f home away ≡ true)
        ↔ ((h : String) × (a : String) × (home ≡ some h) × (away ≡ some a) × Names event tol f a h)
  reversed_iff none away = (λ h. absurd (cc h), λ (x, y, e, k, l). absurd (cc e))
  reversed_iff (some home) none = (λ h. absurd (cc h), λ (x, y, e, k, l). absurd (cc k))
  reversed_iff (some home) (some away) =
      let n = Names-iff event tol away home f in
      (
        λ h. (home, away, refl, refl, n.0 h),
        λ (x, y, e, k, l). n.1 (
            let e' : x ≡ home = cc e in
            let k' : y ≡ away = cc k in
            (l.0 ∙ ap normalize_team_name k', l.1 ∙ ap normalize_team_name e', l.2)),
      )

picked_of :
    (event : OddsEvent) (names : Dict String) (turned hits : List NamedFixture) (f : Fixture)
    → ((unless_reversed turned (pick_hit event names hits)).0 ≡ some f)
      ↔ ((fixtures_in turned ≡ []) × (fixtures_in hits ≡ f ∷ []))
picked_of event names [] [] f = (λ h. absurd (cc h), λ (t, e). absurd (cc e))
picked_of event names [] (n ∷ []) f = (λ h. (refl, cc h), λ (t, e). cc e)
picked_of event names [] (n ∷ m ∷ ns) f = (λ h. absurd (cc h), λ (t, e). absurd (cc e))
picked_of event names (r ∷ rs) hits f = (λ h. absurd (cc h), λ (t, k). absurd (cc t))

-- A fixture is returned exactly when none of the fixtures whose teams both have a name in the
-- dict fits the event with home and away exchanged, and this one alone of them fits it as it is.
pub match_odds_event-Oriented :
    (event : OddsEvent) (fixtures : List Fixture) (names : Dict String) (minute_tolerance : ℕ)
    (f : Fixture)
    → let tolerance = minutes minute_tolerance in
      ((match_odds_event_to_fixture event fixtures names minute_tolerance).0 ≡ some f) ↔ (
        All (λ g. ¬ Reversed event tolerance names g) fixtures
        × IsSole (Oriented event tolerance names) fixtures f)
unfolding match_odds_event_to_fixture
match_odds_event-Oriented event fixtures names mt f =
    let tol = minutes mt in
    let cs = named_fixtures names fixtures in
    let rev =
      keep_empty (test (is_reversed event tol) names) (Reversed event tol names)
        (λ g. reversed_iff event tol g (lookup g.home_team_id names) (lookup g.away_team_id names))
        fixtures in
    let one =
      keep-IsSole (test (is_oriented event tol) names) (Oriented event tol names)
        (λ g. oriented_iff event tol g (lookup g.home_team_id names) (lookup g.away_team_id names))
        fixtures f in
    let turned = named_fixtures_lem (is_reversed event tol) names fixtures in
    let hits = named_fixtures_lem (is_oriented event tol) names fixtures in
    let p =
      picked_of event names (keep (is_reversed event tol) cs) (keep (is_oriented event tol) cs) f in
    (
      λ h. (rev.0 (sym turned ∙ (p.0 h).0), one.0 (sym hits ∙ (p.0 h).1)),
      λ (t, s). p.1 (turned ∙ rev.1 t, hits ∙ one.1 s),
    )
