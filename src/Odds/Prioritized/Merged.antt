-- ===== src/Odds/Prioritized/Merged.antt =====
-- The events of two providers, merged by their source and id.
use football_agent.Prelude.{
  ℕ, String, false, Option, none, some, List, [], ◌∷◌, ◌≡◌, if◌then◌else◌, All, refl, ◌∙◌, ap,
}
use football_agent.Prelude.Number.{Number}
use football_agent.Odds.Schema.{ProviderFixtureOdds, ProviderOddsTarget, Reply, answered, failed}
use football_agent.Prelude.TextDict.{TextDict}
use football_agent.Odds.Prioritized.{Query, OddsSource, attempt, primary_label, fallback_label}
use football_agent.Odds.Prioritized.Targeted.{
  same_key, matched_fixture_ids, uncovered, ask_fallback, get_odds_for_fixtures,
}

module _ {F : Type 0} where
  -- The first event with the key of this one.
  abbrev pub first_like :
      ProviderFixtureOdds F → List (ProviderFixtureOdds F) → Option (ProviderFixtureOdds F)
  first_like e [] = none
  first_like e (x ∷ xs) = if same_key e x then some x else first_like e xs

  -- No two events have one key.
  abbrev pub IsDistinct : List (ProviderFixtureOdds F) → Type 0
  IsDistinct [] = Unit
  IsDistinct (x ∷ xs) = All (λ y. same_key x y ≡ false) xs × IsDistinct xs

  abbrev or_else :
      Option (ProviderFixtureOdds F)
      → Option (ProviderFixtureOdds F)
      → Option (ProviderFixtureOdds F)
  or_else none o = o
  or_else (some x) o = some x

module _ {F : Type 0} where
  -- An exception counts as an empty answer.
  abbrev events_in : Reply (List (ProviderFixtureOdds F)) → List (ProviderFixtureOdds F)
  events_in (answered es) = es
  events_in (failed why) = []

  attempt-events_in :
      (label : String) (errors : TextDict ℕ) (reply : Reply (List (ProviderFixtureOdds F)))
      → (attempt label errors reply).results ≡ events_in reply
  attempt-events_in label errors (answered es) = refl
  attempt-events_in label errors (failed why) = refl

module _ {W F : Type 0} where
  -- A call of a provider's targeted odds about some targets, and none about no targets: the events
  -- and the world after it.
  abbrev pub asked :
      OddsSource W F → Query → List ProviderOddsTarget → W → List (ProviderFixtureOdds F) × W
  asked source q [] w = ([], w)
  asked source q (t ∷ ts) w =
      let (reply, w') = source.get_odds_for_fixtures q (t ∷ ts) w in (events_in reply, w')

  ask_fallback-asked :
      (fallback : OddsSource W F) (q : Query) (missing : List ProviderOddsTarget)
      (errors : TextDict ℕ) (w : W)
      → let b = ask_fallback fallback q missing errors w in
        (b.events ≡ (asked fallback q missing w).0) × (b.world ≡ (asked fallback q missing w).1)
  unfolding ask_fallback
  ask_fallback-asked fallback q [] errors w = (refl, refl)
  ask_fallback-asked fallback q (t ∷ ts) errors w = (
    attempt-events_in fallback_label errors (fallback.get_odds_for_fixtures q (t ∷ ts) w).0,
    refl,
  )

module _ {W F : Type 0} ⦃f : Number F⦄ (primary fallback : OddsSource W F) where
  -- The targets that the primary provider leaves, and what the fallback is asked about them.
  abbrev pub left_over : Query → List ProviderOddsTarget → W → List ProviderOddsTarget
  left_over q ts w = uncovered (matched_fixture_ids (asked primary q ts w).0 ts) ts

  abbrev pub fallback_asked : Query → List ProviderOddsTarget → W → List (ProviderFixtureOdds F) × W
  fallback_asked q ts w = asked fallback q (left_over q ts w) (asked primary q ts w).1

  -- What the two parts of a call about some targets come to.
  pub both_asked :
      (q : Query) (t : ProviderOddsTarget) (ts : List ProviderOddsTarget) (w : W)
      → let (reply, w') = primary.get_odds_for_fixtures q (t ∷ ts) w in
        let a = attempt primary_label [] reply in
        let b =
          ask_fallback fallback q
            (uncovered (matched_fixture_ids a.results (t ∷ ts)) (t ∷ ts))
            a.errors
            w' in
        (a.results ≡ (asked primary q (t ∷ ts) w).0)
        × (b.events ≡ (fallback_asked q (t ∷ ts) w).0)
        × (b.world ≡ (fallback_asked q (t ∷ ts) w).1)
  both_asked q t ts w =
      let (reply, w') = primary.get_odds_for_fixtures q (t ∷ ts) w in
      let a = attempt primary_label [] reply in
      let same = attempt-events_in primary_label [] reply in
      let b =
        ask_fallback-asked fallback q (uncovered (matched_fixture_ids a.results (t ∷ ts)) (t ∷ ts))
          a.errors w' in
      let moved =
        ap (λ es. asked fallback q (uncovered (matched_fixture_ids es (t ∷ ts)) (t ∷ ts)) w')
          same in
      (same, b.0 ∙ ap (λ r. r.0) moved, b.1 ∙ ap (λ r. r.1) moved)
