-- ===== src/Odds/Matching/Unique.antt =====
-- An odds event is matched only where one candidate fits.
use football_agent.Prelude.{
  ℕ, String, Bool, true, ◌&&◌, Option, some, List, [], ◌∷◌, ◌≡◌, ◌↔◌, ◌≤◌, leb, code_eq, dist, keep,
  All, arith, refl, Bool-cases, inl, inr, ◌⊎◌,
}
use football_agent.Odds.Matching.Sole.{IsSole, keep-IsSole, keep_empty}
use football_agent.Odds.TeamNames.{Name, normalize_team_name, name_in, code_eq_iff}
use football_agent.Odds.Matching.{
  MatchOutcome, MatchCandidate, resolve, is_hit, result_of, match_event,
}

-- The name is one of the list.
abbrev pub Among : Name → List Name → Type 0
Among n [] = ⊥
Among n (m ∷ ms) = (n ≡ m) ⊎ Among n ms

name_in_iff : (n : Name) (ms : List Name) → (name_in n ms ≡ true) ↔ Among n ms
name_in_iff n [] = (λ h. cc h, λ h. absurd h)
name_in_iff n (m ∷ ms) = (
  λ h. elim (Bool-cases (code_eq n m)) [
    | inl q ↦ inl ((code_eq_iff n m).0 q)
    | inr q ↦ inr ((name_in_iff n ms).0 (rw q at h))
  ],
  λ s. elim s [
    | inl q ↦ rw ((code_eq_iff n m).1 q) refl
    | inr q ↦ elim (Bool-cases (code_eq n m)) [
      | inl r ↦ rw r refl
      | inr r ↦ rw r ((name_in_iff n ms).1 q)
    ]
  ],
)

-- A candidate fits an event when the event's normalised names are accepted for its own, the home
-- team's for the home team and the other for the other, and the kick-offs are near.
abbrev pub Fits : String → String → ℕ → ℕ → Option (Name → List Name) → MatchCandidate → Type 0
Fits home away commence_time tolerance alias_names c =
    Among (normalize_team_name home) (resolve alias_names c.home_norm)
    × Among (normalize_team_name away) (resolve alias_names c.away_norm)
    × (dist c.kickoff commence_time ≤ tolerance)

pub and_parts : (a b c : Bool) → (a && b && c) ≡ true → (a ≡ true) × (b ≡ true) × (c ≡ true)
and_parts a b c h = ground arith

is_hit_iff :
    (home away : String) (commence_time tolerance : ℕ) (alias_names : Option (Name → List Name))
    (c : MatchCandidate)
    → (is_hit
          (normalize_team_name home)
          (normalize_team_name away)
          commence_time
          tolerance
          alias_names
          c
        ≡ true)
      ↔ Fits home away commence_time tolerance alias_names c
is_hit_iff home away t tol al c =
    let h = name_in_iff (normalize_team_name home) (resolve al c.home_norm) in
    let a = name_in_iff (normalize_team_name away) (resolve al c.away_norm) in
    let n : (leb (dist c.kickoff t) tol ≡ true) ↔ (dist c.kickoff t ≤ tol) = ground arith in
    (
      λ k. let (x, y, z) = and_parts _ _ _ k in (h.0 x, a.0 y, n.0 z),
      λ k. rw (h.1 k.0, a.1 k.1) (n.1 k.2),
    )

sole_of :
    (hits : List MatchCandidate) (f : ℕ)
    → ((result_of hits).fixture_id ≡ some f)
      ↔ ((c : MatchCandidate) × (hits ≡ c ∷ []) × (c.fixture_id ≡ f))
sole_of [] f = (λ h. absurd (cc h), λ (c, e, k). absurd (cc e))
sole_of (c ∷ []) f = (λ h. (c, refl, cc h), λ (d, e, k). ground arith)
sole_of (c ∷ d ∷ cs) f = (λ h. absurd (cc h), λ (x, e, k). absurd (cc e))

unmatched_of :
    (hits : List MatchCandidate) → ((result_of hits).outcome ≡ MatchOutcome.unmatched) ↔ (hits ≡ [])
unmatched_of hits = ground arith

-- The matching never guesses: it names a fixture exactly when one candidate of the list fits the
-- event and no other does, and then that candidate's; and it reports the event as unmatched
-- exactly when none fits.
pub match_event_unique :
    (home away : String) (commence_time : ℕ) (candidates : List MatchCandidate) (tolerance : ℕ)
    (alias_names : Option (Name → List Name))
    → let r = match_event home away commence_time candidates tolerance alias_names in
      let P = Fits home away commence_time tolerance alias_names in
      ((f : ℕ)
        → (r.fixture_id ≡ some f)
          ↔ ((c : MatchCandidate) × IsSole P candidates c × (c.fixture_id ≡ f)))
      × ((r.outcome ≡ MatchOutcome.unmatched) ↔ All (λ c. ¬ P c) candidates)
unfolding match_event
match_event_unique home away t cs tol al =
    let P = Fits home away t tol al in
    let p = is_hit (normalize_team_name home) (normalize_team_name away) t tol al in
    let decides = is_hit_iff home away t tol al in
    (
      λ f. (
        λ h.
            let (c, e, k) = (sole_of (keep p cs) f).0 h in
            (c, (keep-IsSole p P decides cs c).0 e, k),
        λ (c, s, k). (sole_of (keep p cs) f).1 (c, (keep-IsSole p P decides cs c).1 s, k),
      ),
      (
        λ h. (keep_empty p P decides cs).0 ((unmatched_of (keep p cs)).0 h),
        λ h. (unmatched_of (keep p cs)).1 ((keep_empty p P decides cs).1 h),
      ),
    )
