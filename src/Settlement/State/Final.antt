-- ===== src/Settlement/State/Final.antt =====
-- What makes a fixture settleable.
use football_agent.Prelude.{
  ℕ, String, List, [], ◌∷◌, Bool, true, false, Option, none, some, ◌≡◌, ◌↔◌, refl, inl, inr, ◌⊎◌,
  arith, not, if◌then◌else◌, opt_str_eq, strip, upper, codes, code_eq, code_in, Bool-cases, is_some,
  eq_iff, sym, ap, Option-cases,
}
use mathlib.Core.Option.{some-injective}
use football_agent.Prelude.Int.{ℤ, pos, negsuc}
use football_agent.Domain.Score.{Score, score_of, make_score}
use football_agent.Domain.Entities.{Fixture, ProviderFixture}
use football_agent.Settlement.State.{
  FixtureLifecycle, AuthoritativeSettlementState, is_final, can_settle, status_lifecycle,
  lifecycle_of, score_pair, refreshed_state, authoritative_state,
}

code_eq→≡ : (s t : List ℕ) → code_eq s t ≡ true → s ≡ t
code_eq→≡ [] [] h = refl
code_eq→≡ [] (b ∷ t) h = cc
code_eq→≡ (a ∷ s) [] h = cc
code_eq→≡ (a ∷ s) (b ∷ t) h = ground (arith, code_eq→≡ s t)

is_final-if :
    (b : Bool) (l m : FixtureLifecycle)
    → is_final (if b then l else m) ≡ (if b then is_final l else is_final m)
is_final-if true l m = refl
is_final-if false l m = refl

if_same : (b : Bool) → (if b then false else false) ≡ false
if_same true = refl
if_same false = refl

-- A status is read as final just for these three texts.
status_lifecycle-final :
    (s : List ℕ) → is_final (status_lifecycle s) ≡ code_in s ("FT" ∷ "AET" ∷ "PEN" ∷ [])
unfolding status_lifecycle
status_lifecycle-final s = elim (Bool-cases (code_eq s (codes "FT"))) [
  | inl e ↦ rw (code_eq→≡ s (codes "FT") e) refl
  | inr e1 ↦ elim (Bool-cases (code_eq s (codes "AET"))) [
    | inl e ↦ rw (code_eq→≡ s (codes "AET") e) refl
    | inr e2 ↦ elim (Bool-cases (code_eq s (codes "PEN"))) [
      | inl e ↦ rw (code_eq→≡ s (codes "PEN") e) refl
      | inr e3 ↦ rw (e1, e2, e3) (simp (is_final-if, if_same))
    ]
  ]
]

-- A raw status is final exactly when, in upper case and without the white space round it, it is
-- `FT`, `AET` or `PEN`.
pub lifecycle_of-final :
    (raw : String)
    → is_final (lifecycle_of raw) ≡ code_in (upper (strip raw)) ("FT" ∷ "AET" ∷ "PEN" ∷ [])
unfolding lifecycle_of
lifecycle_of-final raw = status_lifecycle-final (upper (strip raw))

-- The two counts that a report gives are those of the score.
abbrev pub Counts : Option ℤ → Option ℤ → Score → Type 0
Counts home away score = (home ≡ some (pos score.home)) × (away ≡ some (pos score.away))

score_pair_iff :
    (home away : Option ℤ) (score : Score)
    → (score_pair home away ≡ some score) ↔ Counts home away score
unfolding score_pair make_score
score_pair_iff none away score = (λ h. absurd (cc h), λ h. absurd (cc h.0))
score_pair_iff (some h) none score = (λ e. absurd (cc e), λ e. absurd (cc e.1))
score_pair_iff (some (pos h)) (some (pos a)) score = (
  λ e. let e' : score_of h a ≡ score = ground arith in rw⁻¹ e' (refl, refl),
  λ e.
      let x : pos h ≡ pos score.home = cc e.0 in
      let y : pos a ≡ pos score.away = cc e.1 in
      let x' : h ≡ score.home = cc x in let y' : a ≡ score.away = cc y in ground arith,
)
score_pair_iff (some (pos h)) (some (negsuc a)) score =
    (λ e. absurd (ground arith), λ e. absurd (cc e.1))
score_pair_iff (some (negsuc h)) (some a) score = (λ e. absurd (ground arith), λ e. absurd (cc e.0))

-- What a settleable state of a fixture rests on: a report of that very fixture, in a final
-- lifecycle, whose regulation-time counts are those of the score; the aggregate goals serve only
-- for FT, and only where the regulation-time counts are of no score.
pub Grounds : Fixture → ProviderFixture → Score → Type 0
Grounds fixture refreshed score =
    (fixture.external_id ≡ some refreshed.provider_id)
    × (is_final (lifecycle_of refreshed.status) ≡ true)
    × (Counts refreshed.regulation_home_score refreshed.regulation_away_score score
        ⊎ ((lifecycle_of refreshed.status ≡ FixtureLifecycle.ft)
            × ((s : Score)
                → ¬ Counts refreshed.regulation_home_score refreshed.regulation_away_score s)
            × Counts refreshed.home_score refreshed.away_score score))

-- The same through the functions of the model.
Reads : Fixture → ProviderFixture → Score → Type 0
Reads fixture refreshed score =
    (opt_str_eq (some refreshed.provider_id) fixture.external_id ≡ true)
    × (is_final (lifecycle_of refreshed.status) ≡ true)
    × ((score_pair refreshed.regulation_home_score refreshed.regulation_away_score ≡ some score)
        ⊎ ((lifecycle_of refreshed.status ≡ FixtureLifecycle.ft)
            × (score_pair refreshed.regulation_home_score refreshed.regulation_away_score ≡ none)
            × (score_pair refreshed.home_score refreshed.away_score ≡ some score)))

opt_str_eq_iff : (t : String) (o : Option String) → (opt_str_eq (some t) o ≡ true) ↔ (o ≡ some t)
opt_str_eq_iff t none = (λ h. absurd (cc h), λ h. absurd (cc h))
opt_str_eq_iff t (some u) =
    (λ h. ap some (sym ((eq_iff t u).0 h)), λ h. (eq_iff t u).1 (sym (some-injective _ _ h)))

no_score_iff :
    (home away : Option ℤ) → (score_pair home away ≡ none) ↔ ((s : Score) → ¬ Counts home away s)
no_score_iff home away = (
  λ e s c. let is = (score_pair_iff home away s).1 c in absurd (cc (e, is)),
  λ f. elim (Option-cases (score_pair home away)) [
    | inl e ↦ e
    | inr (s, e) ↦ absurd (f s ((score_pair_iff home away s).0 e))
  ],
)

Reads-iff :
    (fixture : Fixture) (r : ProviderFixture) (score : Score)
    → Reads fixture r score ↔ Grounds fixture r score
unfolding Reads Grounds
Reads-iff fixture r score =
    let same = opt_str_eq_iff r.provider_id fixture.external_id in
    let given = score_pair_iff r.regulation_home_score r.regulation_away_score score in
    let absent = no_score_iff r.regulation_home_score r.regulation_away_score in
    let goals = score_pair_iff r.home_score r.away_score score in
    (
      λ (a, b, c). (
        same.0 a,
        b,
        elim c [ inl x ↦ inl (given.0 x) | inr (x, y, z) ↦ inr (x, absent.0 y, goals.0 z) ],
      ),
      λ (a, b, c). (
        same.1 a,
        b,
        elim c [ inl x ↦ inl (given.1 x) | inr (x, y, z) ↦ inr (x, absent.1 y, goals.1 z) ],
      ),
    )

refreshed_state-Reads :
    (fixture : Fixture) (r : ProviderFixture) (score : Score)
    → (refreshed_state fixture r).regulation_score ≡ some score
    → Reads fixture r score
unfolding refreshed_state Reads
refreshed_state-Reads fixture r score h = ground arith

abbrev pub StateOf : Fixture → Option ProviderFixture → Score → Type 0
StateOf fixture refreshed score =
    (r : ProviderFixture) × (refreshed ≡ some r) × Grounds fixture r score

Reads-refreshed_state :
    (fixture : Fixture) (r : ProviderFixture) (score : Score)
    → Reads fixture r score
    → (refreshed_state fixture r).regulation_score ≡ some score
unfolding refreshed_state Reads
Reads-refreshed_state fixture r score (same, final, inl given) = ground arith
Reads-refreshed_state fixture r score (same, final, inr (plain, absent, goals)) = ground arith

-- A state carries a regulation-time score exactly when the provider returned this very fixture in
-- a final lifecycle and the score has its regulation-time counts of home and away goals, or, for FT
-- where these are of no score, its aggregate counts.
pub regulation_score_iff :
    (fixture : Fixture) (refreshed : Option ProviderFixture) (score : Score)
    → ((authoritative_state fixture refreshed).regulation_score ≡ some score)
      ↔ StateOf fixture refreshed score
unfolding authoritative_state
regulation_score_iff fixture none score = (λ h. cc, λ (r, e, _). cc)
regulation_score_iff fixture (some r) score = (
  λ h. (r, refl, (Reads-iff fixture r score).0 (refreshed_state-Reads fixture r score h)),
  λ (r', e, g).
      Reads-refreshed_state fixture r score
        ((Reads-iff fixture r score).1 (rw (some-injective _ _ e) g)),
)

-- What the settlement loop relies on: a state that settles has a score and a basis, and any other
-- state has a reason.
pub record IsCoherent (s : AuthoritativeSettlementState) : Type 0 where
  pub scored : can_settle s ≡ is_some s.regulation_score
  pub based : is_some s.score_basis ≡ is_some s.regulation_score
  pub explained : is_some s.reason ≡ not (is_some s.regulation_score)

-- Every state that is made is settleable just when it has a score, has a basis with a score, and
-- gives a reason without one.
pub authoritative_state-IsCoherent :
    (fixture : Fixture) (refreshed : Option ProviderFixture)
    → IsCoherent (authoritative_state fixture refreshed)
unfolding authoritative_state refreshed_state
authoritative_state-IsCoherent fixture none = record {
  scored = refl;
  based = refl;
  explained = refl;
}
authoritative_state-IsCoherent fixture (some r) = ground arith
