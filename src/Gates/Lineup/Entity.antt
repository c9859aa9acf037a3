-- ===== src/Gates/Lineup/Entity.antt =====
-- app/models/entities/lineup.py, `Lineup`, with the name and the evidence of its source
-- (app/models/value_objects/lineup.py). `len(set(xs))` is the length of the list without its
-- repetitions.
use mathlib.Core.Path.{subst}
use mathlib.Core.Option.{some-injective}
use football_agent.Prelude.{
  ℕ, String, Bool, true, false, ◌||◌, Option, none, some, not, List, [], ◌∷◌, ◌≡◌, refl, sym, ap,
  ◌∙◌, ◌≤◌, ◌==◌, ltb, any, length, contains, if◌then◌else◌, arith, All, Bool-cases, inl, inr,
  ==_iff, guard-some,
}
use football_agent.Domain.Entities.{Instant}
use football_agent.Gates.Recommendation.{EvidenceLevel}

pub data LineupStatus : Type 0 where
  predicted confirmed : LineupStatus

pub record Lineup : Type 0 where
  pub fixture_id : ℕ
  pub team_id : ℕ
  pub status : LineupStatus
  pub source_name : String
  pub source_evidence : EvidenceLevel
  pub starting : List ℕ
  pub substitutes : List ℕ
  pub captured_at : Instant
  pub source_updated_at : Option Instant

abbrev pub is_confirmed : Lineup → Bool
is_confirmed l = elim l.status [ LineupStatus.confirmed ↦ true | LineupStatus.predicted ↦ false ]

-- `set(xs)`
abbrev pub set_of : List ℕ → List ℕ
set_of [] = []
set_of (x ∷ xs) = let rest = set_of xs in if contains x rest then rest else x ∷ rest

abbrev pub late_source : Option Instant → Instant → Bool
late_source none captured = false
late_source (some at) captured = not at.aware || ltb captured.tick at.tick

-- `__post_init__`
unfoldable pub make_lineup : Lineup → Option Lineup
make_lineup l =
    if not (length l.starting == 11)
    then none
    else if not (length (set_of l.starting) == length l.starting)
    then none
    else if not (length (set_of l.substitutes) == length l.substitutes)
    then none
    else if any (λ p. contains p l.substitutes) l.starting
    then none
    else if not l.captured_at.aware
    then none
    else if late_source l.source_updated_at l.captured_at
    then none
    else some l

-- No entry occurs again later.
abbrev pub AllDistinct : List ℕ → Type 0
AllDistinct [] = Unit
AllDistinct (x ∷ xs) = (contains x xs ≡ false) × AllDistinct xs

pub record IsLineup (l : Lineup) : Type 0 where
  pub eleven : length l.starting ≡ 11
  pub starters : AllDistinct l.starting
  pub bench : AllDistinct l.substitutes
  pub apart : All (λ p. contains p l.substitutes ≡ false) l.starting
  pub timed : l.captured_at.aware ≡ true

length-set_of-le : (xs : List ℕ) → length (set_of xs) ≤ length xs
length-set_of-le [] = omega arith
length-set_of-le (x ∷ xs) = ground (arith, length-set_of-le xs)

any-set_of : (p : ℕ) (xs : List ℕ) → contains p (set_of xs) ≡ contains p xs
any-set_of p [] = refl
any-set_of p (x ∷ xs) =
    let ih = any-set_of p xs in
    elim (Bool-cases (contains x (set_of xs))) [
      | inl e ↦ elim (Bool-cases (p == x)) [
        | inl q ↦
            let there : contains p xs ≡ true =
              sym ih ∙ ap (λ n. contains n (set_of xs)) ((==_iff p x).0 q) ∙ e in
            rw (e, ih, there) (ground arith)
        | inr q ↦ rw (e, ih) (ground arith)
      ]
      | inr e ↦ rw (e, ih) refl
    ]

-- A list as long as its set has no repetition.
set_of-AllDistinct : (xs : List ℕ) → length (set_of xs) ≡ length xs → AllDistinct xs
set_of-AllDistinct [] h = tt
set_of-AllDistinct (x ∷ xs) h = elim (Bool-cases (contains x (set_of xs))) [
  | inl e ↦ absurd (ground (arith, length-set_of-le xs, e, h))
  | inr e ↦ (sym (any-set_of x xs) ∙ e, set_of-AllDistinct xs (ground (arith, e, h)))
]

any-All : (f : ℕ → Bool) (xs : List ℕ) → any f xs ≡ false → All (λ p. f p ≡ false) xs
any-All f [] h = tt
any-All f (x ∷ xs) h = (ground (arith, h), any-All f xs (ground (arith, h)))

-- A lineup that is made has eleven starters, no player is in it twice, and its time of capture has
-- a zone.
pub make_lineup-IsLineup : (raw l : Lineup) → make_lineup raw ≡ some l → IsLineup l
unfolding make_lineup
make_lineup-IsLineup raw l h =
    let g1 = guard-some (not (length raw.starting == 11)) _ l h in
    let g2 = guard-some (not (length (set_of raw.starting) == length raw.starting)) _ l g1.1 in
    let g3 =
      guard-some (not (length (set_of raw.substitutes) == length raw.substitutes)) _ l g2.1 in
    let g4 = guard-some (any (λ p. contains p raw.substitutes) raw.starting) _ l g3.1 in
    let g5 = guard-some (not raw.captured_at.aware) _ l g4.1 in
    let g6 = guard-some (late_source raw.source_updated_at raw.captured_at) _ l g5.1 in
    let made : IsLineup raw = record {
      eleven = ground (arith, g1.0);
      starters = set_of-AllDistinct raw.starting (ground (arith, g2.0));
      bench = set_of-AllDistinct raw.substitutes (ground (arith, g3.0));
      apart = any-All (λ p. contains p raw.substitutes) raw.starting g4.0;
      timed = ground (arith, g5.0);
    } in
    subst IsLineup (some-injective _ _ g6.1) made
