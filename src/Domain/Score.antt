-- ===== src/Domain/Score.antt =====
-- app/models/value_objects/score.py: goals scored, and the 1X2 result they make.
use football_agent.Prelude.{ℕ, ◌+◌, Bool, ◌&&◌, Option, none, some, ltb, ◌==◌, if◌then◌else◌}
use football_agent.Prelude.Int.{ℤ, pos, pos_part, ltb_ℤ}
use mathlib.Core.Bool.{◌||◌}

-- The three outcomes from the home team's perspective.
pub data MatchResult : Type 0 where
  home draw away : MatchResult

pub record Score : Type 0 where
  pub home : ℕ
  pub away : ℕ

abbrev pub score_of : ℕ → ℕ → Score
score_of h a = record { home = h; away = a }

-- `Score(home, away)` on any integers; `none` is the ValueError.
unfoldable pub make_score : ℤ → ℤ → Option Score
make_score h a =
    if ltb_ℤ h (pos 0) || ltb_ℤ a (pos 0) then none else some (score_of (pos_part h) (pos_part a))

unfoldable pub result : Score → MatchResult
result s =
    if ltb s.away s.home
    then MatchResult.home
    else if ltb s.home s.away
    then MatchResult.away
    else MatchResult.draw

abbrev pub total_goals : Score → ℕ
total_goals s = s.home + s.away

abbrev pub both_teams_scored : Score → Bool
both_teams_scored s = ltb 0 s.home && ltb 0 s.away

abbrev pub is_draw : Score → Bool
is_draw s = s.home == s.away
