-- ===== src/Quota/RequestLimiter.antt =====
-- app/providers/api_football_rate_limit.py: `ApiFootballRequestLimiter`. Clock readings and
-- durations are counted in microseconds. A delay `max(0, x - now)` is the truncated `x - now`.
pub mod Rounds
pub mod Trace
pub mod Budgets
pub mod Window
pub mod Waiting
pub mod Circuit
use football_agent.Prelude.{
  ℕ, zero, suc, String, Bool, true, false, ◌||◌, Option, none, some, List, [], ◌∷◌, ◌++◌, ◌+◌, ◌-◌,
  ◌*◌, min, max, ltb, leb, ◌==◌, if◌then◌else◌, length,
}
use football_agent.Prelude.Int.{ℤ, pos, negsuc, pos_part, ltb_ℤ}
use football_agent.Prelude.Text.Numerals.{int_of}

abbrev pub seconds : ℕ → ℕ
seconds n = n * 1000000

pub record RequestLimiter : Type 0 where
  pub min_interval : ℕ
  pub minute_budget : ℕ
  pub daily_budget : ℕ
  pub run_budget : ℕ
  pub cooldown : ℕ
  pub minute_calls : List ℕ
  pub day : ℕ
  pub daily_used : ℕ
  pub run_used : ℕ
  pub last_call_at : Option ℕ
  pub server_daily_limit : Option ℕ
  pub server_minute_limit : Option ℕ
  pub server_daily_remaining : Option ℕ
  pub server_minute_remaining : Option ℕ
  pub server_minute_reset_at : Option ℕ
  pub consecutive_limits : ℕ
  pub circuit_until : ℕ

-- The arguments of the constructor; the intervals in microseconds.
pub record RequestLimits : Type 0 where
  pub min_interval_seconds : ℤ
  pub per_minute_budget : ℤ
  pub daily_budget : ℤ
  pub run_budget : ℤ
  pub circuit_cooldown_seconds : ℤ

-- `none` is the ValueError; `today` is what `utc_day` answers.
unfoldable pub make_limiter : RequestLimits → ℕ → Option RequestLimiter
make_limiter l today =
    if ltb_ℤ l.min_interval_seconds (pos 0)
      || ltb_ℤ l.per_minute_budget (pos 1)
      || ltb_ℤ l.daily_budget (pos 1)
      || ltb_ℤ l.run_budget (pos 1)
      || ltb_ℤ l.circuit_cooldown_seconds (pos (seconds 1))
    then none
    else some (record {
      min_interval = pos_part l.min_interval_seconds;
      minute_budget = pos_part l.per_minute_budget;
      daily_budget = pos_part l.daily_budget;
      run_budget = pos_part l.run_budget;
      cooldown = pos_part l.circuit_cooldown_seconds;
      minute_calls = [];
      day = today;
      daily_used = 0;
      run_used = 0;
      last_call_at = none;
      server_daily_limit = none;
      server_minute_limit = none;
      server_daily_remaining = none;
      server_minute_remaining = none;
      server_minute_reset_at = none;
      consecutive_limits = 0;
      circuit_until = 0;
    })

-- Calls admitted by this limiter.
abbrev pub physical_requests : RequestLimiter → ℕ
physical_requests s = s.run_used

-- What one round of `admit` reads: the clock, and the day, twice if it has changed.
pub record Reading : Type 0 where
  pub now : ℕ
  pub day : ℕ
  pub day_again : ℕ

-- One round of the loop in `admit` ends in an admission, an exception or a sleep.
pub data Round : Type 0 where
  admitted : RequestLimiter → Round
  refused : String → RequestLimiter → Round
  waits : ℕ → RequestLimiter → Round

unfoldable pub roll_day : Reading → RequestLimiter → RequestLimiter
roll_day r s =
    if r.day == s.day
    then s
    else record s { day = r.day_again; daily_used = 0; server_daily_remaining = none }

-- The calls that are less than 60 seconds old.
abbrev pub prune : ℕ → List ℕ → List ℕ
prune now [] = []
prune now (c ∷ cs) = if leb (c + seconds 60) now then prune now cs else c ∷ cs

unfoldable pub pruned : ℕ → RequestLimiter → RequestLimiter
pruned now s = record s { minute_calls = prune now s.minute_calls }

abbrev pub ceiling : ℕ → Option ℕ → ℕ
ceiling own none = own
ceiling own (some server) = min own server

abbrev pub daily_ceiling : RequestLimiter → ℕ
daily_ceiling s = ceiling s.daily_budget s.server_daily_limit

abbrev pub minute_ceiling : RequestLimiter → ℕ
minute_ceiling s = ceiling s.minute_budget s.server_minute_limit

-- `remaining is not None and remaining <= 0`, of a count that is never negative.
abbrev pub is_spent : Option ℕ → Bool
is_spent none = false
is_spent (some n) = n == 0

abbrev pub interval_delay : ℕ → ℕ → Option ℕ → ℕ
interval_delay now min_interval none = 0
interval_delay now min_interval (some last) = last + min_interval - now

-- The round has refused a ceiling of 0, so a full window has a first call.
abbrev pub window_delay : ℕ → ℕ → List ℕ → ℕ
window_delay now limit [] = 0
window_delay now limit (c ∷ cs) = if leb limit (length (c ∷ cs)) then c + seconds 60 - now else 0

abbrev pub reset_delay : ℕ → Option ℕ → Option ℕ → ℕ
reset_delay now remaining none = 0
reset_delay now remaining (some reset) = if is_spent remaining then reset - now else 0

abbrev pub is_over : ℕ → Option ℕ → Bool
is_over now none = true
is_over now (some reset) = leb reset now

-- A spent minute is forgotten when its reset is over or not known.
unfoldable pub clear_minute : ℕ → RequestLimiter → RequestLimiter
clear_minute now s =
    if is_spent s.server_minute_remaining
    then if is_over now s.server_minute_reset_at
      then record s { server_minute_remaining = none; server_minute_reset_at = none }
      else s
    else s

unfoldable pub delay_of : ℕ → RequestLimiter → ℕ
delay_of now s =
    max
      (max (interval_delay now s.min_interval s.last_call_at)
        (window_delay now (minute_ceiling s) s.minute_calls))
      (reset_delay now s.server_minute_remaining s.server_minute_reset_at)

-- `n -= 1` where `n is not None`; an admission finds it positive.
abbrev pub less_one : Option ℕ → Option ℕ
less_one none = none
less_one (some n) = some (n - 1)

unfoldable pub record_call : ℕ → RequestLimiter → RequestLimiter
record_call now s = record s {
  last_call_at = some now;
  minute_calls = s.minute_calls ++ now ∷ [];
  daily_used = s.daily_used + 1;
  run_used = s.run_used + 1;
  server_daily_remaining = less_one s.server_daily_remaining;
  server_minute_remaining = less_one s.server_minute_remaining;
}

-- The part of a round below the hard budgets.
unfoldable pub pace : ℕ → RequestLimiter → Round
pace now s =
    let delay = delay_of now s in
    let cleared = clear_minute now s in
    if ltb 0 delay then waits delay cleared else admitted (record_call now cleared)

unfoldable pub gate : ℕ → RequestLimiter → Round
gate now s =
    if ltb now s.circuit_until
    then refused "API_FOOTBALL_CIRCUIT_OPEN" s
    else if leb s.run_budget s.run_used
    then refused "API_FOOTBALL_RUN_BUDGET_EXHAUSTED" s
    else if leb (daily_ceiling s) s.daily_used || is_spent s.server_daily_remaining
    then refused "API_FOOTBALL_DAILY_BUDGET_EXHAUSTED" s
    else if minute_ceiling s == 0
    then refused "API_FOOTBALL_MINUTE_BUDGET_EXHAUSTED" s
    else pace now s

unfoldable pub admit_round : Reading → RequestLimiter → Round
admit_round r s = gate r.now (pruned r.now (roll_day r s))

-- What the limiter is given: a clock, a day and a sleep, over the states of the world.
pub record Surroundings (W : Type 0) : Type 0 where
  pub read : W → Reading
  pub sleep : ℕ → W → W

-- How a call of `admit` ends; `out_of_fuel` stands for a loop that has not ended yet.
pub data Admission (W : Type 0) : Type 0 where
  returns : RequestLimiter → W → Admission W
  raises : String → RequestLimiter → W → Admission W
  out_of_fuel : Admission W

module _ {W : Type 0} (env : Surroundings W) where
  unfoldable pub admit : ℕ → RequestLimiter → W → Admission W
  admit zero s w = out_of_fuel
  admit (suc fuel) s w = elim (admit_round (env.read w) s) [
    | admitted t ↦ returns t w
    | refused why t ↦ raises why t w
    | waits delay t ↦ admit fuel t (env.sleep delay w)
  ]

-- `_positive_or_zero`
abbrev pub not_negative : Option ℤ → Option ℕ
not_negative none = none
not_negative (some (pos n)) = some n
not_negative (some (negsuc n)) = none

abbrev pub positive_or_zero : Option String → Option ℕ
positive_or_zero none = none
positive_or_zero (some text) = not_negative (int_of text)

abbrev pub if_given : Option ℕ → Option ℕ → Option ℕ
if_given none old = old
if_given (some n) old = some n

abbrev pub reset_after : ℕ → Option ℕ → Option ℕ → Option ℕ
reset_after now none old = old
reset_after now (some n) old = if n == 0 then some (now + seconds 60) else none

unfoldable pub observe_headers : (String → Option String) → ℕ → RequestLimiter → RequestLimiter
observe_headers headers now s =
    let minute = positive_or_zero (headers "x-ratelimit-remaining") in
    record s {
      server_daily_limit =
          if_given (positive_or_zero (headers "x-ratelimit-requests-limit")) s.server_daily_limit;
      server_minute_limit =
          if_given (positive_or_zero (headers "x-ratelimit-limit")) s.server_minute_limit;
      server_daily_remaining =
          if_given (positive_or_zero (headers "x-ratelimit-requests-remaining"))
            s.server_daily_remaining;
      server_minute_remaining = if_given minute s.server_minute_remaining;
      server_minute_reset_at = reset_after now minute s.server_minute_reset_at;
    }

unfoldable pub note_success : RequestLimiter → RequestLimiter
note_success s = record s { consecutive_limits = 0 }

abbrev pub or_zero : Option ℕ → ℕ
or_zero none = 0
or_zero (some d) = d

unfoldable pub note_rate_limit : Option ℕ → ℕ → RequestLimiter → RequestLimiter
note_rate_limit retry_delay now s =
    let streak = s.consecutive_limits + 1 in
    let counted = record s { consecutive_limits = streak } in
    if leb 2 streak
    then record counted { circuit_until = now + max s.cooldown (or_zero retry_delay) }
    else counted
