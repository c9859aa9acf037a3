-- ===== src/Quota/RequestLimiter/Trace.antt =====
-- Everything that happens to a limiter, as a list of events: the rounds of `admit`, the answers
-- that are observed and the outcomes that are noted, with what each reads from the clock. The
-- calls that have been admitted are kept beside the limiter, the newest first.
use football_agent.Prelude.{ℕ, String, Option, List, [], ◌∷◌, ◌≤◌}
use football_agent.Quota.RequestLimiter.{
  RequestLimiter, Reading, Round, admitted, refused, waits, admit_round, observe_headers,
  note_success, note_rate_limit,
}

pub data Event : Type 0 where
  round : Reading → Event
  headers : (String → Option String) → ℕ → Event
  success : Event
  limited : Option ℕ → ℕ → Event

pub record Trace : Type 0 where
  pub limiter : RequestLimiter
  -- when calls were admitted, and the days that the limiter put them on
  pub calls : List ℕ
  pub days : List ℕ

abbrev pub after : Reading → Round → Trace → Trace
after r (admitted s) t = record { limiter = s; calls = r.now ∷ t.calls; days = s.day ∷ t.days }
after r (refused why s) t = record t { limiter = s }
after r (waits delay s) t = record t { limiter = s }

unfoldable pub step : Event → Trace → Trace
step (round r) t = after r (admit_round r t.limiter) t
step (headers h now) t = record t { limiter = observe_headers h now t.limiter }
step success t = record t { limiter = note_success t.limiter }
step (limited d now) t = record t { limiter = note_rate_limit d now t.limiter }

unfoldable pub run : List Event → Trace → Trace
run [] t = t
run (e ∷ es) t = run es (step e t)

abbrev pub time_after : ℕ → Event → ℕ
time_after now (round r) = r.now
time_after now (headers h n) = n
time_after now success = now
time_after now (limited d n) = n

abbrev pub day_after : ℕ → Event → ℕ
day_after day (round r) = r.day_again
day_after day _ = day

-- A day that is read twice does not go back either.
abbrev pub InDays : ℕ → Event → Type 0
InDays day (round r) = (day ≤ r.day) × (r.day ≤ r.day_again)
InDays day _ = Unit

-- The clock never goes back.
abbrev pub IsTimed : ℕ → List Event → Type 0
IsTimed now [] = Unit
IsTimed now (e ∷ es) = (now ≤ time_after now e) × IsTimed (time_after now e) es

-- The day never goes back.
abbrev pub IsDated : ℕ → List Event → Type 0
IsDated day [] = Unit
IsDated day (e ∷ es) = InDays day e × IsDated (day_after day e) es

abbrev pub start_of : RequestLimiter → Trace
start_of s = record { limiter = s; calls = []; days = [] }
