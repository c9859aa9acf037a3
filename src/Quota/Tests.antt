-- ===== src/Quota/Tests.antt =====
-- The limiters on concrete data.
use football_agent.Prelude.{
  ℕ, String, none, some, List, [], ◌∷◌, ◌+◌, ◌≤◌, ◌≡◌, ◌≢◌, refl, arith, true, false, ◌↔◌, strip,
  length, count, str_eq, if◌then◌else◌, Option, zero, suc, ◌==◌,
}
use Prim.Native.Char.{code}
use football_agent.Prelude.Int.{ℤ, pos, negsuc, ◌+ℤ◌, ◌-ℤ◌, ◌≤ℤ◌, ltb_ℤ}
use football_agent.Prelude.Text.Numerals.{int_of}
use football_agent.Quota.RequestLimiter.{
  RequestLimiter, RequestLimits, Reading, Surroundings, seconds, make_limiter, admit_round, admit,
  roll_day, pruned, gate, pace, delay_of, clear_minute, record_call, observe_headers,
  note_rate_limit, physical_requests, out_of_fuel,
}
use football_agent.Quota.RequestLimiter.Trace.{Event, round, headers, success, step, run, start_of}
use football_agent.Quota.RequestLimiter.Window.{Spaced, in_minute, run_paced}
use football_agent.Quota.RequestLimiter.Budgets.{on_day, run_within_budgets}
use football_agent.Quota.RequestLimiter.Waiting.{admit_ends}
use football_agent.Quota.RequestLimiter.Circuit.{circuit_holds}
use football_agent.Quota.TokenBucket.{
  TokenBucket, hour, day, make_bucket, refill, refill_server, refill_hour, refill_day, acquire,
  remaining, budget, reset_at, force_reserve, consume_reserve,
}
use football_agent.Quota.TokenBucket.Redis.{hydrate_from_redis, ensure_hydrated, sync_to_redis}
use football_agent.Quota.TokenBucket.Snapshot.{Within, acquire_iff_budget}
use football_agent.Quota.TokenBucket.Reserve.{reserve_returned}
use football_agent.Quota.TokenBucket.Grants.{
  BucketEvent, acquires, reads, snapshots, reserves, bucket_run, in_hour,
}
use football_agent.Quota.TokenBucket.Shared.{read_counts}
use football_agent.Quota.TokenBucket.Restart.{hydrated_after_restart}
use football_agent.Quota.TokenBucket.Hourly.{granted_hourly}

int_of_plain : int_of " 1_200 " ≡ some (pos 1200)
unfolding int_of
int_of_plain = refl

int_of_bad : int_of "12x" ≡ none
unfolding int_of
int_of_bad = refl

abbrev limits : RequestLimits
limits = record {
  min_interval_seconds = pos (seconds 7);
  per_minute_budget = pos 2;
  daily_budget = pos 5;
  run_budget = pos 4;
  circuit_cooldown_seconds = pos (seconds 900);
}

abbrev new_limiter : RequestLimiter
new_limiter = record {
  min_interval = seconds 7;
  minute_budget = 2;
  daily_budget = 5;
  run_budget = 4;
  cooldown = seconds 900;
  minute_calls = [];
  day = 3;
  daily_used = 0;
  run_used = 0;
  last_call_at = none;
  server_daily_limit = none;
  server_minute_limit = none;
  server_daily_remaining = none;
  server_minute_remaining = none;
  server_minute_reset_at = none;
  consecutive_limits = 0;
  circuit_until = 0;
}

new_made : make_limiter limits 3 ≡ some new_limiter
unfolding make_limiter
new_made = refl

abbrev at : ℕ → Reading
at n = record { now = seconds n; day = 3; day_again = 3 }

abbrev quota_headers : String → Option String
quota_headers name = if str_eq name "x-ratelimit-remaining" then some "0" else none

-- The second round waits for the interval, the fourth for the window, the last for the reset.
abbrev busy : List Event
busy =
    round (at 1)
    ∷ round (at 2)
    ∷ round (at 8)
    ∷ round (at 20)
    ∷ round (at 62)
    ∷ headers quota_headers (seconds 70)
    ∷ round (at 100)
    ∷ []

busy_calls : (run busy (start_of new_limiter)).calls ≡ seconds 62 ∷ seconds 8 ∷ seconds 1 ∷ []
unfolding run step admit_round roll_day pruned gate pace delay_of clear_minute record_call
    observe_headers int_of
busy_calls = refl

run_paced_example :
    Spaced (seconds 7) (run busy (start_of new_limiter)).calls
    × ((u : ℕ) → count (in_minute u) (run busy (start_of new_limiter)).calls ≤ 2)
run_paced_example = run_paced limits 3 new_limiter busy new_made (omega arith)

run_within_budgets_example :
    (physical_requests (run busy (start_of new_limiter)).limiter
      ≡ length (run busy (start_of new_limiter)).calls)
    × (length (run busy (start_of new_limiter)).calls ≤ 4)
    × ((d : ℕ) → on_day d (run busy (start_of new_limiter)).days ≤ 5)
run_within_budgets_example = run_within_budgets limits 3 new_limiter busy new_made (omega arith)

-- A world that is its clock.
abbrev clock : Surroundings ℕ
clock = record { read = λ w. record { now = w; day = 3; day_again = 3 }; sleep = λ d w. w + d }

abbrev full : RequestLimiter
full = record new_limiter {
  minute_calls = seconds 50 ∷ seconds 57 ∷ [];
  last_call_at = some (seconds 57);
}

admit_ends_example : admit clock 4 full (seconds 60) ≢ out_of_fuel
admit_ends_example = admit_ends clock (λ d w. omega arith) full (seconds 60) 4 (omega arith)

abbrev failing : RequestLimiter
failing = record new_limiter { consecutive_limits = 1 }

circuit_holds_example :
    (run
      (success ∷ round (at 500) ∷ [])
      (start_of (note_rate_limit none (seconds 30) failing))).calls
    ≡ []
circuit_holds_example =
    circuit_holds failing none (seconds 30) (success ∷ round (at 500) ∷ []) (omega arith)
      (omega arith) (omega arith)

abbrev bucket : TokenBucket
bucket = record {
  budget = pos 100;
  daily_budget = some (pos 500);
  dynamic_server_limit = false;
  hour_window = 2;
  day_window = 0;
  hourly_used = pos 95;
  daily_used = pos 95;
  server_remaining = some (pos 4);
  server_reset_at = none;
  hydrated = true;
}

bucket_made : (make_bucket (seconds 7300) (pos 100) (some (pos 0)) false false).daily_budget ≡ none
unfolding make_bucket
bucket_made = refl

-- The server's count is the tighter one, until the hour is over.
five_refused : (acquire (seconds 7300) (pos 5) bucket).0 ≡ false
unfolding acquire refill refill_server refill_hour refill_day ◌-ℤ◌
five_refused = refl

five_granted : (acquire (seconds 10800) (pos 5) bucket).0 ≡ true
unfolding acquire refill refill_server refill_hour refill_day ◌-ℤ◌
five_granted = refl

-- The instant of the reset may lie in the past.
reset_past : reset_at bucket ≡ pos (seconds 10800)
unfolding reset_at
reset_past = refl

restored_example_counts :
    (hydrate_from_redis int_of
      (seconds 7300)
      (seconds 7300)
      (seconds 7300)
      (some (record {
        hourly_raw = some "7";
        hour_window_raw = some "2";
        daily_raw = some "9";
        day_window_raw = some "1";
      }))
      bucket).hourly_used
    ≡ pos 7
unfolding hydrate_from_redis refill refill_server refill_hour refill_day int_of strip
restored_example_counts = refl

acquire_iff_budget_example :
    (((acquire (seconds 7300) (pos 4) bucket).0 ≡ true) ↔ (
      (pos 4 ≤ℤ (budget (seconds 7300) bucket).0.remaining)
      × Within (pos 4) (budget (seconds 7300) bucket).0.daily_remaining))
    × ((remaining (seconds 7300) bucket).0 ≡ (budget (seconds 7300) bucket).0.remaining)
acquire_iff_budget_example = acquire_iff_budget (seconds 7300) (pos 4) bucket (omega arith)

-- Ten tokens are reserved of five that are left, and ten come back.
refilled_used : (refill (seconds 7300) bucket).hourly_used ≡ pos 95
unfolding refill refill_server refill_hour refill_day
refilled_used = refl

reserve_made_up :
    (consume_reserve (pos 10) (force_reserve (seconds 7300) (pos 10) bucket)).hourly_used ≡ pos 90
unfolding consume_reserve force_reserve refill refill_server refill_hour refill_day ◌-ℤ◌ ◌+ℤ◌
reserve_made_up = refl

reserve_returned_example :
    let before = (refill (seconds 7300) bucket).hourly_used in
    let after =
      (consume_reserve (pos 10) (force_reserve (seconds 7300) (pos 10) bucket)).hourly_used in
    (after ≤ℤ before)
    × (ltb_ℤ after before ≡ ltb_ℤ (refill (seconds 7300) bucket).budget (before +ℤ pos 10))
unfolding refill refill_server refill_hour refill_day
reserve_returned_example =
    reserve_returned (seconds 7300) (pos 10) bucket (omega arith) (omega arith) (omega arith)

abbrev day_events : List BucketEvent
day_events =
    acquires (seconds 100) 60
    ∷ reserves (seconds 200) 10
    ∷ acquires (seconds 300) 40
    ∷ reads (seconds 400)
    ∷ acquires (seconds 4000) 100
    ∷ snapshots (seconds 4100)
    ∷ []

granted_hourly_example :
    let s = make_bucket (seconds 50) (pos 100) (some (pos 500)) false false in
    in_hour 0 (bucket_run day_events (record { bucket = s; grants = [] })).grants ≤ 100
granted_hourly_example = granted_hourly (seconds 50) 100 (some (pos 500)) day_events (omega arith) 0

-- A text for each integer.
abbrev ones : ℕ → String
ones zero = ""
ones (suc n) = String.◌∷◌ "1" (ones n)

abbrev unary : ℤ → String
unary (pos n) = String.◌∷◌ "+" (ones n)
unary (negsuc n) = String.◌∷◌ "-" (ones n)

abbrev ones_read : String → ℕ
ones_read String.[] = 0
ones_read (String.◌∷◌ c s) = suc (ones_read s)

abbrev unary_read : String → Option ℤ
unary_read String.[] = none
unary_read (String.◌∷◌ c s) =
    let n = ones_read s in some (if code c == b'+' then pos n else negsuc n)

abbrev stored : String → Option String
stored key =
    if str_eq key "odds:hourly_used"
    then some (unary (pos 7))
    else if str_eq key "odds:hour_window"
    then some (unary (pos 2))
    else if str_eq key "odds:daily_used"
    then some (unary (pos 9))
    else some (unary (pos 0))

abbrev last_worker : TokenBucket
last_worker = record bucket { hourly_used = pos 7; daily_used = pos 9 }

hydrated_after_restart_example :
    let new = make_bucket (seconds 10850) (pos 100) none true true in
    let first = ensure_hydrated unary_read (seconds 10900) (seconds 10900) (seconds 10900) in
    let found = first (some (read_counts stored "odds:")) new in
    (found.hourly_used ≡ (if hour (seconds 10900) == 2 then pos 7 else pos 0))
    × (found.daily_used ≡ (if day (seconds 10900) == 0 then pos 9 else pos 0))
    × ((first none new).hourly_used ≡ pos 0)
    × ((first none new).daily_used ≡ pos 0)
unfolding sync_to_redis
hydrated_after_restart_example =
    hydrated_after_restart unary_read unary stored "odds:" last_worker
      (refl, (refl, (refl, (refl, tt)))) (refl, (refl, (refl, (refl, tt)))) (omega arith)
      (omega arith) (seconds 10850) (seconds 10900) refl refl (pos 100) none true
