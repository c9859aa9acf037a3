-- ===== src/Quota/TokenBucket.antt =====
-- app/utils/rate_limiter.py: `TokenBucketRateLimiter`. An instant is a count of microseconds. Each
-- operation runs under the limiter's lock, so it is a function of the state and of what it reads
-- from the clock; Redis is read and written through lists of keys and texts.
pub mod Redis
pub mod Shared
pub mod Restart
pub mod Snapshot
pub mod Grants
pub mod Fair
pub mod Hourly
pub mod Reserve
use football_agent.Prelude.{
  ℕ, String, Bool, true, false, ◌&&◌, ◌||◌, not, Option, none, some, List, [], ◌∷◌, ◌+◌, ◌*◌, ◌/◌,
  ◌==◌, if◌then◌else◌, is_some, str_append,
}
use football_agent.Prelude.Int.{ℤ, pos, ◌+ℤ◌, ◌-ℤ◌, ltb_ℤ, leb_ℤ, min_ℤ, max_ℤ}
use football_agent.Prelude.Text.Numerals.{int_of}

pub record TokenBucket : Type 0 where
  pub budget : ℤ
  pub daily_budget : Option ℤ
  pub dynamic_server_limit : Bool
  pub hour_window : ℕ
  pub day_window : ℕ
  pub hourly_used : ℤ
  pub daily_used : ℤ
  pub server_remaining : Option ℤ
  pub server_reset_at : Option ℤ
  pub hydrated : Bool

pub record RateLimitBudget : Type 0 where
  pub remaining : ℤ
  pub capacity : ℤ
  pub reset_at : ℤ
  pub daily_remaining : Option ℤ
  pub daily_capacity : Option ℤ

abbrev pub hour : ℕ → ℕ
hour now = now / 3600000000

abbrev pub day : ℕ → ℕ
day now = now / 86400000000

-- `x if x and x > 0 else None`
abbrev positive : Option ℤ → Option ℤ
positive none = none
positive (some n) = if ltb_ℤ (pos 0) n then some n else none

unfoldable pub make_bucket : ℕ → ℤ → Option ℤ → Bool → Bool → TokenBucket
make_bucket now budget daily_budget dynamic has_redis = record {
  budget = budget;
  daily_budget = positive daily_budget;
  dynamic_server_limit = dynamic;
  hour_window = hour now;
  day_window = day now;
  hourly_used = pos 0;
  daily_used = pos 0;
  server_remaining = none;
  server_reset_at = none;
  hydrated = not has_redis;
}

-- `reset is not None and now < reset`, and `reset is not None and now >= reset`
abbrev pub is_ahead : ℕ → Option ℤ → Bool
is_ahead now none = false
is_ahead now (some reset) = ltb_ℤ (pos now) reset

abbrev is_reached : ℕ → Option ℤ → Bool
is_reached now none = false
is_reached now (some reset) = leb_ℤ reset (pos now)

abbrev clear_server : TokenBucket → TokenBucket
clear_server s = record s { hourly_used = pos 0; server_remaining = none; server_reset_at = none }

unfoldable pub refill_server : ℕ → TokenBucket → TokenBucket
refill_server now s =
    if s.dynamic_server_limit && is_reached now s.server_reset_at then clear_server s else s

-- `active` was computed before the server's window was cleared.
unfoldable pub refill_hour : ℕ → Bool → TokenBucket → TokenBucket
refill_hour now active s =
    if hour now == s.hour_window
    then s
    else let t = record s { hour_window = hour now } in if active then t else clear_server t

unfoldable pub refill_day : ℕ → TokenBucket → TokenBucket
refill_day now s =
    if day now == s.day_window then s else record s { day_window = day now; daily_used = pos 0 }

unfoldable pub refill : ℕ → TokenBucket → TokenBucket
refill now s =
    let active = s.dynamic_server_limit && is_ahead now s.server_reset_at in
    refill_day now (refill_hour now active (refill_server now s))

abbrev pub min_server : ℤ → Option ℤ → ℤ
min_server n none = n
min_server n (some server) = min_ℤ n server

abbrev pub hourly_remaining : TokenBucket → ℤ
hourly_remaining s = min_server (s.budget -ℤ s.hourly_used) s.server_remaining

abbrev pub daily_allows : ℤ → ℤ → Option ℤ → Bool
daily_allows tokens used none = true
daily_allows tokens used (some limit) = leb_ℤ tokens (limit -ℤ used)

abbrev spend_server : ℤ → Option ℤ → Option ℤ
spend_server tokens none = none
spend_server tokens (some server) = some (max_ℤ (pos 0) (server -ℤ tokens))

abbrev pub spend : ℤ → TokenBucket → TokenBucket
spend tokens s = record s {
  hourly_used = s.hourly_used +ℤ tokens;
  daily_used = s.daily_used +ℤ tokens;
  server_remaining = spend_server tokens s.server_remaining;
}

-- What the limiter answers, and its state after it.
unfoldable pub acquire : ℕ → ℤ → TokenBucket → Bool × TokenBucket
acquire now tokens s0 =
    let s = refill now s0 in
    if leb_ℤ tokens (hourly_remaining s) && daily_allows tokens s.daily_used s.daily_budget
    then (true, spend tokens s)
    else (false, s)

unfoldable pub remaining : ℕ → TokenBucket → ℤ × TokenBucket
remaining now s0 = let s = refill now s0 in (max_ℤ (pos 0) (hourly_remaining s), s)

abbrev pub window_end : TokenBucket → ℤ
window_end s = pos ((s.hour_window + 1) * 3600000000)

abbrev reset_or : Option ℤ → ℤ → ℤ
reset_or none window = window
reset_or (some reset) window = reset

-- The window is not refilled first.
unfoldable pub reset_at : TokenBucket → ℤ
reset_at s = reset_or s.server_reset_at (window_end s)

abbrev pub daily_left : ℤ → Option ℤ → Option ℤ
daily_left used none = none
daily_left used (some limit) = some (max_ℤ (pos 0) (limit -ℤ used))

unfoldable pub budget : ℕ → TokenBucket → RateLimitBudget × TokenBucket
budget now s0 =
    let s = refill now s0 in
    (
      record {
        remaining = max_ℤ (pos 0) (hourly_remaining s);
        capacity = s.budget;
        reset_at = reset_or s.server_reset_at (window_end s);
        daily_remaining = daily_left s.daily_used s.daily_budget;
        daily_capacity = s.daily_budget;
      },
      s,
    )

abbrev parse_int : Option String → Option ℤ
parse_int none = none
parse_int (some text) = int_of text

abbrev with_limit : Option ℤ → TokenBucket → TokenBucket
with_limit none s = s
with_limit (some limit) s = record s {
  budget = if s.dynamic_server_limit then limit else min_ℤ s.budget limit;
}

abbrev with_remaining : Option ℤ → TokenBucket → TokenBucket
with_remaining none s = s
with_remaining (some n) s = record s { server_remaining = some (max_ℤ (pos 0) n) }

abbrev with_reset : Option ℤ → TokenBucket → TokenBucket
with_reset none s = s
with_reset (some reset) s = record s { server_reset_at = some reset }

-- `float(text)` in microseconds, and the instant of an ISO text: parameters of `parse_reset`.
pub record TimeTexts : Type 0 where
  pub float_of : String → Option ℤ
  pub iso_of : String → Option ℤ

abbrev reset_from : ℕ → Option ℤ → Option ℤ → Option ℤ
reset_from now none iso = iso
reset_from now (some n) iso = some (if ltb_ℤ (pos now) n then n else pos now +ℤ max_ℤ (pos 0) n)

abbrev pub parse_reset : TimeTexts → ℕ → Option String → Option ℤ
parse_reset texts now none = none
parse_reset texts now (some text) = reset_from now (texts.float_of text) (texts.iso_of text)

unfoldable pub update_from_headers :
    TimeTexts → ℕ → (String → Option String) → TokenBucket → TokenBucket
update_from_headers texts now headers s =
    with_reset (parse_reset texts now (headers "x-ratelimit-reset")) (
      with_remaining (parse_int (headers "x-ratelimit-remaining"))
        (with_limit (parse_int (headers "x-ratelimit-limit")) s))

abbrev reserve_daily : ℤ → ℤ → Option ℤ → ℤ
reserve_daily tokens used none = used
reserve_daily tokens used (some limit) = min_ℤ limit (used +ℤ tokens)

unfoldable pub force_reserve : ℕ → ℤ → TokenBucket → TokenBucket
force_reserve now tokens s0 =
    let s = refill now s0 in
    record s {
      hourly_used = min_ℤ s.budget (s.hourly_used +ℤ tokens);
      daily_used = reserve_daily tokens s.daily_used s.daily_budget;
    }

unfoldable pub consume_reserve : ℤ → TokenBucket → TokenBucket
consume_reserve used s = record s {
  hourly_used = max_ℤ (pos 0) (s.hourly_used -ℤ used);
  daily_used = max_ℤ (pos 0) (s.daily_used -ℤ used);
}
