-- ===== src/Quota/TokenBucket/Redis.antt =====
-- app/utils/rate_limiter.py: the part of `TokenBucketRateLimiter` that shares its counts through
-- Redis. A cache that raises gives no value; the limiter goes on without it.
use football_agent.Prelude.{
  ℕ, String, Bool, true, ◌&&◌, ◌||◌, Option, none, some, is_some, List, [], ◌∷◌, if◌then◌else◌,
  str_append,
}
use football_agent.Prelude.Int.{ℤ, pos, leb_ℤ, max_ℤ}
use football_agent.Quota.TokenBucket.{TokenBucket, hour, day, refill}

-- The four texts that are read.
pub record RedisCounts : Type 0 where
  pub hourly_raw : Option String
  pub hour_window_raw : Option String
  pub daily_raw : Option String
  pub day_window_raw : Option String

-- A value that is going on, or an exception with the state at its time.
pub data Restoring : Type 0 where
  going : TokenBucket → Restoring
  broken : TokenBucket → Restoring

abbrev is_now : ℕ → ℤ → Bool
is_now window n = leb_ℤ (pos window) n && leb_ℤ n (pos window)

-- `int(float(used))`, kept by `keep`
abbrev restore_used : (ℤ → TokenBucket) → TokenBucket → Option ℤ → Restoring
restore_used keep s none = broken s
restore_used keep s (some n) = going (keep (max_ℤ (pos 0) n))

abbrev restore_if : ℕ → Option ℤ → Restoring → TokenBucket → Restoring
restore_if current none used s = broken s
restore_if current (some window) used s = if is_now current window then used else going s

abbrev then_refill : ℕ → Restoring → Restoring
then_refill later (broken s) = broken s
then_refill later (going s) = going (refill later s)

-- One of the two counts: its text, its window's text, and the current window.
module _ (parse : String → Option ℤ) where
  abbrev pub restore_count :
      Option String → Option String → ℕ → (ℤ → TokenBucket) → TokenBucket → Restoring
  restore_count none window current keep s = going s
  restore_count (some used) none current keep s = going s
  restore_count (some used) (some window) current keep s =
      restore_if current (parse window) (restore_used keep s (parse used)) s

  abbrev restore_hourly : ℕ → RedisCounts → TokenBucket → Restoring
  restore_hourly now r s =
      restore_count r.hourly_raw r.hour_window_raw (hour now) (λ n. record s { hourly_used = n }) s

  abbrev restore_daily : ℕ → ℕ → RedisCounts → Restoring → Restoring
  restore_daily now later r (broken s) = broken s
  restore_daily now later r (going s) =
      then_refill later
        (restore_count r.daily_raw r.day_window_raw (day now) (λ n. record s { daily_used = n }) s)

  abbrev restored : Restoring → TokenBucket
  restored (going s) = record s { hydrated = true }
  restored (broken s) = record s { hydrated = true }

  -- The clock is read three times; `none` are reads that raise.
  unfoldable pub hydrate_from_redis : ℕ → ℕ → ℕ → Option RedisCounts → TokenBucket → TokenBucket
  hydrate_from_redis hour_now day_now later none s = record s { hydrated = true }
  hydrate_from_redis hour_now day_now later (some r) s =
      if is_some r.hourly_raw || is_some r.daily_raw
      then restored (restore_daily day_now later r (restore_hourly hour_now r s))
      else record s { hydrated = true }

  unfoldable pub ensure_hydrated : ℕ → ℕ → ℕ → Option RedisCounts → TokenBucket → TokenBucket
  ensure_hydrated hour_now day_now later reads s =
      if s.hydrated then s else hydrate_from_redis hour_now day_now later reads s

-- The keys and texts that are written; `str` is Python's on integers.
unfoldable pub sync_to_redis : (ℤ → String) → String → TokenBucket → List (String × String)
sync_to_redis str prefix s =
    (str_append prefix "hourly_used", str s.hourly_used)
    ∷ (str_append prefix "hour_window", str (pos s.hour_window))
    ∷ (str_append prefix "daily_used", str s.daily_used)
    ∷ (str_append prefix "day_window", str (pos s.day_window))
    ∷ []
