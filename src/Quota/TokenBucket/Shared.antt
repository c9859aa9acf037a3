-- ===== src/Quota/TokenBucket/Shared.antt =====
-- app/utils/rate_limiter.py: the whole public operations of `TokenBucketRateLimiter`, which read
-- the counts from Redis once and write them back after a change.
use football_agent.Prelude.{ℕ, String, Bool, Option, List, [], if◌then◌else◌, str_append}
use football_agent.Prelude.Int.{ℤ}
use football_agent.Quota.TokenBucket.{
  TokenBucket, RateLimitBudget, TimeTexts, acquire, remaining, reset_at, budget,
  update_from_headers, force_reserve, consume_reserve,
}
use football_agent.Quota.TokenBucket.Redis.{RedisCounts, ensure_hydrated, sync_to_redis}

-- What the first operation reads: the clock, and the counts where Redis answers.
pub record Hydration : Type 0 where
  pub hour_now : ℕ
  pub day_now : ℕ
  pub later : ℕ
  pub reads : Option RedisCounts

abbrev pub Writes : Type 0
Writes = List (String × String)

-- What the cache gives for the four keys.
abbrev pub read_counts : (String → Option String) → String → RedisCounts
read_counts cache_get prefix = record {
  hourly_raw = cache_get (str_append prefix "hourly_used");
  hour_window_raw = cache_get (str_append prefix "hour_window");
  daily_raw = cache_get (str_append prefix "daily_used");
  day_window_raw = cache_get (str_append prefix "day_window");
}

module _ (parse : String → Option ℤ) (str : ℤ → String) (prefix : String) (has_redis : Bool)
    (h : Hydration) where
  abbrev hydrated_first : TokenBucket → TokenBucket
  hydrated_first s = ensure_hydrated parse h.hour_now h.day_now h.later h.reads s

  abbrev written : TokenBucket → Writes
  written s = if has_redis then sync_to_redis str prefix s else []

  unfoldable pub acquire_shared : ℕ → ℤ → TokenBucket → Bool × TokenBucket × Writes
  acquire_shared now tokens s =
      let (done, t) = acquire now tokens (hydrated_first s) in
      (done, t, if done then written t else [])

  unfoldable pub remaining_shared : ℕ → TokenBucket → ℤ × TokenBucket
  remaining_shared now s = remaining now (hydrated_first s)

  unfoldable pub reset_at_shared : TokenBucket → ℤ × TokenBucket
  reset_at_shared s = let t = hydrated_first s in (reset_at t, t)

  unfoldable pub budget_shared : ℕ → TokenBucket → RateLimitBudget × TokenBucket
  budget_shared now s = budget now (hydrated_first s)

  unfoldable pub force_reserve_shared : ℕ → ℤ → TokenBucket → TokenBucket × Writes
  force_reserve_shared now tokens s =
      let t = force_reserve now tokens (hydrated_first s) in (t, written t)

  unfoldable pub consume_reserve_shared : ℤ → TokenBucket → TokenBucket × Writes
  consume_reserve_shared used s = let t = consume_reserve used (hydrated_first s) in (t, written t)

  -- The headers are taken without a look at Redis first.
  unfoldable pub update_from_headers_shared :
      TimeTexts → ℕ → (String → Option String) → TokenBucket → TokenBucket × Writes
  update_from_headers_shared texts now headers s =
      let t = update_from_headers texts now headers s in (t, written t)
