-- ===== src/Quota/TokenBucket/Restart.antt =====
-- A worker that restarts takes over the counts that the last one wrote.
use football_agent.Prelude.{
  ℕ, String, Bool, true, false, Option, none, some, List, [], ◌∷◌, All, ◌≡◌, ◌==◌, ◌&&◌, arith,
  refl, if◌then◌else◌,
}
use football_agent.Prelude.Int.{ℤ, pos, ◌≤ℤ◌}
use football_agent.Quota.TokenBucket.{
  TokenBucket, hour, day, is_ahead, make_bucket, refill, refill_server, refill_hour, refill_day,
}
use football_agent.Quota.TokenBucket.Redis.{
  going, restore_count, hydrate_from_redis, ensure_hydrated, sync_to_redis,
}
use football_agent.Quota.TokenBucket.Shared.{read_counts}

refill_server-none :
    (now : ℕ) (s : TokenBucket) → s.server_reset_at ≡ none → refill_server now s ≡ s
unfolding refill_server
refill_server-none now s h = ground arith

refill_hour_same :
    (now : ℕ) (active : Bool) (s : TokenBucket)
    → s.hour_window ≡ hour now
    → refill_hour now active s ≡ s
unfolding refill_hour
refill_hour_same now active s h = ground arith

refill_day_same : (now : ℕ) (s : TokenBucket) → s.day_window ≡ day now → refill_day now s ≡ s
unfolding refill_day
refill_day_same now s h = ground arith

refill_same :
    (now : ℕ) (s : TokenBucket)
    → s.hour_window ≡ hour now
    → s.day_window ≡ day now
    → s.server_reset_at ≡ none
    → refill now s ≡ s
unfolding refill
refill_same now s h d n =
    let active = s.dynamic_server_limit && is_ahead now s.server_reset_at in
    rw (refill_server-none now s n, refill_hour_same now active s h) (refill_day_same now s d)

module _ (parse : String → Option ℤ) where
  restore_count_written :
      (used window : String) (n : ℤ) (w current : ℕ) (keep : ℤ → TokenBucket) (s : TokenBucket)
      → parse used ≡ some n
      → parse window ≡ some (pos w)
      → pos 0 ≤ℤ n
      → restore_count parse (some used) (some window) current keep s
        ≡ going (if current == w then keep n else s)
  restore_count_written used window n w current keep s p q l = rw (p, q) (ground arith)

module _ (now : ℕ) (n m : ℤ) (s : TokenBucket) where
  abbrev with_hourly : Bool → TokenBucket
  with_hourly b = if b then record s { hourly_used = n } else s

  abbrev with_both : Bool → Bool → TokenBucket
  with_both b c = if c then record (with_hourly b) { daily_used = m } else with_hourly b

  refill_found :
      (b c : Bool)
      → s.hour_window ≡ hour now
      → s.day_window ≡ day now
      → s.server_reset_at ≡ none
      → ((refill now (with_both b c)).hourly_used ≡ (if b then n else s.hourly_used))
        × ((refill now (with_both b c)).daily_used ≡ (if c then m else s.daily_used))
  refill_found true true h d r = rw (refill_same now (with_both true true) h d r) (refl, refl)
  refill_found true false h d r = rw (refill_same now (with_both true false) h d r) (refl, refl)
  refill_found false true h d r = rw (refill_same now (with_both false true) h d r) (refl, refl)
  refill_found false false h d r = rw (refill_same now (with_both false false) h d r) (refl, refl)

-- A cache that gives what was written.
abbrev pub Serves : (String → Option String) → List (String × String) → Type 0
Serves cache_get writes = All (λ kv. cache_get kv.0 ≡ some kv.1) writes

-- The counts and windows of a limiter, each of which is read back from its text.
abbrev pub ReadsBack : (String → Option ℤ) → (ℤ → String) → TokenBucket → Type 0
ReadsBack parse str s =
    All (λ n. parse (str n) ≡ some n)
      (s.hourly_used ∷ pos s.hour_window ∷ s.daily_used ∷ pos s.day_window ∷ [])

-- A new limiter whose Redis serves what an older one wrote last, with counts that are not negative
-- and texts that read back, and whose first operation is in the hour and on the day in which it
-- was made: this operation takes over the older one's count of the hour if it is of the current
-- hour, its count of the day if it is of the current day, and otherwise counts from zero; and
-- where Redis fails, both counts are zero.
pub hydrated_after_restart :
    (parse : String → Option ℤ) (str : ℤ → String) (cache_get : String → Option String)
    (prefix : String) (old : TokenBucket)
    → ReadsBack parse str old
    → Serves cache_get (sync_to_redis str prefix old)
    → pos 0 ≤ℤ old.hourly_used
    → pos 0 ≤ℤ old.daily_used
    → (made now : ℕ) → hour made ≡ hour now
    → day made ≡ day now
    → (tokens : ℤ) (daily_budget : Option ℤ) (dynamic : Bool)
    → let new = make_bucket made tokens daily_budget dynamic true in
      let first = ensure_hydrated parse now now now in
      let found = first (some (read_counts cache_get prefix)) new in
      (found.hourly_used ≡ (if hour now == old.hour_window then old.hourly_used else pos 0))
      × (found.daily_used ≡ (if day now == old.day_window then old.daily_used else pos 0))
      × ((first none new).hourly_used ≡ pos 0)
      × ((first none new).daily_used ≡ pos 0)
unfolding sync_to_redis ensure_hydrated hydrate_from_redis make_bucket
hydrated_after_restart parse str get prefix old reads serves h d made now sh sd tokens daily
      dynamic =
    let (a, (b, (c, (e, done)))) = serves in
    let new = record (make_bucket made tokens daily dynamic true) { hydrated = false } in
    let hour_is = hour now == old.hour_window in
    let day_is = day now == old.day_window in
    let hourly =
      restore_count_written parse (str old.hourly_used) (str (pos old.hour_window)) old.hourly_used
        old.hour_window (hour now) (λ n. record new { hourly_used = n }) new reads.0 reads.1.0 h in
    let t = with_hourly now old.hourly_used old.daily_used new hour_is in
    let from_day =
      restore_count_written parse (str old.daily_used) (str (pos old.day_window)) old.daily_used
        old.day_window (day now) (λ n. record t { daily_used = n }) t reads.1.1.0 reads.1.1.1.0 d in
    let found = refill_found now old.hourly_used old.daily_used new hour_is day_is sh sd refl in
    (
      rw (a, b, c, e) (rw hourly (rw from_day (found.0))),
      rw (a, b, c, e) (rw hourly (rw from_day (found.1))),
      refl,
      refl,
    )
