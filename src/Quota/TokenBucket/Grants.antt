-- ===== src/Quota/TokenBucket/Grants.antt =====
-- A run of a token bucket, and the tokens that it grants.
use football_agent.Prelude.{
  ℕ, String, Bool, true, false, Option, List, [], ◌∷◌, ◌+◌, ◌≤◌, ◌==◌, if◌then◌else◌,
}
use football_agent.Prelude.Int.{pos}
use football_agent.Quota.TokenBucket.{
  TokenBucket, TimeTexts, hour, acquire, remaining, budget, update_from_headers, force_reserve,
}

-- What happens to a bucket between two returns of reserved tokens.
pub data BucketEvent : Type 0 where
  acquires : ℕ → ℕ → BucketEvent
  reads : ℕ → BucketEvent
  snapshots : ℕ → BucketEvent
  headers : TimeTexts → ℕ → (String → Option String) → BucketEvent
  reserves : ℕ → ℕ → BucketEvent

-- The hour of a grant, and its tokens.
abbrev pub Grants : Type 0
Grants = List (ℕ × ℕ)

abbrev pub granted : ℕ → ℕ → Bool → Grants → Grants
granted now tokens true gs = (hour now, tokens) ∷ gs
granted now tokens false gs = gs

pub record BucketTrace : Type 0 where
  pub bucket : TokenBucket
  pub grants : Grants

unfoldable pub bucket_step : BucketEvent → BucketTrace → BucketTrace
bucket_step (acquires now tokens) t =
    let (done, s) = acquire now (pos tokens) t.bucket in
    record { bucket = s; grants = granted now tokens done t.grants }
bucket_step (reads now) t = record t { bucket = (remaining now t.bucket).1 }
bucket_step (snapshots now) t = record t { bucket = (budget now t.bucket).1 }
bucket_step (headers texts now h) t = record t { bucket = update_from_headers texts now h t.bucket }
bucket_step (reserves now tokens) t = record t { bucket = force_reserve now (pos tokens) t.bucket }

unfoldable pub bucket_run : List BucketEvent → BucketTrace → BucketTrace
bucket_run [] t = t
bucket_run (e ∷ es) t = bucket_run es (bucket_step e t)

abbrev pub event_time : BucketEvent → ℕ
event_time (acquires now tokens) = now
event_time (reads now) = now
event_time (snapshots now) = now
event_time (headers texts now h) = now
event_time (reserves now tokens) = now

abbrev pub InOrder : ℕ → List BucketEvent → Type 0
InOrder now [] = Unit
InOrder now (e ∷ es) = (now ≤ event_time e) × InOrder (event_time e) es

-- The tokens granted in an hour.
abbrev pub in_hour : ℕ → Grants → ℕ
in_hour h [] = 0
in_hour h ((k, n) ∷ gs) = let rest = in_hour h gs in if k == h then n + rest else rest
