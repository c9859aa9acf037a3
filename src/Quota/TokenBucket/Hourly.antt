-- ===== src/Quota/TokenBucket/Hourly.antt =====
-- What a token bucket grants in an hour.
use football_agent.Prelude.{
  ℕ, String, false, ◌&&◌, Option, List, [], ◌∷◌, ◌≤◌, ◌≡◌, All-map, ◌⊎◌, arith, refl, Bool-cases,
  inl, inr,
}
use mathlib.Core.Path.{subst₂, sym, ◌∙◌}
use football_agent.Prelude.Int.{ℤ, pos, ◌+ℤ◌, ◌≤ℤ◌, leb_ℤ, min_ℤ, +ℤ_parts}
use football_agent.Quota.TokenBucket.{
  TokenBucket, TimeTexts, make_bucket, refill, hourly_remaining, daily_allows, acquire, remaining,
  budget, update_from_headers, force_reserve,
}
use football_agent.Quota.TokenBucket.Grants.{
  BucketEvent, acquires, reads, snapshots, headers, reserves, BucketTrace, bucket_step, bucket_run,
  event_time, InOrder, in_hour,
}
use football_agent.Quota.TokenBucket.Fair.{Fair, refill-Refills, refill-Fair, spend-Fair}

acquire-Fair :
    (most : ℤ) (now later tokens : ℕ) (t : BucketTrace)
    → now ≤ later
    → Fair most now t
    → Fair most later (bucket_step (acquires later tokens) t)
unfolding bucket_step acquire
acquire-Fair most now later tokens t h f =
    let r = refill later t.bucket in
    let fair = refill-Fair most now later t h f in
    elim (Bool-cases (
      leb_ℤ (pos tokens) (hourly_remaining r)
      && daily_allows (pos tokens) r.daily_used r.daily_budget)) [
        | inl e ↦ rw e (
            spend-Fair most later tokens (record t { bucket = r })
              (refill-Refills later t.bucket f.static).window (ground arith) fair)
        | inr e ↦ rw e fair
      ]

-- Headers tighten the budget of a bucket of its own limit.
record Tightens (s u : TokenBucket) : Type 0 where
  still : u.dynamic_server_limit ≡ s.dynamic_server_limit
  window : u.hour_window ≡ s.hour_window
  used : u.hourly_used ≡ s.hourly_used
  less : u.budget ≤ℤ s.budget

update_from_headers-Tightens :
    (texts : TimeTexts) (now : ℕ) (h : String → Option String) (s : TokenBucket)
    → s.dynamic_server_limit ≡ false
    → Tightens s (update_from_headers texts now h s)
unfolding update_from_headers
update_from_headers-Tightens texts now h s e = record {
  still = ground arith;
  window = ground arith;
  used = ground arith;
  less = ground arith;
}

headers-Fair :
    (most : ℤ) (now later : ℕ) (t : BucketTrace) (u : TokenBucket)
    → now ≤ later
    → Tightens t.bucket u
    → Fair most now t
    → Fair most later (record t { bucket = u })
headers-Fair most now later t u h k f =
    let past = f.past in
    let counted = f.counted in
    record {
      static = k.still ∙ f.static;
      past = omega (arith, k.window);
      earlier = All-map (λ g l. omega (arith, k.window)) t.grants f.earlier;
      capped = omega (arith, k.less, f.capped);
      counted =
          subst₂ (λ x y. (pos (in_hour x t.grants) ≤ℤ y) ⊎ (u.budget ≤ℤ y)) (sym k.window)
            (sym k.used) (tighter counted);
      each = f.each;
    }
  where
    tighter :
        (pos (in_hour t.bucket.hour_window t.grants) ≤ℤ t.bucket.hourly_used)
          ⊎ (t.bucket.budget ≤ℤ t.bucket.hourly_used)
        → (pos (in_hour t.bucket.hour_window t.grants) ≤ℤ t.bucket.hourly_used)
          ⊎ (u.budget ≤ℤ t.bucket.hourly_used)
    tighter (inl l) = inl l
    tighter (inr l) = inr (omega (arith, k.less))

reserved_more :
    (g tokens : ℕ) (used b : ℤ)
    → (pos g ≤ℤ used) ⊎ (b ≤ℤ used)
    → (pos g ≤ℤ min_ℤ b (used +ℤ pos tokens)) ⊎ (b ≤ℤ min_ℤ b (used +ℤ pos tokens))
reserved_more g tokens used b s = let p = +ℤ_parts used (pos tokens) in ground arith

reserve-Fair :
    (most : ℤ) (now later tokens : ℕ) (t : BucketTrace)
    → now ≤ later
    → Fair most now t
    → Fair most later (bucket_step (reserves later tokens) t)
unfolding bucket_step force_reserve
reserve-Fair most now later tokens t h f =
    let r = refill later t.bucket in
    let fair = refill-Fair most now later t h f in
    record {
      static = fair.static;
      past = fair.past;
      earlier = fair.earlier;
      capped = fair.capped;
      counted =
          reserved_more (in_hour r.hour_window t.grants) tokens r.hourly_used r.budget fair.counted;
      each = fair.each;
    }

bucket_step-Fair :
    (most : ℤ) (now : ℕ) (e : BucketEvent) (t : BucketTrace)
    → now ≤ event_time e
    → Fair most now t
    → Fair most (event_time e) (bucket_step e t)
unfolding bucket_step remaining budget
bucket_step-Fair most now (acquires later tokens) t h f = acquire-Fair most now later tokens t h f
bucket_step-Fair most now (reads later) t h f = refill-Fair most now later t h f
bucket_step-Fair most now (snapshots later) t h f = refill-Fair most now later t h f
bucket_step-Fair most now (headers texts later hs) t h f =
    headers-Fair most now later t (update_from_headers texts later hs t.bucket) h
      (update_from_headers-Tightens texts later hs t.bucket f.static) f
bucket_step-Fair most now (reserves later tokens) t h f = reserve-Fair most now later tokens t h f

bucket_run-each :
    (most : ℤ) (now : ℕ) (es : List BucketEvent) (t : BucketTrace)
    → InOrder now es
    → Fair most now t
    → (h : ℕ) → pos (in_hour h (bucket_run es t).grants) ≤ℤ most
unfolding bucket_run
bucket_run-each most now [] t o f = f.each
bucket_run-each most now (e ∷ es) t o f =
    bucket_run-each most (event_time e) es (bucket_step e t) o.1
      (bucket_step-Fair most now e t o.0 f)

-- A bucket that does not follow the server's limit grants in no hour more tokens than its budget,
-- while the clock does not go back and no reservation is returned, whatever the server reports and
-- whatever is reserved.
pub granted_hourly :
    (now : ℕ) (tokens : ℕ) (daily_budget : Option ℤ) (es : List BucketEvent)
    → InOrder now es
    → let s = make_bucket now (pos tokens) daily_budget false false in
      (h : ℕ) → in_hour h (bucket_run es (record { bucket = s; grants = [] })).grants ≤ tokens
unfolding make_bucket
granted_hourly now tokens daily es o h =
    let s = make_bucket now (pos tokens) daily false false in
    omega (
      arith,
      bucket_run-each (pos tokens) now es (record { bucket = s; grants = [] }) o
          (record {
            static = refl;
            past = omega arith;
            earlier = tt;
            capped = omega arith;
            counted = inl (omega arith);
            each = λ h. omega arith;
          })
          h,
    )
