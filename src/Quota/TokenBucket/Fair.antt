-- ===== src/Quota/TokenBucket/Fair.antt =====
-- The invariant of a token bucket that does not follow the server's limit: what it has granted is
-- counted, or its budget of the hour is used up.
use football_agent.Prelude.{
  ℕ, false, Option, none, some, [], ◌∷◌, ◌+◌, ◌≤◌, ◌<◌, ◌≡◌, ◌≢◌, ◌==◌, All, All-map, ◌⊎◌, arith,
  refl, Bool-cases, inl, inr, ==_iff,
}
use mathlib.Core.Path.{subst, subst₃, sym, ◌∙◌}
use football_agent.Prelude.Int.{ℤ, pos, ◌+ℤ◌, ◌-ℤ◌, ◌≤ℤ◌, int_laws}
use football_agent.Quota.TokenBucket.{
  TokenBucket, hour, refill, refill_server, refill_hour, refill_day, min_server, hourly_remaining,
  spend,
}
use football_agent.Quota.TokenBucket.Grants.{Grants, BucketTrace, in_hour}

in_hour_later : (m h : ℕ) (gs : Grants) → All (λ g. g.0 ≤ m) gs → m < h → in_hour h gs ≡ 0
in_hour_later m h [] k l = refl
in_hour_later m h ((j, n) ∷ gs) k l = let a = k.0 in ground (arith, in_hour_later m h gs k.1 l)

-- A bucket that does not follow the server's limit; `most` is its budget at first.
pub record Fair (most : ℤ) (now : ℕ) (t : BucketTrace) : Type 0 where
  pub static : t.bucket.dynamic_server_limit ≡ false
  pub past : t.bucket.hour_window ≤ hour now
  pub earlier : All (λ g. g.0 ≤ t.bucket.hour_window) t.grants
  pub capped : t.bucket.budget ≤ℤ most
  pub counted :
      (pos (in_hour t.bucket.hour_window t.grants) ≤ℤ t.bucket.hourly_used)
      ⊎ (t.bucket.budget ≤ℤ t.bucket.hourly_used)
  pub each : (h : ℕ) → pos (in_hour h t.grants) ≤ℤ most

-- What the look at the windows does to a bucket of its own limit.
pub record Refills (now : ℕ) (s r : TokenBucket) : Type 0 where
  pub still : r.dynamic_server_limit ≡ false
  pub same : r.budget ≡ s.budget
  pub window : r.hour_window ≡ hour now
  pub used :
      ((s.hour_window ≡ hour now) × (r.hourly_used ≡ s.hourly_used))
      ⊎ ((s.hour_window ≢ hour now) × (r.hourly_used ≡ pos 0))

pub refill-Refills :
    (now : ℕ) (s : TokenBucket) → s.dynamic_server_limit ≡ false → Refills now s (refill now s)
unfolding refill refill_server refill_hour refill_day
refill-Refills now s h = elim (Bool-cases (hour now == s.hour_window)) [
  | inl e ↦ record {
    still = ground arith;
    same = ground arith;
    window = ground arith;
    used = inl (ground arith, ground arith);
  }
  | inr e ↦ record {
    still = ground arith;
    same = ground arith;
    window = ground arith;
    used = inr (ground arith, ground arith);
  }
]

-- The same bucket after its windows have been looked at.
pub refill-Fair :
    (most : ℤ) (now later : ℕ) (t : BucketTrace)
    → now ≤ later
    → Fair most now t
    → Fair most later (record t { bucket = refill later t.bucket })
refill-Fair most now later t h f =
    let r = refill-Refills later t.bucket f.static in
    let past = f.past in
    record {
      static = r.still;
      past = omega (arith, r.window);
      earlier = All-map (λ g k. omega (arith, r.window)) t.grants f.earlier;
      capped = rw r.same f.capped;
      counted = elim r.used [
        | inl k ↦
            subst₃ (λ h u b. (pos (in_hour h t.grants) ≤ℤ u) ⊎ (b ≤ℤ u)) (k.0 ∙ sym r.window)
              (sym k.1) (sym r.same) f.counted
        | inr k ↦
            let less : t.bucket.hour_window < hour later = (let ne = k.0 in omega arith) in
            let none_yet : in_hour (hour later) t.grants ≡ 0 =
              in_hour_later t.bucket.hour_window (hour later) t.grants f.earlier less in
            inl (rw (r.window, none_yet, k.1) (omega arith))
      ];
      each = f.each;
    }

module _ (g tokens : ℕ) (used b : ℤ) (fits : pos tokens ≤ℤ (b -ℤ used)) where
  counted_more :
      (pos g ≤ℤ used) ⊎ (b ≤ℤ used)
      → (pos (tokens + g) ≤ℤ used +ℤ pos tokens) ⊎ (b ≤ℤ used +ℤ pos tokens)
  counted_more (inl k) = inl (omega int_laws)
  counted_more (inr k) = inr (omega int_laws)

  each_more :
      (most : ℤ)
      → (pos g ≤ℤ used) ⊎ (b ≤ℤ used)
      → b ≤ℤ most
      → pos g ≤ℤ most
      → pos (tokens + g) ≤ℤ most
  each_more most (inl k) h l = omega int_laws
  each_more most (inr k) h l = omega int_laws

hourly_remaining-le :
    (tokens : ℕ) (s : TokenBucket)
    → pos tokens ≤ℤ hourly_remaining s
    → pos tokens ≤ℤ (s.budget -ℤ s.hourly_used)
hourly_remaining-le tokens s h = by_server s.server_remaining h
  where
    by_server :
        (o : Option ℤ)
        → pos tokens ≤ℤ min_server (s.budget -ℤ s.hourly_used) o
        → pos tokens ≤ℤ (s.budget -ℤ s.hourly_used)
    by_server none k = k
    by_server (some n) k = ground arith

-- Tokens that fit what is left of the hour are granted.
pub spend-Fair :
    (most : ℤ) (now tokens : ℕ) (t : BucketTrace)
    → t.bucket.hour_window ≡ hour now
    → pos tokens ≤ℤ hourly_remaining t.bucket
    → Fair most now t
    → Fair most now
        (record { bucket = spend (pos tokens) t.bucket; grants = (hour now, tokens) ∷ t.grants })
spend-Fair most now tokens t w fits f =
    let room = hourly_remaining-le tokens t.bucket fits in
    let counted = f.counted in
    let this =
      subst
        (λ h.
          in_hour t.bucket.hour_window ((h, tokens) ∷ t.grants)
          ≡ tokens + in_hour t.bucket.hour_window t.grants)
        w (ground arith) in
    record {
      static = f.static;
      past = f.past;
      earlier = (omega arith, f.earlier);
      capped = f.capped;
      counted = rw this (
          counted_more (in_hour t.bucket.hour_window t.grants) tokens t.bucket.hourly_used
            t.bucket.budget room counted);
      each = λ h. elim (Bool-cases (hour now == h)) [
        | inl e ↦
            let at : t.bucket.hour_window ≡ h = w ∙ (==_iff (hour now) h).0 e in
            let same =
              subst
                (λ k.
                  (pos (in_hour k t.grants) ≤ℤ t.bucket.hourly_used)
                  ⊎ (t.bucket.budget ≤ℤ t.bucket.hourly_used))
                at counted in
            rw e (
              each_more (in_hour h t.grants) tokens t.bucket.hourly_used t.bucket.budget room most
                same f.capped (f.each h))
        | inr e ↦ rw e (f.each h)
      ];
    }
