-- ===== src/Quota/RequestLimiter/Waiting.antt =====
-- `admit` does not wait for ever.
use football_agent.Prelude.{
  ℕ, zero, suc, true, Option, none, some, List, [], ◌∷◌, ◌+◌, ◌≤◌, ◌<◌, ◌≡◌, ◌≢◌, ltb, length,
  arith, refl, Bool-cases, inl, inr, ap, ◌∙◌,
}
use mathlib.Core.Path.{ap₂, subst}
use football_agent.Quota.RequestLimiter.{
  RequestLimiter, Reading, Round, admitted, refused, waits, prune, pruned, roll_day, interval_delay,
  window_delay, reset_delay, minute_ceiling, clear_minute, delay_of, pace, admit_round,
  Surroundings, out_of_fuel, admit,
}
use football_agent.Quota.RequestLimiter.Rounds.{gate_rule, rolled, rolled_held, clear_minute_same}

-- Neither the interval nor the provider's reset asks for a delay.
abbrev Settled : ℕ → RequestLimiter → Type 0
Settled now s =
    (interval_delay now s.min_interval s.last_call_at ≡ 0)
    × (reset_delay now s.server_minute_remaining s.server_minute_reset_at ≡ 0)

-- What a sleep leads to: at a time that is not earlier than its end, the two delays are over; if
-- they were over before, one call fewer is young.
record Slept (r : Reading) (s : RequestLimiter) (d : ℕ) (t : RequestLimiter) : Type 0 where
  no_more : length t.minute_calls ≤ length s.minute_calls
  settled : (now : ℕ) → r.now + d ≤ now → Settled now t
  fewer :
      (now : ℕ)
      → r.now + d ≤ now
      → Settled r.now s
      → length (prune now t.minute_calls) < length (prune r.now s.minute_calls)

abbrev Sleeps : Reading → RequestLimiter → Round → Type 0
Sleeps r s (admitted t) = Unit
Sleeps r s (refused why t) = Unit
Sleeps r s (waits d t) = Slept r s d t

length-prune-le : (now : ℕ) (cs : List ℕ) → length (prune now cs) ≤ length cs
length-prune-le now [] = omega arith
length-prune-le now (c ∷ cs) = ground (arith, length-prune-le now cs)

-- After the delay of a full window its first call is old.
length-prune-lt :
    (now later limit : ℕ) (cs : List ℕ)
    → 0 < window_delay now limit cs
    → now + window_delay now limit cs ≤ later
    → length (prune later cs) < length cs
length-prune-lt now later limit [] pos h = absurd (omega arith)
length-prune-lt now later limit (c ∷ cs) pos h = ground (arith, length-prune-le later cs)

clear_minute_over :
    (now later : ℕ) (q : RequestLimiter)
    → now + reset_delay now q.server_minute_remaining q.server_minute_reset_at ≤ later
    → let t = clear_minute now q in
      reset_delay later t.server_minute_remaining t.server_minute_reset_at ≡ 0
unfolding clear_minute
clear_minute_over now later q h = ground arith

interval_over :
    (now later gap : ℕ) (last : Option ℕ)
    → now + interval_delay now gap last ≤ later
    → interval_delay later gap last ≡ 0
interval_over now later gap none h = refl
interval_over now later gap (some l) h = omega arith

rolled_minute :
    (r : Reading) (s : RequestLimiter)
    → ((rolled r s).server_minute_remaining ≡ s.server_minute_remaining)
      × ((rolled r s).server_minute_reset_at ≡ s.server_minute_reset_at)
unfolding roll_day pruned
rolled_minute r s = ground arith

delay_over :
    (now : ℕ) (q : RequestLimiter)
    → (interval_delay now q.min_interval q.last_call_at ≤ delay_of now q)
      × (reset_delay now q.server_minute_remaining q.server_minute_reset_at ≤ delay_of now q)
      × (window_delay now (minute_ceiling q) q.minute_calls ≤ delay_of now q)
unfolding delay_of
delay_over now q = omega arith

delay_of_window :
    (now : ℕ) (q : RequestLimiter)
    → Settled now q
    → delay_of now q ≡ window_delay now (minute_ceiling q) q.minute_calls
unfolding delay_of
delay_of_window now q h = omega arith

module _ (r : Reading) (s : RequestLimiter) where
  Settled-rolled : Settled r.now s → Settled r.now (rolled r s)
  Settled-rolled h =
      let k = rolled_held r s in
      let m = rolled_minute r s in
      (
        ap₂ (interval_delay r.now) k.limits.interval k.last ∙ h.0,
        ap₂ (reset_delay r.now) m.0 m.1 ∙ h.1,
      )

  slept :
      ltb 0 (delay_of r.now (rolled r s)) ≡ true
      → Slept r s (delay_of r.now (rolled r s)) (clear_minute r.now (rolled r s))
  slept pos =
      let q = rolled r s in
      let o = delay_over r.now q in
      let (n, m, e) = clear_minute_same r.now q in
      let c = ap (λ t. length t.minute_calls) e ∙ ap length (rolled_held r s).calls in
      record {
        no_more = omega (arith, c, length-prune-le r.now s.minute_calls);
        settled = λ now h. (
          ap₂ (interval_delay now) (ap (λ t. t.min_interval) e) (ap (λ t. t.last_call_at) e)
              ∙ interval_over r.now now q.min_interval q.last_call_at (omega (arith, o.0)),
          clear_minute_over r.now now q (omega (arith, o.1)),
        );
        fewer = λ now h k.
            let w = delay_of_window r.now q (Settled-rolled k) in
            let l =
              length-prune-lt r.now now (minute_ceiling q) q.minute_calls (ground (arith, w))
                (omega (arith, w)) in
            rw e (omega (arith, l, ap length (rolled_held r s).calls));
      }

  pace-Sleeps : Sleeps r s (pace r.now (rolled r s))
  unfolding pace
  pace-Sleeps = elim (Bool-cases (ltb 0 (delay_of r.now (rolled r s)))) [
    | inl e ↦ rw e (slept e)
    | inr e ↦ rw e tt
  ]

  admit_round-Sleeps : Sleeps r s (admit_round r s)
  unfolding admit_round
  admit_round-Sleeps =
      gate_rule (Sleeps r s) r.now (rolled r s) (λ why. tt) (λ e1 e2 e3 e4. pace-Sleeps)

module _ {W : Type 0} (env : Surroundings W) where
  -- If a round that sleeps leads to an end, so does the call.
  round_ends :
      (fuel : ℕ) (s : RequestLimiter) (w : W) (o : Round)
      → admit_round (env.read w) s ≡ o
      → ((d : ℕ) (t : RequestLimiter)
          → Slept (env.read w) s d t
          → admit env fuel t (env.sleep d w) ≢ out_of_fuel)
      → admit env (suc fuel) s w ≢ out_of_fuel
  unfolding admit
  round_ends fuel s w (admitted t) e rest = rw (e, admit) (λ h. cc)
  round_ends fuel s w (refused why t) e rest = rw (e, admit) (λ h. cc)
  round_ends fuel s w (waits d t) e rest =
      rw (e, admit) (rest d t (subst (Sleeps (env.read w) s) e (admit_round-Sleeps (env.read w) s)))

  module _ (on_time : (d : ℕ) (w : W) → (env.read w).now + d ≤ (env.read (env.sleep d w)).now) where
    Settled-ends :
        (fuel : ℕ) (s : RequestLimiter) (w : W)
        → Settled (env.read w).now s
        → length (prune (env.read w).now s.minute_calls) < fuel
        → admit env fuel s w ≢ out_of_fuel
    Settled-ends zero s w h k = absurd (omega arith)
    Settled-ends (suc fuel) s w h k =
        round_ends fuel s w (admit_round (env.read w) s) refl λ d t sl.
          Settled-ends fuel t (env.sleep d w)
            (sl.settled (env.read (env.sleep d w)).now (on_time d w))
            (omega (arith, sl.fewer (env.read (env.sleep d w)).now (on_time d w) h))

    -- Where a sleep takes at least the time that it is asked for, a call of `admit` ends: with two
    -- rounds more than there are calls in the deque it returns or raises.
    pub admit_ends :
        (s : RequestLimiter) (w : W) (fuel : ℕ)
        → length s.minute_calls + 2 ≤ fuel
        → admit env fuel s w ≢ out_of_fuel
    admit_ends s w zero k = absurd (omega arith)
    admit_ends s w (suc fuel) k = round_ends fuel s w (admit_round (env.read w) s) refl λ d t sl.
        Settled-ends fuel t (env.sleep d w)
          (sl.settled (env.read (env.sleep d w)).now (on_time d w))
          (omega (arith, sl.no_more, length-prune-le (env.read (env.sleep d w)).now t.minute_calls))
