-- ===== src/Quota/RequestLimiter/Window.antt =====
-- The calls that a limiter admits are apart, and few in every minute.
use football_agent.Prelude.{
  ℕ, suc, Bool, true, ◌&&◌, Option, none, some, List, [], ◌∷◌, ◌+◌, ◌≤◌, ◌<◌, ◌≡◌, leb, ltb, length,
  count, count-append, count-le-length, count_mono, arith, refl, Bool-cases, inl, inr, sym, ◌∙◌,
}
use mathlib.Core.Path.{ap₂}
use football_agent.Quota.RequestLimiter.{
  RequestLimiter, RequestLimits, Reading, Round, admitted, refused, waits, prune, seconds,
  interval_delay, make_limiter, admit_round, observe_headers, note_success, note_rate_limit,
}
use football_agent.Quota.RequestLimiter.Rounds.{Admits, Holds, Ends, admit_round-Ends}
use football_agent.Quota.RequestLimiter.Trace.{
  Event, round, headers, success, limited, Trace, after, step, run, time_after, IsTimed, start_of,
}

-- Less than 60 seconds old at `u`.
abbrev young : ℕ → ℕ → Bool
young u c = ltb u (c + seconds 60)

-- In the minute that ends with `u`.
abbrev pub in_minute : ℕ → ℕ → Bool
in_minute u c = leb c u && young u c

-- Newest first, each call comes no sooner than the gap after the one before it.
abbrev pub Spaced : ℕ → List ℕ → Type 0
Spaced gap [] = Unit
Spaced gap (c ∷ []) = Unit
Spaced gap (c ∷ d ∷ cs) = (d + gap ≤ c) × Spaced gap (d ∷ cs)

abbrev newest : List ℕ → Option ℕ
newest [] = none
newest (c ∷ cs) = some c

count-prune :
    (now u : ℕ) (cs : List ℕ) → now ≤ u → count (young u) (prune now cs) ≡ count (young u) cs
count-prune now u [] h = refl
count-prune now u (c ∷ cs) h = ground (arith, count-prune now u cs h)

record Paced (gap budget now : ℕ) (t : Trace) : Type 0 where
  minute : t.limiter.minute_budget ≡ budget
  interval : t.limiter.min_interval ≡ gap
  last : t.limiter.last_call_at ≡ newest t.calls
  spaced : Spaced gap t.calls
  recent : (u : ℕ) → now ≤ u → count (young u) t.calls ≤ count (young u) t.limiter.minute_calls
  few : (u : ℕ) → count (in_minute u) t.calls ≤ budget

Spaced-newest :
    (gap now : ℕ) (cs : List ℕ)
    → interval_delay now gap (newest cs) ≡ 0
    → Spaced gap cs
    → Spaced gap (now ∷ cs)
Spaced-newest gap now [] h s = tt
Spaced-newest gap now (c ∷ cs) h s = (omega arith, s)

module _ (gap budget now : ℕ) (r : Reading) (t : Trace) (later : now ≤ r.now)
    (p : Paced gap budget now t) where
  recent_pruned :
      (u : ℕ)
      → r.now ≤ u
      → count (young u) t.calls ≤ count (young u) (prune r.now t.limiter.minute_calls)
  recent_pruned u h =
      omega (arith, count-prune r.now u t.limiter.minute_calls h, p.recent u (omega arith))

  held-Paced :
      (s : RequestLimiter) → Holds r t.limiter s → Paced gap budget r.now (record t { limiter = s })
  held-Paced s h = record {
    minute = h.limits.minute ∙ p.minute;
    interval = h.limits.interval ∙ p.interval;
    last = h.last ∙ p.last;
    spaced = p.spaced;
    recent = λ u later_u. rw h.calls (recent_pruned u later_u);
    few = p.few;
  }

  -- A minute that holds the new call has no calls but the ones that the limiter still keeps.
  few_now :
      (u : ℕ)
      → in_minute u r.now ≡ true
      → length (prune r.now t.limiter.minute_calls) < t.limiter.minute_budget
      → suc (count (in_minute u) t.calls) ≤ budget
  few_now u h room =
      let m = p.minute in
      omega (
        arith,
        count_mono (in_minute u) (young u) t.calls (λ c k. ground arith),
        recent_pruned u (ground arith),
        count-le-length (young u) (prune r.now t.limiter.minute_calls),
      )

  admitted-Paced :
      (s : RequestLimiter) → Admits r t.limiter s → Paced gap budget r.now (after r (admitted s) t)
  admitted-Paced s a = record {
    minute = a.limits.minute ∙ p.minute;
    interval = a.limits.interval ∙ p.interval;
    last = a.last;
    spaced =
        Spaced-newest gap r.now t.calls
          (ap₂ (interval_delay r.now) (sym p.interval) (sym p.last) ∙ a.paced) p.spaced;
    recent = λ u later_u.
        rw (a.calls, count-append (young u) (prune r.now t.limiter.minute_calls) (r.now ∷ []))
          (ground (arith, recent_pruned u later_u));
    few = λ u. elim (Bool-cases (in_minute u r.now)) [
      | inl e ↦ rw e (few_now u e a.room)
      | inr e ↦ rw e (p.few u)
    ];
  }

  round-Paced : (o : Round) → Ends r t.limiter o → Paced gap budget r.now (after r o t)
  round-Paced (admitted s) h = admitted-Paced s h
  round-Paced (refused why s) h = held-Paced s h
  round-Paced (waits delay s) h = held-Paced s h

-- What an operation outside `admit` keeps.
abbrev SamePace : RequestLimiter → RequestLimiter → Type 0
SamePace s t =
    (t.minute_budget ≡ s.minute_budget)
    × (t.min_interval ≡ s.min_interval)
    × (t.last_call_at ≡ s.last_call_at)
    × (t.minute_calls ≡ s.minute_calls)

same-Paced :
    (gap budget now later : ℕ) (t : Trace) (s : RequestLimiter)
    → now ≤ later
    → SamePace t.limiter s
    → Paced gap budget now t
    → Paced gap budget later (record t { limiter = s })
same-Paced gap budget now later t s h (m, i, l, c) p = record {
  minute = m ∙ p.minute;
  interval = i ∙ p.interval;
  last = l ∙ p.last;
  spaced = p.spaced;
  recent = λ u k. rw c (p.recent u (omega arith));
  few = p.few;
}

note_rate_limit-SamePace :
    (d : Option ℕ) (n : ℕ) (s : RequestLimiter) → SamePace s (note_rate_limit d n s)
unfolding note_rate_limit
note_rate_limit-SamePace d n s = ground arith

step-Paced :
    (gap budget now : ℕ) (e : Event) (t : Trace)
    → now ≤ time_after now e
    → Paced gap budget now t
    → Paced gap budget (time_after now e) (step e t)
unfolding step observe_headers note_success
step-Paced gap budget now (round r) t h p =
    round-Paced gap budget now r t h p (admit_round r t.limiter) (admit_round-Ends r t.limiter)
step-Paced gap budget now (headers hs n) t h p =
    same-Paced gap budget now n t (observe_headers hs n t.limiter) h (refl, refl, refl, refl) p
step-Paced gap budget now success t h p =
    same-Paced gap budget now now t (note_success t.limiter) h (refl, refl, refl, refl) p
step-Paced gap budget now (limited d n) t h p =
    same-Paced gap budget now n t (note_rate_limit d n t.limiter) h
      (note_rate_limit-SamePace d n t.limiter) p

run-Paced :
    (gap budget now : ℕ) (es : List Event) (t : Trace)
    → IsTimed now es
    → Paced gap budget now t
    → (later : ℕ) × Paced gap budget later (run es t)
unfolding run
run-Paced gap budget now [] t h p = (now, p)
run-Paced gap budget now (e ∷ es) t h p =
    run-Paced gap budget (time_after now e) es (step e t) h.1 (step-Paced gap budget now e t h.0 p)

fresh :
    (l : RequestLimits) (today : ℕ) (s : RequestLimiter)
    → make_limiter l today ≡ some s
    → s.last_call_at ≡ none
unfolding make_limiter
fresh l today s h = ground arith

-- Of a limiter that has been made, while the clock does not go back: whatever answers it
-- observes, two calls are admitted at least the minimal interval apart, and in no minute more
-- than the minute's budget.
pub run_paced :
    (l : RequestLimits) (today : ℕ) (s : RequestLimiter) (es : List Event)
    → make_limiter l today ≡ some s
    → IsTimed 0 es
    → Spaced s.min_interval (run es (start_of s)).calls
      × ((u : ℕ) → count (in_minute u) (run es (start_of s)).calls ≤ s.minute_budget)
run_paced l today s es made timed =
    let (later, p) = run-Paced s.min_interval s.minute_budget 0 es (start_of s) timed (record {
      minute = refl;
      interval = refl;
      last = fresh l today s made;
      spaced = tt;
      recent = λ u h. omega arith;
      few = λ u. omega arith;
    }) in
    (p.spaced, p.few)
