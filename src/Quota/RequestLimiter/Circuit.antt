-- ===== src/Quota/RequestLimiter/Circuit.antt =====
-- A circuit that repeated limits have opened.
use football_agent.Prelude.{ℕ, suc, Option, List, [], ◌∷◌, ◌+◌, ◌≤◌, ◌<◌, ◌≡◌, arith, refl, ◌∙◌}
use football_agent.Quota.RequestLimiter.{
  RequestLimiter, Reading, Round, admitted, refused, waits, admit_round, observe_headers,
  note_success, note_rate_limit,
}
use football_agent.Quota.RequestLimiter.Rounds.{Ends, admit_round-Ends}
use football_agent.Quota.RequestLimiter.Trace.{
  Event, round, headers, success, limited, Trace, after, step, run, time_after, IsTimed, start_of,
}

-- Every event that reads the clock reads it before `limit`.
abbrev pub IsBefore : ℕ → List Event → Type 0
IsBefore limit [] = Unit
IsBefore limit (e ∷ es) = (suc (time_after 0 e) ≤ limit) × IsBefore limit es

record IsOpen (cooldown limit : ℕ) (t : Trace) : Type 0 where
  same : t.limiter.cooldown ≡ cooldown
  until : limit ≤ t.limiter.circuit_until
  none_yet : t.calls ≡ []

module _ (cooldown limit : ℕ) (t : Trace) (i : IsOpen cooldown limit t) where
  round-IsOpen :
      (r : Reading) (o : Round)
      → r.now < limit
      → Ends r t.limiter o
      → IsOpen cooldown limit (after r o t)
  round-IsOpen r (admitted s) h e = absurd (omega (arith, e.closed, i.until))
  round-IsOpen r (refused why s) h e = record {
    same = e.limits.cooldown ∙ i.same;
    until = omega (arith, e.until, i.until);
    none_yet = i.none_yet;
  }
  round-IsOpen r (waits d s) h e = record {
    same = e.limits.cooldown ∙ i.same;
    until = omega (arith, e.until, i.until);
    none_yet = i.none_yet;
  }

  limited-IsOpen :
      (d : Option ℕ) (n : ℕ)
      → limit ≤ n + cooldown
      → IsOpen cooldown limit (record t { limiter = note_rate_limit d n t.limiter })
  unfolding note_rate_limit
  limited-IsOpen d n h =
      let same = i.same in
      let until = i.until in
      record { same = ground arith; until = ground arith; none_yet = i.none_yet }

step-IsOpen :
    (cooldown now since : ℕ) (e : Event) (t : Trace)
    → since ≤ now
    → now ≤ time_after now e
    → time_after 0 e < since + cooldown
    → IsOpen cooldown (since + cooldown) t
    → IsOpen cooldown (since + cooldown) (step e t)
unfolding step observe_headers note_success
step-IsOpen c now since (round r) t l h b i =
    round-IsOpen c (since + c) t i r (admit_round r t.limiter) b (admit_round-Ends r t.limiter)
step-IsOpen c now since (headers hs n) t l h b i = record {
  same = i.same;
  until = i.until;
  none_yet = i.none_yet;
}
step-IsOpen c now since success t l h b i = record {
  same = i.same;
  until = i.until;
  none_yet = i.none_yet;
}
step-IsOpen c now since (limited d n) t l h b i = limited-IsOpen c (since + c) t i d n (omega arith)

run-IsOpen :
    (cooldown now since : ℕ) (es : List Event) (t : Trace)
    → since ≤ now
    → IsTimed now es
    → IsBefore (since + cooldown) es
    → IsOpen cooldown (since + cooldown) t
    → IsOpen cooldown (since + cooldown) (run es t)
unfolding run
run-IsOpen c now since [] t l h b i = i
run-IsOpen c now since (e ∷ es) t l h b i =
    run-IsOpen c (time_after now e) since es (step e t) (omega (arith, h.0)) h.1 b.1
      (step-IsOpen c now since e t l h.0 b.0 i)

-- A rate limit that is noted after another one, with no success between, closes the limiter: while
-- the clock does not go back, and before the cooldown is over, no call is admitted, whatever
-- happens meanwhile.
pub circuit_holds :
    (s : RequestLimiter) (retry : Option ℕ) (now : ℕ) (es : List Event)
    → 1 ≤ s.consecutive_limits
    → IsTimed now es
    → IsBefore (now + s.cooldown) es
    → (run es (start_of (note_rate_limit retry now s))).calls ≡ []
unfolding note_rate_limit
circuit_holds s retry now es h timed before =
    (run-IsOpen s.cooldown now now es (start_of (note_rate_limit retry now s)) (omega arith) timed
      before (record { same = ground arith; until = ground arith; none_yet = refl })).none_yet
