-- ===== src/Quota/RequestLimiter/Budgets.antt =====
-- The calls that a limiter admits stay within the budgets of the run and of each day.
use football_agent.Prelude.{
  ℕ, suc, Option, some, List, [], ◌∷◌, ◌+◌, ◌≤◌, ◌<◌, ◌≡◌, ◌==◌, length, count, All, All-map, arith,
  refl, Bool-cases, inl, inr, ◌∙◌, sym, ==_iff,
}
use mathlib.Core.Path.{subst}
use football_agent.Quota.RequestLimiter.{
  RequestLimiter, RequestLimits, Reading, Round, admitted, refused, waits, make_limiter, roll_day,
  admit_round, observe_headers, note_success, note_rate_limit, physical_requests,
}
use football_agent.Quota.RequestLimiter.Rounds.{Admits, Holds, Ends, admit_round-Ends}
use football_agent.Quota.RequestLimiter.Trace.{
  Event, round, headers, success, limited, Trace, after, step, run, day_after, InDays, IsDated,
  start_of,
}

-- Calls on a day.
abbrev pub on_day : ℕ → List ℕ → ℕ
on_day d days = count (λ x. x == d) days

on_day_later : (m d : ℕ) (days : List ℕ) → All (λ x. x ≤ m) days → m < d → on_day d days ≡ 0
on_day_later m d [] h k = refl
on_day_later m d (x ∷ days) h k = let l = h.0 in ground (arith, on_day_later m d days h.1 k)

-- One more call on a day `x` that has room.
on_day_more :
    (x d n b : ℕ) (days : List ℕ)
    → on_day x days ≤ n
    → suc n ≤ b
    → on_day d days ≤ b
    → on_day d (x ∷ days) ≤ b
on_day_more x d n b days h room k = elim (Bool-cases (x == d)) [
  | inl e ↦ let h' = subst (λ y. on_day y days ≤ n) ((==_iff x d).0 e) h in rw e (omega arith)
  | inr e ↦ rw e k
]

on_day_self : (x n : ℕ) (days : List ℕ) → on_day x days ≤ n → on_day x (x ∷ days) ≤ n + 1
on_day_self x n days h = on_day_more x x n (n + 1) days h (omega arith) (omega arith)

record Billed (run_budget daily_budget day : ℕ) (t : Trace) : Type 0 where
  run_limit : t.limiter.run_budget ≡ run_budget
  day_limit : t.limiter.daily_budget ≡ daily_budget
  made : length t.calls ≡ t.limiter.run_used
  affordable : t.limiter.run_used ≤ run_budget
  current : t.limiter.day ≤ day
  past : All (λ x. x ≤ t.limiter.day) t.days
  today : on_day t.limiter.day t.days ≤ t.limiter.daily_used
  fits : t.limiter.daily_used ≤ daily_budget
  each : (d : ℕ) → on_day d t.days ≤ daily_budget

module _ (run_budget daily_budget day : ℕ) (r : Reading) (t : Trace) (dated : InDays day (round r))
    (b : Billed run_budget daily_budget day t) where
  -- The day's count after the limiter has looked at the day.
  abbrev Rolled : RequestLimiter → Type 0
  Rolled q =
      (q.day ≤ r.day_again)
      × All (λ x. x ≤ q.day) t.days
      × (on_day q.day t.days ≤ q.daily_used)
      × (q.daily_used ≤ daily_budget)

  rolled : Rolled (roll_day r t.limiter)
  unfolding roll_day
  rolled =
      let current = b.current in
      let past = b.past in
      elim (Bool-cases (r.day == t.limiter.day)) [
        | inl e ↦ rw e (omega (arith, dated.0), past, b.today, b.fits)
        | inr e ↦
            let less : t.limiter.day < r.day_again = ground arith in
            rw e (
              omega arith,
              All-map (λ x h. omega arith) t.days past,
              omega (arith, on_day_later t.limiter.day r.day_again t.days past less),
              omega arith,
            )
      ]

  held-Billed :
      (s : RequestLimiter)
      → Holds r t.limiter s
      → Billed run_budget daily_budget r.day_again (record t { limiter = s })
  held-Billed s h =
      let k = rolled in
      record {
        run_limit = h.limits.run ∙ b.run_limit;
        day_limit = h.limits.daily ∙ b.day_limit;
        made = omega (arith, h.used, b.made);
        affordable = omega (arith, h.used, b.affordable);
        current = rw h.today k.0;
        past = rw h.today k.1;
        today = rw (h.today, h.day_used) k.2;
        fits = rw h.day_used k.3;
        each = b.each;
      }

  admitted-Billed :
      (s : RequestLimiter)
      → Admits r t.limiter s
      → Billed run_budget daily_budget r.day_again (after r (admitted s) t)
  admitted-Billed s a =
      let k : (s.day ≤ r.day_again)
          × All (λ x. x ≤ s.day) t.days
          × (on_day s.day t.days ≤ (roll_day r t.limiter).daily_used) =
        subst
          (λ d.
            (d ≤ r.day_again)
            × All (λ x. x ≤ d) t.days
            × (on_day d t.days ≤ (roll_day r t.limiter).daily_used))
          (sym a.today) (rolled.0, rolled.1, rolled.2) in
      record {
        run_limit = a.limits.run ∙ b.run_limit;
        day_limit = a.limits.daily ∙ b.day_limit;
        made = omega (arith, a.used, b.made);
        affordable = omega (arith, a.used, a.affordable, b.run_limit);
        current = k.0;
        past = (omega arith, k.1);
        today = rw a.day_used (on_day_self s.day (roll_day r t.limiter).daily_used t.days k.2);
        fits = omega (arith, a.day_used, a.day_left, b.day_limit);
        each = λ d.
            on_day_more s.day d (roll_day r t.limiter).daily_used daily_budget t.days k.2
              (omega (arith, a.day_left, b.day_limit)) (b.each d);
      }

  round-Billed :
      (o : Round) → Ends r t.limiter o → Billed run_budget daily_budget r.day_again (after r o t)
  round-Billed (admitted s) h = admitted-Billed s h
  round-Billed (refused why s) h = held-Billed s h
  round-Billed (waits delay s) h = held-Billed s h

-- What an operation outside `admit` keeps.
abbrev SameBill : RequestLimiter → RequestLimiter → Type 0
SameBill s t =
    (t.run_budget ≡ s.run_budget)
    × (t.daily_budget ≡ s.daily_budget)
    × (t.run_used ≡ s.run_used)
    × (t.day ≡ s.day)
    × (t.daily_used ≡ s.daily_used)

module _ (run_budget daily_budget day : ℕ) (t : Trace) where
  same-Billed :
      (s : RequestLimiter)
      → SameBill t.limiter s
      → Billed run_budget daily_budget day t
      → Billed run_budget daily_budget day (record t { limiter = s })
  same-Billed s (rb, db, u, d, du) b = record {
    run_limit = rb ∙ b.run_limit;
    day_limit = db ∙ b.day_limit;
    made = b.made ∙ sym u;
    affordable = rw u b.affordable;
    current = rw d b.current;
    past = subst (λ x. All (λ y. y ≤ x) t.days) (sym d) b.past;
    today = rw du (subst (λ x. on_day x t.days ≤ t.limiter.daily_used) (sym d) b.today);
    fits = rw du b.fits;
    each = b.each;
  }

  note_rate_limit-SameBill :
      (d : Option ℕ) (n : ℕ) (s : RequestLimiter) → SameBill s (note_rate_limit d n s)
  unfolding note_rate_limit
  note_rate_limit-SameBill d n s = ground arith

  step-Billed :
      (e : Event)
      → InDays day e
      → Billed run_budget daily_budget day t
      → Billed run_budget daily_budget (day_after day e) (step e t)
  unfolding step observe_headers note_success
  step-Billed (round r) h b =
      round-Billed run_budget daily_budget day r t h b (admit_round r t.limiter)
        (admit_round-Ends r t.limiter)
  step-Billed (headers hs n) h b =
      same-Billed (observe_headers hs n t.limiter) (refl, refl, refl, refl, refl) b
  step-Billed success h b = same-Billed (note_success t.limiter) (refl, refl, refl, refl, refl) b
  step-Billed (limited d n) h b =
      same-Billed (note_rate_limit d n t.limiter) (note_rate_limit-SameBill d n t.limiter) b

run-Billed :
    (run_budget daily_budget day : ℕ) (es : List Event) (t : Trace)
    → IsDated day es
    → Billed run_budget daily_budget day t
    → (last : ℕ) × Billed run_budget daily_budget last (run es t)
unfolding run
run-Billed rb db day [] t h b = (day, b)
run-Billed rb db day (e ∷ es) t h b =
    run-Billed rb db (day_after day e) es (step e t) h.1 (step-Billed rb db day t e h.0 b)

fresh :
    (l : RequestLimits) (today : ℕ) (s : RequestLimiter)
    → make_limiter l today ≡ some s
    → (s.run_used ≡ 0) × (s.daily_used ≡ 0) × (s.day ≡ today)
unfolding make_limiter
fresh l today s h = ground arith

-- Of a limiter that has been made, while the day does not go back: whatever answers it observes,
-- the requests that it counts are the calls that it has admitted, these stay within the budget of
-- the run, and on no day are there more than the day's budget.
pub run_within_budgets :
    (l : RequestLimits) (today : ℕ) (s : RequestLimiter) (es : List Event)
    → make_limiter l today ≡ some s
    → IsDated today es
    → (physical_requests (run es (start_of s)).limiter ≡ length (run es (start_of s)).calls)
      × (length (run es (start_of s)).calls ≤ s.run_budget)
      × ((d : ℕ) → on_day d (run es (start_of s)).days ≤ s.daily_budget)
run_within_budgets l today s es made dated =
    let f = fresh l today s made in
    let (last, b) = run-Billed s.run_budget s.daily_budget today es (start_of s) dated (record {
      run_limit = refl;
      day_limit = refl;
      made = sym f.0;
      affordable = omega (arith, f.0);
      current = omega (arith, f.2);
      past = tt;
      today = omega arith;
      fits = omega (arith, f.1);
      each = λ d. omega arith;
    }) in
    (sym b.made, omega (arith, b.made, b.affordable), b.each)
