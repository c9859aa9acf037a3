-- ===== src/Quota/RequestLimiter/Rounds.antt =====
-- What one round of `admit` does to the limiter, by how it ends.
use football_agent.Prelude.{
  ℕ, String, false, ◌||◌, none, some, List, [], ◌∷◌, ◌++◌, ◌+◌, ◌≤◌, ◌<◌, ◌≡◌, leb, Bool-cases, inl,
  inr, Option, ◌&&◌, ap, ltb, ◌==◌, length, arith, sym, ◌∙◌, refl,
}
use mathlib.Core.Path.{ap₂}
use football_agent.Quota.RequestLimiter.{
  RequestLimiter, Reading, Round, admitted, refused, waits, roll_day, prune, pruned, minute_ceiling,
  daily_ceiling, is_spent, interval_delay, window_delay, reset_delay, clear_minute, delay_of,
  record_call, pace, gate, admit_round, seconds, ceiling, is_over,
}

-- What no operation changes.
pub record SameLimits (s t : RequestLimiter) : Type 0 where
  pub interval : t.min_interval ≡ s.min_interval
  pub minute : t.minute_budget ≡ s.minute_budget
  pub daily : t.daily_budget ≡ s.daily_budget
  pub run : t.run_budget ≡ s.run_budget
  pub cooldown : t.cooldown ≡ s.cooldown

-- A round that admits a call.
pub record Admits (r : Reading) (s t : RequestLimiter) : Type 0 where
  pub limits : SameLimits s t
  pub calls : t.minute_calls ≡ prune r.now s.minute_calls ++ r.now ∷ []
  pub room : length (prune r.now s.minute_calls) < s.minute_budget
  pub last : t.last_call_at ≡ some r.now
  pub paced : interval_delay r.now s.min_interval s.last_call_at ≡ 0
  pub closed : s.circuit_until ≤ r.now
  pub until : t.circuit_until ≡ s.circuit_until
  pub used : t.run_used ≡ s.run_used + 1
  pub affordable : s.run_used < s.run_budget
  pub today : t.day ≡ (roll_day r s).day
  pub day_used : t.daily_used ≡ (roll_day r s).daily_used + 1
  pub day_left : (roll_day r s).daily_used < s.daily_budget

-- A round that admits none.
pub record Holds (r : Reading) (s t : RequestLimiter) : Type 0 where
  pub limits : SameLimits s t
  pub calls : t.minute_calls ≡ prune r.now s.minute_calls
  pub last : t.last_call_at ≡ s.last_call_at
  pub until : t.circuit_until ≡ s.circuit_until
  pub used : t.run_used ≡ s.run_used
  pub today : t.day ≡ (roll_day r s).day
  pub day_used : t.daily_used ≡ (roll_day r s).daily_used

abbrev pub Ends : Reading → RequestLimiter → Round → Type 0
Ends r s (admitted t) = Admits r s t
Ends r s (refused why t) = Holds r s t
Ends r s (waits delay t) = Holds r s t

-- A window that asks for no delay has room.
window_delay-room :
    (now limit : ℕ) (cs : List ℕ)
    → 0 < limit
    → window_delay now limit (prune now cs) ≡ 0
    → length (prune now cs) < limit
window_delay-room now limit [] pos h = pos
window_delay-room now limit (c ∷ cs) pos h = elim (Bool-cases (leb (c + seconds 60) now)) [
  | inl old ↦ rw old (window_delay-room now limit cs pos (rw old at h))
  | inr young ↦ let h' = rw young at h in rw young (ground arith)
]

ceiling-le : (own : ℕ) (server : Option ℕ) → ceiling own server ≤ own
ceiling-le own none = omega arith
ceiling-le own (some n) = omega arith

pub clear_minute_same :
    (now : ℕ) (s : RequestLimiter)
    → (n m : Option ℕ) × (clear_minute now s
        ≡ record s { server_minute_remaining = n; server_minute_reset_at = m })
unfolding clear_minute
clear_minute_same now s =
    elim (Bool-cases (is_spent s.server_minute_remaining && is_over now s.server_minute_reset_at)) [
      | inl e ↦ (none, none, ground arith)
      | inr e ↦ (s.server_minute_remaining, s.server_minute_reset_at, ground arith)
    ]

delay_parts :
    (now : ℕ) (s : RequestLimiter)
    → delay_of now s ≡ 0
    → (interval_delay now s.min_interval s.last_call_at ≡ 0)
      × (window_delay now (minute_ceiling s) s.minute_calls ≡ 0)
      × (reset_delay now s.server_minute_remaining s.server_minute_reset_at ≡ 0)
unfolding delay_of
delay_parts now s h = omega arith

-- A round is refused, or it has budget left and is paced.
pub gate_rule :
    (P : Round → Type 0) (now : ℕ) (q : RequestLimiter)
    → ((why : String) → P (refused why q))
    → (ltb now q.circuit_until ≡ false
        → leb q.run_budget q.run_used ≡ false
        → (leb (daily_ceiling q) q.daily_used || is_spent q.server_daily_remaining) ≡ false
        → (minute_ceiling q == 0) ≡ false
        → P (pace now q))
    → P (gate now q)
unfolding gate
gate_rule P now q no_call go = elim (Bool-cases (ltb now q.circuit_until)) [
  | inl e ↦ rw e (no_call _)
  | inr e1 ↦ elim (Bool-cases (leb q.run_budget q.run_used)) [
    | inl e ↦ rw (e1, e) (no_call _)
    | inr e2 ↦
        elim (Bool-cases
          (leb (daily_ceiling q) q.daily_used || is_spent q.server_daily_remaining)) [
            | inl e ↦ rw (e1, e2, e) (no_call _)
            | inr e3 ↦ elim (Bool-cases (minute_ceiling q == 0)) [
              | inl e ↦ rw (e1, e2, e3, e) (no_call _)
              | inr e4 ↦ rw (e1, e2, e3, e4) (go e1 e2 e3 e4)
            ]
          ]
  ]
]

module _ (r : Reading) (s : RequestLimiter) where
  abbrev pub rolled : RequestLimiter
  rolled = pruned r.now (roll_day r s)

  rolled_same :
      SameLimits s rolled
      × (rolled.minute_calls ≡ prune r.now s.minute_calls)
      × (rolled.last_call_at ≡ s.last_call_at)
      × (rolled.circuit_until ≡ s.circuit_until)
      × (rolled.run_used ≡ s.run_used)
      × (rolled.day ≡ (roll_day r s).day)
      × (rolled.daily_used ≡ (roll_day r s).daily_used)
  unfolding roll_day pruned
  rolled_same = ground arith

  pub rolled_held : Holds r s rolled
  rolled_held =
      let h = rolled_same in
      record {
        limits = h.0;
        calls = h.1;
        last = h.2;
        until = h.3;
        used = h.4;
        today = h.5;
        day_used = h.6;
      }

  cleared_held : Holds r s (clear_minute r.now rolled)
  cleared_held =
      let (n, m, e) = clear_minute_same r.now rolled in
      rw e (record {
        limits = record {
          interval = rolled_held.limits.interval;
          minute = rolled_held.limits.minute;
          daily = rolled_held.limits.daily;
          run = rolled_held.limits.run;
          cooldown = rolled_held.limits.cooldown;
        };
        calls = rolled_held.calls;
        last = rolled_held.last;
        until = rolled_held.until;
        used = rolled_held.used;
        today = rolled_held.today;
        day_used = rolled_held.day_used;
      })

  module _ (open_circuit : ltb r.now rolled.circuit_until ≡ false)
      (run_left : leb rolled.run_budget rolled.run_used ≡ false)
      (day_left : (leb (daily_ceiling rolled) rolled.daily_used
          || is_spent rolled.server_daily_remaining)
        ≡ false)
      (some_minute : (minute_ceiling rolled == 0) ≡ false) where
    recorded-Admits :
        delay_of r.now rolled ≡ 0 → Admits r s (record_call r.now (clear_minute r.now rolled))
    unfolding record_call
    recorded-Admits h =
        let c = cleared_held in
        let k = rolled_held in
        let d = delay_parts r.now rolled h in
        record {
          limits = record {
            interval = c.limits.interval;
            minute = c.limits.minute;
            daily = c.limits.daily;
            run = c.limits.run;
            cooldown = c.limits.cooldown;
          };
          calls = ap (λ cs. cs ++ r.now ∷ []) c.calls;
          room = omega (
            arith,
            window_delay-room r.now (minute_ceiling rolled) s.minute_calls (ground arith)
                (rw k.calls at d.1),
            ceiling-le rolled.minute_budget rolled.server_minute_limit,
            k.limits.minute,
          );
          last = refl;
          paced = ap₂ (interval_delay r.now) (sym k.limits.interval) (sym k.last) ∙ d.0;
          closed = ground (arith, k.until);
          until = c.until;
          used = omega (arith, c.used);
          affordable = ground (arith, k.used, k.limits.run);
          today = c.today;
          day_used = omega (arith, c.day_used);
          day_left = ground (
            arith,
            k.day_used,
            k.limits.daily,
            ceiling-le rolled.daily_budget rolled.server_daily_limit,
          );
        }

    pace-Ends : Ends r s (pace r.now rolled)
    unfolding pace
    pace-Ends = elim (Bool-cases (ltb 0 (delay_of r.now rolled))) [
      | inl e ↦ rw e cleared_held
      | inr e ↦ rw e (recorded-Admits (ground arith))
    ]

  pub admit_round-Ends : Ends r s (admit_round r s)
  unfolding admit_round
  admit_round-Ends = gate_rule (Ends r s) r.now rolled (λ why. rolled_held) pace-Ends
