-- ===== src/Quota/TokenBucket/Reserve.antt =====
-- What is left of a reservation that is returned.
use football_agent.Prelude.{ℕ, ◌≡◌, arith}
use football_agent.Prelude.Int.{ℤ, pos, ◌+ℤ◌, ◌-ℤ◌, ◌≤ℤ◌, ltb_ℤ, min_ℤ, max_ℤ, +ℤ_parts, -ℤ_parts}
use football_agent.Quota.TokenBucket.{TokenBucket, refill, force_reserve, consume_reserve}

module _ (u b t : ℤ) (some_used : pos 1 ≤ℤ u) (within : u ≤ℤ b) (some_tokens : pos 1 ≤ℤ t) where
  abbrev returned : ℤ
  returned = max_ℤ (pos 0) (min_ℤ b (u +ℤ t) -ℤ t)

  returned_lem : (returned ≤ℤ u) × (ltb_ℤ returned u ≡ ltb_ℤ b (u +ℤ t))
  returned_lem =
      let p = +ℤ_parts u t in
      let q = -ℤ_parts b t in let r = -ℤ_parts (u +ℤ t) t in (ground arith, ground arith)

-- Tokens that are reserved and then returned, at a time when some of the hour's budget is used and
-- not more than it: never is more used afterwards than before, and less is used, so that quota is
-- made up, exactly when the reservation went over the budget.
pub reserve_returned :
    (now : ℕ) (tokens : ℤ) (s : TokenBucket)
    → pos 1 ≤ℤ (refill now s).hourly_used
    → (refill now s).hourly_used ≤ℤ (refill now s).budget
    → pos 1 ≤ℤ tokens
    → let before = (refill now s).hourly_used in
      let after = (consume_reserve tokens (force_reserve now tokens s)).hourly_used in
      (after ≤ℤ before) × (ltb_ℤ after before ≡ ltb_ℤ (refill now s).budget (before +ℤ tokens))
unfolding force_reserve consume_reserve
reserve_returned now tokens s h k l =
    returned_lem (refill now s).hourly_used (refill now s).budget tokens h k l
