-- ===== src/Quota/TokenBucket/Snapshot.antt =====
-- A snapshot of the budget tells what `acquire` will answer.
use football_agent.Prelude.{
  ℕ, Bool, true, false, ◌&&◌, Option, none, some, ◌≡◌, ◌↔◌, arith, refl, if◌then◌else◌,
}
use football_agent.Prelude.Int.{ℤ, pos, ◌-ℤ◌, ◌≤ℤ◌, leb_ℤ, max_ℤ}
use football_agent.Quota.TokenBucket.{
  TokenBucket, refill, hourly_remaining, daily_allows, daily_left, spend, acquire, remaining,
  budget,
}

-- Not more than what is left, where that is limited.
abbrev pub Within : ℤ → Option ℤ → Type 0
Within tokens none = Unit
Within tokens (some left) = tokens ≤ℤ left

le_max_iff : (t n : ℤ) → pos 1 ≤ℤ t → (leb_ℤ t n ≡ true) ↔ (t ≤ℤ max_ℤ (pos 0) n)
le_max_iff t n h = (λ k. ground arith, λ k. ground arith)

allows_iff :
    (t used : ℤ) (limit : Option ℤ)
    → pos 1 ≤ℤ t
    → (daily_allows t used limit ≡ true) ↔ Within t (daily_left used limit)
allows_iff t used none h = (λ k. tt, λ k. refl)
allows_iff t used (some limit) h = le_max_iff t (limit -ℤ used) h

first_iff :
    {A : Type 0} (a b : Bool) (s u : A)
    → ((if◌then◌else◌ {A = Bool × A} (a && b) (true, s) (false, u)).0 ≡ true)
      ↔ ((a ≡ true) × (b ≡ true))
first_iff true true s u = (λ h. (refl, refl), λ h. refl)
first_iff true false s u = (λ h. absurd (cc h), λ h. absurd (cc h.1))
first_iff false b s u = (λ h. absurd (cc h), λ h. absurd (cc h.0))

-- Tokens, at least one, are granted exactly when a snapshot taken at the same time has as many
-- left for the hour, and for the day where that is limited; and what `remaining` answers is the
-- snapshot's number.
pub acquire_iff_budget :
    (now : ℕ) (tokens : ℤ) (s : TokenBucket)
    → pos 1 ≤ℤ tokens
    → (((acquire now tokens s).0 ≡ true)
        ↔ ((tokens ≤ℤ (budget now s).0.remaining) × Within tokens (budget now s).0.daily_remaining))
      × ((remaining now s).0 ≡ (budget now s).0.remaining)
unfolding acquire budget remaining
acquire_iff_budget now tokens s h =
    let r = refill now s in
    let f =
      first_iff (leb_ℤ tokens (hourly_remaining r))
        (daily_allows tokens r.daily_used r.daily_budget) (spend tokens r) r in
    let n = le_max_iff tokens (hourly_remaining r) h in
    let d = allows_iff tokens r.daily_used r.daily_budget h in
    ((λ k. let (a, b) = f.0 k in (n.0 a, d.0 b), λ k. f.1 (n.1 k.0, d.1 k.1)), refl)
