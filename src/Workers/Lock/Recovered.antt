-- ===== src/Workers/Lock/Recovered.antt =====
-- A lock that a killed process has left does not stay.
use football_agent.Prelude.{
  ℕ, String, Bool, true, false, some, ◌+◌, ◌*◌, ◌≤◌, ◌<◌, ◌≡◌, refl, sym, ◌∙◌, arith, ltb, inl, inr,
}
use mathlib.Core.Path.{subst}
use football_agent.Workers.Lock.{Host, lock_lines, stale_ttl}
use football_agent.Workers.Lock.Runs.{System, Reach, call_main}
use football_agent.Workers.Lock.Invariant.{IsHost, Inv, judge-dead, took, call-none, call-stale}
use football_agent.Workers.Lock.Exclusive.{Reach-Inv}

stale_ttl-le : (command_name : String) → stale_ttl command_name ≤ 3600
unfolding stale_ttl
stale_ttl-le command_name = omega arith

module _ {T : Type 0} (h : Host T) (command_name : String) where
  -- In a state that can be reached, with the lock free, or its holder dead and its file written
  -- more than an hour ago: a process that calls now runs the command, whatever the command.
  pub call_main-recovers :
      IsHost h
      → {s : System T} → Reach h command_name s
      → (i now : ℕ) (saved : Bool)
      → ((j t : ℕ)
          → s.world.file ≡ some (lock_lines h j t)
          → (s.alive j ≡ false) × (t + 3600 * 1000000 < now))
      → let t = call_main h command_name s i now saved in
        (t.running i ≡ true) × (t.world.file ≡ some (lock_lines h i now))
  call_main-recovers laws {s} r i now saved left =
      subst (λ t. (t.running i ≡ true) × (t.world.file ≡ some (lock_lines h i now))) (sym taken)
        (ground arith, refl)
    where
      taken : call_main h command_name s i now saved ≡ took h command_name s i now
      taken = elim (Inv.on_file (Reach-Inv h command_name laws r)) [
        | inl free ↦ call-none h command_name s i now saved free
        | inr (j, t, e, le) ↦
            let (dead, old) = left j t e in
            let old' : ltb (t + stale_ttl command_name * 1000000) now ≡ true =
              let bound = stale_ttl-le command_name in ground arith in
            call-stale h command_name s i now saved (lock_lines h j t) e
              (judge-dead h command_name laws s.alive j t now dead ∙ rw old' refl)
      ]
