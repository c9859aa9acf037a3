-- ===== src/Workers/Lock/Acquired.antt =====
-- What a call of `acquire_lock` comes to when nobody touches the file meanwhile.
use football_agent.Prelude.{ℕ, String, Bool, none, some, List, ◌≡◌, refl}
use football_agent.Prelude.Int.{ℤ}
use football_agent.Workers.Lock.{
  Host, Attempt, lock_lines, read_holder, attempt_step, acquire_lock, judge,
}

module _ {T : Type 0} (h : Host T) (command_name : String) (pid now : ℕ)
    (is_pid_alive : ℤ → Bool) where
  -- A free lock is taken.
  pub acquire_lock-none :
      acquire_lock h command_name pid now is_pid_alive none
      ≡ (some (lock_lines h pid now), Attempt.acquired)
  unfolding acquire_lock attempt_step
  acquire_lock-none = refl

  -- A lock that passes the checks is broken and taken.
  pub acquire_lock-stale :
      (ls : List T)
      → judge h command_name now is_pid_alive (read_holder h ls) ≡ Attempt.breaking
      → acquire_lock h command_name pid now is_pid_alive (some ls)
        ≡ (some (lock_lines h pid now), Attempt.acquired)
  unfolding acquire_lock attempt_step
  acquire_lock-stale ls e = rw e refl

  pub acquire_lock-held :
      (ls : List T)
      → judge h command_name now is_pid_alive (read_holder h ls) ≡ Attempt.refused
      → acquire_lock h command_name pid now is_pid_alive (some ls) ≡ (some ls, Attempt.refused)
  unfolding acquire_lock attempt_step
  acquire_lock-held ls e = rw e refl
