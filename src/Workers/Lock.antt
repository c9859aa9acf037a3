-- ===== src/Workers/Lock.antt =====
-- app/workers/scheduler_runner.py: `acquire_lock`, `release_lock` and `_stale_ttl`. What a process
-- does to the lock file is one step each, so that the steps of two processes can be told apart;
-- `acquire_lock` makes them in a row. The operating system, `int` and `datetime` are parameters:
-- the lines of a file have a type of their own. Times are in microseconds.
pub mod Acquired
pub mod Runs
pub mod Invariant
pub mod Exclusive
pub mod Recovered
mod Tests
use football_agent.Prelude.{
  ℕ, zero, suc, String, Bool, true, false, not, ◌&&◌, Option, none, some, List, [], ◌∷◌, ◌+◌, ◌*◌,
  min, ltb, if◌then◌else◌,
}
use football_agent.Prelude.Int.{ℤ, pos, negsuc}
use football_agent.Prelude.TextDict.{TextDict, lookup}
use football_agent.Domain.Entities.{Instant}

-- In seconds.
abbrev expected_durations : TextDict ℕ
expected_durations =
    ("daily_job", 900)
    ∷ ("pre_kickoff", 300)
    ∷ ("settlement", 120)
    ∷ ("provider_health", 600)
    ∷ ("dashboard_refresh", 120)
    ∷ ("production_recovery", 900)
    ∷ ("daily_report", 120)
    ∷ ("weekly_report", 120)
    ∷ ("health_check", 120)
    ∷ ("coverage_monitor", 300)
    ∷ ("gate_funnel", 120)
    ∷ ("alert_monitor", 120)
    ∷ ("season_prep", 900)
    ∷ []

abbrev or_default : Option ℕ → ℕ
or_default none = 300
or_default (some n) = n

-- `_stale_ttl`
unfoldable pub stale_ttl : String → ℕ
stale_ttl command_name = min (2 * or_default (lookup command_name expected_durations)) 3600

-- `none` is the ValueError of `int` and of `fromisoformat`.
pub record Host (T : Type 0) : Type 0 where
  pub int_of : T → Option ℤ
  pub str_of : ℕ → T
  pub is_blank : T → Bool
  pub isoformat : ℕ → T
  pub fromisoformat : T → Option Instant

-- Where a call of `acquire_lock` is: at `os.open`, `os.write`, `read_text`, the two checks of what
-- it read, `release_lock`; or it has returned the path, or None.
pub data Attempt (T : Type 0) : Type 0 where
  opening writing reading breaking acquired refused : Attempt T
  judging : List T → Attempt T

-- The lock file, as the lines of its stripped text; `none` while there is no file.
abbrev pub LockFile : Type 0 → Type 0
LockFile T = Option (List T)

-- The pid and the time that are read out of a lock file.
pub record Holder (T : Type 0) : Type 0 where
  pub old_pid : ℤ
  pub old_time : Option T

abbrev pub first_line : {T : Type 0} → List T → Option T
first_line [] = none
first_line (t ∷ ts) = some t

-- `old_pid > 0`
abbrev is_positive : ℤ → Bool
is_positive (pos zero) = false
is_positive (pos (suc n)) = true
is_positive (negsuc n) = false

module _ {T : Type 0} (h : Host T) where
  -- `f"{pid}\n{now.isoformat()}\n"`
  abbrev pub lock_lines : ℕ → ℕ → List T
  lock_lines pid now = h.str_of pid ∷ h.isoformat now ∷ []

  -- Where `int` fails, the time is dropped too.
  abbrev holder_of : Option ℤ → List T → Holder T
  holder_of none rest = record { old_pid = negsuc 0; old_time = none }
  holder_of (some p) rest = record { old_pid = p; old_time = first_line rest }

  abbrev pub read_holder : List T → Holder T
  read_holder [] = record { old_pid = negsuc 0; old_time = none }
  read_holder (t ∷ rest) = holder_of (h.int_of t) rest

  abbrev is_running : (ℤ → Bool) → Holder T → Bool
  is_running is_pid_alive o = is_positive o.old_pid && is_pid_alive o.old_pid

  -- A time without a zone cannot be subtracted: the TypeError.
  abbrev pub older_than : ℕ → ℕ → Option Instant → Bool
  older_than ttl now none = true
  older_than ttl now (some t) = if t.aware then ltb (t.tick + ttl * 1000000) now else true

  abbrev stale_time : String → ℕ → Option T → Bool
  stale_time command_name now none = true
  stale_time command_name now (some t) =
      if h.is_blank t then true else older_than (stale_ttl command_name) now (h.fromisoformat t)

  -- The two checks.
  abbrev judge : String → ℕ → (ℤ → Bool) → Holder T → Attempt T
  judge command_name now is_pid_alive o =
      if is_running is_pid_alive o
      then Attempt.refused
      else if stale_time command_name now o.old_time
      then Attempt.breaking
      else Attempt.refused

  -- `os.remove` under `suppress(OSError)`; a removal that fails is left out
  abbrev pub release_lock : LockFile T → LockFile T
  release_lock file = none

  module _ (command_name : String) (pid now : ℕ) (is_pid_alive : ℤ → Bool) where
    -- The file that is there at the write is taken for the one that was opened. With O_CREAT and O_EXCL, `os.open` fails where there is a file.
    unfoldable pub attempt_step : LockFile T → Attempt T → LockFile T × Attempt T
    attempt_step none Attempt.opening = (some [], Attempt.writing)
    attempt_step (some ls) Attempt.opening = (some ls, Attempt.reading)
    -- What is written into a removed file is lost.
    attempt_step none Attempt.writing = (none, Attempt.acquired)
    attempt_step (some ls) Attempt.writing = (some (lock_lines pid now), Attempt.acquired)
    -- A file that is gone cannot be read: the OSError.
    attempt_step none Attempt.reading = (none, Attempt.judging [])
    attempt_step (some ls) Attempt.reading = (some ls, Attempt.judging ls)
    attempt_step file (Attempt.judging ls) =
        (file, judge command_name now is_pid_alive (read_holder ls))
    attempt_step file Attempt.breaking = (release_lock file, Attempt.opening)
    attempt_step file Attempt.acquired = (file, Attempt.acquired)
    attempt_step file Attempt.refused = (file, Attempt.refused)

    abbrev pub attempt_steps : ℕ → LockFile T × Attempt T → LockFile T × Attempt T
    attempt_steps zero s = s
    attempt_steps (suc n) s = attempt_steps n (attempt_step s.0 s.1)

    -- Six steps: open, read, judge and break, then open and write.
    unfoldable pub acquire_lock : LockFile T → LockFile T × Attempt T
    acquire_lock file = attempt_steps 6 (file, Attempt.opening)
