-- ===== src/Workers/Lock/Runs.antt =====
-- app/workers/scheduler_runner.py: `main`, for the processes that run one command. A process is
-- its pid; it is started, calls `acquire_lock`, and if it has the lock runs the command and comes
-- to the `finally` block, unless it is killed. A pid may be given again after its process has
-- ended. Each call of `acquire_lock` and each `finally` block goes on undisturbed.
use football_agent.Prelude.{
  ℕ, suc, String, Bool, true, false, Option, none, some, ◌==◌, ◌≡◌, ◌≤◌, if◌then◌else◌,
}
use football_agent.Prelude.Int.{ℤ, pos, negsuc}
use football_agent.Settlement.Evidence.{Outcome, ok, raised}
use football_agent.Workers.Lock.{Host, Attempt, LockFile, release_lock, acquire_lock}

-- The heartbeat is the last status written for the command.
pub record World (T : Type 0) : Type 0 where
  pub file : LockFile T
  pub heartbeat : Option String

pub record System (T : Type 0) : Type 0 where
  pub world : World T
  pub alive : ℕ → Bool
  -- holding the lock, in `asyncio.run`
  pub running : ℕ → Bool
  pub clock : ℕ

abbrev pub update : (ℕ → Bool) → ℕ → Bool → ℕ → Bool
update f i b j = if j == i then b else f j

abbrev pub status_of : Outcome {0} Unit → String
status_of (ok _) = "success"
status_of (raised text) = "failed"

-- `os.kill(pid, 0)`, asked of positive pids only
abbrev pub is_pid_alive : (ℕ → Bool) → ℤ → Bool
is_pid_alive alive (pos n) = alive n
is_pid_alive alive (negsuc n) = false

module _ {T : Type 0} (h : Host T) (command_name : String) where
  -- The `finally` block. Where `write_heartbeat` raises, it ends there.
  unfoldable pub finally : Bool → String → Bool → World T → World T
  finally saved status locked w =
      if saved
      then record {
        file = if locked then release_lock h w.file else w.file;
        heartbeat = some status;
      }
      else w

  -- From the result of `acquire_lock`: the command starts, or the process ends by `sys.exit(0)`.
  abbrev pub after_acquire : System T → ℕ → ℕ → Bool → LockFile T × Attempt T → System T
  after_acquire s i now saved (file, Attempt.acquired) = record s {
    world = record s.world { file = file };
    running = update s.running i true;
    clock = now;
  }
  after_acquire s i now saved (file, _) = record s {
    world = finally saved "success" false (record s.world { file = file });
    alive = update s.alive i false;
    clock = now;
  }

  unfoldable pub call_main : System T → ℕ → ℕ → Bool → System T
  call_main s i now saved =
      after_acquire s i now saved
        (acquire_lock h command_name i now (is_pid_alive s.alive) s.world.file)

  unfoldable pub end_main : System T → ℕ → ℕ → Outcome {0} Unit → Bool → System T
  end_main s i now result saved = record s {
    world = finally saved (status_of result) true s.world;
    alive = update s.alive i false;
    running = update s.running i false;
    clock = now;
  }

  -- A process that is killed leaves the file.
  unfoldable pub ended : System T → ℕ → System T
  ended s i = record s { alive = update s.alive i false; running = update s.running i false }

  pub data Step (s : System T) : System T → Type 0 where
    -- 0 is no pid that a process gets.
    launch :
        (i : ℕ)
        → s.alive (suc i) ≡ false
        → Step s (record s { alive = update s.alive (suc i) true })
    call :
        (i now : ℕ) (saved : Bool)
        → s.alive i ≡ true
        → s.running i ≡ false
        → s.clock ≤ now
        → Step s (call_main s i now saved)
    complete :
        (i now : ℕ) (result : Outcome {0} Unit) (saved : Bool)
        → s.running i ≡ true
        → s.clock ≤ now
        → Step s (end_main s i now result saved)
    crash : (i : ℕ) → Step s (ended s i)

  abbrev pub start : System T
  start = record {
    world = record { file = none; heartbeat = none };
    alive = λ _. false;
    running = λ _. false;
    clock = 0;
  }

  pub data Reach : System T → Type 0 where
    here : Reach start
    next : {s t : System T} → Reach s → Step s t → Reach t
