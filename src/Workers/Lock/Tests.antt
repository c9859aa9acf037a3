-- ===== src/Workers/Lock/Tests.antt =====
-- Runs of the scheduler's runner on concrete states.
use football_agent.Prelude.{
  ℕ, ◌+◌, ◌*◌, ◌<◌, ◌==◌, if◌then◌else◌, true, false, Option, none, some, [], ◌∷◌, ◌≡◌, refl, arith,
}
use football_agent.Prelude.Int.{ℤ, pos}
use football_agent.Domain.Entities.{Instant}
use football_agent.Workers.Lock.{
  Host, Attempt, LockFile, lock_lines, stale_ttl, attempt_step, attempt_steps, acquire_lock,
}
use football_agent.Workers.Lock.Runs.{
  System, update, launch, call, crash, start, Reach, here, next, call_main, ended, finally,
}
use football_agent.Workers.Lock.Invariant.{IsHost}
use football_agent.Workers.Lock.Exclusive.{Reach-exclusive}
use football_agent.Workers.Lock.Recovered.{call_main-recovers}

data Line : Type 0 where
  pid_line time_line : ℕ → Line

abbrev line_int : Line → Option ℤ
line_int (pid_line n) = some (pos n)
line_int (time_line t) = none

abbrev line_time : Line → Option Instant
line_time (pid_line n) = none
line_time (time_line t) = some (record { tick = t; aware = true })

abbrev lines_host : Host Line
lines_host = record {
  int_of = line_int;
  str_of = pid_line;
  is_blank = λ _. false;
  isoformat = time_line;
  fromisoformat = line_time;
}

lines-IsHost : IsHost lines_host
lines-IsHost = record {
  int-str = λ n. refl;
  blank-isoformat = λ t. refl;
  from-isoformat = λ t. refl;
}

abbrev second : ℕ
second = 1000000

abbrev launched : System Line
launched = record (start lines_host "settlement") { alive = update (λ _. false) 4 true }

launched-Reach : Reach lines_host "settlement" launched
launched-Reach = next here (launch 3 refl)

abbrev runs : System Line
runs = call_main lines_host "settlement" launched 4 second true

runs-Reach : Reach lines_host "settlement" runs
runs-Reach = next launched-Reach (call 4 second true refl refl (omega arith))

runs_4 : runs.running 4 ≡ true
unfolding call_main acquire_lock attempt_step
runs_4 = refl

abbrev killed : System Line
killed = ended lines_host "settlement" runs 4

killed-Reach : Reach lines_host "settlement" killed
killed-Reach = next runs-Reach (crash 4)

abbrev much_later : ℕ
much_later = 4000 * second

killed_left :
    (j t : ℕ)
    → killed.world.file ≡ some (lock_lines lines_host j t)
    → (killed.alive j ≡ false) × (t + 3600 * 1000000 < much_later)
unfolding ended call_main acquire_lock attempt_step
killed_left j t e =
    let same : pid_line 4 ∷ time_line second ∷ [] ≡ lock_lines lines_host j t = cc e in
    let pids : pid_line 4 ≡ pid_line j = cc same in
    let times : time_line second ≡ time_line t = cc same in
    let pid : 4 ≡ j = cc pids in let time : second ≡ t = cc times in (ground arith, omega arith)

Reach-exclusive_example :
    (runs.alive 4 ≡ true)
    × ((t : ℕ) × (runs.world.file ≡ some (lock_lines lines_host 4 t)))
    × ((j : ℕ) → runs.running j ≡ true → 4 ≡ j)
Reach-exclusive_example = Reach-exclusive lines_host "settlement" lines-IsHost runs-Reach 4 runs_4

call_main-recovers_example :
    let t = call_main lines_host "settlement" killed 6 much_later true in
    (t.running 6 ≡ true) × (t.world.file ≡ some (lock_lines lines_host 6 much_later))
call_main-recovers_example =
    call_main-recovers lines_host "settlement" lines-IsHost killed-Reach 6 much_later true
      killed_left

-- A lock whose holder is dead is refused while it is young.
young_lock :
    acquire_lock lines_host "settlement" 6
      (100 * second)
      (λ _. false)
      (some (lock_lines lines_host 4 second))
    ≡ (some (lock_lines lines_host 4 second), Attempt.refused)
unfolding acquire_lock attempt_step stale_ttl
young_lock = refl

-- Processes 6 and 7 find a stale lock. Each reads and judges it, then 6 breaks it and takes the
-- lock, then 7 breaks that and takes it too: 6 is alive and both have the lock.
abbrev steps_of : ℕ → ℕ → LockFile Line × Attempt Line → LockFile Line × Attempt Line
steps_of pid n s =
    attempt_steps lines_host "settlement" pid much_later
      (λ p. elim p [ pos n ↦ if n == 4 then false else true | _ ↦ false ]) n s

two_holders :
    let judged_6 = steps_of 6 3 (some (lock_lines lines_host 4 second), Attempt.opening) in
    let judged_7 = steps_of 7 3 (judged_6.0, Attempt.opening) in
    let after_6 = steps_of 6 3 (judged_7.0, judged_6.1) in
    let after_7 = steps_of 7 3 (after_6.0, judged_7.1) in
    (after_6.1 ≡ Attempt.acquired) × (after_7.1 ≡ Attempt.acquired)
unfolding attempt_step stale_ttl
two_holders = (refl, refl)

-- A process that does not get the lock writes "success" over the status of a run that failed.
hidden_failure :
    let failed_before = record runs { world = record runs.world { heartbeat = some "failed" } } in
    (call_main lines_host "settlement" failed_before 6 much_later true).world.heartbeat
    ≡ some "success"
unfolding call_main acquire_lock attempt_step finally
hidden_failure = refl
