-- ===== src/Workers/Lock/Exclusive.antt =====
-- At most one process of a command runs it at a time.
use football_agent.Prelude.{
  ℕ, suc, String, Bool, true, false, none, some, ◌≤◌, ◌≡◌, ◌⊎◌, refl, sym, arith, inl, inr,
}
use mathlib.Core.Path.{subst}
use football_agent.Settlement.Evidence.{Outcome}
use football_agent.Workers.Lock.{Host, lock_lines}
use football_agent.Workers.Lock.Runs.{
  World, System, update, finally, status_of, end_main, ended, Step, launch, call, complete, crash,
  Reach, here, next,
}
use football_agent.Workers.Lock.Invariant.{
  IsHost, Inv, Inv-exclusive, call-cases, took-Inv, left-Inv, ended-Inv,
}

module _ {T : Type 0} (h : Host T) (command_name : String) where
  launch-Inv :
      (s : System T) (i : ℕ)
      → Inv h command_name s
      → Inv h command_name (record s { alive = update s.alive (suc i) true })
  launch-Inv s i inv = record {
    held = λ k r. let (on, file) = inv.held k r in (ground arith, file);
    on_file = inv.on_file;
    no_zero = let z = inv.no_zero in ground arith;
  }

  finally-file :
      (saved : Bool) (status : String) (w : World T)
      → ((finally h command_name saved status true w).file ≡ none)
        ⊎ ((finally h command_name saved status true w).file ≡ w.file)
  unfolding finally
  finally-file true status w = inl refl
  finally-file false status w = inr refl

  end_main-Inv :
      IsHost h
      → (s : System T) (i now : ℕ) (result : Outcome {0} Unit) (saved : Bool) → Inv h command_name s
      → s.running i ≡ true
      → s.clock ≤ now
      → Inv h command_name (end_main h command_name s i now result saved)
  unfolding end_main
  end_main-Inv laws s i now result saved inv run le =
      ended-Inv h command_name s i now _ inv le
        (λ k r other.
          let who = Inv-exclusive h command_name laws s inv k i r run in absurd (ground arith))
        (finally-file saved (status_of result) s.world)

  ended_here-Inv :
      (s : System T) (i : ℕ) → Inv h command_name s → Inv h command_name (ended h command_name s i)
  unfolding ended
  ended_here-Inv s i inv =
      ended-Inv h command_name s i s.clock s.world inv (omega arith) (λ k r other. refl) (inr refl)

  pub Step-Inv :
      IsHost h
      → {s t : System T} → Step h command_name s t
      → Inv h command_name s
      → Inv h command_name t
  Step-Inv laws {s} (launch i off) inv = launch-Inv s i inv
  Step-Inv laws {s} (call i now saved on off le) inv =
      elim (call-cases h command_name laws s inv i now saved) [
        | inl (e, idle) ↦
            subst (Inv h command_name) (sym e) (took-Inv h command_name s i now inv on idle)
        | inr left ↦ left-Inv h command_name s _ i now inv off le left
      ]
  Step-Inv laws {s} (complete i now result saved run le) inv =
      end_main-Inv laws s i now result saved inv run le
  Step-Inv laws {s} (crash i) inv = ended_here-Inv s i inv

  pub Reach-Inv : IsHost h → {s : System T} → Reach h command_name s → Inv h command_name s
  Reach-Inv laws here = record { held = λ i r. absurd (cc r); on_file = inl refl; no_zero = refl }
  Reach-Inv laws (next r st) = Step-Inv laws st (Reach-Inv laws r)

  -- Processes of one command are started, call for the lock, end with or without an exception or
  -- are killed in any order, with calls that nothing disturbs: no two of them run the command at
  -- once, and the one that does is alive and named by the lock file.
  pub Reach-exclusive :
      IsHost h
      → {s : System T} → Reach h command_name s
      → (i : ℕ) → s.running i ≡ true
      → (s.alive i ≡ true)
        × ((t : ℕ) × (s.world.file ≡ some (lock_lines h i t)))
        × ((j : ℕ) → s.running j ≡ true → i ≡ j)
  Reach-exclusive laws {s} r i run =
      let inv = Reach-Inv laws r in
      let (on, file) = inv.held i run in
      (on, file, λ j other. Inv-exclusive h command_name laws s inv i j run other)
