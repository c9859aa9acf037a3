-- ===== src/Workers/Lock/Invariant.antt =====
-- What holds of the lock file and the processes, and what a call does to it.
use football_agent.Prelude.{
  ℕ, zero, suc, String, Bool, true, false, none, some, List, ◌+◌, ◌*◌, ◌≤◌, ◌≡◌, ◌⊎◌, refl, sym, ap,
  ◌∙◌, ◌==◌, arith, ltb, if◌then◌else◌, Bool-cases, inl, inr,
}
use mathlib.Core.Path.{subst}
use football_agent.Prelude.Int.{pos}
use football_agent.Workers.Lock.{
  Host, Attempt, lock_lines, read_holder, acquire_lock, judge, stale_ttl,
}
use football_agent.Workers.Lock.Acquired.{acquire_lock-none, acquire_lock-stale, acquire_lock-held}
use football_agent.Workers.Lock.Runs.{
  World, System, update, is_pid_alive, finally, after_acquire, call_main,
}

-- What is written is read again.
pub record IsHost {T : Type 0} (h : Host T) : Type 0 where
  pub int-str : (n : ℕ) → h.int_of (h.str_of n) ≡ some (pos n)
  pub blank-isoformat : (t : ℕ) → h.is_blank (h.isoformat t) ≡ false
  pub from-isoformat :
      (t : ℕ) → h.fromisoformat (h.isoformat t) ≡ some (record { tick = t; aware = true })

module _ {T : Type 0} (h : Host T) (command_name : String) where
  -- The lock of a process that is alive is left alone.
  pub judge-alive :
      IsHost h
      → (alive : ℕ → Bool) (j t now : ℕ) → alive (suc j) ≡ true
      → judge h command_name now (is_pid_alive alive) (read_holder h (lock_lines h (suc j) t))
        ≡ Attempt.refused
  judge-alive laws alive j t now a = rw (laws.int-str (suc j)) (rw a refl)

  -- That of one that is not is broken just if it is older than the limit.
  pub judge-dead :
      IsHost h
      → (alive : ℕ → Bool) (j t now : ℕ) → alive j ≡ false
      → judge h command_name now (is_pid_alive alive) (read_holder h (lock_lines h j t)) ≡ (
          if ltb (t + stale_ttl command_name * 1000000) now
          then Attempt.breaking
          else Attempt.refused)
  judge-dead laws alive zero t now a =
      rw (laws.int-str zero, laws.blank-isoformat t, laws.from-isoformat t) refl
  judge-dead laws alive (suc j) t now a =
      rw (laws.int-str (suc j), a, laws.blank-isoformat t, laws.from-isoformat t) refl

  str-injective : IsHost h → (i j t u : ℕ) → lock_lines h i t ≡ lock_lines h j u → i ≡ j
  str-injective laws i j t u e =
      let strs : h.str_of i ≡ h.str_of j = cc e in
      let ints : some (pos i) ≡ some (pos j) =
        sym (laws.int-str i) ∙ ap h.int_of strs ∙ laws.int-str j in
      cc ints

  -- Whoever runs is alive, and the lock file is its; a file was written before now.
  pub record Inv (s : System T) : Type 0 where
    pub held :
        (i : ℕ)
        → s.running i ≡ true
        → (s.alive i ≡ true) × ((t : ℕ) × (s.world.file ≡ some (lock_lines h i t)))
    pub on_file :
        (s.world.file ≡ none)
        ⊎ ((j : ℕ) × (t : ℕ) × (s.world.file ≡ some (lock_lines h j t)) × (t ≤ s.clock))
    pub no_zero : s.alive 0 ≡ false

  pub Inv-exclusive :
      IsHost h
      → (s : System T) → Inv s
      → (i j : ℕ) → s.running i ≡ true
      → s.running j ≡ true
      → i ≡ j
  Inv-exclusive laws s inv i j ri rj =
      let (_, (t, a)) = inv.held i ri in
      let (_, (u, b)) = inv.held j rj in
      let same : some (lock_lines h i t) ≡ some (lock_lines h j u) = sym a ∙ b in
      str-injective laws i j t u (cc same)

  -- The state after a call that gets the lock.
  abbrev pub took : System T → ℕ → ℕ → System T
  took s i now = record s {
    world = record s.world { file = some (lock_lines h i now) };
    running = update s.running i true;
    clock = now;
  }

  pub record IsLeft (s : System T) (i now : ℕ) (t : System T) : Type 0 where
    pub same_file : t.world.file ≡ s.world.file
    pub gone : t.alive ≡ update s.alive i false
    pub same_running : t.running ≡ s.running
    pub later : t.clock ≡ now

  after_acquire-IsLeft :
      (s : System T) (i now : ℕ) (saved : Bool) (ls : List T)
      → s.world.file ≡ some ls
      → IsLeft s i now (after_acquire h command_name s i now saved (some ls, Attempt.refused))
  unfolding finally
  after_acquire-IsLeft s i now true ls e = record {
    same_file = sym e;
    gone = refl;
    same_running = refl;
    later = refl;
  }
  after_acquire-IsLeft s i now false ls e = record {
    same_file = sym e;
    gone = refl;
    same_running = refl;
    later = refl;
  }

  pub call-none :
      (s : System T) (i now : ℕ) (saved : Bool)
      → s.world.file ≡ none
      → call_main h command_name s i now saved ≡ took s i now
  unfolding call_main
  call-none s i now saved e =
      rw (e, acquire_lock-none h command_name i now (is_pid_alive s.alive)) refl

  pub call-stale :
      (s : System T) (i now : ℕ) (saved : Bool) (ls : List T)
      → s.world.file ≡ some ls
      → judge h command_name now (is_pid_alive s.alive) (read_holder h ls) ≡ Attempt.breaking
      → call_main h command_name s i now saved ≡ took s i now
  unfolding call_main
  call-stale s i now saved ls e k =
      rw (e, acquire_lock-stale h command_name i now (is_pid_alive s.alive) ls k) refl

  call-held :
      (s : System T) (i now : ℕ) (saved : Bool) (ls : List T)
      → s.world.file ≡ some ls
      → judge h command_name now (is_pid_alive s.alive) (read_holder h ls) ≡ Attempt.refused
      → IsLeft s i now (call_main h command_name s i now saved)
  unfolding call_main
  call-held s i now saved ls e k =
      let answer =
        ap (acquire_lock h command_name i now (is_pid_alive s.alive)) e
        ∙ acquire_lock-held h command_name i now (is_pid_alive s.alive) ls k in
      subst (λ r. IsLeft s i now (after_acquire h command_name s i now saved r)) (sym answer)
        (after_acquire-IsLeft s i now saved ls e)

  -- A call gets the lock when no process runs, or it leaves the lock alone.
  pub call-cases :
      IsHost h
      → (s : System T) → Inv s
      → (i now : ℕ) (saved : Bool)
      → ((call_main h command_name s i now saved ≡ took s i now) × ((k : ℕ) → s.running k ≡ false))
        ⊎ IsLeft s i now (call_main h command_name s i now saved)
  call-cases laws s inv i now saved = elim inv.on_file [
    | inl free ↦ inl (call-none s i now saved free, λ k. idle k (λ r. free_apart k r free))
    | inr (j, t, e, le) ↦ elim (Bool-cases (s.alive j)) [
      | inl on ↦ inr (call-held s i now saved (lock_lines h j t) e (alive_case j t on))
      | inr off ↦
          let judged = judge-dead laws s.alive j t now off in
          elim (Bool-cases (ltb (t + stale_ttl command_name * 1000000) now)) [
            | inl old ↦ inl (
              call-stale s i now saved (lock_lines h j t) e (judged ∙ rw old refl),
              λ k. idle k (λ r. dead_apart k j t r e off),
            )
            | inr young ↦
                inr (call-held s i now saved (lock_lines h j t) e (judged ∙ rw young refl))
          ]
    ]
  ]
    where
      idle : (k : ℕ) → ¬ (s.running k ≡ true) → s.running k ≡ false
      idle k f = elim (Bool-cases (s.running k)) [ inl on ↦ absurd (f on) | inr off ↦ off ]

      free_apart : (k : ℕ) → s.running k ≡ true → ¬ (s.world.file ≡ none)
      free_apart k r e = let (_, (t, a)) = inv.held k r in absurd (cc (a, e))

      dead_apart :
          (k j t : ℕ)
          → s.running k ≡ true
          → s.world.file ≡ some (lock_lines h j t)
          → s.alive j ≡ false
          → ⊥
      dead_apart k j t r e off =
          let (on, (u, a)) = inv.held k r in
          let same : some (lock_lines h k u) ≡ some (lock_lines h j t) = sym a ∙ e in
          let who = str-injective laws k j u t (cc same) in absurd (cc (on, off, ap s.alive who))

      alive_case :
          (j t : ℕ)
          → s.alive j ≡ true
          → judge h command_name now (is_pid_alive s.alive) (read_holder h (lock_lines h j t))
            ≡ Attempt.refused
      alive_case zero t on = absurd (cc (on, inv.no_zero))
      alive_case (suc j) t on = judge-alive laws s.alive j t now on

  pub took-Inv :
      (s : System T) (i now : ℕ)
      → Inv s
      → s.alive i ≡ true
      → ((k : ℕ) → s.running k ≡ false)
      → Inv (took s i now)
  took-Inv s i now inv on idle = record {
    held = λ k r. elim (Bool-cases (k == i)) [
      | inl same ↦
          let who : k ≡ i = ground arith in
          (ap s.alive who ∙ on, (now, ap (λ j. some (lock_lines h j now)) (sym who)))
      | inr other ↦ let r' = idle k in absurd (ground arith)
    ];
    on_file = inr (i, now, refl, omega arith);
    no_zero = inv.no_zero;
  }

  pub left-Inv :
      (s t : System T) (i now : ℕ)
      → Inv s
      → s.running i ≡ false
      → s.clock ≤ now
      → IsLeft s i now t
      → Inv t
  left-Inv s t i now inv off le left = record {
    held = λ k r.
        let r' : s.running k ≡ true = ap (λ f. f k) (sym left.same_running) ∙ r in
        let (on, (u, a)) = inv.held k r' in
        (
          ap (λ f. f k) left.gone ∙ elim (Bool-cases (k == i)) [
            | inl same ↦ let who : k ≡ i = ground arith in absurd (cc (r', off, ap s.running who))
            | inr other ↦ rw other on
          ],
          (u, left.same_file ∙ a),
        );
    on_file = elim inv.on_file [
      | inl free ↦ inl (left.same_file ∙ free)
      | inr (j, u, e, before) ↦
          inr (j, u, left.same_file ∙ e, omega (arith, before, le, left.later))
    ];
    no_zero = ap (λ f. f 0) left.gone ∙ let z = inv.no_zero in ground arith;
  }

  -- What is left of the invariant when a process ends, with the file as it was or removed.
  pub ended-Inv :
      (s : System T) (i now : ℕ) (w : World T)
      → Inv s
      → s.clock ≤ now
      → ((k : ℕ) → s.running k ≡ true → (k == i) ≡ false → w.file ≡ s.world.file)
      → (w.file ≡ none) ⊎ (w.file ≡ s.world.file)
      → Inv (record {
        world = w;
        alive = update s.alive i false;
        running = update s.running i false;
        clock = now;
      })
  ended-Inv s i now w inv le others file = record {
    held = λ k r. elim (Bool-cases (k == i)) [
      | inl same ↦ absurd (ground arith)
      | inr other ↦
          let r' : s.running k ≡ true = rw other at r in
          let (on, (u, a)) = inv.held k r' in (rw other on, (u, others k r' other ∙ a))
    ];
    on_file = elim file [
      | inl free ↦ inl free
      | inr kept ↦ elim inv.on_file [
        | inl free ↦ inl (kept ∙ free)
        | inr (j, u, e, before) ↦ inr (j, u, kept ∙ e, omega (arith, before, le))
      ]
    ];
    no_zero = let z = inv.no_zero in ground arith;
  }
