-- ===== src/Gates/Daily/Ranked.antt =====
-- The order that `DailySelectionService.select` gives.
use football_agent.Prelude.{
  ℕ, Bool, true, false, ◌&&◌, not, List, [], ◌∷◌, ◌++◌, take, drop, keep, length, min, ◌+◌,
  if◌then◌else◌, ◌≡◌, refl, ap, ◌∙◌, arith, All, All-map, length-take, length-append,
  take-append-drop, length-keep-not, Bool-cases, inl, inr, ◌⊎◌, sym,
}
use football_agent.Prelude.Number.{Number, IsOrdered}
use football_agent.Gates.Daily.{
  CandidateEvaluation, DailySelectionResult, is_approved, key_below, insert_ranked, ranked, select,
}

module _ {F : Type 0} ⦃f : Number F⦄ where
  -- The one expects less than the other, or as much at a lower score.
  abbrev pub Below : CandidateEvaluation F → CandidateEvaluation F → Type 0
  Below a b =
      (f.lt a.gate_input.expected_value b.gate_input.expected_value ≡ true)
      ⊎ ((f.eq a.gate_input.expected_value b.gate_input.expected_value ≡ true)
          × (f.lt a.gate_input.decision_score b.gate_input.decision_score ≡ true))

  -- No candidate of the list is below a later one.
  abbrev pub IsRanked : List (CandidateEvaluation F) → Type 0
  IsRanked [] = Unit
  IsRanked (x ∷ xs) = All (λ y. ¬ Below x y) xs × IsRanked xs

  -- The two have the same expected value and the same score.
  abbrev pub is_level : CandidateEvaluation F → CandidateEvaluation F → Bool
  is_level a b =
      f.eq a.gate_input.expected_value b.gate_input.expected_value
      && f.eq a.gate_input.decision_score b.gate_input.decision_score

  abbrev IsSorted : List (CandidateEvaluation F) → Type 0
  IsSorted [] = Unit
  IsSorted (x ∷ xs) = All (λ y. key_below x y ≡ false) xs × IsSorted xs

  abbrev ties : CandidateEvaluation F → CandidateEvaluation F → Bool
  ties a b = not (key_below a b) && not (key_below b a)

All-if {ℓ κ} :
    {A : Type ℓ} (P : A → Type κ) (b : Bool) (c : A) (rest : List A)
    → (b ≡ true → P c)
    → All P rest
    → All P (if b then c ∷ rest else rest)
All-if P true c rest h k = (h refl, k)
All-if P false c rest h k = k

-- Two entries of which one at most is kept may change places.
keep_either {ℓ} :
    {A : Type ℓ} (p q : Bool) (c x : A) (rest : List A)
    → (p && q) ≡ false
    → (let r = if p then c ∷ rest else rest in if q then x ∷ r else r)
      ≡ (let r = if q then x ∷ rest else rest in if p then c ∷ r else r)
keep_either true true c x rest h = absurd (cc h)
keep_either true false c x rest h = refl
keep_either false true c x rest h = refl
keep_either false false c x rest h = refl

module _ {F : Type 0} ⦃f : Number F⦄ (laws : IsOrdered f) where
  -- `key_below` in terms of `≤` alone.
  key_below_lem :
      (a b : CandidateEvaluation F)
      → let u = a.gate_input.expected_value in
        let v = b.gate_input.expected_value in
        key_below a b ≡ (
          if f.le u v && f.le v u
          then not (f.le b.gate_input.decision_score a.gate_input.decision_score)
          else not (f.le v u))
  key_below_lem a b = simp (
    laws.eq-eq-le a.gate_input.expected_value b.gate_input.expected_value,
    laws.lt-eq-not-le a.gate_input.expected_value b.gate_input.expected_value,
    laws.lt-eq-not-le a.gate_input.decision_score b.gate_input.decision_score,
  )

  above-not_Below : (a b : CandidateEvaluation F) → key_below a b ≡ false → ¬ Below a b
  above-not_Below a b h =
      let u = a.gate_input.expected_value in
      let v = b.gate_input.expected_value in
      let e = laws.eq-eq-le u v in
      let l = laws.lt-eq-not-le u v in let t = laws.le_total u v in λ k. ground arith

  is_level-ties : (a b : CandidateEvaluation F) → ties a b ≡ is_level a b
  is_level-ties a b =
      let u = a.gate_input.expected_value in
      let v = b.gate_input.expected_value in
      let x = key_below_lem a b in
      let y = key_below_lem b a in
      let e = laws.eq-eq-le u v in
      let s = laws.eq-eq-le a.gate_input.decision_score b.gate_input.decision_score in
      let t = laws.le_total u v in ground arith

  keep-is_level :
      (k : CandidateEvaluation F) (xs : List (CandidateEvaluation F))
      → keep (ties k) xs ≡ keep (is_level k) xs
  keep-is_level k [] = refl
  keep-is_level k (x ∷ xs) = rw (is_level-ties k x, keep-is_level k xs) refl

  IsSorted-IsRanked : (xs : List (CandidateEvaluation F)) → IsSorted xs → IsRanked xs
  IsSorted-IsRanked [] h = tt
  IsSorted-IsRanked (x ∷ xs) h =
      (All-map (λ y. above-not_Below x y) xs h.0, IsSorted-IsRanked xs h.1)

  key_below_asym : (a b : CandidateEvaluation F) → key_below a b ≡ true → key_below b a ≡ false
  key_below_asym a b h =
      let e = key_below_lem a b in
      let e' = key_below_lem b a in
      let t = laws.le_total a.gate_input.decision_score b.gate_input.decision_score in
      let t' = laws.le_total a.gate_input.expected_value b.gate_input.expected_value in ground arith

  not_below_trans :
      (a b c : CandidateEvaluation F)
      → key_below a b ≡ false
      → key_below b c ≡ false
      → key_below a c ≡ false
  not_below_trans a b c h k =
      let e = key_below_lem a b in
      let e' = key_below_lem b c in
      let e'' = key_below_lem a c in
      let u = a.gate_input.expected_value in
      let v = b.gate_input.expected_value in
      let w = c.gate_input.expected_value in
      let s =
        laws.le_trans c.gate_input.decision_score b.gate_input.decision_score
          a.gate_input.decision_score in
      let t1 = laws.le_trans w v u in
      let t2 = laws.le_trans v u w in let t3 = laws.le_trans u w v in ground arith

  All-insert_ranked :
      (P : CandidateEvaluation F → Type 0) (c : CandidateEvaluation F)
      (xs : List (CandidateEvaluation F))
      → P c
      → All P xs
      → All P (insert_ranked c xs)
  All-insert_ranked P c [] p h = (p, tt)
  All-insert_ranked P c (x ∷ xs) p h = elim (Bool-cases (key_below c x)) [
    | inl e ↦ rw e (h.0, All-insert_ranked P c xs p h.1)
    | inr e ↦ rw e (p, h)
  ]

  insert_ranked-IsSorted :
      (c : CandidateEvaluation F) (xs : List (CandidateEvaluation F))
      → IsSorted xs
      → IsSorted (insert_ranked c xs)
  insert_ranked-IsSorted c [] h = (tt, tt)
  insert_ranked-IsSorted c (x ∷ xs) h = elim (Bool-cases (key_below c x)) [
    | inl e ↦ rw e (
      All-insert_ranked (λ y. key_below x y ≡ false) c xs (key_below_asym c x e) h.0,
      insert_ranked-IsSorted c xs h.1,
    )
    | inr e ↦ rw e ((e, All-map (λ y k. not_below_trans c x y e k) xs h.0), h)
  ]

  -- Of two candidates that tie with the same one, neither is below the other.
  ties_apart :
      (k c x : CandidateEvaluation F) → key_below c x ≡ true → (ties k c && ties k x) ≡ false
  ties_apart k c x h = let t = not_below_trans c k x in ground arith

  keep-insert_ranked :
      (k c : CandidateEvaluation F) (xs : List (CandidateEvaluation F))
      → keep (ties k) (insert_ranked c xs) ≡ keep (ties k) (c ∷ xs)
  keep-insert_ranked k c [] = refl
  keep-insert_ranked k c (x ∷ xs) =
      let ih = keep-insert_ranked k c xs in
      elim (Bool-cases (key_below c x)) [
        | inl e ↦
            rw (e, ih)
              (keep_either (ties k c) (ties k x) c x (keep (ties k) xs) (ties_apart k c x e))
        | inr e ↦ rw e refl
      ]

  ranked-IsSorted : (cs : List (CandidateEvaluation F)) → IsSorted (ranked cs)
  unfolding ranked
  ranked-IsSorted [] = tt
  ranked-IsSorted (c ∷ cs) = insert_ranked-IsSorted c (ranked cs) (ranked-IsSorted cs)

  keep-ranked :
      (k : CandidateEvaluation F) (cs : List (CandidateEvaluation F))
      → keep (ties k) (ranked cs) ≡ keep (ties k) cs
  unfolding ranked
  keep-ranked k [] = refl
  keep-ranked k (c ∷ cs) =
      keep-insert_ranked k c (ranked cs)
      ∙ ap (λ r. if ties k c then c ∷ r else r) (keep-ranked k cs)

  length-insert_ranked :
      (c : CandidateEvaluation F) (xs : List (CandidateEvaluation F))
      → length (insert_ranked c xs) ≡ 1 + length xs
  length-insert_ranked c [] = refl
  length-insert_ranked c (x ∷ xs) = ground (arith, length-insert_ranked c xs)

  length-ranked : (cs : List (CandidateEvaluation F)) → length (ranked cs) ≡ length cs
  unfolding ranked
  length-ranked [] = refl
  length-ranked (c ∷ cs) = omega (arith, length-insert_ranked c (ranked cs), length-ranked cs)

  All-ranked :
      (P : CandidateEvaluation F → Type 0) (cs : List (CandidateEvaluation F))
      → All P cs
      → All P (ranked cs)
  unfolding ranked
  All-ranked P [] h = tt
  All-ranked P (c ∷ cs) h = All-insert_ranked P c (ranked cs) h.0 (All-ranked P cs h.1)

  keep-approved :
      (cs : List (CandidateEvaluation F)) → All (λ c. is_approved c ≡ true) (keep is_approved cs)
  keep-approved [] = tt
  keep-approved (c ∷ cs) =
      All-if (λ c. is_approved c ≡ true) (is_approved c) c (keep is_approved cs) (λ e. e)
        (keep-approved cs)

module _ {F : Type 0} ⦃f : Number F⦄ where
  -- What a selection is, whatever the sort: the approved candidates, none below a later one and
  -- the level ones as they came, cut at the limit.
  pub record IsSelection (n : ℕ) (cs : List (CandidateEvaluation F)) (r : DailySelectionResult F)
      : Type 0 where
    pub in_order : IsRanked (r.selected ++ r.over_limit)
    pub stable :
        (k : CandidateEvaluation F)
        → keep (is_level k) (r.selected ++ r.over_limit) ≡ keep (is_level k) (keep is_approved cs)
    pub gated : All (λ c. is_approved c ≡ true) (r.selected ++ r.over_limit)
    pub cut : length r.selected ≡ min n (length (keep is_approved cs))
    pub complete : length r.selected + length r.over_limit + length r.rejected ≡ length cs

module _ {F : Type 0} ⦃f : Number F⦄ (laws : IsOrdered f) where
  -- Of numbers that are ordered, `select` ranks just the approved candidates by expected value
  -- and then score, the best first and ties in the order given, and cuts them at the limit; with
  -- the rejected ones these are as many as the candidates.
  pub select-IsSelection :
      (n : ℕ) (cs : List (CandidateEvaluation F)) → IsSelection n cs (select n cs)
  unfolding select
  select-IsSelection n cs =
      let good = keep is_approved cs in
      let whole = take-append-drop n (ranked good) in
      record {
        in_order = rw whole (IsSorted-IsRanked laws (ranked good) (ranked-IsSorted laws good));
        stable = λ k. rw whole (
            sym (keep-is_level laws k (ranked good))
            ∙ keep-ranked laws k good
            ∙ keep-is_level laws k good);
        gated = rw whole (All-ranked laws (λ c. is_approved c ≡ true) good (keep-approved laws cs));
        cut = length-take n (ranked good) ∙ ap (min n) (length-ranked laws good);
        complete = omega (
          arith,
          length-append (take n (ranked good)) (drop n (ranked good)),
          ap length whole,
          length-ranked laws good,
          length-keep-not is_approved cs,
        );
      }
