-- ===== src/Picks/Reviewed.antt =====
-- What a run of the daily picks reviews.
use football_agent.Prelude.{
  ℕ, suc, Bool, true, false, ◌⊎◌, some, if◌then◌else◌, ◌||◌, List, [], ◌∷◌, ◌++◌, ◌+◌, ◌≡◌, inl,
  inr, refl, sym, ap, ◌∙◌, arith, All, Some, All-map, ◌==◌, length,
}
use mathlib.Core.List.{append_assoc, append-nil}
use football_agent.Prelude.Dict.{Dict, lookup}
use football_agent.Prelude.Number.{Number}
use football_agent.Settlement.Evidence.{Outcome, ok, raised, bind_outcome}
use football_agent.Picks.Whitelist.{CompetitionWhitelist}
use football_agent.Picks.{
  DetailedAnalysis, PickLimits, PickServices, Reviews, review_top, review_detail, add_review,
}
use football_agent.Picks.Scanned.{IsOf, IsServices, Found}

abbrev pub AllDifferent : List ℕ → Type 0
AllDifferent [] = Unit
AllDifferent (i ∷ is) = All (λ j. (i == j) ≡ false) is × AllDifferent is

module _ {F S : Type 0} ⦃f : Number F⦄ (env : PickServices F S) (limits : PickLimits F)
    (whitelist : CompetitionWhitelist) where
  -- A review of `i` between two stores: not decided on before, decided on after, and listed.
  pub record IsReview (s t : S) (es : List (ℕ × F)) (i : ℕ) : Type 0 where
    pub not_before : env.has_log s i ≡ false
    pub after : env.has_log t i ≡ true
    pub listed : Some (λ e. e.0 ≡ i) es

  pub record Reviewed (r : Reviews S) (es : List (ℕ × F)) (r' : Reviews S) : Type 0 where
    pub new_ids : List ℕ
    pub appended : r'.reviewed_ids ≡ r.reviewed_ids ++ new_ids
    pub fresh : All (IsReview r.store r'.store es) new_ids
    pub different : AllDifferent new_ids
    pub kept : (j : ℕ) → env.has_log r.store j ≡ true → env.has_log r'.store j ≡ true
    pub logged : All (λ e. env.has_log r'.store e.0 ≡ true) es
    pub accounted : r'.reviewed + r'.skipped ≡ r.reviewed + r.skipped + length es
    pub counted : r'.reviewed ≡ r.reviewed + length new_ids

  Reviewed-none : (r : Reviews S) → Reviewed r [] r
  Reviewed-none r = record {
    new_ids = [];
    appended = sym (append-nil r.reviewed_ids);
    fresh = tt;
    different = tt;
    kept = λ j k. k;
    logged = tt;
    accounted = omega arith;
    counted = omega arith;
  }

  -- A fixture that has a decision log is left alone.
  Reviewed-skip :
      (r r' : Reviews S) (e : ℕ × F) (es : List (ℕ × F))
      → env.has_log r.store e.0 ≡ true
      → Reviewed (record r { skipped = suc r.skipped }) es r'
      → Reviewed r (e ∷ es) r'
  Reviewed-skip r r' e es on h = record {
    new_ids = h.new_ids;
    appended = h.appended;
    fresh =
        All-map
          (λ i k. record { not_before = k.not_before; after = k.after; listed = inr k.listed })
          h.new_ids h.fresh;
    different = h.different;
    kept = h.kept;
    logged = (h.kept e.0 on, h.logged);
    accounted = omega (arith, h.accounted);
    counted = omega (arith, h.counted);
  }

  Reviewed-new :
      IsServices env
      → (r r' : Reviews S) (e : ℕ × F) (es : List (ℕ × F)) (d : DetailedAnalysis F) (n : ℕ) (t : S)
      → env.has_log r.store e.0 ≡ false
      → IsOf d e.0
      → env.review_detailed r.store d ≡ Outcome.ok (n, t)
      → Reviewed (add_review env limits whitelist r e.0 (n, t)) es r'
      → Reviewed r (e ∷ es) r'
  Reviewed-new laws r r' e es d n t off same done h = record {
    new_ids = e.0 ∷ h.new_ids;
    appended = h.appended ∙ append_assoc r.reviewed_ids (e.0 ∷ []) h.new_ids;
    fresh = (
      record { not_before = off; after = h.kept e.0 is_logged; listed = inl refl },
      All-map
          (λ i k. record {
            not_before = (earlier i k.not_before).0;
            after = k.after;
            listed = inr k.listed;
          })
          h.new_ids h.fresh,
    );
    different = (All-map (λ i k. (earlier i k.not_before).1) h.new_ids h.fresh, h.different);
    kept = λ j k. h.kept j (let e' = law j in ground arith);
    logged = (h.kept e.0 is_logged, h.logged);
    accounted = omega (arith, h.accounted);
    counted = omega (arith, h.counted);
  }
    where
      law : (j : ℕ) → env.has_log t j ≡ (j == e.0 || env.has_log r.store j)
      law j =
          laws.review_logs r.store t d n j same.1 done
          ∙ ap (λ i. j == i || env.has_log r.store j) same.0

      is_logged : env.has_log t e.0 ≡ true
      is_logged = let l = law e.0 in ground arith

      earlier :
          (i : ℕ) → env.has_log t i ≡ false → (env.has_log r.store i ≡ false) × ((e.0 == i) ≡ false)
      earlier i k = let l = law i in (ground arith, ground arith)

  -- What the reviews end with: what was reviewed, or the exception of a review or of a listing of
  -- decision logs.
  abbrev pub ReviewEnds : Reviews S → List (ℕ × F) → Outcome (Reviews S) → Type 0
  ReviewEnds r es (ok r') = Reviewed r es r'
  ReviewEnds r es (raised text) =
      ((s : S) × (d : DetailedAnalysis F) × (env.review_detailed s d ≡ Outcome.raised text))
      ⊎ ((s : S) × (j : ℕ) × (env.list_by_fixture s j ≡ Outcome.raised text))

  module _ (laws : IsServices env) (details : Dict (DetailedAnalysis F)) where
    after_skip :
        (r : Reviews S) (e : ℕ × F) (es : List (ℕ × F)) (o : Outcome (Reviews S))
        → env.has_log r.store e.0 ≡ true
        → ReviewEnds (record r { skipped = suc r.skipped }) es o
        → ReviewEnds r (e ∷ es) o
    after_skip r e es (raised text) on h = h
    after_skip r e es (ok r') on h = Reviewed-skip r r' e es on h

    after_new :
        (r : Reviews S) (e : ℕ × F) (es : List (ℕ × F)) (d : DetailedAnalysis F) (n : ℕ) (t : S)
        (o : Outcome (Reviews S))
        → env.has_log r.store e.0 ≡ false
        → IsOf d e.0
        → env.review_detailed r.store d ≡ Outcome.ok (n, t)
        → ReviewEnds (add_review env limits whitelist r e.0 (n, t)) es o
        → ReviewEnds r (e ∷ es) o
    after_new r e es d n t (raised text) off same done h = h
    after_new r e es d n t (ok r') off same done h =
        Reviewed-new laws r r' e es d n t off same done h

    after_review :
        (r : Reviews S) (e : ℕ × F) (es : List (ℕ × F)) (d : DetailedAnalysis F)
        (o : Outcome (ℕ × S))
        → env.has_log r.store e.0 ≡ false
        → IsOf d e.0
        → env.review_detailed r.store d ≡ o
        → ((r' : Reviews S) → ReviewEnds r' es (review_top env limits whitelist details r' es))
        → ReviewEnds r (e ∷ es) (
            bind_outcome
              (bind_outcome o (λ done. Outcome.ok (add_review env limits whitelist r e.0 done)))
              (λ r'. review_top env limits whitelist details r' es))
    after_review r e es d (raised text) off same done k = inl (r.store, d, done)
    after_review r e es d (ok (n, t)) off same done k =
        after_new r e es d n t _ off same done (k (add_review env limits whitelist r e.0 (n, t)))

    after_listing :
        (r : Reviews S) (e : ℕ × F) (es : List (ℕ × F)) (d : DetailedAnalysis F) (o : Outcome Bool)
        → env.list_by_fixture r.store e.0 ≡ o
        → lookup e.0 details ≡ some d
        → IsOf d e.0
        → ((r' : Reviews S) → ReviewEnds r' es (review_top env limits whitelist details r' es))
        → ReviewEnds r (e ∷ es) (
            bind_outcome
              (bind_outcome o (λ logged.
                if logged
                then Outcome.ok (record r { skipped = suc r.skipped })
                else review_detail env limits whitelist r e.0 (lookup e.0 details)))
              (λ r'. review_top env limits whitelist details r' es))
    after_listing r e es d (raised text) l at same k = inr (r.store, e.0, l)
    after_listing r e es d (ok true) l at same k =
        after_skip r e es _ (sym (laws.lists_logs r.store e.0 true l))
          (k (record r { skipped = suc r.skipped }))
    after_listing r e es d (ok false) l at same k = rw at (
        after_review r e es d (env.review_detailed r.store d)
          (sym (laws.lists_logs r.store e.0 false l)) same refl k)

    pub review_top-ReviewEnds :
        (r : Reviews S) (es : List (ℕ × F))
        → All (Found env limits whitelist details) es
        → ReviewEnds r es (review_top env limits whitelist details r es)
    unfolding review_top
    review_top-ReviewEnds r [] h = Reviewed-none r
    review_top-ReviewEnds r (e ∷ es) ((d, at, same), h) =
        after_listing r e es d (env.list_by_fixture r.store e.0) refl at same
          (λ r'. review_top-ReviewEnds r' es h)
