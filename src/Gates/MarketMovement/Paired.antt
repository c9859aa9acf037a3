-- ===== src/Gates/MarketMovement/Paired.antt =====
-- What a comparison of two markets pairs.
use football_agent.Prelude.{
  String, true, ◌||◌, not, Option, none, some, List, [], ◌∷◌, ◌≡◌, inl, inr, refl, sym, ap, ◌∙◌,
  arith, All, Some, map, str_eq, Bool-cases,
}
use mathlib.Core.Path.{subst}
use football_agent.Prelude.Number.{Number}
use football_agent.Prelude.Text.{eq_iff}
use football_agent.Prelude.TextDict.{TextDict, lookup, insert}
use football_agent.Settlement.Evidence.{Outcome, ok, raised, bind_outcome}
use football_agent.Gates.MarketQuote.{VerifiedSelectionQuote}
use football_agent.Gates.MarketQuote.Market.{guard-ok}
use football_agent.Gates.MarketMovement.{
  VerifiedSelectionMovement, make_movement, code_of, by_code, check_odds, build_movement,
  build_with, build_movements, equal_selections,
}

pub bind_outcome-ok :
    {A B : Type 0} (o : Outcome A) (k : A → Outcome B) (b : B)
    → bind_outcome o k ≡ Outcome.ok b
    → (a : A) × (o ≡ Outcome.ok a) × (k a ≡ Outcome.ok b)
bind_outcome-ok (raised text) k b e = absurd (cc e)
bind_outcome-ok (ok a) k b e = (a, refl, e)

module _ {V : Type 0} where
  All-insert :
      (P : String × V → Type 0) (k : String) (v : V) (d : TextDict V)
      → All P d
      → P (k, v)
      → All P (insert k v d)
  All-insert P k v [] h p = (p, tt)
  All-insert P k v ((j, w) ∷ d) h p = elim (Bool-cases (str_eq j k)) [
    | inl same ↦ rw same (subst (λ i. P (i, v)) (sym ((eq_iff j k).0 same)) p, h.1)
    | inr other ↦ rw other (h.0, All-insert P k v d h.1 p)
  ]

  All-lookup :
      (P : String × V → Type 0) (k : String) (v : V) (d : TextDict V)
      → All P d
      → lookup k d ≡ some v
      → P (k, v)
  All-lookup P k v [] h e = absurd (cc e)
  All-lookup P k v ((j, w) ∷ d) h e = elim (Bool-cases (str_eq j k)) [
    | inl same ↦
        let found : some w ≡ some v = rw same at e in
        let value : w ≡ v = cc found in
        subst (λ u. P (k, u)) value (subst (λ i. P (i, w)) ((eq_iff j k).0 same) h.0)
    | inr other ↦ All-lookup P k v d h.1 (rw other at e)
  ]

module _ {D : Type 0} ⦃d : Number D⦄ where
  check_odds-ok : (x y : D) → check_odds x ≡ Outcome.ok y → x ≡ y
  check_odds-ok x y e = let passed = guard-ok (d.le x (d.of_nat 1)) _ _ y e in cc passed.1

module _ {D F : Type 0} ⦃d : Number D⦄ ⦃f : Number F⦄ where
  -- A movement of a selection: its opening quote with a current one of the same selection, and the
  -- consensus odds of both.
  pub record Paired (current : List (VerifiedSelectionQuote D F))
      (m : VerifiedSelectionMovement D F) : Type 0 where
    pub is_current : Some (λ q. q ≡ m.current_quote) current
    pub same_code : code_of m.current_quote ≡ code_of m.opening_quote
    pub selected : m.selection ≡ m.opening_quote.quote.selection
    pub matched :
        equal_selections m.current_quote.quote.selection m.opening_quote.quote.selection ≡ true
    pub odds : m.movement ≡ record {
      opening_odds = m.opening_quote.consensus_decimal_odds;
      current_odds = m.current_quote.consensus_decimal_odds;
    }

  abbrev IsEntry : List (VerifiedSelectionQuote D F) → String × VerifiedSelectionQuote D F → Type 0
  IsEntry all e = (code_of e.1 ≡ e.0) × Some (λ q. q ≡ e.1) all

  by_code-All :
      (all qs : List (VerifiedSelectionQuote D F)) (t : TextDict (VerifiedSelectionQuote D F))
      → ((P : VerifiedSelectionQuote D F → Type 0) → Some P qs → Some P all)
      → All (IsEntry all) t
      → All (IsEntry all) (by_code t qs)
  by_code-All all [] t mem h = h
  by_code-All all (q ∷ qs) t mem h =
      by_code-All all qs (insert (code_of q) q t) (λ P k. mem P (inr k))
        (All-insert (IsEntry all) (code_of q) q t h (refl, mem _ (inl refl)))

  abbrev movement_of :
      VerifiedSelectionQuote D F
      → VerifiedSelectionQuote D F
      → D
      → D
      → VerifiedSelectionMovement D F
  movement_of o c a b = record {
    selection = o.quote.selection;
    opening_quote = o;
    current_quote = c;
    movement = record { opening_odds = a; current_odds = b };
  }

  make_movement-same :
      (m n : VerifiedSelectionMovement D F) → make_movement m ≡ Outcome.ok n → m ≡ n
  unfolding make_movement
  make_movement-same m n e =
      let matched =
        guard-ok
          (not (equal_selections m.selection m.opening_quote.quote.selection)
            || not (equal_selections m.selection m.current_quote.quote.selection))
          _ _ n e in
      let opened =
        guard-ok (not (d.eq m.movement.opening_odds m.opening_quote.consensus_decimal_odds)) _ _ n
          matched.1 in
      let currents =
        guard-ok (not (d.eq m.movement.current_odds m.current_quote.consensus_decimal_odds)) _ _ n
          opened.1 in
      cc currents.1

  -- A movement that is built is of the two quotes, which have the same selection.
  build_movement-ok :
      (o c : VerifiedSelectionQuote D F) (m : VerifiedSelectionMovement D F)
      → build_movement o c ≡ Outcome.ok m
      → (equal_selections c.quote.selection o.quote.selection ≡ true)
        × (movement_of o c o.consensus_decimal_odds c.consensus_decimal_odds ≡ m)
  unfolding build_movement
  build_movement-ok o c m e =
      let same = equal_selections c.quote.selection o.quote.selection in
      let matched = guard-ok (not same) _ _ m e in
      let (a, ea, ka) = bind_outcome-ok (check_odds o.consensus_decimal_odds) _ m matched.1 in
      let (b, eb, kb) = bind_outcome-ok (check_odds c.consensus_decimal_odds) _ m ka in
      let oa = check_odds-ok o.consensus_decimal_odds a ea in
      let cb = check_odds-ok c.consensus_decimal_odds b eb in
      (
        ground (arith, matched.0),
        ap (λ x. movement_of o c x c.consensus_decimal_odds) oa
            ∙ ap (λ x. movement_of o c a x) cb
            ∙ make_movement-same _ m kb,
      )

  build_with-Paired :
      (all : List (VerifiedSelectionQuote D F)) (o : VerifiedSelectionQuote D F)
      (t : TextDict (VerifiedSelectionQuote D F)) (found : Option (VerifiedSelectionQuote D F))
      (m : VerifiedSelectionMovement D F)
      → lookup (code_of o) t ≡ found
      → All (IsEntry all) t
      → build_with o found ≡ Outcome.ok m
      → (m.opening_quote ≡ o) × Paired all m
  build_with-Paired all o t none m at h e = absurd (cc e)
  build_with-Paired all o t (some c) m at h e =
      let (same, made) = build_movement-ok o c m e in
      let (code, listed) = All-lookup (IsEntry all) (code_of o) c t h at in
      (
        sym (ap (λ n. n.opening_quote) made),
        subst (Paired all) made (record {
          is_current = listed;
          same_code = code;
          selected = refl;
          matched = same;
          odds = refl;
        }),
      )

  build_all-Paired :
      (all qs : List (VerifiedSelectionQuote D F)) (t : TextDict (VerifiedSelectionQuote D F))
      (ms : List (VerifiedSelectionMovement D F))
      → All (IsEntry all) t
      → build_movements t qs ≡ Outcome.ok ms
      → (map (λ m. m.opening_quote) ms ≡ qs) × All (Paired all) ms
  unfolding build_movements
  build_all-Paired all [] t ms h e =
      let none_built : [] ≡ ms = cc e in
      subst (λ l. (map (λ m. m.opening_quote) l ≡ []) × All (Paired all) l) none_built (refl, tt)
  build_all-Paired all (q ∷ qs) t ms h e =
      let (m, em, km) = bind_outcome-ok (build_with q (lookup (code_of q) t)) _ ms e in
      let (rest, er, kr) = bind_outcome-ok (build_movements t qs) _ ms km in
      let (first, pair) = build_with-Paired all q t (lookup (code_of q) t) m refl h em in
      let (others, pairs) = build_all-Paired all qs t rest h er in
      let built : m ∷ rest ≡ ms = cc kr in
      subst (λ l. (map (λ n. n.opening_quote) l ≡ q ∷ qs) × All (Paired all) l) built
        (
          ap (λ x. x ∷ map (λ n. n.opening_quote) rest) first ∙ ap (λ l. q ∷ l) others,
          (pair, pairs),
        )

  pub build_movements-Paired :
      (cs qs : List (VerifiedSelectionQuote D F)) (ms : List (VerifiedSelectionMovement D F))
      → build_movements (by_code [] cs) qs ≡ Outcome.ok ms
      → (map (λ m. m.opening_quote) ms ≡ qs) × All (Paired cs) ms
  build_movements-Paired cs qs ms e =
      build_all-Paired cs qs (by_code [] cs) ms (by_code-All cs cs [] (λ P k. k) tt) e
