-- ===== src/Odds/Matching/Sole.antt =====
-- A test that keeps one item of a list, or none.
use football_agent.Prelude.{
  Bool, true, false, List, [], ◌∷◌, ◌++◌, ◌≡◌, ◌↔◌, keep, All, All-map, refl, Bool-cases, inl, inr,
  ap, ◌∙◌,
}
use mathlib.Core.Path.{subst}

-- Of the list exactly the one item in the middle fits.
pub record IsOnly {A : Type 0} (p : A → Bool) (xs : List A) (x : A) : Type 0 where
  pub before : List A
  pub behind : List A
  pub parts : xs ≡ before ++ x ∷ behind
  pub fits : p x ≡ true
  pub none_before : All (λ y. p y ≡ false) before
  pub none_behind : All (λ y. p y ≡ false) behind

module _ {A : Type 0} (p : A → Bool) where
  pub keep-none : (xs : List A) → All (λ y. p y ≡ false) xs → keep p xs ≡ []
  keep-none [] h = refl
  keep-none (x ∷ xs) h = rw h.0 (keep-none xs h.1)

  pub none-keep : (xs : List A) → keep p xs ≡ [] → All (λ y. p y ≡ false) xs
  none-keep [] h = tt
  none-keep (x ∷ xs) h = elim (Bool-cases (p x)) [
    | inl e ↦ absurd (cc (rw e at h))
    | inr e ↦ (e, none-keep xs (rw e at h))
  ]

  keep-before : (xs ys : List A) → All (λ y. p y ≡ false) xs → keep p (xs ++ ys) ≡ keep p ys
  keep-before [] ys h = refl
  keep-before (x ∷ xs) ys h = rw h.0 (keep-before xs ys h.1)

  pub keep-IsOnly : (xs : List A) (x : A) → IsOnly p xs x → keep p xs ≡ x ∷ []
  keep-IsOnly xs x o =
      ap (keep p) o.parts
      ∙ keep-before o.before (x ∷ o.behind) o.none_before
      ∙ rw o.fits (ap (λ r. x ∷ r) (keep-none o.behind o.none_behind))

  pub IsOnly-keep : (xs : List A) (x : A) → keep p xs ≡ x ∷ [] → IsOnly p xs x
  IsOnly-keep [] x h = absurd (cc h)
  IsOnly-keep (y ∷ xs) x h = elim (Bool-cases (p y)) [
    | inl e ↦
        let same : y ≡ x = cc (rw e at h) in
        record {
          before = [];
          behind = xs;
          parts = ap (λ z. z ∷ xs) same;
          fits = subst (λ z. p z ≡ true) same e;
          none_before = tt;
          none_behind = none-keep xs (cc (rw e at h));
        }
    | inr e ↦
        let o = IsOnly-keep xs x (rw e at h) in
        record {
          before = y ∷ o.before;
          behind = o.behind;
          parts = ap (λ r. y ∷ r) o.parts;
          fits = o.fits;
          none_before = (e, o.none_before);
          none_behind = o.none_behind;
        }
  ]

-- Of the list exactly the one item in the middle has the property.
pub record IsSole {A : Type 0} (P : A → Type 0) (xs : List A) (x : A) : Type 0 where
  pub before : List A
  pub behind : List A
  pub parts : xs ≡ before ++ x ∷ behind
  pub fits : P x
  pub none_before : All (λ y. ¬ P y) before
  pub none_behind : All (λ y. ¬ P y) behind

-- Where a test decides the property, what it keeps tells whether one item has it, or none.
module _ {A : Type 0} (p : A → Bool) (P : A → Type 0) (decides : (x : A) → (p x ≡ true) ↔ P x) where
  fails : (x : A) → p x ≡ false → ¬ P x
  fails x h k = let t : p x ≡ true = (decides x).1 k in cc

  is_false : (x : A) → ¬ P x → p x ≡ false
  is_false x h = elim (Bool-cases (p x)) [ inl e ↦ absurd (h ((decides x).0 e)) | inr e ↦ e ]

  pub keep-IsSole : (xs : List A) (x : A) → (keep p xs ≡ x ∷ []) ↔ IsSole P xs x
  keep-IsSole xs x = (
    λ h.
        let o = IsOnly-keep p xs x h in
        record {
          before = o.before;
          behind = o.behind;
          parts = o.parts;
          fits = (decides x).0 o.fits;
          none_before = All-map fails o.before o.none_before;
          none_behind = All-map fails o.behind o.none_behind;
        },
    λ s. keep-IsOnly p xs x (record {
      before = s.before;
      behind = s.behind;
      parts = s.parts;
      fits = (decides x).1 s.fits;
      none_before = All-map is_false s.before s.none_before;
      none_behind = All-map is_false s.behind s.none_behind;
    }),
  )

  pub keep_empty : (xs : List A) → (keep p xs ≡ []) ↔ All (λ y. ¬ P y) xs
  keep_empty xs =
      (λ h. All-map fails xs (none-keep p xs h), λ h. keep-none p xs (All-map is_false xs h))
