-- ===== src/Gates/MarketQuote/Newest.antt =====
-- Which snapshot of a bookmaker counts.
use football_agent.Prelude.{
  true, false, Option, none, some, ◌<◌, ◌≤◌, ◌↔◌, sym, List, [], ◌∷◌, ◌≡◌, arith, refl, ◌⊎◌, ap,
  if◌then◌else◌, eq_iff, Bool-cases, inl, inr,
}
use football_agent.Gates.MarketQuote.{OddsSnapshot}
use football_agent.Gates.MarketQuote.Market.{Listed}
use football_agent.Gates.MarketQuote.Latest.{
  Latest, Key, key_of, key_eq, is_later, put_later, put_all, latest_by_selection_and_bookmaker,
}

module _ {D F : Type 0} where
  -- `latest.get(key)`
  abbrev pub find : Key → Latest D F → Option (OddsSnapshot D F)
  find k [] = none
  find k ((j, s) ∷ latest) = if key_eq k j then some s else find k latest

  -- The later of two, where the second may be missing.
  abbrev later_of : OddsSnapshot D F → Option (OddsSnapshot D F) → OddsSnapshot D F
  later_of s none = s
  later_of s (some t) = if is_later s t then s else t

  find-put_later :
      (k : Key) (s : OddsSnapshot D F) (latest : Latest D F)
      → find k (put_later s latest)
        ≡ (if key_eq k (key_of s) then some (later_of s (find k latest)) else find k latest)
  find-put_later k s [] = refl
  find-put_later k s ((j, t) ∷ latest) = ground (
    arith,
    eq_iff k.0 j.0,
    eq_iff (key_of s).0 j.0,
    eq_iff k.0 (key_of s).0,
    find-put_later k s latest,
  )

  -- The newest of the snapshots seen that have a key.
  abbrev Newest : Key → (OddsSnapshot D F → Type 0) → Option (OddsSnapshot D F) → Type 0
  Newest k Seen none = (t : OddsSnapshot D F) → Seen t → key_eq k (key_of t) ≡ false
  Newest k Seen (some s) =
      Seen s
      × (key_eq k (key_of s) ≡ true)
      × ((t : OddsSnapshot D F) → Seen t → key_eq k (key_of t) ≡ true → is_later t s ≡ false)

  Newest-iff :
      (k : Key) (P Q : OddsSnapshot D F → Type 0) (o : Option (OddsSnapshot D F))
      → ((t : OddsSnapshot D F) → P t → Q t)
      → ((t : OddsSnapshot D F) → Q t → P t)
      → Newest k P o
      → Newest k Q o
  Newest-iff k P Q none f g n = λ t q. n t (g t q)
  Newest-iff k P Q (some s) f g n = (f s n.0, n.1, λ t q e. n.2 t (g t q) e)

  is_later_asym : (s t : OddsSnapshot D F) → is_later s t ≡ true → is_later t s ≡ false
  is_later_asym s t h = ground arith

  is_later_self : (s : OddsSnapshot D F) → is_later s s ≡ false
  is_later_self s = ground arith

  not_later_trans :
      (r s t : OddsSnapshot D F)
      → is_later r s ≡ false
      → is_later s t ≡ false
      → is_later r t ≡ false
  not_later_trans r s t h k = ground arith

  module _ (k : Key) (Seen : OddsSnapshot D F → Type 0) (s : OddsSnapshot D F) where
    abbrev Also : OddsSnapshot D F → Type 0
    Also t = Seen t ⊎ (t ≡ s)

    -- A snapshot with another key changes nothing.
    other-Newest :
        (o : Option (OddsSnapshot D F))
        → key_eq k (key_of s) ≡ false
        → Newest k Seen o
        → Newest k Also o
    other-Newest none e n = λ t q. elim q [ inl p ↦ n t p | inr same ↦ rw same e ]
    other-Newest (some r) e n = (
      inl n.0,
      n.1,
      λ t q l. elim q [
        | inl p ↦ n.2 t p l
        | inr same ↦ absurd (cc (ap (λ x. key_eq k (key_of x)) same, e, l))
      ],
    )

    later-Newest :
        (o : Option (OddsSnapshot D F))
        → key_eq k (key_of s) ≡ true
        → Newest k Seen o
        → Newest k Also (some (later_of s o))
    later-Newest none e n = (
      inr refl,
      e,
      λ t q l. elim q [ inl p ↦ absurd (cc (n t p, l)) | inr same ↦ rw same (is_later_self s) ],
    )
    later-Newest (some r) e n = elim (Bool-cases (is_later s r)) [
      | inl on ↦ rw on (
        inr refl,
        e,
        λ t q l. elim q [
          | inl p ↦ not_later_trans t r s (n.2 t p l) (is_later_asym s r on)
          | inr same ↦ rw same (is_later_self s)
        ],
      )
      | inr off ↦
          rw off (inl n.0, n.1, λ t q l. elim q [ inl p ↦ n.2 t p l | inr same ↦ rw same off ])
    ]

    put_later-Newest :
        (latest : Latest D F)
        → Newest k Seen (find k latest)
        → Newest k Also (find k (put_later s latest))
    put_later-Newest latest n = elim (Bool-cases (key_eq k (key_of s))) [
      | inl on ↦ rw (find-put_later k s latest) (rw on (later-Newest (find k latest) on n))
      | inr off ↦ rw (find-put_later k s latest) (rw off (other-Newest (find k latest) off n))
    ]

  put_all-Newest :
      (k : Key) (Seen : OddsSnapshot D F → Type 0) (ss : List (OddsSnapshot D F))
      (latest : Latest D F)
      → Newest k Seen (find k latest)
      → Newest k (λ t. Seen t ⊎ Listed t ss) (find k (put_all ss latest))
  put_all-Newest k Seen [] latest n =
      Newest-iff k Seen (λ t. Seen t ⊎ ⊥) (find k latest) (λ t p. inl p)
        (λ t q. elim q [ inl p ↦ p | inr b ↦ absurd b ]) n
  put_all-Newest k Seen (s ∷ ss) latest n =
      Newest-iff k (λ t. (Seen t ⊎ (t ≡ s)) ⊎ Listed t ss) (λ t. Seen t ⊎ ((t ≡ s) ⊎ Listed t ss))
        (find k (put_all ss (put_later s latest)))
        (λ t q. elim q [
          | inl p ↦ elim p [ inl a ↦ inl a | inr b ↦ inr (inl b) ]
          | inr c ↦ inr (inr c)
        ])
        (λ t q. elim q [
          | inl a ↦ inl (inl a)
          | inr p ↦ elim p [ inl b ↦ inl (inr b) | inr c ↦ inr c ]
        ])
        (put_all-Newest k (λ t. Seen t ⊎ (t ≡ s)) ss (put_later s latest)
          (put_later-Newest k Seen s latest n))

  -- A snapshot of a selection by a bookmaker.
  abbrev pub IsOf : Key → OddsSnapshot D F → Type 0
  IsOf k t = (t.selection.code ≡ k.0) × (t.bookmaker_id ≡ k.1)

  -- The one is captured before the other, or at the same time under no greater identifier.
  abbrev pub NotAfter : OddsSnapshot D F → OddsSnapshot D F → Type 0
  NotAfter t s =
      (t.captured_at.tick < s.captured_at.tick)
      ⊎ ((t.captured_at.tick ≡ s.captured_at.tick) × (t.id ≤ s.id))

  abbrev pub HoldsNewest : Key → List (OddsSnapshot D F) → Option (OddsSnapshot D F) → Type 0
  HoldsNewest k ss none = (t : OddsSnapshot D F) → Listed t ss → ¬ IsOf k t
  HoldsNewest k ss (some s) =
      Listed s ss × IsOf k s × ((t : OddsSnapshot D F) → Listed t ss → IsOf k t → NotAfter t s)

  key_eq-IsOf : (k : Key) (t : OddsSnapshot D F) → (key_eq k (key_of t) ≡ true) ↔ IsOf k t
  key_eq-IsOf k t =
      let e = eq_iff k.0 t.selection.code in
      (λ h. (sym (e.0 (ground arith)), ground arith), λ h. let same = e.1 (sym h.0) in ground arith)

  not_later-NotAfter : (t s : OddsSnapshot D F) → is_later t s ≡ false → NotAfter t s
  not_later-NotAfter t s h = ground arith

  Newest-HoldsNewest :
      (k : Key) (ss : List (OddsSnapshot D F)) (o : Option (OddsSnapshot D F))
      → Newest k (λ t. Listed t ss) o
      → HoldsNewest k ss o
  Newest-HoldsNewest k ss none n =
      λ t l is. let e = n t l in let on = (key_eq-IsOf k t).1 is in absurd (cc (e, on))
  Newest-HoldsNewest k ss (some s) n = (
    n.0,
    (key_eq-IsOf k s).0 n.1,
    λ t l is. not_later-NotAfter t s (n.2 t l ((key_eq-IsOf k t).1 is)),
  )

  -- The dict holds under a selection and bookmaker one of the listed snapshots of that selection
  -- by that bookmaker, and each of these is captured before it, or at the same time under no
  -- greater identifier; where it holds none, there is no such snapshot.
  pub latest-Newest :
      (ss : List (OddsSnapshot D F)) (k : Key)
      → HoldsNewest k ss (find k (latest_by_selection_and_bookmaker ss))
  unfolding latest_by_selection_and_bookmaker
  latest-Newest ss k = Newest-HoldsNewest k ss (find k (put_all ss [])) (
      Newest-iff k (λ t. ⊥ ⊎ Listed t ss) (λ t. Listed t ss) (find k (put_all ss []))
        (λ t q. elim q [ inl b ↦ absurd b | inr p ↦ p ]) (λ t p. inr p)
        (put_all-Newest k (λ t. ⊥) ss [] (λ t b. absurd b)))
