-- ===== src/Gates/MarketQuote/Kept.antt =====
-- What is true of all snapshots is true of those that the evaluation keeps.
use football_agent.Prelude.{
  String, Bool, true, false, List, [], ◌∷◌, ◌≡◌, ◌∙◌, arith, refl, All, keep, length, if◌then◌else◌,
  str_eq, eq_iff, Bool-cases, inl, inr,
}
use football_agent.Gates.MarketQuote.{OddsSnapshot}
use football_agent.Gates.MarketQuote.Latest.{
  Latest, Key, key_of, key_eq, is_later, put_later, put_all, of_code,
}
use football_agent.Gates.MarketQuote.Quote.{comes_before, insert_ordered, ordered}

module _ {D F : Type 0} where
  pub All-keep :
      (P : OddsSnapshot D F → Type 0) (p : OddsSnapshot D F → Bool) (xs : List (OddsSnapshot D F))
      → All P xs
      → All (λ s. P s × (p s ≡ true)) (keep p xs)
  All-keep P p [] h = tt
  All-keep P p (x ∷ xs) h = elim (Bool-cases (p x)) [
    | inl on ↦ rw on ((h.0, on), All-keep P p xs h.1)
    | inr off ↦ rw off (All-keep P p xs h.1)
  ]

  module _ (P : OddsSnapshot D F → Type 0) where
    -- Each entry of the dict stands under its key's code.
    abbrev pub Entry : Key × OddsSnapshot D F → Type 0
    Entry e = P e.1 × (e.1.selection.code ≡ e.0.0)

    Entry-if :
        (b : Bool) (k : Key) (s t : OddsSnapshot D F)
        → P s
        → s.selection.code ≡ k.0
        → Entry (k, t)
        → Entry (k, if b then s else t)
    Entry-if true k s t p e h = (p, e)
    Entry-if false k s t p e h = h

    put_later-All :
        (s : OddsSnapshot D F) (latest : Latest D F)
        → P s
        → All Entry latest
        → All Entry (put_later s latest)
    put_later-All s [] p h = ((p, refl), tt)
    put_later-All s ((k, t) ∷ latest) p h = elim (Bool-cases (key_eq (key_of s) k)) [
      | inl same ↦
          let code : s.selection.code ≡ k.0 = (eq_iff s.selection.code k.0).0 (ground arith) in
          rw same (Entry-if (is_later s t) k s t p code h.0, h.1)
      | inr other ↦ rw other (h.0, put_later-All s latest p h.1)
    ]

    pub put_all-All :
        (ss : List (OddsSnapshot D F)) (latest : Latest D F)
        → All P ss
        → All Entry latest
        → All Entry (put_all ss latest)
    put_all-All [] latest p h = h
    put_all-All (s ∷ ss) latest p h =
        put_all-All ss (put_later s latest) p.1 (put_later-All s latest p.0 h)

    insert_ordered-All :
        (s : OddsSnapshot D F) (ss : List (OddsSnapshot D F))
        → P s
        → All P ss
        → All P (insert_ordered s ss)
    insert_ordered-All s [] p h = (p, tt)
    insert_ordered-All s (t ∷ ts) p h = elim (Bool-cases (comes_before t s)) [
      | inl before ↦ rw before (h.0, insert_ordered-All s ts p h.1)
      | inr after ↦ rw after (p, h)
    ]

    pub ordered-All : (ss : List (OddsSnapshot D F)) → All P ss → All P (ordered ss)
    ordered-All [] h = tt
    ordered-All (s ∷ ss) h = insert_ordered-All s (ordered ss) h.0 (ordered-All ss h.1)

    pub of_code-All :
        (code : String) (latest : Latest D F)
        → All Entry latest
        → All (λ s. P s × (s.selection.code ≡ code)) (of_code code latest)
    of_code-All code [] h = tt
    of_code-All code ((k, s) ∷ latest) h = elim (Bool-cases (str_eq k.0 code)) [
      | inl same ↦ rw same ((h.0.0, h.0.1 ∙ (eq_iff k.0 code).0 same), of_code-All code latest h.1)
      | inr other ↦ rw other (of_code-All code latest h.1)
    ]

  length-insert_ordered :
      (s : OddsSnapshot D F) (ss : List (OddsSnapshot D F))
      → length (insert_ordered s ss) ≡ length (s ∷ ss)
  length-insert_ordered s [] = refl
  length-insert_ordered s (t ∷ ts) = ground (arith, length-insert_ordered s ts)

  pub length-ordered : (ss : List (OddsSnapshot D F)) → length (ordered ss) ≡ length ss
  length-ordered [] = refl
  length-ordered (s ∷ ss) = omega (arith, length-insert_ordered s (ordered ss), length-ordered ss)
