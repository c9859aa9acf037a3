-- ===== src/Prelude/Dict.antt =====
-- A Python dict as an association list in insertion order, keyed by identifiers.
use Prim.Native.Nat.{ℕ}
use mathlib.Core.Path.{◌≡◌, refl}
use mathlib.Core.Option.{Option, none, some}
use mathlib.Core.List.{List, [], ◌∷◌}
use native.Mathlib.Omega.{arith}
use mathlib.Core.Bool.{true}
use mathlib.Core.Path.{subst}
use mathlib.Core.Logic.{inl, inr}
use football_agent.Prelude.Tests.{if◌then◌else◌, ◌==◌, is_some, Bool-cases}
use football_agent.Prelude.Lists.{All}

abbrev pub Dict {ℓ} : Type ℓ → Type ℓ
Dict V = List (ℕ × V)

module _ {ℓ} {V : Type ℓ} where
  abbrev pub lookup : ℕ → Dict V → Option V
  lookup k [] = none
  lookup k ((j, v) ∷ d) = if k == j then some v else lookup k d

  -- `d[k] = v` keeps the place of a key that is there.
  abbrev pub insert : ℕ → V → Dict V → Dict V
  insert k v [] = (k, v) ∷ []
  insert k v (e ∷ d) = if k == e.0 then (k, v) ∷ d else e ∷ insert k v d

  pub lookup-insert :
      (j k : ℕ) (v : V) (d : Dict V)
      → lookup j (insert k v d) ≡ (if j == k then some v else lookup j d)
  lookup-insert j k v [] = refl
  lookup-insert j k v (e ∷ d) = ground (arith, lookup-insert j k v d)

  pub All-insert {κ} :
      (P : ℕ × V → Type κ) (k : ℕ) (v : V) (d : Dict V) → All P d → P (k, v) → All P (insert k v d)
  All-insert P k v [] h p = (p, tt)
  All-insert P k v (e ∷ d) h p = elim (Bool-cases (k == e.0)) [
    | inl same ↦ rw same (p, h.1)
    | inr other ↦ rw other (h.0, All-insert P k v d h.1 p)
  ]

  pub All-lookup {κ} :
      (P : ℕ × V → Type κ) (k : ℕ) (v : V) (d : Dict V) → All P d → lookup k d ≡ some v → P (k, v)
  All-lookup P k v [] h e = cc
  All-lookup P k v ((j, w) ∷ d) h e = elim (Bool-cases (k == j)) [
    | inl same ↦ subst P (ground arith) h.0
    | inr other ↦ All-lookup P k v d h.1 (rw other at e)
  ]

  -- A key that is there stays there.
  pub is_some-insert :
      (j k : ℕ) (v : V) (d : Dict V)
      → is_some (lookup j d) ≡ true
      → is_some (lookup j (insert k v d)) ≡ true
  is_some-insert j k v d h = ground (arith, lookup-insert j k v d)

  pub is_some-insert_self : (k : ℕ) (v : V) (d : Dict V) → is_some (lookup k (insert k v d)) ≡ true
  is_some-insert_self k v d = ground (arith, lookup-insert k k v d)
