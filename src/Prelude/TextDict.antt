-- ===== src/Prelude/TextDict.antt =====
-- A Python dict with texts for keys, as an association list in insertion order.
use Prim.Native.Nat.{ℕ}
use Prim.Native.String.{String}
use mathlib.Core.Path.{◌≡◌, refl}
use mathlib.Core.Option.{Option, none, some}
use mathlib.Core.List.{List, [], ◌∷◌}
use native.Mathlib.Omega.{arith}
use football_agent.Prelude.Tests.{if◌then◌else◌}
use football_agent.Prelude.Text.{str_eq, eq_iff}

abbrev pub TextDict {ℓ} : Type ℓ → Type ℓ
TextDict V = List (String × V)

module _ {ℓ} {V : Type ℓ} where
  abbrev pub lookup : String → TextDict V → Option V
  lookup k [] = none
  lookup k ((j, v) ∷ d) = if str_eq j k then some v else lookup k d

  -- `d[k] = v`
  abbrev pub insert : String → V → TextDict V → TextDict V
  insert k v [] = (k, v) ∷ []
  insert k v ((j, w) ∷ d) = if str_eq j k then (j, v) ∷ d else (j, w) ∷ insert k v d

  pub lookup-insert :
      (k j : String) (v : V) (d : TextDict V)
      → lookup j (insert k v d) ≡ (if str_eq k j then some v else lookup j d)
  lookup-insert k j v [] = refl
  lookup-insert k j v ((i, w) ∷ d) =
      ground (arith, eq_iff k j, eq_iff i k, eq_iff i j, lookup-insert k j v d)

-- `d.get(k, 0)`
abbrev pub count_at : String → TextDict ℕ → ℕ
count_at k d = elim (lookup k d) [ none ↦ 0 | some n ↦ n ]
