-- ===== src/Prelude/Text/Strip.antt =====
-- Stripping a text twice is stripping it once.
use mathlib.Core.Path.{◌≡◌, refl}
use mathlib.Core.Bool.{false, ◌&&◌}
use Prim.Native.Char.{code}
use Prim.Native.String.{String}
use mathlib.Core.Logic.{inl, inr}
use football_agent.Prelude.Tests.{Bool-cases}
use football_agent.Prelude.Text.{is_space, all_space, lstrip, rstrip, strip}

all_space-rstrip : (s : String) → all_space (rstrip s) ≡ all_space s
all_space-rstrip String.[] = refl
all_space-rstrip (String.◌∷◌ c s) = elim (Bool-cases (is_space (code c) && all_space s)) [
  | inl e ↦ rw e refl
  | inr e ↦ rw e (rw (all_space-rstrip s) e)
]

rstrip_idem : (s : String) → rstrip (rstrip s) ≡ rstrip s
rstrip_idem String.[] = refl
rstrip_idem (String.◌∷◌ c s) = elim (Bool-cases (is_space (code c) && all_space s)) [
  | inl e ↦ rw e refl
  | inr e ↦ rw e (rw (all_space-rstrip s, e, rstrip_idem s) refl)
]

-- What `lstrip` leaves is empty or begins with no space.
Starts : String → Type 0
Starts String.[] = Unit
Starts (String.◌∷◌ c s) = is_space (code c) ≡ false

lstrip-Starts : (s : String) → Starts (lstrip s)
unfolding Starts
lstrip-Starts String.[] = tt
lstrip-Starts (String.◌∷◌ c s) = elim (Bool-cases (is_space (code c))) [
  | inl e ↦ rw e (lstrip-Starts s)
  | inr e ↦ rw e e
]

lstrip-rstrip : (s : String) → Starts s → lstrip (rstrip s) ≡ rstrip s
unfolding Starts
lstrip-rstrip String.[] h = refl
lstrip-rstrip (String.◌∷◌ c s) h = rw (h, h) refl

pub strip_idem : (s : String) → strip (strip s) ≡ strip s
unfolding strip
strip_idem s = rw (lstrip-rstrip (lstrip s) (lstrip-Starts s)) (rstrip_idem (lstrip s))
