-- ===== src/Prelude/Text/Numerals.antt =====
-- Python's `int(text)` on ASCII text: white space round it, a sign, and digits that single
-- underscores may separate. `none` is the ValueError.
use Prim.Native.Nat.{ℕ, ◌+◌, ◌-◌, ◌*◌}
use Prim.Native.String.{String}
use mathlib.Core.Bool.{Bool, true, false, ◌&&◌}
use mathlib.Core.Option.{Option, none, some}
use mathlib.Core.List.{List, [], ◌∷◌}
use football_agent.Prelude.Tests.{if◌then◌else◌, ◌==◌, leb}
use football_agent.Prelude.Text.{codes, strip}
use football_agent.Prelude.Int.{ℤ, pos, ◌-ℤ◌}

abbrev is_digit : ℕ → Bool
is_digit c = leb b'0' c && leb c b'9'

-- `last` tells whether the text so far ends in a digit.
abbrev digits : ℕ → Bool → List ℕ → Option ℕ
digits acc last [] = if last then some acc else none
digits acc last (c ∷ cs) =
    let more = digits (acc * 10 + (c - 48)) true cs in
    let apart = digits acc false cs in
    if is_digit c then more else if c == b'_' && last then apart else none

abbrev as_positive : Option ℕ → Option ℤ
as_positive none = none
as_positive (some n) = some (pos n)

abbrev as_negative : Option ℕ → Option ℤ
as_negative none = none
as_negative (some n) = some (pos 0 -ℤ pos n)

abbrev signed : List ℕ → Option ℤ
signed [] = none
signed (c ∷ cs) =
    if c == b'-'
    then as_negative (digits 0 false cs)
    else if c == b'+'
    then as_positive (digits 0 false cs)
    else as_positive (digits 0 false (c ∷ cs))

unfoldable pub int_of : String → Option ℤ
unfolding strip
int_of s = signed (codes (strip s))
