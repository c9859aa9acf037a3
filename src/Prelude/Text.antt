-- ===== src/Prelude/Text.antt =====
-- Text: the native `String` where the program compares whole texts, and its code points where it
-- walks them. `strip` and `upper` are Python's on ASCII text.
pub mod Strip
pub mod Numerals
use Prim.Native.Nat.{ℕ, suc, ◌-◌}
use Prim.Native.Char.{code}
use Prim.Native.String.{String, ◌++◌ as string_append}
use mathlib.Core.Option.{Option, none, some}
use mathlib.Core.Bool.{Bool, true, false, ◌&&◌, ◌||◌}
use mathlib.Core.List.{List, [], ◌∷◌, map}
use text.Mathlib.Text.{◌==◌ as string_eq}
use football_agent.Prelude.Tests.{if◌then◌else◌, ◌==◌, leb}
pub use text.Mathlib.TextEquality.{eq_iff}

-- `s == t` on texts.
abbrev pub str_eq : String → String → Bool
str_eq s t = string_eq s t

abbrev pub codes : String → List ℕ
codes String.[] = []
codes (String.◌∷◌ c s) = code c ∷ codes s

-- ASCII white space as `str.strip` reads it: 9 to 13, 28 to 31 and the space.
abbrev pub is_space : ℕ → Bool
is_space c = (leb 9 c && leb c 13) || (leb 28 c && leb c 32)

abbrev pub all_space : String → Bool
all_space String.[] = true
all_space (String.◌∷◌ c s) = is_space (code c) && all_space s

abbrev pub lstrip : String → String
lstrip String.[] = String.[]
lstrip (String.◌∷◌ c s) = let rest = lstrip s in if is_space (code c) then rest else String.◌∷◌ c s

abbrev pub rstrip : String → String
rstrip String.[] = String.[]
rstrip (String.◌∷◌ c s) =
    let rest = rstrip s in if is_space (code c) && all_space s then String.[] else String.◌∷◌ c rest

-- `s.strip()`
unfoldable pub strip : String → String
strip s = rstrip (lstrip s)

abbrev upper_code : ℕ → ℕ
upper_code c = if leb b'a' c && leb c b'z' then c - 32 else c

-- The code points of `s.upper()`.
unfoldable pub upper : String → List ℕ
upper s = map upper_code (codes s)

abbrev pub code_eq : List ℕ → List ℕ → Bool
code_eq [] [] = true
code_eq [] (_ ∷ _) = false
code_eq (_ ∷ _) [] = false
code_eq (a ∷ s) (b ∷ t) = a == b && code_eq s t

-- `s in {t, ...}` on texts.
abbrev pub code_in : List ℕ → List String → Bool
code_in s [] = false
code_in s (t ∷ ts) = code_eq s (codes t) || code_in s ts

-- `s + t`, as the f-strings join their parts.
abbrev pub str_append : String → String → String
str_append s t = string_append s t

-- `str | None` values compared by `==`.
abbrev pub opt_str_eq : Option String → Option String → Bool
opt_str_eq none none = true
opt_str_eq none (some _) = false
opt_str_eq (some _) none = false
opt_str_eq (some s) (some t) = str_eq s t

-- `len(s)`, the number of characters.
abbrev pub str_len : String → ℕ
str_len String.[] = 0
str_len (String.◌∷◌ c s) = suc (str_len s)
