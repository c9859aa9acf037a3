-- ===== src/Odds/TeamNames.antt =====
-- app/services/odds_matching.py: `normalize_team_name`, on ASCII text, where NFKD changes nothing
-- and `casefold` is lower case. A normalised name is kept as the list of its code points.
use football_agent.Prelude.{
  ℕ, String, Bool, true, false, ◌&&◌, ◌||◌, not, List, [], ◌∷◌, ◌+◌, ◌≡◌, ◌↔◌, leb, ◌==◌,
  if◌then◌else◌, map, code_in, codes, code_eq, is_space, arith, any, refl,
}
use mathlib.Core.List.{reverse}

abbrev pub Name : Type 0
Name = List ℕ

abbrev lower_code : ℕ → ℕ
lower_code c = if leb b'A' c && leb c b'Z' then c + 32 else c

-- `\w` on ASCII text
abbrev is_word : ℕ → Bool
is_word c =
    (leb b'a' c && leb c b'z')
    || (leb b'A' c && leb c b'Z')
    || (leb b'0' c && leb c b'9')
    || (c == b'_')

abbrev skip_space : List ℕ → List ℕ
skip_space [] = []
skip_space (c ∷ cs) = if is_space c then skip_space cs else c ∷ cs

abbrev trim_end : List ℕ → List ℕ
trim_end cs = reverse (skip_space (reverse cs))

-- `re.sub(r"\s+", " ", text)`; `gap` tells whether the text so far ends in white space.
abbrev collapse : Bool → List ℕ → List ℕ
collapse gap [] = []
collapse gap (c ∷ cs) =
    let rest = collapse true cs in
    let word = collapse false cs in
    if is_space c then if gap then rest else b' ' ∷ rest else c ∷ word

abbrev suffixes : List String
suffixes = "fc" ∷ "afc" ∷ "sc" ∷ "city" ∷ "town" ∷ "wanderers" ∷ "and hove albion" ∷ []

-- One of the suffixes and white space up to the end of the text, in any case.
abbrev is_suffix : List ℕ → Bool
is_suffix cs = code_in (collapse false (map lower_code (trim_end cs))) suffixes

-- `_STRIP_SUFFIXES.sub("", text)`: a suffix begins where a word does; `inside` tells whether the
-- character before is one of a word.
abbrev strip_suffix : Bool → List ℕ → List ℕ
strip_suffix inside [] = []
strip_suffix inside (c ∷ cs) =
    let rest = strip_suffix (is_word c) cs in
    if not inside && is_suffix (c ∷ cs) then [] else c ∷ rest

-- `_PUNCT.sub(" ", text)`
abbrev no_punct : ℕ → ℕ
no_punct c = if is_word c || is_space c then c else b' '

unfoldable pub normalize_codes : List ℕ → Name
normalize_codes cs =
    trim_end (skip_space (collapse false (map no_punct (map lower_code (strip_suffix false cs)))))

unfoldable pub normalize_team_name : String → Name
normalize_team_name name = normalize_codes (codes name)

-- The code points of `text.lower()`.
abbrev pub lower : String → List ℕ
lower text = map lower_code (codes text)

abbrev begins_with : List ℕ → List ℕ → Bool
begins_with [] cs = true
begins_with (p ∷ ps) [] = false
begins_with (p ∷ ps) (c ∷ cs) = p == c && begins_with ps cs

-- `part in text`
abbrev pub has_codes : List ℕ → List ℕ → Bool
has_codes part [] = begins_with part []
has_codes part (c ∷ cs) = begins_with part (c ∷ cs) || has_codes part cs

abbrev pub has_part : String → List ℕ → Bool
has_part part cs = has_codes (codes part) cs

-- `name in names`
abbrev pub name_in : Name → List Name → Bool
name_in name names = any (λ n. code_eq name n) names

pub code_eq_iff : (a b : Name) → (code_eq a b ≡ true) ↔ (a ≡ b)
code_eq_iff a b = (same a b, λ h. self a b h)
  where
    refl_eq : (a : Name) → code_eq a a ≡ true
    refl_eq [] = refl
    refl_eq (c ∷ a) = ground (arith, refl_eq a)

    self : (a b : Name) → a ≡ b → code_eq a b ≡ true
    self a b h = ground (arith, refl_eq a)

    same : (a b : Name) → code_eq a b ≡ true → a ≡ b
    same [] [] h = refl
    same [] (d ∷ b) h = absurd (cc h)
    same (c ∷ a) [] h = absurd (cc h)
    same (c ∷ a) (d ∷ b) h = ground (arith, same a b)
