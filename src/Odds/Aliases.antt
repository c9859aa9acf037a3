-- ===== src/Odds/Aliases.antt =====
-- app/services/team_aliases.py: the names that count as one team. A set is a list in the order in
-- which its names come first.
pub mod Classes
mod Tests
use football_agent.Prelude.{
  String, Bool, Option, none, some, is_some, List, [], ◌∷◌, map, if◌then◌else◌, code_eq,
}
use football_agent.Settlement.Evidence.{Outcome, ok, raised}
use football_agent.Odds.TeamNames.{Name, normalize_team_name, name_in}

-- `frozenset(...)`
abbrev name_set : List Name → List Name
name_set [] = []
name_set (n ∷ ns) = let rest = name_set ns in if name_in n rest then rest else n ∷ rest

abbrev pub Lookup : Type 0
Lookup = List (Name × List Name)

-- `lookup.get(norm)`, and `lookup[norm] = norms`
abbrev pub get : Name → Lookup → Option (List Name)
get n [] = none
get n ((m, names) ∷ table) = if code_eq n m then some names else get n table

abbrev pub put : Name → List Name → Lookup → Lookup
put n norms [] = (n, norms) ∷ []
put n norms ((m, names) ∷ table) =
    let rest = put n norms table in if code_eq n m then (m, norms) ∷ table else (m, names) ∷ rest

abbrev pub add_names : List Name → List Name → Lookup → Outcome Lookup
add_names norms [] table = Outcome.ok table
add_names norms (n ∷ ns) table =
    if is_some (get n table)
    then Outcome.raised "team alias belongs to more than one group"
    else add_names norms ns (put n norms table)

abbrev pub norms_of : List String → List Name
norms_of group = name_set (map normalize_team_name group)

abbrev pub add_groups : List (List String) → Outcome Lookup → Outcome Lookup
add_groups groups (raised text) = Outcome.raised text
add_groups [] (ok table) = Outcome.ok table
add_groups (group ∷ groups) (ok table) =
    add_groups groups (add_names (norms_of group) (norms_of group) table)

unfoldable pub build_lookup : List (List String) → Outcome Lookup
build_lookup groups = add_groups groups (Outcome.ok [])

abbrev pub or_alone : Name → Option (List Name) → List Name
or_alone norm none = norm ∷ []
or_alone norm (some names) = names

-- `_LOOKUP` is the table.
unfoldable pub accepted_names : Lookup → Name → List Name
accepted_names table norm = or_alone norm (get norm table)

-- `_ALIAS_GROUPS`
abbrev pub alias_groups : List (List String)
alias_groups =
    ("Newcastle" ∷ "Newcastle United" ∷ [])
    ∷ ("Wolves" ∷ "Wolverhampton Wanderers" ∷ "Wolverhampton" ∷ [])
    ∷ ("Ipswich" ∷ "Ipswich Town" ∷ [])
    ∷ ("Brighton" ∷ "Brighton and Hove Albion" ∷ "Brighton & Hove Albion" ∷ [])
    ∷ ("West Ham" ∷ "West Ham United" ∷ [])
    ∷ ("Tottenham" ∷ "Tottenham Hotspur" ∷ "Spurs" ∷ [])
    ∷ ("Leicester" ∷ "Leicester City" ∷ [])
    ∷ ("Athletic Club" ∷ "Athletic Bilbao" ∷ [])
    ∷ ("Osasuna" ∷ "CA Osasuna" ∷ [])
    ∷ ("FC Augsburg" ∷ "Augsburg" ∷ [])
    ∷ ("Bayern München" ∷ "Bayern Munich" ∷ [])
    ∷ ("1899 Hoffenheim" ∷ "TSG Hoffenheim" ∷ [])
    ∷ ("Atalanta" ∷ "Atalanta BC" ∷ [])
    ∷ ("Inter" ∷ "Inter Milan" ∷ [])
    ∷ ("Monaco" ∷ "AS Monaco" ∷ [])
    ∷ ("Stade Brestois 29" ∷ "Brest" ∷ [])
    ∷ ("Lens" ∷ "RC Lens" ∷ [])
    ∷ ("Reims" ∷ "Stade de Reims" ∷ [])
    ∷ ("United States" ∷ "USA" ∷ "USMNT" ∷ [])
    ∷ ("Ivory Coast" ∷ "Côte d'Ivoire" ∷ "Cote d'Ivoire" ∷ [])
    ∷ ("DR Congo" ∷ "Congo DR" ∷ "Democratic Republic of the Congo" ∷ [])
    ∷ ("South Korea" ∷ "Korea Republic" ∷ [])
    ∷ ("Cape Verde" ∷ "Cabo Verde" ∷ [])
    ∷ ("Czechia" ∷ "Czech Republic" ∷ [])
    ∷ ("Bosnia-Herzegovina" ∷ "Bosnia and Herzegovina" ∷ [])
    ∷ ("Türkiye" ∷ "Turkey" ∷ [])
    ∷ ("Iran" ∷ "IR Iran" ∷ [])
    ∷ []
