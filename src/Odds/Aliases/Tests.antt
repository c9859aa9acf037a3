-- ===== src/Odds/Aliases/Tests.antt =====
-- The program's own table of team names, and the classes of a small one.
use football_agent.Prelude.{String, Bool, true, false, List, [], ◌∷◌, ◌≡◌, ◌↔◌, refl}
use football_agent.Settlement.Evidence.{Outcome, ok, raised}
use football_agent.Odds.TeamNames.{normalize_team_name, normalize_codes, name_in}
use football_agent.Odds.Aliases.{Lookup, alias_groups, build_lookup, accepted_names}
use football_agent.Odds.Aliases.Classes.{accepted_names-Classes}

abbrev is_built : Outcome Lookup → Bool
is_built (raised text) = false
is_built (ok table) = true

-- No name of the program's groups is in two of them.
groups_built : is_built (build_lookup alias_groups) ≡ true
unfolding build_lookup normalize_team_name normalize_codes
groups_built = refl

abbrev two_groups : List (List String)
two_groups = ("Lens" ∷ "RC Lens" ∷ []) ∷ ("Iran" ∷ "IR Iran" ∷ []) ∷ []

abbrev table_of : Outcome Lookup → Lookup
table_of (raised text) = []
table_of (ok table) = table

abbrev two_table : Lookup
two_table = table_of (build_lookup two_groups)

two_built : build_lookup two_groups ≡ Outcome.ok two_table
unfolding build_lookup normalize_team_name normalize_codes
two_built = refl

accepted_names-Classes_example :
    (name_in (normalize_team_name "RC Lens") (accepted_names two_table (normalize_team_name "Lens"))
      ≡ true)
    ↔ (accepted_names two_table (normalize_team_name "RC Lens")
        ≡ accepted_names two_table (normalize_team_name "Lens"))
accepted_names-Classes_example =
    accepted_names-Classes two_groups two_table two_built (normalize_team_name "Lens")
      (normalize_team_name "RC Lens")
