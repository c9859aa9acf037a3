-- ===== src/Picks/Whitelist.antt =====
-- app/config/whitelist.py: `CompetitionWhitelist`, its tables and `is_allowed`. `_normalize` is a
-- parameter; the match names and the sport keys of an entry come normalized.
use football_agent.Prelude.{
  String, Bool, true, false, ◌&&◌, ◌||◌, Option, none, some, List, [], ◌∷◌, is_some, if◌then◌else◌,
  str_eq, strip,
}
use football_agent.Prelude.Int.{ℤ, leb_ℤ}
use football_agent.Prelude.TextDict.{TextDict, lookup, insert}

pub record WhitelistEntry : Type 0 where
  pub match_names_norm : List String
  pub sport_keys_norm : List String
  pub enabled : Bool
  pub league_id : Option ℤ
  pub country : Option String

abbrev pub LeagueDict : Type 0
LeagueDict = List (ℤ × WhitelistEntry)

pub record CompetitionWhitelist : Type 0 where
  pub norm_lookup : TextDict WhitelistEntry
  pub league_id_lookup : LeagueDict

abbrev pub find_league : ℤ → LeagueDict → Option WhitelistEntry
find_league k [] = none
find_league k ((j, e) ∷ d) = if leb_ℤ k j && leb_ℤ j k then some e else find_league k d

-- The first entry of an id or a name stays.
abbrev add_league : Option ℤ → WhitelistEntry → LeagueDict → LeagueDict
add_league none e d = d
add_league (some k) e d = if is_some (find_league k d) then d else (k, e) ∷ d

abbrev claim_names :
    List String → WhitelistEntry → TextDict WhitelistEntry → TextDict WhitelistEntry
claim_names [] e d = d
claim_names (n ∷ ns) e d = claim_names ns e (if is_some (lookup n d) then d else insert n e d)

abbrev add_entry : WhitelistEntry → CompetitionWhitelist → CompetitionWhitelist
add_entry e w =
    if e.enabled
    then record {
      norm_lookup = claim_names e.match_names_norm e w.norm_lookup;
      league_id_lookup = add_league e.league_id e w.league_id_lookup;
    }
    else w

abbrev add_entries : CompetitionWhitelist → List WhitelistEntry → CompetitionWhitelist
add_entries w [] = w
add_entries w (e ∷ es) = add_entries (add_entry e w) es

-- The sport keys of the enabled entries are names too, after all match names.
abbrev add_sport_keys : CompetitionWhitelist → List WhitelistEntry → CompetitionWhitelist
add_sport_keys w [] = w
add_sport_keys w (e ∷ es) =
    add_sport_keys
      (if e.enabled
        then record w { norm_lookup = claim_names e.sport_keys_norm e w.norm_lookup }
        else w)
      es

unfoldable pub make_whitelist : List WhitelistEntry → CompetitionWhitelist
make_whitelist es =
    add_sport_keys (add_entries (record { norm_lookup = []; league_id_lookup = [] }) es) es

abbrev is_enabled : Option WhitelistEntry → Bool
is_enabled none = false
is_enabled (some e) = e.enabled

abbrev same_country : (String → String) → Option String → Option String → Bool
same_country normalize none c = true
same_country normalize (some a) none = true
same_country normalize (some a) (some c) = str_eq (normalize a) (normalize c)

abbrev is_named : (String → String) → Option String → Option WhitelistEntry → Bool
is_named normalize country none = false
is_named normalize country (some e) = e.enabled && same_country normalize country e.country

-- A league id is the only signal where there is one.
unfoldable pub is_allowed :
    (String → String) → CompetitionWhitelist → String → Option ℤ → Option String → Bool
is_allowed normalize w name (some league_id) country =
    is_enabled (find_league league_id w.league_id_lookup)
is_allowed normalize w name none country =
    if str_eq name "" || str_eq (strip name) ""
    then false
    else is_named normalize country (lookup (normalize name) w.norm_lookup)
