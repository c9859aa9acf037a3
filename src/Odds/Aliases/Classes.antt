-- ===== src/Odds/Aliases/Classes.antt =====
-- The accepted names are classes.
use football_agent.Prelude.{
  String, true, Option, none, some, List, [], ◌∷◌, ◌≡◌, ◌∙◌, ◌↔◌, inl, inr, arith, refl, ap,
  if◌then◌else◌, code_eq, Bool-cases, Option-cases, sym,
}
use mathlib.Core.Path.{subst}
use football_agent.Settlement.Evidence.{Outcome, ok, raised}
use football_agent.Odds.TeamNames.{Name, name_in, code_eq_iff}
use football_agent.Odds.Aliases.{
  Lookup, get, put, add_names, norms_of, add_groups, build_lookup, accepted_names,
}

get-put :
    (j n : Name) (norms : List Name) (table : Lookup)
    → get j (put n norms table) ≡ (if code_eq j n then some norms else get j table)
get-put j n norms [] = refl
get-put j n norms ((m, names) ∷ table) =
    ground (arith, code_eq_iff j n, code_eq_iff n m, code_eq_iff j m, get-put j n norms table)

-- The names of a group are new, and then all stand for it.
record IsAdded (norms ns : List Name) (table made : Lookup) (j : Name) : Type 0 where
  found : get j made ≡ (if name_in j ns then some norms else get j table)
  fresh : name_in j ns ≡ true → get j table ≡ none

add_one-IsAdded :
    (norms ns : List Name) (n j : Name) (table made : Lookup)
    → get n table ≡ none
    → IsAdded norms ns (put n norms table) made j
    → IsAdded norms (n ∷ ns) table made j
add_one-IsAdded norms ns n j table made h a =
    let e = get-put j n norms table in
    let found = a.found in
    let fresh = a.fresh in
    elim (Bool-cases (code_eq j n)) [
      | inl on ↦
          let same = (code_eq_iff j n).0 on in
          let free : get j table ≡ none = rw same h in
          record { found = ground arith; fresh = λ k. free }
      | inr off ↦
          let kept : get j (put n norms table) ≡ get j table = ground arith in
          record { found = ground arith; fresh = λ k. sym kept ∙ fresh (rw off at k) }
    ]

add_names-IsAdded :
    (norms ns : List Name) (table made : Lookup)
    → add_names norms ns table ≡ Outcome.ok made
    → (j : Name) → IsAdded norms ns table made j
add_names-IsAdded norms [] table made h j =
    let same : table ≡ made = cc h in
    record { found = ap (get j) (sym same); fresh = λ k. absurd (cc k) }
add_names-IsAdded norms (n ∷ ns) table made h j = elim (Option-cases (get n table)) [
  | inl free ↦
      add_one-IsAdded norms ns n j table made free
        (add_names-IsAdded norms ns (put n norms table) made (rw free at h) j)
  | inr taken ↦ let (names, e) = taken in let wrong = (rw e at h) in absurd (cc wrong)
]

-- Every name of a class is in the table, for this class.
abbrev Closed : Lookup → Type 0
Closed table =
    (j : Name) (g : List Name)
    → get j table ≡ some g
    → (name_in j g ≡ true) × ((m : Name) → name_in m g ≡ true → get m table ≡ some g)

none-not-some : {A : Type 0} (o : Option A) (x : A) → o ≡ none → o ≡ some x → ⊥
none-not-some o x h k = absurd (cc (h, k))

add_names-Closed :
    (norms : List Name) (table made : Lookup)
    → add_names norms norms table ≡ Outcome.ok made
    → Closed table
    → Closed made
add_names-Closed norms table made h c j g e =
    let added = add_names-IsAdded norms norms table made h in
    let at_j = (added j).found in
    elim (Bool-cases (name_in j norms)) [
      | inl on ↦
          let this : g ≡ norms = cc (rw on at at_j, e) in
          rw this (on, λ m k. let at_m = (added m).found in rw k at at_m)
      | inr off ↦
          let before : get j table ≡ some g = cc (rw off at at_j, e) in
          let class = c j g before in
          (
            class.0,
            λ m k.
                let there = class.1 m k in
                let at_m = (added m).found in
                elim (Bool-cases (name_in m norms)) [
                  | inl new ↦ absurd (none-not-some (get m table) g ((added m).fresh new) there)
                  | inr old ↦ (rw old at at_m) ∙ there
                ],
          )
    ]

add_groups-Closed :
    (groups : List (List String)) (o : Outcome Lookup) (made : Lookup)
    → ((table : Lookup) → o ≡ Outcome.ok table → Closed table)
    → add_groups groups o ≡ Outcome.ok made
    → Closed made
add_groups-Closed [] (raised text) made c h = absurd (cc h)
add_groups-Closed (group ∷ groups) (raised text) made c h = absurd (cc h)
add_groups-Closed [] (ok table) made c h = c made h
add_groups-Closed (group ∷ groups) (ok table) made c h =
    add_groups-Closed groups (add_names (norms_of group) (norms_of group) table) made
      (λ t k. add_names-Closed (norms_of group) table t k (c table refl)) h

alone_lem : (n m : Name) → name_in m (n ∷ []) ≡ true → m ≡ n
alone_lem n m h = (code_eq_iff m n).0 (ground arith)

Closed-table :
    (groups : List (List String)) (table : Lookup)
    → build_lookup groups ≡ Outcome.ok table
    → Closed table
unfolding build_lookup
Closed-table groups table h =
    add_groups-Closed groups (Outcome.ok []) table
      (λ t k. let same : [] ≡ t = cc k in subst Closed same (λ j g e. absurd (cc e))) h

accepted_names_self :
    (table : Lookup) (n : Name) → Closed table → name_in n (accepted_names table n) ≡ true
unfolding accepted_names
accepted_names_self table n closed = elim (Option-cases (get n table)) [
  | inl alone ↦ rw alone (rw ((code_eq_iff n n).1 refl) refl)
  | inr found ↦ rw (found.1) ((closed n found.0 found.1).0)
]

accepted_names_same :
    (table : Lookup) (n m : Name)
    → Closed table
    → name_in m (accepted_names table n) ≡ true
    → accepted_names table m ≡ accepted_names table n
unfolding accepted_names
accepted_names_same table n m closed k = elim (Option-cases (get n table)) [
  | inl alone ↦ rw (alone_lem n m (rw alone at k)) refl
  | inr found ↦ rw (found.1, (closed n found.0 found.1).1 m (rw (found.1) at k)) refl
]

-- In a table that could be built, the accepted names are classes: a name is one of the accepted
-- names of another exactly when both have the same accepted names.
pub accepted_names-Classes :
    (groups : List (List String)) (table : Lookup)
    → build_lookup groups ≡ Outcome.ok table
    → (n m : Name)
    → (name_in m (accepted_names table n) ≡ true)
      ↔ (accepted_names table m ≡ accepted_names table n)
accepted_names-Classes groups table h n m =
    let closed = Closed-table groups table h in
    (
      accepted_names_same table n m closed,
      λ e. subst (λ names. name_in m names ≡ true) e (accepted_names_self table m closed),
    )
