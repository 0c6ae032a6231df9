-- ===== src/Routing/Resolve.antt =====
-- gateway/internal/routing/resolve.go: from the model asked for to the candidates to try. What the
-- catalog and the store answer is an argument, `none` for an error. Case folding is that of ASCII. The loop of
-- Resolve stops when as many candidates are out as the depth allows: `left` counts down to it.
pub mod Chains
pub mod Ranks
mod Tests
use cogni_gate.Prelude.{
  ℕ, zero, suc, ◌+◌, ◌≡◌, Bool, true, false, not, ◌&&◌, ◌||◌, Option, none, some, List, [], ◌∷◌,
  ◌++◌, map, leb, ltb, ◌==◌, if◌then◌else◌, length, keep_if, Text, text_dec, text_eq, member,
  to_lower, text_ltb, codes, lookup, insert,
}
use cogni_gate.Store.{Alias, Model, Route}
use cogni_gate.Catalog.{CatalogEntry, Snapshot, lookup_id, model_of}
use cogni_gate.Routing.Dispatch.{Candidate}

unfoldable pub all_in : List Text → List Text → Bool
all_in set [] = true
all_in set (r ∷ required) = member (to_lower r) set && all_in set required

unfoldable pub has_all : List Text → List Text → Bool
has_all have required = all_in (map to_lower have) required

unfoldable pub entry_candidate : CatalogEntry → Candidate
entry_candidate e = record {
  tenant_id = [];
  provider = e.model.provider;
  provider_id = e.provider_id;
  model = model_of e.model.id;
}

unfoldable pub served_by : Candidate → Text
served_by c = c.provider ++ (47 ∷ []) ++ c.model

-- The filters of the loop over the models.
unfoldable pub meets : Alias → CatalogEntry → Bool
meets a e =
    has_all e.model.capabilities a.capabilities
    && not (
        ltb 0 a.min_context_window
        && ltb 0 e.model.context_window
        && ltb e.model.context_window a.min_context_window)

-- The last position of a name, as the map keeps it, counted from a start.
unfoldable pub pref_rank : ℕ → List Text → Text → Option ℕ
pref_rank i [] name = none
pref_rank i (n ∷ names) name = elim (pref_rank (i + 1) names name) [
  | some r ↦ some r
  | none ↦ if text_eq n name then some i else none
]

unfoldable pub rank_of : Alias → CatalogEntry → ℕ
rank_of a e = elim (pref_rank 0 a.provider_preference e.model.provider) [
  | some r ↦ r
  | none ↦ length a.provider_preference
]

unfoldable pub cost_before : Text → ℕ → ℕ → Option Bool
cost_before tier ci cj =
    if ci == cj
    then none
    else (if text_eq tier (codes "best")
        then some (ltb cj ci)
        else (if text_eq tier (codes "cheapest")
              || text_eq tier (codes "balanced")
              || text_eq tier []
            then some (ltb ci cj)
            else none))

-- The order passed to sort.SliceStable.
unfoldable pub before : Alias → CatalogEntry → CatalogEntry → Bool
before a x y =
    if not (rank_of a x == rank_of a y)
    then ltb (rank_of a x) (rank_of a y)
    else elim (cost_before a.cost_tier x.model.input_cost_per_mtok y.model.input_cost_per_mtok) [
      | some b ↦ b
      | none ↦ text_ltb x.model.id y.model.id
    ]

-- A stable sort: an element goes before the equal ones that stood behind it.
unfoldable pub put_sorted : Alias → CatalogEntry → List CatalogEntry → List CatalogEntry
put_sorted a x [] = x ∷ []
put_sorted a x (y ∷ ys) =
    let rest = put_sorted a x ys in if before a y x then y ∷ rest else x ∷ y ∷ ys

unfoldable pub sort_stable : Alias → List CatalogEntry → List CatalogEntry
sort_stable a [] = []
sort_stable a (x ∷ xs) = put_sorted a x (sort_stable a xs)

unfoldable pub matching : Alias → Snapshot → List Candidate
matching a snap = map entry_candidate (sort_stable a (keep_if (meets a) snap.models))

unfoldable pub resolve_alias : Alias → Snapshot → List Candidate
resolve_alias a snap =
    if text_eq a.pin []
    then matching a snap
    else elim (lookup_id snap a.pin) [ some e ↦ entry_candidate e ∷ [] | none ↦ matching a snap ]

unfoldable pub by_name : List Alias → List (Text × Alias) → List (Text × Alias)
by_name [] m = m
by_name (a ∷ aliases) m = by_name aliases (insert text_dec a.name a m)

unfoldable pub resolve_ref : Text → List (Text × Alias) → Snapshot → List Candidate
resolve_ref r aliases snap = elim (lookup text_dec r aliases) [
  | some a ↦ resolve_alias a snap
  | none ↦ elim (lookup_id snap r) [ some e ↦ entry_candidate e ∷ [] | none ↦ [] ]
]

unfoldable pub chain_for : List Route → Text → List Text
chain_for [] requested = requested ∷ []
chain_for (rt ∷ routes) requested =
    let rest = chain_for routes requested in
    if text_eq rt.match requested && ltb 0 (length rt.chain) then rt.chain else rest

-- The candidate of a chain position: the first that is not out already.
unfoldable pub first_unseen : List Text → List Candidate → Option Candidate
first_unseen seen [] = none
first_unseen seen (c ∷ cs) = if member (served_by c) seen then first_unseen seen cs else some c

unfoldable pub collect :
    ℕ → List Text → Text → List (Text × Alias) → Snapshot → List Text → List Candidate
collect left seen tenant aliases snap [] = []
collect zero seen tenant aliases snap (r ∷ chain) = []
collect (suc left) seen tenant aliases snap (r ∷ chain) =
    elim (first_unseen seen (resolve_ref r aliases snap)) [
      | none ↦ collect (suc left) seen tenant aliases snap chain
      | some c ↦
          record c { tenant_id = tenant }
          ∷ collect left (served_by c ∷ seen) tenant aliases snap chain
    ]

pub data Resolution : Type 0 where
  resolved : List Candidate → Resolution
  unavailable : Resolution
  store_failed : Resolution
  alias_unresolvable : Text → Resolution
  model_not_found : Text → Resolution

unfoldable pub concluded : Text → Bool → List Candidate → Resolution
concluded requested is_alias (c ∷ cs) = resolved (c ∷ cs)
concluded requested true [] = alias_unresolvable requested
concluded requested false [] = model_not_found requested

unfoldable pub is_alias : Text → List (Text × Alias) → Bool
is_alias t aliases = elim (lookup text_dec t aliases) [ none ↦ false | some _ ↦ true ]

unfoldable pub resolve :
    ℕ → Text → Text → Option Snapshot → Option (List Alias) → Option (List Route) → Resolution
resolve max_depth tenant requested none aliases routes = unavailable
resolve max_depth tenant requested (some snap) none routes = store_failed
resolve max_depth tenant requested (some snap) (some aliases) none = store_failed
resolve max_depth tenant requested (some snap) (some aliases) (some routes) =
    let names = by_name aliases [] in
    concluded requested (is_alias requested names)
      (collect max_depth [] tenant names snap (chain_for routes requested))

unfoldable pub new_max_depth : ℕ → ℕ
new_max_depth max_depth = if ltb max_depth 1 then 5 else max_depth

-- The model that a chain names twice.
unfoldable pub duplicate_from : List Text → List Text → Option Text
duplicate_from seen [] = none
duplicate_from seen (m ∷ chain) = if member m seen then some m else duplicate_from (m ∷ seen) chain

unfoldable pub validate_chain : List Text → Option Text
validate_chain chain = duplicate_from [] chain
