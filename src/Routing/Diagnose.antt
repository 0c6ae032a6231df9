-- ===== src/Routing/Diagnose.antt =====
-- gateway/internal/routing/diagnose.go: what a tenant's aliases and routes resolve to. Degraded is a
-- reason that is there; the two result lists are sorted by name in the source and are left in the order of the
-- store here.
mod Tests
use cogni_gate.Prelude.{
  ℕ, zero, suc, ◌≡◌, ◌∙◌, refl, sym, Bool, true, false, ◌||◌, not, ◌&&◌, Option, none, some, List,
  [], ◌∷◌, map, arith, if◌then◌else◌, All, Text, text_eq, lookup, Option-cases, inl, inr, ◌⊎◌,
}
use cogni_gate.Store.{Alias, Route}
use cogni_gate.Routing.Dispatch.{Candidate}
use cogni_gate.Catalog.{Snapshot, lookup_id}
use cogni_gate.Routing.Resolve.{resolve_alias, resolve_ref, served_by, by_name}

pub data Reason : Type 0 where
  reason_alias_unresolvable : Reason
  reason_fallback_duplicate : Reason
  reason_pin_unresolvable : Reason
  reason_rule_unresolvable : Reason

pub record NameState : Type 0 where
  pub name : Text
  pub resolves_to : Option Text
  pub reason : Option Reason

pub record Diagnosis : Type 0 where
  pub aliases : List NameState
  pub rules : List NameState

unfoldable pub any_reason : List NameState → Bool
any_reason [] = false
any_reason (s ∷ ss) = elim s.reason [ some _ ↦ true | none ↦ any_reason ss ]

unfoldable pub degraded : Diagnosis → Bool
degraded d = any_reason d.aliases || any_reason d.rules

unfoldable pub pin_reason : Alias → Snapshot → Option Reason
pin_reason a snap =
    if text_eq a.pin []
    then none
    else elim (lookup_id snap a.pin) [ some _ ↦ none | none ↦ some reason_pin_unresolvable ]

unfoldable pub alias_state : Alias → Snapshot → List Candidate → NameState
alias_state a snap [] = record {
  name = a.name;
  resolves_to = none;
  reason = some reason_alias_unresolvable;
}
alias_state a snap (c ∷ cs) = record {
  name = a.name;
  resolves_to = some (served_by c);
  reason = pin_reason a snap;
}

unfoldable pub diagnose_alias : Alias → Snapshot → NameState
diagnose_alias a snap = alias_state a snap (resolve_alias a snap)

-- The loop over the chain: what its positions resolve to first.
unfoldable pub live : List (Text × Alias) → Snapshot → List Text → List Text
live aliases snap [] = []
live aliases snap (r ∷ chain) = elim (resolve_ref r aliases snap) [
  | [] ↦ live aliases snap chain
  | c ∷ _ ↦ served_by c ∷ live aliases snap chain
]

unfoldable pub repeats : Text → List Text → Bool
repeats t [] = false
repeats t (s ∷ ss) = text_eq s t || repeats s ss

unfoldable pub route_state : Text → List Text → NameState
route_state name [] = record {
  name = name;
  resolves_to = none;
  reason = some reason_rule_unresolvable;
}
route_state name (t ∷ ts) = record {
  name = name;
  resolves_to = some t;
  reason = if repeats t ts then some reason_fallback_duplicate else none;
}

unfoldable pub diagnose_route : Route → List (Text × Alias) → Snapshot → NameState
diagnose_route rt aliases snap = route_state rt.match (live aliases snap rt.chain)

unfoldable pub diagnose : Snapshot → List Alias → List Route → Diagnosis
diagnose snap aliases routes = record {
  aliases = map (λ a. diagnose_alias a snap) aliases;
  rules = map (λ rt. diagnose_route rt (by_name aliases []) snap) routes;
}

live-nil :
    (aliases : List (Text × Alias)) (snap : Snapshot) (chain : List Text)
    → live aliases snap chain ≡ []
    → All (λ r. resolve_ref r aliases snap ≡ []) chain
unfolding live
live-nil aliases snap [] h = tt
live-nil aliases snap (r ∷ chain) h =
    go (resolve_ref r aliases snap) refl (live-nil aliases snap chain) h
  where
    go :
        (cs : List Candidate)
        → resolve_ref r aliases snap ≡ cs
        → (live aliases snap chain ≡ [] → All (λ r. resolve_ref r aliases snap ≡ []) chain)
        → (elim cs as (λ x. List Text) [
          | [] ↦ live aliases snap chain
          | c ∷ _ ↦ served_by c ∷ live aliases snap chain
        ])
          ≡ []
        → All (λ r. resolve_ref r aliases snap ≡ []) (r ∷ chain)
    go [] e ih h = (e, ih h)
    go (c ∷ cs) e ih h = absurd (ground (arith, h))

route_state-nothing :
    (name : Text) (ts : List Text) → (route_state name ts).resolves_to ≡ none → ts ≡ []
unfolding route_state
route_state-nothing name [] h = refl
route_state-nothing name (t ∷ ts) h = absurd (ground (arith, h))

-- A route that the diagnosis reports as resolving to nothing has no position that a request through it
-- could be served from.
pub diagnose_route-nothing :
    (rt : Route) (aliases : List (Text × Alias)) (snap : Snapshot)
    → (diagnose_route rt aliases snap).resolves_to ≡ none
    → All (λ r. resolve_ref r aliases snap ≡ []) rt.chain
unfolding diagnose_route
diagnose_route-nothing rt aliases snap h =
    live-nil aliases snap rt.chain (route_state-nothing rt.match (live aliases snap rt.chain) h)
