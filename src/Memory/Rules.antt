-- ===== src/Memory/Rules.antt =====
-- The methods of the store on aliases, routes and webhooks.
use cogni_gate.Prelude.{
  ℕ, Bool, ◌||◌, none, some, List, [], ◌∷◌, ◌++◌, if◌then◌else◌, Text, text_dec, text_eq, text_ltb,
  insert, sort_by,
}
use cogni_gate.Store.{Alias, Route}
use cogni_gate.Memory.Tables.{
  Memory, Webhook, Result, ok, err, not_found, has_tenant, rows, remove_first,
}

-- The alias of the same name keeps its id and its creation time and gets the rest; a new one goes
-- to the end.
unfoldable pub upsert_alias_in : Alias → Text → ℕ → List Alias → List Alias × Alias
upsert_alias_in a id now [] =
    let saved = record a { id = id; created_at = now } in (saved ∷ [], saved)
upsert_alias_in a id now (x ∷ xs) =
    let saved = record a { id = x.id; created_at = x.created_at } in
    let rest = upsert_alias_in a id now xs in
    if text_eq x.name a.name then (saved ∷ xs, saved) else (x ∷ rest.0, rest.1)

unfoldable pub upsert_alias : Memory → Alias → Text → ℕ → Memory × Result Alias
upsert_alias m a id now =
    let r = upsert_alias_in a id now (rows m.aliases a.tenant_id) in
    if has_tenant m a.tenant_id
    then (record m { aliases = insert text_dec a.tenant_id r.0 m.aliases }, ok r.1)
    else (m, err not_found)

unfoldable pub alias_before : Alias → Alias → Bool
alias_before a b = text_ltb a.name b.name

unfoldable pub list_aliases : Memory → Text → List Alias
list_aliases m tenant = sort_by alias_before (rows m.aliases tenant)

unfoldable pub is_alias_named : Text → Alias → Bool
is_alias_named name a = text_eq a.name name || text_eq a.id name

unfoldable pub delete_alias : Memory → Text → Text → Memory × Result (Unit {0})
delete_alias m tenant name = elim (remove_first (is_alias_named name) (rows m.aliases tenant)) [
  | none ↦ (m, err not_found)
  | some xs ↦ (record m { aliases = insert text_dec tenant xs m.aliases }, ok tt)
]

unfoldable pub upsert_route_in : Route → Text → ℕ → List Route → List Route × Route
upsert_route_in r id now [] =
    let saved = record r { id = id; created_at = now } in (saved ∷ [], saved)
upsert_route_in r id now (x ∷ xs) =
    let saved = record r { id = x.id; created_at = x.created_at } in
    let rest = upsert_route_in r id now xs in
    if text_eq x.match r.match then (saved ∷ xs, saved) else (x ∷ rest.0, rest.1)

unfoldable pub upsert_route : Memory → Route → Text → ℕ → Memory × Result Route
upsert_route m r id now =
    let u = upsert_route_in r id now (rows m.routes r.tenant_id) in
    if has_tenant m r.tenant_id
    then (record m { routes = insert text_dec r.tenant_id u.0 m.routes }, ok u.1)
    else (m, err not_found)

unfoldable pub route_before : Route → Route → Bool
route_before a b = text_ltb a.match b.match

unfoldable pub list_routes : Memory → Text → List Route
list_routes m tenant = sort_by route_before (rows m.routes tenant)

unfoldable pub is_route_named : Text → Route → Bool
is_route_named id r = text_eq r.id id || text_eq r.match id

unfoldable pub delete_route : Memory → Text → Text → Memory × Result (Unit {0})
delete_route m tenant id = elim (remove_first (is_route_named id) (rows m.routes tenant)) [
  | none ↦ (m, err not_found)
  | some xs ↦ (record m { routes = insert text_dec tenant xs m.routes }, ok tt)
]

unfoldable pub create_webhook : Memory → Webhook → Text → ℕ → Memory × Result Webhook
create_webhook m w id now =
    let saved = record w { id = id; created_at = now } in
    if has_tenant m w.tenant_id
    then (
      record m {
        webhooks =
            insert text_dec w.tenant_id (rows m.webhooks w.tenant_id ++ (saved ∷ [])) m.webhooks;
      },
      ok saved,
    )
    else (m, err not_found)

unfoldable pub list_webhooks : Memory → Text → List Webhook
list_webhooks m tenant = rows m.webhooks tenant

unfoldable pub delete_webhook : Memory → Text → Text → Memory × Result (Unit {0})
delete_webhook m tenant id = elim (remove_first (λ w. text_eq w.id id) (rows m.webhooks tenant)) [
  | none ↦ (m, err not_found)
  | some xs ↦ (record m { webhooks = insert text_dec tenant xs m.webhooks }, ok tt)
]
