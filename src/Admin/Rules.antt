-- ===== src/Admin/Rules.antt =====
-- The handlers on aliases and on routing rules.
use cogni_gate.Prelude.{
  ℕ, ◌==◌, ltb, leb, ◌&&◌, ◌||◌, not, Bool, true, false, Option, none, some, List, [], ◌∷◌,
  if◌then◌else◌, Text, text_eq, codes, trim_space, length, inr,
}
use cogni_gate.Store.{Alias, Route}
use cogni_gate.Memory.{Memory, ApiKey}
use cogni_gate.Memory.Providers.{list_providers}
use cogni_gate.Memory.Rules.{
  upsert_alias, list_aliases, delete_alias, upsert_route, list_routes, delete_route,
}
use cogni_gate.Catalog.{lookup_id}
use cogni_gate.Catalog.Tenants.{Upstreams, Reading, served, unavailable, get_snapshot, Catalog}
use cogni_gate.Routing.Resolve.{validate_chain}
use cogni_gate.Server.ApiErrors.{ApiError, alias_collides, fallback_duplicate}
use cogni_gate.Admin.{
  Gateway, AdminConfig, Externals, Draw, Reply, PageQuery, scoped, checked, parsed, send_page,
  store_reply, unchanged, bad_when,
}
use cogni_gate.Admin.Providers.{non_empty, no_text, first_of}

-- `^[a-z][a-z0-9_-]{1,63}$`.
unfoldable pub is_lower : ℕ → Bool
is_lower c = leb 97 c && leb c 122

unfoldable pub is_name_byte : ℕ → Bool
is_name_byte c = is_lower c || (leb 48 c && leb c 57) || c == 95 || c == 45

unfoldable pub all_name_bytes : Text → Bool
all_name_bytes [] = true
all_name_bytes (c ∷ t) = is_name_byte c && all_name_bytes t

unfoldable pub alias_name_pattern : Text → Bool
alias_name_pattern [] = false
alias_name_pattern (c ∷ t) = is_lower c && all_name_bytes t && leb 1 (length t) && leb (length t) 63

pub record AliasRequest : Type 0 where
  pub pin : Text
  pub capabilities : List Text
  pub min_context_window : ℕ
  pub provider_preference : List Text
  pub cost_tier : Text

pub record RouteRequest : Type 0 where
  pub match : Text
  pub chain : List Text

abbrev pub alias_name_error : Text → Option ApiError
alias_name_error name =
    bad_when (not (alias_name_pattern name))
      (codes "An alias name must match ^[a-z][a-z0-9_-]{1,63}$.") (codes "name")

unfoldable pub cost_tier_error : Text → Option ApiError
cost_tier_error tier =
    bad_when
      (not (
        text_eq tier []
        || text_eq tier (codes "cheapest")
        || text_eq tier (codes "balanced")
        || text_eq tier (codes "best")))
      (codes "cost_tier must be one of \"cheapest\", \"balanced\", \"best\".") (codes "cost_tier")

-- Whether a reading of the catalog has a model with the name; one that cannot be read has none.
unfoldable pub clashes : Text → Reading → Bool
clashes name (unavailable _) = false
clashes name (served snap) = elim (lookup_id snap name) [ none ↦ false | some _ ↦ true ]

unfoldable pub alias_of : Text → Text → AliasRequest → Alias
alias_of tenant name r = record {
  id = [];
  tenant_id = tenant;
  name = name;
  pin = trim_space r.pin;
  capabilities = r.capabilities;
  min_context_window = r.min_context_window;
  provider_preference = r.provider_preference;
  cost_tier = r.cost_tier;
  created_at = 0;
}

unfoldable pub route_of : Text → Text → List Text → Route
route_of tenant match chain = record {
  id = [];
  tenant_id = tenant;
  match = match;
  chain = chain;
  created_at = 0;
}

module _ (x : Externals) where
  -- What the store and the adapters would answer a poll of a tenant.
  unfoldable pub upstreams_of : Memory → Text → Upstreams
  upstreams_of m tenant = record {
    adapters = x.adapters;
    providers = inr (list_providers m tenant);
  }

  unfoldable pub read_catalog : Text → ℕ → Gateway → Reading × Catalog
  read_catalog tenant now g = get_snapshot (upstreams_of g.store tenant) now tenant g.catalog

  unfoldable pub clash_error : Text → Reading → Option ApiError
  clash_error name r = if clashes name r then some (alias_collides x.quote x.decimal name) else none

  unfoldable pub upsert_alias_call :
      Option ApiKey → Text → Text → Option AliasRequest → Draw → Gateway → Gateway × Reply Alias
  upsert_alias_call key path raw body d g = scoped x key path g (λ tenant.
      let name = trim_space raw in
      checked x (alias_name_error name) g (
        parsed x body g (λ r. checked x (cost_tier_error r.cost_tier) g (
          let read = read_catalog tenant d.now g in
          let h : Gateway = record g { catalog = read.1 } in
          checked x (clash_error name read.0) h (
            store_reply x (codes "alias") name 200 h
              (upsert_alias h.store (alias_of tenant name r) (d.id 0) d.now) unchanged)))))

  unfoldable pub list_aliases_call :
      Option ApiKey → Text → PageQuery → Gateway → Gateway × Reply (List Alias × Bool)
  list_aliases_call key path q g =
      scoped x key path g
        (λ tenant. (g, send_page x (λ (a : Alias). a.id) q (list_aliases g.store tenant)))

  unfoldable pub delete_alias_call :
      Option ApiKey → Text → Text → Gateway → Gateway × Reply (Unit {0})
  delete_alias_call key path name g = scoped x key path g (λ tenant.
      store_reply x (codes "alias") name 204 g (delete_alias g.store tenant name) unchanged)

  unfoldable pub chain_error : ℕ → List Text → Option ApiError
  chain_error max_depth chain =
      first_of
        (bad_when (no_text chain) (codes "A fallback chain needs at least one entry.")
          (codes "chain"))
        (first_of
          (bad_when (ltb max_depth (length chain))
            (codes "The fallback chain is longer than the configured max_fallback_depth.")
            (codes "chain"))
          (elim (validate_chain chain) [
            | none ↦ none
            | some m ↦ some (fallback_duplicate x.quote x.decimal m)
          ]))

  unfoldable pub upsert_route_call :
      AdminConfig
      → Option ApiKey
      → Text
      → Option RouteRequest
      → Draw
      → Gateway
      → Gateway × Reply Route
  upsert_route_call conf key path body d g = scoped x key path g (λ tenant. parsed x body g (λ r.
      checked x
        (bad_when (text_eq (trim_space r.match) []) (codes "A route match is required.")
          (codes "match"))
        g
        (checked x (chain_error conf.max_fallback_depth (non_empty r.chain)) g (
          store_reply x (codes "route") (trim_space r.match) 200 g
            (upsert_route g.store (route_of tenant (trim_space r.match) (non_empty r.chain))
              (d.id 0) d.now)
            unchanged))))

  unfoldable pub list_routes_call :
      Option ApiKey → Text → PageQuery → Gateway → Gateway × Reply (List Route × Bool)
  list_routes_call key path q g =
      scoped x key path g
        (λ tenant. (g, send_page x (λ (r : Route). r.id) q (list_routes g.store tenant)))

  unfoldable pub delete_route_call :
      Option ApiKey → Text → Text → Gateway → Gateway × Reply (Unit {0})
  delete_route_call key path id g =
      scoped x key path g (λ tenant.
        store_reply x (codes "route") id 204 g (delete_route g.store tenant id) unchanged)
