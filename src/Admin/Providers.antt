-- ===== src/Admin/Providers.antt =====
-- The handlers on providers, with the default endpoints of gateway/internal/provider/compat.go.
use cogni_gate.Prelude.{
  ◌==◌, ◌&&◌, ◌||◌, not, Bool, true, false, Option, none, some, List, [], ◌∷◌, if◌then◌else◌, Text,
  text_eq, codes, trim_space, trim_end, to_lower,
}
use cogni_gate.Store.{Provider, key_strategy_round_robin, valid_key_strategy}
use cogni_gate.Memory.{ApiKey}
use cogni_gate.Memory.Providers.{
  ProviderPatch, create_provider, list_providers, update_provider, delete_provider,
}
use cogni_gate.Catalog.Tenants.{invalidate}
use cogni_gate.Server.ApiErrors.{ApiError, invalid_request}
use cogni_gate.Admin.{
  Gateway, Externals, Draw, Reply, PageQuery, scoped, checked, parsed, send_page, store_reply,
  bad_when, on_some, mapped, is_set,
}

unfoldable pub default_base_url : Text → Option Text
default_base_url kind =
    let k = to_lower (trim_space kind) in
    if text_eq k (codes "gemini")
    then some (codes "https://generativelanguage.googleapis.com/v1beta/openai/")
    else if text_eq k (codes "anthropic")
    then some (codes "https://api.anthropic.com/v1/")
    else none

unfoldable pub non_empty : List Text → List Text
non_empty [] = []
non_empty (v ∷ vs) =
    let rest = non_empty vs in if text_eq (trim_space v) [] then rest else trim_space v ∷ rest

abbrev pub is_http : Text → Bool
is_http scheme = text_eq scheme (codes "http") || text_eq scheme (codes "https")

abbrev pub no_text : List Text → Bool
no_text [] = true
no_text (_ ∷ _) = false

pub record ProviderRequest : Type 0 where
  pub name : Text
  pub kind : Text
  pub base_url : Text
  pub keys : List Text
  pub enabled : Option Bool
  pub key_strategy : Text

pub record ProviderUpdate : Type 0 where
  pub base_url : Option Text
  pub enabled : Option Bool
  pub keys : Option (List Text)
  pub key_strategy : Option Text

unfoldable pub kind_of : Text → Text
kind_of raw =
    let kind = to_lower (trim_space raw) in if text_eq kind [] then codes "openai" else kind

unfoldable pub endpoint_of : Text → Text → Text
endpoint_of kind raw =
    if text_eq (trim_space raw) []
    then elim (default_base_url kind) [ none ↦ raw | some url ↦ url ]
    else raw

unfoldable pub strategy_or_default : Text → Text
strategy_or_default s = if text_eq s [] then key_strategy_round_robin else s

unfoldable pub or_true : Option Bool → Bool
or_true none = true
or_true (some b) = b

-- Trailing slashes are stripped; the id, the masks and the time are the store's.
unfoldable pub provider_of_request : Text → ProviderRequest → Provider
provider_of_request tenant r = record {
  id = [];
  tenant_id = tenant;
  name = trim_space r.name;
  kind = kind_of r.kind;
  base_url = trim_end (λ c. c == 47) (endpoint_of (kind_of r.kind) r.base_url);
  enabled = or_true r.enabled;
  key_strategy = strategy_or_default r.key_strategy;
  keys = non_empty r.keys;
  key_prefixes = [];
  created_at = 0;
}

abbrev pub bad_strategy : Text → Option ApiError
bad_strategy s =
    bad_when (not (valid_key_strategy s))
      (codes "key_strategy must be \"round_robin\" or \"failover\".") (codes "key_strategy")

abbrev pub bad_keys : List Text → Option ApiError
bad_keys keys =
    bad_when (no_text (non_empty keys)) (codes "At least one provider API key is required.")
      (codes "keys")

abbrev pub first_of : Option ApiError → Option ApiError → Option ApiError
first_of none later = later
first_of (some e) later = some e

unfoldable pub blank_update : ProviderUpdate → Bool
blank_update r =
    not (is_set r.base_url || is_set r.enabled || is_set r.keys || is_set r.key_strategy)

unfoldable pub provider_patch : ProviderUpdate → ProviderPatch
provider_patch r = record {
  base_url = r.base_url;
  enabled = r.enabled;
  key_strategy = mapped strategy_or_default r.key_strategy;
  keys = mapped non_empty r.keys;
}

unfoldable pub with_catalog_dropped : Text → Gateway → Gateway
with_catalog_dropped tenant g = record g { catalog = invalidate tenant g.catalog }

module _ (x : Externals) where
  unfoldable pub is_absolute : Text → Bool
  is_absolute url = elim (x.parse_url url) [
    | none ↦ false
    | some (scheme, host) ↦ not (text_eq host []) && is_http scheme
  ]

  unfoldable pub validate_base_url : Text → Option ApiError
  validate_base_url raw =
      first_of
        (bad_when (text_eq (trim_space raw) []) (codes "A provider base_url is required.")
          (codes "base_url"))
        (bad_when (not (is_absolute (trim_space raw)))
          (codes "base_url must be an absolute http or https URL.") (codes "base_url"))

  unfoldable pub provider_error : ProviderRequest → Option ApiError
  provider_error r =
      first_of
        (bad_when (text_eq (trim_space r.name) []) (codes "A provider name is required.")
          (codes "name"))
        (first_of (validate_base_url (endpoint_of (kind_of r.kind) r.base_url))
          (first_of (bad_strategy r.key_strategy) (bad_keys r.keys)))

  unfoldable pub provider_update_error : ProviderUpdate → Option ApiError
  provider_update_error r =
      if blank_update r
      then some (
          invalid_request
            (codes "A provider update must change base_url, enabled, keys or key_strategy."))
      else first_of (on_some r.key_strategy bad_strategy)
          (first_of (on_some r.base_url validate_base_url) (on_some r.keys bad_keys))

  unfoldable pub create_provider_call :
      Option ApiKey → Text → Option ProviderRequest → Draw → Gateway → Gateway × Reply Provider
  create_provider_call key path body d g = scoped x key path g (λ tenant. parsed x body g (λ r.
      checked x (provider_error r) g (
        store_reply x (codes "provider") (trim_space r.name) 201 g
          (create_provider g.store (provider_of_request tenant r) (d.id 0) d.now)
          (with_catalog_dropped tenant))))

  unfoldable pub list_providers_call :
      Option ApiKey → Text → PageQuery → Gateway → Gateway × Reply (List Provider × Bool)
  list_providers_call key path q g =
      scoped x key path g
        (λ tenant. (g, send_page x (λ (p : Provider). p.id) q (list_providers g.store tenant)))

  unfoldable pub update_provider_call :
      Option ApiKey → Text → Text → Option ProviderUpdate → Gateway → Gateway × Reply Provider
  update_provider_call key path id body g = scoped x key path g (λ tenant. parsed x body g (λ r.
      checked x (provider_update_error r) g (
        store_reply x (codes "provider") id 200 g
          (update_provider g.store tenant id (provider_patch r)) (with_catalog_dropped tenant))))

  unfoldable pub delete_provider_call :
      Option ApiKey → Text → Text → Gateway → Gateway × Reply (Unit {0})
  delete_provider_call key path id g = scoped x key path g (λ tenant.
      store_reply x (codes "provider") id 204 g (delete_provider g.store tenant id)
        (with_catalog_dropped tenant))
