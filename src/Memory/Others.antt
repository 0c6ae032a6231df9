-- ===== src/Memory/Others.antt =====
-- What the methods of the store on one tenant leave of another one.
pub mod Methods
use cogni_gate.Prelude.{
  ℕ, ◌≡◌, ◌≢◌, refl, sym, ap, arith, inl, inr, Bool, true, false, Option, none, some, List, [], ◌∷◌,
  ◌++◌, if◌then◌else◌, Text, text_dec, text_eq, lookup, insert, delete, lookup-insert,
  lookup-delete, Option-cases, Bool-cases, sort_by, All,
}
use cogni_gate.Store.{Provider, Alias, Route}
use cogni_gate.Quota.{Quota}
use cogni_gate.Memory.Tables.{
  Memory, Tenant, ApiKey, Webhook, Event, UsageRecord, Result, ok, err, not_found, rows, has_tenant,
}
use cogni_gate.Memory.ApiKeys.{keys_of, key_before, list_api_keys}
use cogni_gate.Memory.Quotas.{get_quota, quota_key}

-- What GetQuota makes of a lookup.
abbrev found : Option Quota → Result Quota
found o = elim o [ none ↦ err not_found | some q ↦ ok q ]

-- Everything the store has of a tenant, as its methods read it, is in both states the same.
pub record Same (t : Text) (m m' : Memory) : Type 0 where
  pub tenant : lookup text_dec t m'.tenants ≡ lookup text_dec t m.tenants
  pub providers : rows m'.providers t ≡ rows m.providers t
  pub aliases : rows m'.aliases t ≡ rows m.aliases t
  pub routes : rows m'.routes t ≡ rows m.routes t
  pub webhooks : rows m'.webhooks t ≡ rows m.webhooks t
  pub events : rows m'.events t ≡ rows m.events t
  pub usage : rows m'.usage t ≡ rows m.usage t
  pub keys : list_api_keys m' t ≡ list_api_keys m t
  pub quotas : (key : Text) → get_quota m' t key ≡ get_quota m t key

pub refl-Same : (t : Text) (m : Memory) → Same t m m
refl-Same t m = record {
  tenant = refl;
  providers = refl;
  aliases = refl;
  routes = refl;
  webhooks = refl;
  events = refl;
  usage = refl;
  keys = refl;
  quotas = λ key. refl;
}

pub rows-insert_ne :
    {A : Type 0} (table : List (Text × List A)) (id t : Text) (xs : List A)
    → id ≢ t
    → rows (insert text_dec id xs table) t ≡ rows table t
unfolding rows
rows-insert_ne table id t xs n = ground (arith, n, lookup-insert text_dec id t xs table)

lookup-insert_other :
    {V : Type 0} (table : List (Text × V)) (id t : Text) (v : V)
    → id ≢ t
    → lookup text_dec t (insert text_dec id v table) ≡ lookup text_dec t table
lookup-insert_other table id t v n = ground (arith, n, lookup-insert text_dec id t v table)

-- One table changed, at another tenant.
module _ (t : Text) (m : Memory) (id : Text) (n : id ≢ t) where
  pub put_providers-Same :
      (xs : List Provider) → Same t m (record m { providers = insert text_dec id xs m.providers })
  unfolding list_api_keys get_quota
  put_providers-Same xs = record {
    tenant = refl;
    providers = rows-insert_ne m.providers id t xs n;
    aliases = refl;
    routes = refl;
    webhooks = refl;
    events = refl;
    usage = refl;
    keys = refl;
    quotas = λ key. refl;
  }

  pub put_aliases-Same :
      (xs : List Alias) → Same t m (record m { aliases = insert text_dec id xs m.aliases })
  unfolding list_api_keys get_quota
  put_aliases-Same xs = record {
    tenant = refl;
    providers = refl;
    aliases = rows-insert_ne m.aliases id t xs n;
    routes = refl;
    webhooks = refl;
    events = refl;
    usage = refl;
    keys = refl;
    quotas = λ key. refl;
  }

  pub put_routes-Same :
      (xs : List Route) → Same t m (record m { routes = insert text_dec id xs m.routes })
  unfolding list_api_keys get_quota
  put_routes-Same xs = record {
    tenant = refl;
    providers = refl;
    aliases = refl;
    routes = rows-insert_ne m.routes id t xs n;
    webhooks = refl;
    events = refl;
    usage = refl;
    keys = refl;
    quotas = λ key. refl;
  }

  pub put_webhooks-Same :
      (xs : List Webhook) → Same t m (record m { webhooks = insert text_dec id xs m.webhooks })
  unfolding list_api_keys get_quota
  put_webhooks-Same xs = record {
    tenant = refl;
    providers = refl;
    aliases = refl;
    routes = refl;
    webhooks = rows-insert_ne m.webhooks id t xs n;
    events = refl;
    usage = refl;
    keys = refl;
    quotas = λ key. refl;
  }

  pub put_tenant-Same :
      (v : Tenant) → Same t m (record m { tenants = insert text_dec id v m.tenants })
  unfolding list_api_keys get_quota
  put_tenant-Same v = record {
    tenant = lookup-insert_other m.tenants id t v n;
    providers = refl;
    aliases = refl;
    routes = refl;
    webhooks = refl;
    events = refl;
    usage = refl;
    keys = refl;
    quotas = λ key. refl;
  }

-- What a table has under an id is not of a tenant.
abbrev pub Foreign : Text → Text → List (Text × ApiKey) → Type 0
Foreign t id keys = (j : ApiKey) → lookup text_dec id keys ≡ some j → j.tenant_id ≢ t

pub keys_of-insert :
    (t id : Text) (k : ApiKey) (keys : List (Text × ApiKey))
    → k.tenant_id ≢ t
    → Foreign t id keys
    → keys_of t (insert text_dec id k keys) ≡ keys_of t keys
unfolding keys_of insert lookup
keys_of-insert t id k [] n foreign = ground (arith, n)
keys_of-insert t id k ((i, x) ∷ keys) n foreign = elim (text_dec i id) [
  | yes e ↦
      let other : x.tenant_id ≢ t = foreign x (ground (arith, e)) in ground (arith, e, n, other)
  | no ne ↦
      let rest = keys_of-insert t id k keys n (λ j h. foreign j (ground (arith, ne, h))) in
      ground (arith, ne, rest)
]

-- The keys changed at an id that is not a key of the tenant.
module _ (t : Text) (m : Memory) (id : Text) (k : ApiKey) (n : k.tenant_id ≢ t)
    (foreign : Foreign t id m.keys) where
  pub put_key-Same :
      (hashes : List (Text × Text))
      → Same t m (record m { keys = insert text_dec id k m.keys; keys_by_hash = hashes })
  unfolding list_api_keys get_quota
  put_key-Same hashes = record {
    tenant = refl;
    providers = refl;
    aliases = refl;
    routes = refl;
    webhooks = refl;
    events = refl;
    usage = refl;
    keys =
        ap (λ (ks : List ApiKey). sort_by key_before ks) (keys_of-insert t id k m.keys n foreign);
    quotas = λ key. refl;
  }

-- The quotas changed at a key that is not of the tenant.
module _ (t : Text) (m : Memory) (name : Text) (n : (key : Text) → name ≢ quota_key t key) where
  pub put_quota-Same :
      (q : Quota) → Same t m (record m { quotas = insert text_dec name q m.quotas })
  unfolding list_api_keys get_quota
  put_quota-Same q = record {
    tenant = refl;
    providers = refl;
    aliases = refl;
    routes = refl;
    webhooks = refl;
    events = refl;
    usage = refl;
    keys = refl;
    quotas = λ key. ap found (lookup-insert_other m.quotas name (quota_key t key) q (n key));
  }

  pub drop_quota-Same : Same t m (record m { quotas = delete text_dec name m.quotas })
  unfolding list_api_keys get_quota
  drop_quota-Same = record {
    tenant = refl;
    providers = refl;
    aliases = refl;
    routes = refl;
    webhooks = refl;
    events = refl;
    usage = refl;
    keys = refl;
    quotas = λ key.
        ap found (ground (arith, n key, lookup-delete text_dec name (quota_key t key) m.quotas));
  }
