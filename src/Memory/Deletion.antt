-- ===== src/Memory/Deletion.antt =====
-- What a deletion of a tenant takes with it, and what it leaves.
use cogni_gate.Prelude.{
  ◌≡◌, ◌≢◌, refl, ap, inl, inr, none, List, [], ◌∷◌, arith, if◌then◌else◌, Text, text_dec, text_eq,
  lookup, delete, lookup-delete, Option-cases, length, length-append, sort_by,
}
use cogni_gate.Memory.Tables.{Memory, ApiKey, ok, rows}
use cogni_gate.Memory.Tenants.{delete_tenant, without_tenant, drop_keys}
use cogni_gate.Memory.ApiKeys.{keys_of, list_api_keys}
use cogni_gate.Memory.ApiKeys.Calls.{delete-none, delete-some}
use cogni_gate.Memory.Quotas.{quota_key, get_quota}

rows-delete :
    {A : Type 0} (table : List (Text × List A)) (id t : Text)
    → rows (delete text_dec id table) t ≡ (if text_eq id t then [] else rows table t)
unfolding rows
rows-delete table id t = ground (arith, lookup-delete text_dec id t table)

keys_of-drop_keys :
    (id t : Text) (keys : List (Text × ApiKey))
    → keys_of t (drop_keys id keys) ≡ (if text_eq id t then [] else keys_of t keys)
unfolding keys_of drop_keys
keys_of-drop_keys id t [] = ground arith
keys_of-drop_keys id t ((i, k) ∷ ks) = ground (arith, keys_of-drop_keys id t ks)

quota_key-ne : (id key : Text) → id ≢ quota_key id key
unfolding quota_key
quota_key-ne id key h =
    absurd (omega (arith, ap (λ (t : Text). length t) h, length-append id (0 ∷ key)))

quota-kept :
    (m : Memory) (id key : Text) → get_quota (without_tenant m id) id key ≡ get_quota m id key
unfolding get_quota without_tenant
quota-kept m id key =
    let e : lookup text_dec (quota_key id key) (delete text_dec id m.quotas)
        ≡ lookup text_dec (quota_key id key) m.quotas =
      ground (arith, lookup-delete text_dec id (quota_key id key) m.quotas, quota_key-ne id key) in
    rw (e, get_quota) refl

-- A tenant's rows and keys, as the listings read them.
abbrev pub SameRows : Memory → Memory → Text → Type 0
SameRows m m' t =
    (rows m'.providers t ≡ rows m.providers t)
    × (rows m'.aliases t ≡ rows m.aliases t)
    × (rows m'.routes t ≡ rows m.routes t)
    × (rows m'.webhooks t ≡ rows m.webhooks t)
    × (rows m'.usage t ≡ rows m.usage t)
    × (list_api_keys m' t ≡ list_api_keys m t)

abbrev pub NoRows : Memory → Text → Type 0
NoRows m t =
    (rows m.providers t ≡ [])
    × (rows m.aliases t ≡ [])
    × (rows m.routes t ≡ [])
    × (rows m.webhooks t ≡ [])
    × (rows m.usage t ≡ [])
    × (list_api_keys m t ≡ [])

without-NoRows : (m : Memory) (id : Text) → NoRows (without_tenant m id) id
unfolding without_tenant list_api_keys sort_by
without-NoRows m id = ground (
  arith,
  rows-delete m.providers id id,
  rows-delete m.aliases id id,
  rows-delete m.routes id id,
  rows-delete m.webhooks id id,
  rows-delete m.usage id id,
  keys_of-drop_keys id id m.keys,
)

without-SameRows : (m : Memory) (id t : Text) → id ≢ t → SameRows m (without_tenant m id) t
unfolding without_tenant list_api_keys
without-SameRows m id t n = ground (
  arith,
  rows-delete m.providers id t,
  rows-delete m.aliases id t,
  rows-delete m.routes id t,
  rows-delete m.webhooks id t,
  rows-delete m.usage id t,
  keys_of-drop_keys id t m.keys,
)

abbrev pub Deleted : Memory → Memory → Text → Type 0
Deleted m m' id =
    NoRows m' id
    × ((t : Text) → id ≢ t → SameRows m m' t)
    × (lookup text_dec id m'.tenants ≡ none)
    × ((key : Text) → get_quota m' id key ≡ get_quota m id key)
    × (rows m'.events id ≡ rows m.events id)

without-Deleted : (m : Memory) (id : Text) → Deleted m (without_tenant m id) id
unfolding without_tenant
without-Deleted m id = (
  without-NoRows m id,
  without-SameRows m id,
  ground (arith, lookup-delete text_dec id id m.tenants),
  quota-kept m id,
  refl,
)

-- A deletion of a tenant that succeeds leaves no provider, alias, route, webhook, usage record or key of the tenant
-- in the listings, and those of every other tenant as they were. It leaves the tenant's own quota, the quotas of
-- its keys and its events as they were too.
pub delete_tenant-Deleted :
    (m : Memory) (id : Text) → (delete_tenant m id).1 ≡ ok tt → Deleted m (delete_tenant m id).0 id
delete_tenant-Deleted m id h = elim (Option-cases (lookup text_dec id m.tenants)) [
  | inl e ↦ absurd (ground (arith, h, delete-none m id e))
  | inr (x, e) ↦ rw (delete-some m id x e) (without-Deleted m id)
]
