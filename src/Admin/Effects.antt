-- ===== src/Admin/Effects.antt =====
-- What an admin call by a key that is not of root scope may do, as a relation between the states before and after it: at
-- most one write of the store, for the tenant of the key's scope, and a change of that tenant's catalog.
pub mod Handlers
pub mod Serving
pub mod Resources
pub mod Quotas
use cogni_gate.Prelude.{
  ℕ, ◌≡◌, ◌≢◌, ◌∙◌, refl, sym, ap, subst, arith, inl, inr, ◌⊎◌, Bool, true, false, Option, none,
  some, List, [], ◌∷◌, ◌++◌, if◌then◌else◌, Text, text_dec, text_eq, trim_space,
}
use cogni_gate.Store.{Provider, Alias, Route}
use cogni_gate.Quota.{Quota}
use cogni_gate.Memory.{Memory, ApiKey, Plane, Webhook, Result, ok, err}
use cogni_gate.Memory.ApiKeys.{scope_root, create_api_key, revoke_api_key}
use cogni_gate.Memory.Providers.{ProviderPatch, create_provider, update_provider, delete_provider}
use cogni_gate.Memory.Rules.{
  upsert_alias, delete_alias, upsert_route, delete_route, create_webhook, delete_webhook,
}
use cogni_gate.Memory.Quotas.{set_quota, delete_quota}
use cogni_gate.Catalog.Tenants.{snapshot_of}
use cogni_gate.Server.ApiErrors.{ApiError, insufficient_scope}
use cogni_gate.Admin.{
  Gateway, Externals, Draw, Reply, replied, failed, is_root, trim_scope, require_root, tenant_scope,
  scoped, checked, parsed, store_reply, unchanged,
}
use cogni_gate.Admin.Calls.{sealed}

-- A write of the store for a tenant. The secret and the id of a new key are drawn; its scope is not root.
pub data Effect (hash : Text → Text) (d : Draw) (own : Text) (m : Memory) : Memory → Type 0 where
  nothing : Effect hash d own m m
  new_provider :
      (p : Provider) (now : ℕ)
      → p.tenant_id ≡ own
      → Effect hash d own m (create_provider m p (d.id 0) now).0
  new_settings :
      (id : Text) (p : ProviderPatch) → Effect hash d own m (update_provider m own id p).0
  no_provider : (id : Text) → Effect hash d own m (delete_provider m own id).0
  new_alias :
      (a : Alias) (now : ℕ)
      → a.tenant_id ≡ own
      → Effect hash d own m (upsert_alias m a (d.id 0) now).0
  no_alias : (name : Text) → Effect hash d own m (delete_alias m own name).0
  new_route :
      (r : Route) (now : ℕ)
      → r.tenant_id ≡ own
      → Effect hash d own m (upsert_route m r (d.id 0) now).0
  no_route : (id : Text) → Effect hash d own m (delete_route m own id).0
  new_webhook :
      (w : Webhook) (now : ℕ)
      → w.tenant_id ≡ own
      → Effect hash d own m (create_webhook m w (d.id 0) now).0
  no_webhook : (id : Text) → Effect hash d own m (delete_webhook m own id).0
  new_quota : (q : Quota) (now : ℕ) → q.tenant_id ≡ own → Effect hash d own m (set_quota m q now).0
  no_quota : (key : Text) → Effect hash d own m (delete_quota m own key).0
  new_key :
      (p : Plane) (name scope : Text) (e : Option ℕ)
      → scope ≢ scope_root
      → Effect hash d own m (create_api_key hash m own p name scope e (d.id 0) d.token d.now).0
  no_key : (id : Text) → Effect hash d own m (revoke_api_key m own id d.now).0

-- The write of the store, and the catalogs of the others as they were.
abbrev pub Does : Externals → Draw → Text → Gateway → Gateway → Type 0
Does x d own g g' =
    Effect x.hash d own g.store g'.store
    × ((t : Text) → own ≢ t → snapshot_of t g'.catalog ≡ snapshot_of t g.catalog)

pub refl-Does : (x : Externals) (d : Draw) (own : Text) (g : Gateway) → Does x d own g g
refl-Does x d own g = (nothing, λ t n. refl)

sealed-state : {A : Type 0} (r : Gateway × Reply A) → (sealed r).0 ≡ r.0
unfolding sealed
sealed-state (g, replied _ _) = refl
sealed-state (g, failed _) = refl

module _ (x : Externals) (d : Draw) (own : Text) (g : Gateway) where
  pub sealed-Does :
      {A : Type 0} (r : Gateway × Reply A) → Does x d own g r.0 → Does x d own g (sealed r).0
  sealed-Does r h = subst (λ (f : Gateway). Does x d own g f) (sym (sealed-state r)) h

  pub checked-Does :
      {A : Type 0} (e : Option ApiError) (h : Gateway) (rest : Gateway × Reply A)
      → Does x d own g h
      → (e ≡ none → Does x d own g rest.0)
      → Does x d own g (checked x e h rest).0
  unfolding checked
  checked-Does none h rest here there = there refl
  checked-Does (some e) h rest here there = here

  pub parsed-Does :
      {A R : Type 0} (body : Option R) (h : Gateway) (rest : R → Gateway × Reply A)
      → Does x d own g h
      → ((r : R) → Does x d own g (rest r).0)
      → Does x d own g (parsed x body h rest).0
  unfolding parsed
  parsed-Does none h rest here there = here
  parsed-Does (some r) h rest here there = there r

  pub store_reply-Does :
      {A : Type 0} (kind id : Text) (status : ℕ) (h : Gateway) (r : Memory × Result A)
      (after : Gateway → Gateway)
      → Does x d own g (record h { store = r.0 })
      → Does x d own g (after (record h { store = r.0 }))
      → Does x d own g (store_reply x kind id status h r after).0
  unfolding store_reply
  store_reply-Does kind id status h (m, err e) after here there = here
  store_reply-Does kind id status h (m, ok a) after here there = there

  -- A call of the store, with nothing behind it.
  pub store_reply-plain :
      {A : Type 0} (kind id : Text) (status : ℕ) (r : Memory × Result A)
      → Effect x.hash d own g.store r.0
      → Does x d own g (store_reply x kind id status g r unchanged).0
  unfolding unchanged
  store_reply-plain kind id status r h =
      store_reply-Does kind id status g r unchanged (h, λ t n. refl) (h, λ t n. refl)

-- A caller that is not of root scope.
module _ (x : Externals) (d : Draw) (g : Gateway) (k : ApiKey) (limited : is_root k ≡ false) where
  pub root-Does :
      {A : Type 0} (rest : Gateway × Reply A)
      → Does x d (trim_scope k.scope) g (checked x (require_root (some k)) g rest).0
  unfolding require_root checked
  root-Does rest = rw (limited) (refl-Does x d (trim_scope k.scope) g)

  tenant_scope-own :
      (path id : Text) → tenant_scope x (some k) path ≡ inr id → trim_scope k.scope ≡ id
  unfolding tenant_scope
  tenant_scope-own path id h = ground (arith, h, limited)

  pub scoped-Does :
      {A : Type 0} (path : Text) (rest : Text → Gateway × Reply A)
      → Does x d (trim_scope k.scope) g (rest (trim_scope k.scope)).0
      → Does x d (trim_scope k.scope) g (scoped x (some k) path g rest).0
  unfolding scoped
  scoped-Does {A = A} path rest h = go (tenant_scope x (some k) path) refl
    where
      go :
          (o : ApiError ⊎ Text)
          → tenant_scope x (some k) path ≡ o
          → Does x d
              (trim_scope k.scope)
              g
              (elim o as (λ _. Gateway × Reply A) [ inl e ↦ (g, failed e) | inr id ↦ rest id ]).0
      go (inl e) q = refl-Does x d (trim_scope k.scope) g
      go (inr id) q =
          subst (λ own. Does x d (trim_scope k.scope) g (rest own).0) (tenant_scope-own path id q) h
