-- ===== src/Admin/Effects/Handlers.antt =====
-- Each handler under a tenant, for a caller that is not of root scope: what it leaves of another tenant.
use cogni_gate.Prelude.{
  ℕ, ◌≡◌, ◌≢◌, refl, sym, subst, arith, false, Option, none, some, Text, text_dec, codes,
  trim_space,
}
use cogni_gate.Memory.{Memory, ApiKey, Plane, plane_data, plane_admin, Result, ok, err}
use cogni_gate.Memory.ApiKeys.{scope_root}
use cogni_gate.Catalog.Others.{invalidate-other}
use cogni_gate.Admin.{Gateway, Externals, Draw, is_root, trim_scope, store_reply}
use cogni_gate.Admin.Keys.{
  KeyRequest, minted_key, mint, create_key_in, create_key, revoke_key, asked_plane, derived_scope,
  caller_is_root, granted_scope, scope_error, expiry_error,
}
use cogni_gate.Admin.Providers.{
  ProviderRequest, ProviderUpdate, provider_of_request, provider_patch, with_catalog_dropped,
  create_provider_call, update_provider_call, delete_provider_call, provider_error,
  provider_update_error,
}
use cogni_gate.Admin.Effects.{
  store_reply-plain, Effect, new_provider, new_settings, no_provider, new_key, no_key, Does,
  refl-Does, checked-Does, parsed-Does, store_reply-Does, scoped-Does,
}

-- A key that is not of root scope.
module _ (x : Externals) (d : Draw) (g : Gateway) (k : ApiKey) (limited : is_root k ≡ false) where
  -- The tenant that the key is for.
  abbrev own : Text
  own = trim_scope k.scope

  store_reply-dropping :
      {A : Type 0} (kind id : Text) (status : ℕ) (r : Memory × Result A)
      → Effect x.hash d own g.store r.0
      → Does x d own g (store_reply x kind id status g r (with_catalog_dropped own)).0
  unfolding with_catalog_dropped
  store_reply-dropping kind id status r h =
      store_reply-Does x d own g kind id status g r (with_catalog_dropped own) (h, λ t n. refl)
        (h, λ t n. invalidate-other t own g.catalog n)

  pub create_provider-Does :
      (path : Text) (body : Option ProviderRequest)
      → Does x d own g (create_provider_call x (some k) path body d g).0
  unfolding create_provider_call provider_of_request
  create_provider-Does path body = scoped-Does x d g k limited path _ (
      parsed-Does x d own g body g _ (refl-Does x d own g) (λ r.
        checked-Does x d own g (provider_error x r) g _ (refl-Does x d own g) (λ _.
          store_reply-dropping (codes "provider") (trim_space r.name) 201 _
            (new_provider (provider_of_request own r) d.now refl))))

  pub update_provider-Does :
      (path id : Text) (body : Option ProviderUpdate)
      → Does x d own g (update_provider_call x (some k) path id body g).0
  unfolding update_provider_call
  update_provider-Does path id body = scoped-Does x d g k limited path _ (
      parsed-Does x d own g body g _ (refl-Does x d own g) (λ r.
        checked-Does x d own g (provider_update_error x r) g _ (refl-Does x d own g) (λ _.
          store_reply-dropping (codes "provider") id 200 _ (new_settings id (provider_patch r)))))

  pub delete_provider-Does :
      (path id : Text) → Does x d own g (delete_provider_call x (some k) path id g).0
  unfolding delete_provider_call
  delete_provider-Does path id =
      scoped-Does x d g k limited path _
        (store_reply-dropping (codes "provider") id 204 _ (no_provider id))

  minted_key-state : (r : Memory × Result (ApiKey × Text)) → (minted_key r).0 ≡ r.0
  unfolding minted_key
  minted_key-state (m, err e) = refl
  minted_key-state (m, ok (_, _)) = refl

  mint-Does :
      (kind name scope : Text) (plane : Plane) (expires : Option ℕ)
      → scope ≢ scope_root
      → Does x d own g (mint x kind own plane name scope expires d g).0
  unfolding mint
  mint-Does kind name scope plane expires other = store_reply-plain x d own g kind own 201 _ (
      subst (λ m. Effect x.hash d own g.store m) (sym (minted_key-state _))
        (new_key plane name scope expires other))

  derived_scope-other : (plane : Plane) (tenant : Text) → derived_scope plane tenant ≢ scope_root
  unfolding derived_scope
  derived_scope-other plane_data tenant h = absurd (ground (arith, h))
  derived_scope-other plane_admin tenant h = absurd (ground (arith, h))

  -- What passes the check is not root scope.
  granted_scope-other :
      (plane : Plane) (asked : Text)
      → scope_error (some k) plane own asked ≡ none
      → granted_scope plane own asked ≢ scope_root
  unfolding scope_error granted_scope caller_is_root
  granted_scope-other plane asked passed = elim (text_dec asked scope_root) [
    | no n ↦ λ h. derived_scope-other plane own (ground (arith, n, h))
    | yes e ↦ λ h. absurd (ground (arith, e, passed, limited))
  ]

  create_key_in-Does :
      (r : KeyRequest) (plane : Option Plane)
      → Does x d own g (create_key_in x (some k) own r plane d g).0
  unfolding create_key_in
  create_key_in-Does r none = refl-Does x d own g
  create_key_in-Does r (some plane) =
      checked-Does x d own g (scope_error (some k) plane own r.scope) g _ (refl-Does x d own g)
        (λ passed.
          checked-Does x d own g (expiry_error r.expires_at d.now) g _ (refl-Does x d own g) (λ _.
            mint-Does (codes "tenant") r.name (granted_scope plane own r.scope) plane r.expires_at
              (granted_scope-other plane r.scope passed)))

  pub create_key-Does :
      (path : Text) (body : Option KeyRequest)
      → Does x d own g (create_key x (some k) path body d g).0
  unfolding create_key
  create_key-Does path body = scoped-Does x d g k limited path _ (
      parsed-Does x d own g body g _ (refl-Does x d own g)
        (λ r. create_key_in-Does r (asked_plane r.plane)))

  pub revoke_key-Does : (path id : Text) → Does x d own g (revoke_key x (some k) path id d g).0
  unfolding revoke_key
  revoke_key-Does path id =
      scoped-Does x d g k limited path _
        (store_reply-plain x d own g (codes "key") id 204 _ (no_key id))
