-- ===== src/Admin/Effects/Quotas.antt =====
-- The handlers on quotas, for a caller that is not of root scope: at most one write, for the caller's tenant.
use cogni_gate.Prelude.{
  ℕ, ◌≡◌, refl, sym, arith, inl, inr, ◌⊎◌, false, Option, some, [], Text, text_eq, codes,
  trim_space, if_keeps,
}
use cogni_gate.Quota.{Quota, QuotaWindow}
use cogni_gate.Memory.{ApiKey}
use cogni_gate.Memory.ApiKeys.{list_api_keys}
use cogni_gate.Memory.Quotas.{set_quota}
use cogni_gate.Server.ApiErrors.{ApiError}
use cogni_gate.Admin.{Gateway, AdminConfig, Externals, Draw, Reply, is_root, trim_scope}
use cogni_gate.Admin.Quotas.{
  QuotaRequest, quota_of, quota_from, and_then, normalised_window, has_key_id, at_target,
  set_quota_in, set_quota_call, delete_quota_call, with_quotas_forgotten,
}
use cogni_gate.Admin.Effects.{
  Effect, new_quota, no_quota, Does, refl-Does, parsed-Does, store_reply-Does, scoped-Does,
}

pub and_then-inr :
    {A B : Type 0} (o : ApiError ⊎ A) (f : A → ApiError ⊎ B) (b : B)
    → and_then o f ≡ inr b
    → (a : A) × (f a ≡ inr b)
unfolding and_then
and_then-inr (inl e) f b h = absurd (ground (arith, h))
and_then-inr (inr a) f b h = (a, h)

assembled-target :
    (tenant key : Text) (day month : QuotaWindow) (q : Quota)
    → quota_from tenant key day month ≡ inr q
    → tenant ≡ q.tenant_id
unfolding quota_from
assembled-target tenant key day month q h = ground (arith, h)

quota_of-target :
    (default : ℕ) (tenant key : Text) (r : QuotaRequest) (q : Quota)
    → quota_of default tenant key r ≡ inr q
    → tenant ≡ q.tenant_id
unfolding quota_of
quota_of-target default tenant key r q h =
    let day = and_then-inr (normalised_window default (codes "day") r.day) _ q h in
    let month = and_then-inr (normalised_window default (codes "month") r.month) _ q day.1 in
    assembled-target tenant key day.0 month.0 q month.1

module _ (x : Externals) (d : Draw) (g : Gateway) (k : ApiKey) (limited : is_root k ≡ false) where
  abbrev own : Text
  own = trim_scope k.scope

  at_target-Does :
      {A : Type 0} (path raw : Text) (rest : Text → Text → Gateway × Reply A)
      → ((id : Text) → Does x d own g (rest own id).0)
      → Does x d own g (at_target x (some k) path raw g rest).0
  unfolding at_target
  at_target-Does {A = A} path raw rest h = scoped-Does x d g k limited path _ (
      if_keeps (λ (r : Gateway × Reply A). Does x d own g r.0) (text_eq (trim_space raw) []) _ _
        (h [])
        (if_keeps (λ (r : Gateway × Reply A). Does x d own g r.0)
          (has_key_id (trim_space raw) (list_api_keys g.store own)) _ _ (h (trim_space raw))
          (refl-Does x d own g)))

  set_quota_in-Does :
      (o : ApiError ⊎ Quota)
      → ((q : Quota) → o ≡ inr q → own ≡ q.tenant_id)
      → Does x d own g (set_quota_in x own d g o).0
  unfolding set_quota_in with_quotas_forgotten
  set_quota_in-Does (inl e) target = refl-Does x d own g
  set_quota_in-Does (inr q) target =
      let done : Effect x.hash d own g.store (set_quota g.store q d.now).0 =
        new_quota q d.now (sym (target q refl)) in
      store_reply-Does x d own g (codes "tenant") own 200 g _ (with_quotas_forgotten own)
        (done, λ t n. refl) (done, λ t n. refl)

  pub set_quota-Does :
      (conf : AdminConfig) (path raw : Text) (body : Option QuotaRequest)
      → Does x d own g (set_quota_call x conf (some k) path raw body d g).0
  unfolding set_quota_call
  set_quota-Does conf path raw body = at_target-Does path raw _ (λ id.
      parsed-Does x d own g body g _ (refl-Does x d own g) (λ r.
        set_quota_in-Does (quota_of conf.default_soft_threshold_pct own id r)
          (quota_of-target conf.default_soft_threshold_pct own id r)))

  pub delete_quota-Does :
      (path raw : Text) → Does x d own g (delete_quota_call x (some k) path raw g).0
  unfolding delete_quota_call with_quotas_forgotten
  delete_quota-Does path raw = at_target-Does path raw _ (λ id.
      store_reply-Does x d own g (codes "quota") own 204 g _ (with_quotas_forgotten own)
        (no_quota id, λ t n. refl) (no_quota id, λ t n. refl))
