-- ===== src/Admin/QuotaChanges.antt =====
-- A quota that the admin plane sets, and the evaluations behind it.
use cogni_gate.Prelude.{
  ℕ, ◌≡◌, ◌≢◌, ◌∙◌, refl, sym, ap, subst, arith, inl, inr, ◌⊎◌, Bool, true, false, Option, none,
  some, List, [], ◌++◌, Text, text_dec, codes, lookup, insert, lookup-insert_self, Bool-cases,
}
use cogni_gate.Quota.{Quota, QuotaWindow, Period}
use cogni_gate.Quota.Cached.{
  is_empty_quota, load_quota, QuotaScope, scope_key, QuotaCache, Readings, forget_quotas,
  quota_verdict,
}
use cogni_gate.Quota.Flights.{Flights, QuotaStep, after_steps}
use cogni_gate.Quota.Enforced.{lookup-forgotten}
use cogni_gate.Quota.Since.{JudgedSince, quota_verdict-JudgedSince}
use cogni_gate.Memory.{Memory, ApiKey, ok, not_found, has_tenant}
use cogni_gate.Memory.Quotas.{set_quota, get_quota, quota_key}
use cogni_gate.Server.ApiErrors.{ApiError}
use cogni_gate.Admin.{
  Gateway, AdminConfig, Externals, Draw, replied, failed, store_reply, store_err,
}
use cogni_gate.Admin.Replies.{not_replied, parsed-replied, at_target-replied, replied_inj}
use cogni_gate.Admin.Effects.Quotas.{and_then-inr}
use cogni_gate.Admin.Quotas.{
  QuotaRequest, quota_of, quota_from, normalised_window, set_quota_in, set_quota_call,
  with_quotas_forgotten,
}

-- What a quota that was set comes to.
abbrev pub Set : Gateway → Gateway → Text → Quota → Type 0
Set g h tenant q =
    (h.quotas ≡ forget_quotas tenant g.quotas) × (load_quota h.store q.tenant_id q.key_id ≡ some q)

get_quota-found :
    (m : Memory) (t k : Text) (q : Quota)
    → lookup text_dec (quota_key t k) m.quotas ≡ some q
    → get_quota m t k ≡ ok q
unfolding get_quota
get_quota-found m t k q h = rw (h, get_quota) refl

load_quota-found :
    (m : Memory) (t k : Text) (q : Quota)
    → get_quota m t k ≡ ok q
    → is_empty_quota q ≡ false
    → load_quota m t k ≡ some q
unfolding load_quota
load_quota-found m t k q h full = rw (h, full, load_quota) refl

-- The state and the quota that a served call leaves.
abbrev written : Draw → Gateway → Quota → Gateway × Quota
written d g q = (
  record g {
    store = record g.store {
      quotas =
          insert text_dec (quota_key q.tenant_id q.key_id) (record q { updated_at = d.now })
            g.store.quotas;
    };
  },
  record q { updated_at = d.now },
)

set_quota_in-served :
    (x : Externals) (tenant : Text) (d : Draw) (g : Gateway) (q : Quota)
    → has_tenant g.store q.tenant_id ≡ true
    → set_quota_in x tenant d g (inr q)
      ≡ (with_quotas_forgotten tenant (written d g q).0, replied 200 (written d g q).1)
unfolding set_quota_in set_quota store_reply
set_quota_in-served x tenant d g q t = rw (t) refl

set_quota_in-refused :
    (x : Externals) (tenant : Text) (d : Draw) (g : Gateway) (q : Quota)
    → has_tenant g.store q.tenant_id ≡ false
    → (e : ApiError) × ((set_quota_in x tenant d g (inr q)).1 ≡ failed e)
unfolding set_quota_in set_quota store_reply
set_quota_in-refused x tenant d g q f = (store_err x (codes "tenant") tenant not_found, rw (f) refl)

written-Set :
    (tenant : Text) (d : Draw) (g : Gateway) (q : Quota)
    → is_empty_quota q ≡ false
    → Set g (with_quotas_forgotten tenant (written d g q).0) tenant (written d g q).1
unfolding with_quotas_forgotten is_empty_quota
written-Set tenant d g q full = (
  refl,
  load_quota-found _ q.tenant_id q.key_id (written d g q).1
      (get_quota-found _ q.tenant_id q.key_id (written d g q).1 (
        lookup-insert_self text_dec (quota_key q.tenant_id q.key_id) (written d g q).1
          g.store.quotas))
      full,
)

set_quota_in-Set :
    (x : Externals) (tenant : Text) (d : Draw) (g h : Gateway) (q saved : Quota) (s : ℕ)
    → is_empty_quota q ≡ false
    → q.tenant_id ≡ tenant
    → set_quota_in x tenant d g (inr q) ≡ (h, replied s saved)
    → Set g h tenant saved × (saved.tenant_id ≡ tenant)
set_quota_in-Set x tenant d g h q saved s full own e =
    elim (Bool-cases (has_tenant g.store q.tenant_id)) [
      | inl t ↦
          let same =
            replied_inj _ h 200 s _ saved (sym (set_quota_in-served x tenant d g q t) ∙ e) in
          (
            subst (λ (f : Gateway). Set g f tenant saved) same.0
                (subst
                  (λ (b : Quota). Set g (with_quotas_forgotten tenant (written d g q).0) tenant b)
                  same.1 (written-Set tenant d g q full)),
            ap (λ (b : Quota). b.tenant_id) (sym same.1) ∙ own,
          )
      | inr f ↦
          let no = set_quota_in-refused x tenant d g q f in
          absurd (ground (arith, ap (λ r. r.1) e, no.1))
    ]

set_quota_in-error :
    (x : Externals) (tenant : Text) (d : Draw) (g h : Gateway) (er : ApiError) (s : ℕ) (q : Quota)
    → set_quota_in x tenant d g (inl er) ≡ (h, replied s q)
    → ⊥
unfolding set_quota_in
set_quota_in-error x tenant d g h er s q e = not_replied g h er s q e

quota_from-full :
    (tenant key : Text) (day month : QuotaWindow) (q : Quota)
    → quota_from tenant key day month ≡ inr q
    → (is_empty_quota q ≡ false) × (q.tenant_id ≡ tenant)
unfolding quota_from
quota_from-full tenant key day month q h =
    let p : Quota = record {
      tenant_id = tenant;
      key_id = key;
      day = day;
      month = month;
      updated_at = 0;
    } in
    elim (Bool-cases (is_empty_quota p)) [
      | inl t ↦ absurd (ground (arith, t, h))
      | inr f ↦
          let same : p ≡ q = ground (arith, f, h) in
          (ap is_empty_quota (sym same) ∙ f, ap (λ (r : Quota). r.tenant_id) (sym same))
    ]

-- A quota that a handler accepts has a cap, for the tenant of the path.
quota_of-full :
    (default : ℕ) (tenant key : Text) (r : QuotaRequest) (q : Quota)
    → quota_of default tenant key r ≡ inr q
    → (is_empty_quota q ≡ false) × (q.tenant_id ≡ tenant)
unfolding quota_of
quota_of-full default tenant key r q h =
    let day = and_then-inr (normalised_window default (codes "day") r.day) _ q h in
    let month = and_then-inr (normalised_window default (codes "month") r.month) _ q day.1 in
    quota_from-full tenant key day.0 month.0 q month.1

set_quota_call-Set :
    (x : Externals) (conf : AdminConfig) (key : Option ApiKey) (path raw : Text)
    (body : Option QuotaRequest) (d : Draw) (g h : Gateway) (status : ℕ) (q : Quota)
    → set_quota_call x conf key path raw body d g ≡ (h, replied status q)
    → (tenant : Text) × (Set g h tenant q) × (q.tenant_id ≡ tenant)
unfolding set_quota_call
set_quota_call-Set x conf key path raw body d g h status q e =
    let target = at_target-replied x key path raw g h _ status q e in
    let asked = parsed-replied x body g h _ status q target.2 in
    go target.0 (quota_of conf.default_soft_threshold_pct target.0 target.1 asked.0)
      (quota_of-full conf.default_soft_threshold_pct target.0 target.1 asked.0) asked.1
  where
    go :
        (tenant : Text) (o : ApiError ⊎ Quota)
        → ((p : Quota) → o ≡ inr p → (is_empty_quota p ≡ false) × (p.tenant_id ≡ tenant))
        → set_quota_in x tenant d g o ≡ (h, replied status q)
        → (t : Text) × (Set g h t q) × (q.tenant_id ≡ t)
    go tenant (inl er) full r = absurd (set_quota_in-error x tenant d g h er status q r)
    go tenant (inr p) full r =
        let done = set_quota_in-Set x tenant d g h p q status (full p refl).0 (full p refl).1 r in
        (tenant, done.0, done.1)

-- A quota that is set through the admin plane, a tenant's or a key's, is what the store has for them from then on, and
-- every later evaluation of a caller of that tenant, on a store that can be read, is by slots that it reads itself or
-- that an evaluation of the caller's scope read since the change, whatever other evaluations and changes interleave
-- from the change to the caller's first look and between its two looks: with enforcement on, a rejection with 429
-- exactly where one of those slots has reached its cap, whatever the cache held before. It is so where no
-- evaluation of the caller's scope is under way when the change is made.
pub set_quota_call-Effective :
    (x : Externals) (conf : AdminConfig) (month_of : ℕ → Period) (key : Option ApiKey)
    (path raw : Text) (body : Option QuotaRequest) (d : Draw) (g h : Gateway) (status : ℕ)
    (q : Quota) (s : QuotaScope) (enforced : Bool) (m : Memory) (t : Readings) (f : Flights)
    (before between : List QuotaStep)
    → set_quota_call x conf key path raw body d g ≡ (h, replied status q)
    → s.tenant_id ≡ q.tenant_id
    → s.tenant_id ≢ []
    → f.cache ≡ h.quotas
    → lookup text_dec (scope_key s) f.computing ≡ none
    → let soft = conf.default_soft_threshold_pct in
      let first = after_steps soft month_of before f in
      let c = after_steps soft month_of between first in
      (load_quota h.store q.tenant_id q.key_id ≡ some q)
      × JudgedSince soft month_of
          (between ++ before)
          enforced
          s
          m
          t.read
          (quota_verdict soft month_of enforced s (some m) t first.cache c.cache).0
set_quota_call-Effective x conf month_of key path raw body d g h status q s enforced m t f before
      between e same named left free =
    let soft = conf.default_soft_threshold_pct in
    let done = set_quota_call-Set x conf key path raw body d g h status q e in
    let there : f.cache ≡ forget_quotas s.tenant_id g.quotas =
      left ∙ done.1.0 ∙ ap (λ u. forget_quotas u g.quotas) (sym (same ∙ done.2)) in
    let gone =
      ap (λ (c : QuotaCache). lookup text_dec (scope_key s) c.entries) there
      ∙ lookup-forgotten soft month_of s g.quotas in
    (
      done.1.1,
      quota_verdict-JudgedSince soft month_of f before between enforced s m t (gone, free) named,
    )
