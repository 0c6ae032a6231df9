-- ===== src/Admin/Reports.antt =====
-- The rest of the handlers: the refresh of the catalogs, the usage of a tenant and the flush of its answers. Money is in
-- the unit of the model of the usage, so a margin is exact.
use cogni_gate.Prelude.{
  ℕ, ◌-◌, leb, ◌&&◌, not, Bool, Option, none, some, List, [], ◌∷◌, if◌then◌else◌, Text, text_eq,
  codes, trim_space, length, map, ℤ, pos, negsuc, ◌⊎◌, inl, inr,
}
use cogni_gate.Store.{UsageTotals}
use cogni_gate.Memory.{Memory, ApiKey, Tenant, Result, ok, err}
use cogni_gate.Memory.Tenants.{list_tenants, get_tenant}
use cogni_gate.Memory.Usage.{usage, usage_breakdown, GroupBy, by_model, by_provider, by_key}
use cogni_gate.Quota.{Window, window_day, window_month, Period}
use cogni_gate.Quota.Cached.{period_window}
use cogni_gate.Cache.{flush}
use cogni_gate.Catalog.Tenants.{Catalog, Reading, served, unavailable, refresh_now}
use cogni_gate.Server.ApiErrors.{
  ApiError, invalid_request, with_param, invalid_api_key, resource_not_found,
}
use cogni_gate.Server.Answers.{internal_error}
use cogni_gate.Admin.{
  Gateway, Externals, Draw, Reply, replied, failed, is_root, trim_scope, scoped, checked, parsed,
  store_err,
}
use cogni_gate.Admin.Rules.{upstreams_of}

-- One entry of the answer of a refresh.
pub data Refreshed : Type 0 where
  refreshed : Bool → ℕ → Bool → List (Text × Text) → Refreshed
  not_refreshed : Text → Refreshed

unfoldable pub refresh_entry : Reading → Refreshed
refresh_entry (unavailable message) = not_refreshed message
refresh_entry (served snap) = refreshed (not snap.stale) (length snap.models) snap.stale snap.errors

pub record UsageView : Type 0 where
  pub window : Window
  pub period : Period
  pub totals : UsageTotals
  pub cost_usd : ℕ
  pub margin_usd : ℤ

pub record BreakdownView : Type 0 where
  pub window : Window
  pub period : Period
  pub group_by : GroupBy
  pub buckets : List (Text × UsageTotals)

unfoldable pub margin : ℕ → ℕ → ℤ
margin charge cost = if leb cost charge then pos (charge - cost) else negsuc (cost - charge - 1)

-- A query's value, or the default for an empty one.
abbrev pub query_or : Text → Text → Text
query_or default raw = trim_space (if text_eq raw [] then default else raw)

abbrev pub bad_window : ApiError
bad_window =
    with_param (codes "window") (invalid_request (codes "window must be \"day\" or \"month\"."))

abbrev pub bad_group : ApiError
bad_group =
    with_param (codes "group_by")
      (invalid_request (codes "group_by must be one of \"model\", \"provider\", \"key\"."))

unfoldable pub usage_window : Text → ApiError ⊎ Window
usage_window raw =
    let window = query_or (codes "day") raw in
    if text_eq window (codes "day")
    then inr window_day
    else if text_eq window (codes "month")
    then inr window_month
    else inl bad_window

unfoldable pub grouping : Text → ApiError ⊎ GroupBy
grouping raw =
    let by = query_or (codes "model") raw in
    if text_eq by (codes "model")
    then inr by_model
    else if text_eq by (codes "provider")
    then inr by_provider
    else if text_eq by (codes "key")
    then inr by_key
    else inl bad_group

module _ (x : Externals) where
  -- The tenants to refresh.
  unfoldable pub refresh_targets : Option ApiKey → Text → Memory → ApiError ⊎ List Text
  refresh_targets none asked m = inl invalid_api_key
  refresh_targets (some k) asked m =
      if is_root k
      then inr
          (if text_eq asked [] then map (λ (t : Tenant). t.id) (list_tenants m) else asked ∷ [])
      else (if not (text_eq asked []) && not (text_eq asked (trim_scope k.scope))
          then inl (resource_not_found x.quote x.decimal (codes "tenant") asked)
          else inr (trim_scope k.scope ∷ []))

  unfoldable pub missing_target : Text → Memory → Option ApiError
  missing_target asked m = if text_eq asked [] then none else elim (get_tenant m asked) [
    | err e ↦ some (store_err x (codes "tenant") asked e)
    | ok _ ↦ none
  ]

  unfoldable pub refresh_all : Memory → ℕ → List Text → Catalog → List (Text × Refreshed) × Catalog
  refresh_all m now [] c = ([], c)
  refresh_all m now (id ∷ targets) c =
      let first = refresh_now (upstreams_of x m id) now id c in
      let rest = refresh_all m now targets first.1 in ((id, refresh_entry first.0) ∷ rest.0, rest.1)

  unfoldable pub refresh_targets_of :
      Text → ℕ → Gateway → ApiError ⊎ List Text → Gateway × Reply (List (Text × Refreshed))
  refresh_targets_of asked now g (inl e) = (g, failed e)
  refresh_targets_of asked now g (inr targets) = checked x (missing_target asked g.store) g (
      let done = refresh_all g.store now targets g.catalog in
      (record g { catalog = done.1 }, replied 200 done.0))

  -- An empty body asks for no tenant.
  unfoldable pub refresh_catalog :
      Option ApiKey → Option Text → Draw → Gateway → Gateway × Reply (List (Text × Refreshed))
  refresh_catalog key body d g = parsed x body g (λ raw.
      refresh_targets_of (trim_space raw) d.now g (refresh_targets key (trim_space raw) g.store))

  unfoldable pub usage_of : (ℕ → Period) → Text → ℕ → Gateway → ApiError ⊎ Window → Reply UsageView
  usage_of month_of tenant now g (inl e) = failed e
  usage_of month_of tenant now g (inr w) =
      let p = period_window month_of w now in
      let t = usage g.store tenant p.since p.until in
      replied 200 (record {
        window = w;
        period = p;
        totals = t;
        cost_usd = t.cost_usd;
        margin_usd = margin t.charge_usd t.cost_usd;
      })

  unfoldable pub admin_usage :
      (ℕ → Period) → Option ApiKey → Text → Text → Draw → Gateway → Gateway × Reply UsageView
  admin_usage month_of key path window d g =
      scoped x key path g (λ tenant. (g, usage_of month_of tenant d.now g (usage_window window)))

  unfoldable pub breakdown_of :
      (ℕ → Period)
      → Text
      → ℕ
      → Gateway
      → ApiError ⊎ Window
      → ApiError ⊎ GroupBy
      → Reply BreakdownView
  breakdown_of month_of tenant now g (inl e) by = failed e
  breakdown_of month_of tenant now g (inr w) (inl e) = failed e
  breakdown_of month_of tenant now g (inr w) (inr by) =
      let p = period_window month_of w now in
      elim (usage_breakdown g.store tenant p.since p.until by) [
        | none ↦ failed internal_error
        | some buckets ↦
            replied 200 (record { window = w; period = p; group_by = by; buckets = buckets })
      ]

  unfoldable pub admin_usage_breakdown :
      (ℕ → Period)
      → Option ApiKey
      → Text
      → Text
      → Text
      → Draw
      → Gateway
      → Gateway × Reply BreakdownView
  admin_usage_breakdown month_of key path window by d g =
      scoped x key path g
        (λ tenant. (g, breakdown_of month_of tenant d.now g (usage_window window) (grouping by)))

  unfoldable pub flush_of : Text → Gateway → Result Tenant → Gateway × Reply ℕ
  flush_of tenant g (err e) = (g, failed (store_err x (codes "tenant") tenant e))
  flush_of tenant g (ok _) =
      (record g { cache = (flush g.cache tenant).0 }, replied 200 (flush g.cache tenant).1)

  unfoldable pub flush_tenant_cache : Option ApiKey → Text → Gateway → Gateway × Reply ℕ
  flush_tenant_cache key path g =
      scoped x key path g (λ tenant. flush_of tenant g (get_tenant g.store tenant))
