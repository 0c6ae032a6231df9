-- ===== src/Catalog/Tenants.antt =====
-- gateway/internal/catalog/catalog.go: Get, Refresh, reload, Invalidate, diff and Ages over the snapshots of the
-- tenants. A call under a tenant's lock is one function.
use cogni_gate.Prelude.{
  ℕ, ◌==◌, ltb, ◌&&◌, ◌||◌, not, List, [], ◌∷◌, ◌++◌, Bool, true, map, Option, none, some, Text,
  text_dec, text_eq, text_ltb, lookup, insert, if◌then◌else◌, length, sort_by, keep_if, member, ◌⊎◌,
}
use cogni_gate.Store.{Provider}
use cogni_gate.Catalog.{CatalogEntry, Snapshot, age}
use cogni_gate.Catalog.Polling.{
  PriceTable, Adapters, Poll, polled, poll_failed, refresh, normalize_prices,
}

-- `watched` tells whether OnChange is set.
pub record Options : Type 0 where
  pub ttl : ℕ
  pub provider_timeout : ℕ
  pub prices : PriceTable
  pub watched : Bool

-- One call of OnChange.
pub record ModelChange : Type 0 where
  pub tenant_id : Text
  pub added : List Text
  pub removed : List Text

pub record Catalog : Type 0 where
  pub opts : Options
  pub per_tenant : List (Text × Option Snapshot)
  pub announced : List ModelChange

unfoldable pub new_catalog : Options → Catalog
new_catalog opts = record {
  opts = record {
    ttl = if opts.ttl == 0 then 3600000000000 else opts.ttl;
    provider_timeout = if opts.provider_timeout == 0 then 10000000000 else opts.provider_timeout;
    prices = normalize_prices opts.prices;
    watched = opts.watched;
  };
  per_tenant = [];
  announced = [];
}

-- The snapshot of a tenant, none for a tenant that has no state.
unfoldable pub snapshot_of : Text → Catalog → Option Snapshot
snapshot_of tenant c = elim (lookup text_dec tenant c.per_tenant) [ none ↦ none | some s ↦ s ]

unfoldable pub put_snapshot : Text → Option Snapshot → Catalog → Catalog
put_snapshot tenant s c = record c { per_tenant = insert text_dec tenant s c.per_tenant }

-- `c.state`, which makes an empty one.
unfoldable pub with_state : Text → Catalog → Catalog
with_state tenant c = elim (lookup text_dec tenant c.per_tenant) [
  | some _ ↦ c
  | none ↦ put_snapshot tenant none c
]

abbrev pub ids : Snapshot → List Text
ids snap = map (λ (e : CatalogEntry). e.model.id) snap.models

unfoldable pub as_set : List Text → List Text
as_set [] = []
as_set (id ∷ rest) = let set = as_set rest in if member id set then set else id ∷ set

unfoldable pub absent_from : List Text → List Text → List Text
absent_from known from = keep_if (λ (id : Text). not (member id known)) from

-- The ids added and those removed.
unfoldable pub diff : Snapshot → Snapshot → List Text × List Text
diff old fresh = (
  sort_by text_ltb (absent_from (ids old) (ids fresh)),
  sort_by text_ltb (absent_from (ids fresh) (as_set (ids old))),
)

unfoldable pub announce : Text → Option Snapshot → Snapshot → Catalog → Catalog
announce tenant none fresh c = c
announce tenant (some old) fresh c =
    if c.opts.watched && (ltb 0 (length (diff old fresh).0) || ltb 0 (length (diff old fresh).1))
    then record c {
      announced =
          c.announced
          ++ (record {
            tenant_id = tenant;
            added = (diff old fresh).0;
            removed = (diff old fresh).1;
          }
              ∷ []);
    }
    else c

pub data Reading : Type 0 where
  served : Snapshot → Reading
  unavailable : Text → Reading

unfoldable pub reload : Text → Poll → Catalog → Reading × Catalog
reload tenant (poll_failed message) c = elim (snapshot_of tenant c) [
  | none ↦ (unavailable message, c)
  | some snap ↦
      let stale : Snapshot = record snap { stale = true } in
      (served stale, put_snapshot tenant (some stale) c)
]
reload tenant (polled fresh) c = (
  served fresh,
  put_snapshot tenant (some fresh) (announce tenant (snapshot_of tenant c) fresh c),
)

-- What the adapters and the store would answer at a call.
pub record Upstreams : Type 0 where
  pub adapters : Adapters
  pub providers : Text ⊎ List Provider

unfoldable pub poll_now : Upstreams → ℕ → Catalog → Poll
poll_now up now c = refresh up.adapters c.opts.prices now up.providers

-- The snapshot that Get serves without a poll.
unfoldable pub fresh_snapshot : ℕ → ℕ → Option Snapshot → Option Snapshot
fresh_snapshot ttl now none = none
fresh_snapshot ttl now (some snap) =
    if ltb (age (some snap) now) ttl && not snap.stale then some snap else none

unfoldable pub get_snapshot : Upstreams → ℕ → Text → Catalog → Reading × Catalog
get_snapshot up now tenant c = elim (fresh_snapshot c.opts.ttl now (snapshot_of tenant c)) [
  | some snap ↦ (served snap, c)
  | none ↦ reload tenant (poll_now up now c) (with_state tenant c)
]

unfoldable pub refresh_now : Upstreams → ℕ → Text → Catalog → Reading × Catalog
refresh_now up now tenant c = reload tenant (poll_now up now c) (with_state tenant c)

unfoldable pub invalidate : Text → Catalog → Catalog
invalidate tenant c = put_snapshot tenant none c

pub record CatalogAge : Type 0 where
  pub tenant_id : Text
  pub provider : Text
  pub age : ℕ

-- One age for each provider named by the models, the empty name left out.
unfoldable pub ages_in : Text → ℕ → List Text → List CatalogEntry → List CatalogAge
ages_in tenant a seen [] = []
ages_in tenant a seen (e ∷ models) =
    if text_eq e.model.provider [] || member e.model.provider seen
    then ages_in tenant a seen models
    else (record { tenant_id = tenant; provider = e.model.provider; age = a }
        ∷ ages_in tenant a (e.model.provider ∷ seen) models)

-- Go's order over the tenants is open; here it is that of the list.
unfoldable pub ages_of : ℕ → List (Text × Option Snapshot) → List CatalogAge
ages_of now [] = []
ages_of now ((tenant, none) ∷ states) = ages_of now states
ages_of now ((tenant, some snap) ∷ states) =
    ages_in tenant (age (some snap) now) [] snap.models ++ ages_of now states

unfoldable pub ages : ℕ → Catalog → List CatalogAge
ages now c = ages_of now c.per_tenant
