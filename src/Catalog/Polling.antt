-- ===== src/Catalog/Polling.antt =====
-- gateway/internal/catalog/catalog.go: refresh, which polls every enabled provider of a tenant and merges what
-- they list.
use cogni_gate.Prelude.{
  ℕ, ◌==◌, ltb, ◌&&◌, List, [], ◌∷◌, ◌++◌, Bool, false, map, Option, none, some, Text, text_dec,
  text_eq, text_ltb, lookup, insert, if◌then◌else◌, length, to_lower, trim_space, codes, sort_by,
  ◌⊎◌, inl, inr,
}
use cogni_gate.Store.{Model, Provider}
use cogni_gate.Catalog.{CatalogEntry, Snapshot, lookup_id}

pub record Price : Type 0 where
  pub input : ℕ
  pub output : ℕ

abbrev pub PriceTable : Type 0
PriceTable = List (Text × List (Text × Price))

-- What ListModels answers.
pub data Listing : Type 0 where
  failed : Text → Listing
  listed : List Model → Listing

-- The registry of adapters by kind, each called with a base URL and a key, and strconv.Quote.
pub record Adapters : Type 0 where
  pub adapter : Text → Option (Text → Text → Listing)
  pub quote : Text → Text

unfoldable pub fold_key : Text → Text
fold_key s = to_lower (trim_space s)

unfoldable pub fold_models : List (Text × Price) → List (Text × Price) → List (Text × Price)
fold_models [] out = out
fold_models ((id, price) ∷ models) out =
    fold_models models (insert text_dec (fold_key id) price out)

unfoldable pub fold_kinds : PriceTable → PriceTable → PriceTable
fold_kinds [] out = out
fold_kinds ((kind, models) ∷ rest) out =
    fold_kinds rest (insert text_dec (fold_key kind) (fold_models models []) out)

-- Where two keys fold to one, the later of the list wins; Go's order over a map is open.
unfoldable pub normalize_prices : PriceTable → PriceTable
normalize_prices prices = fold_kinds prices []

unfoldable pub price_for : PriceTable → Text → Text → Option Price
price_for prices kind id = elim (lookup text_dec (fold_key kind) prices) [
  | none ↦ none
  | some models ↦ lookup text_dec (fold_key id) models
]

unfoldable pub priced : PriceTable → Provider → Model → Model
priced prices p m = elim (price_for prices p.kind m.id) [
  | none ↦ record m { provider = p.name }
  | some price ↦ record m {
    provider = p.name;
    input_cost_per_mtok = price.input;
    output_cost_per_mtok = price.output;
  }
]

unfoldable pub qualified : Text → Text → Text
qualified name id = name ++ (47 ∷ []) ++ id

unfoldable pub claim : CatalogEntry → Snapshot → Snapshot
claim e snap = elim (lookup_id snap e.model.id) [
  | some _ ↦ snap
  | none ↦ record snap {
    models = snap.models ++ (e ∷ []);
    by_id = insert text_dec e.model.id e snap.by_id;
  }
]

unfoldable pub with_id : Text → CatalogEntry → CatalogEntry
with_id id e = record e { model = record e.model { id = id } }

unfoldable pub claim_as : Text → CatalogEntry → Snapshot → Snapshot
claim_as id e snap = elim (lookup_id snap id) [
  | some _ ↦ snap
  | none ↦ record snap { by_id = insert text_dec id (with_id id e) snap.by_id }
]

unfoldable pub entry_of : PriceTable → Provider → Model → CatalogEntry
entry_of prices p m = record { model = priced prices p m; provider_id = p.id }

-- The loop over the models of one provider.
unfoldable pub merge : PriceTable → Provider → List Model → Snapshot → Snapshot
merge prices p [] snap = snap
merge prices p (m ∷ models) snap =
    merge prices p models
      (claim_as (qualified p.name m.id) (entry_of prices p m) (claim (entry_of prices p m) snap))

unfoldable pub noted_error : Text → Text → Snapshot → Snapshot
noted_error name message snap = record snap { errors = insert text_dec name message snap.errors }

-- `p.Keys[0]` of a provider, none where it is passed over.
unfoldable pub first_key : Provider → Option Text
first_key p = if p.enabled then elim p.keys [ [] ↦ none | k ∷ _ ↦ some k ] else none

unfoldable pub ask_adapter : Adapters → Provider → Text → Listing
ask_adapter up p key = elim (up.adapter p.kind) [
  | none ↦ failed (codes "no adapter for kind " ++ up.quote p.kind)
  | some call ↦ call p.base_url key
]

unfoldable pub install : PriceTable → Provider → Listing → Snapshot → Snapshot
install prices p (failed message) snap = noted_error p.name message snap
install prices p (listed models) snap = merge prices p models snap

-- The body of the loop over the providers.
unfoldable pub poll_one : Adapters → PriceTable → Provider → Snapshot → Snapshot
poll_one up prices p snap = elim (first_key p) [
  | none ↦ snap
  | some key ↦ install prices p (ask_adapter up p key) snap
]

unfoldable pub poll_all : Adapters → PriceTable → List Provider → Snapshot → Snapshot
poll_all up prices [] snap = snap
poll_all up prices (p ∷ providers) snap = poll_all up prices providers (poll_one up prices p snap)

unfoldable pub joined : Text → List Text → Text
joined sep [] = []
joined sep (t ∷ ts) = let rest = joined sep ts in elim ts [ [] ↦ t | _ ∷ _ ↦ t ++ sep ++ rest ]

unfoldable pub join_errors : List (Text × Text) → Text
join_errors errs = joined (codes "; ") (
    map (λ (e : Text × Text). e.0 ++ codes ": " ++ e.1)
      (sort_by (λ (x y : Text × Text). text_ltb x.0 y.0) errs))

unfoldable pub model_before : CatalogEntry → CatalogEntry → Bool
model_before x y =
    if text_eq x.model.provider y.model.provider
    then text_ltb x.model.id y.model.id
    else text_ltb x.model.provider y.model.provider

pub data Poll : Type 0 where
  poll_failed : Text → Poll
  polled : Snapshot → Poll

unfoldable pub finished : Snapshot → Poll
finished snap =
    if length snap.models == 0 && ltb 0 (length snap.errors)
    then poll_failed
        (codes "catalog: every provider failed to refresh: " ++ join_errors snap.errors)
    else polled (record snap { models = sort_by model_before snap.models })

abbrev pub empty_snapshot : ℕ → Snapshot
empty_snapshot now = record {
  models = [];
  by_id = [];
  fetched_at = now;
  stale = false;
  errors = [];
}

-- The providers are what ListProviders answers, an error's text on the left.
unfoldable pub refresh : Adapters → PriceTable → ℕ → Text ⊎ List Provider → Poll
refresh up prices now (inl message) = poll_failed (codes "catalog: listing providers: " ++ message)
refresh up prices now (inr providers) = finished (poll_all up prices providers (empty_snapshot now))
