-- ===== src/Catalog/Claims.antt =====
-- Who serves an id in a snapshot of gateway/internal/catalog/catalog.go, against the list of what is listed.
use cogni_gate.Prelude.{◌≡◌, List, [], ◌∷◌, ◌++◌, Option, none, some, Text, arith}
use cogni_gate.Store.{Model, Provider}
use cogni_gate.Catalog.{CatalogEntry}
use cogni_gate.Catalog.Polling.{
  PriceTable, Adapters, Listing, failed, listed, first_key, ask_adapter, entry_of, qualified,
  with_id, priced,
}

-- What is listed, in the order of the providers and of their lists: each model under its id and then
-- under its qualified id.
unfoldable pub listed_by : PriceTable → Provider → List Model → List (Text × CatalogEntry)
listed_by prices p [] = []
listed_by prices p (m ∷ models) =
    (m.id, entry_of prices p m)
    ∷ (qualified p.name m.id, with_id (qualified p.name m.id) (entry_of prices p m))
    ∷ listed_by prices p models

unfoldable pub answered : PriceTable → Provider → Listing → List (Text × CatalogEntry)
answered prices p (failed message) = []
answered prices p (listed models) = listed_by prices p models

unfoldable pub claims_of : Adapters → PriceTable → Provider → List (Text × CatalogEntry)
claims_of up prices p = elim (first_key p) [
  | none ↦ []
  | some key ↦ answered prices p (ask_adapter up p key)
]

unfoldable pub claims : Adapters → PriceTable → List Provider → List (Text × CatalogEntry)
claims up prices [] = []
claims up prices (p ∷ providers) = claims_of up prices p ++ claims up prices providers

-- The first of two, where there is one.
unfoldable pub first_of : Option CatalogEntry → Option CatalogEntry → Option CatalogEntry
first_of none b = b
first_of (some e) b = some e

pub entry-id :
    (prices : PriceTable) (p : Provider) (m : Model) → (entry_of prices p m).model.id ≡ m.id
unfolding entry_of priced
entry-id prices p m = ground arith
