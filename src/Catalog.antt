-- ===== src/Catalog.antt =====
-- gateway/internal/catalog/catalog.go: the models that a tenant's providers list, kept per tenant until a
-- time to live is over. What an adapter answers stands behind `Adapters`. The clock's reading is an
-- argument and never goes back; the zero time is 0.
pub mod Polling
pub mod Tenants
pub mod Serving
pub mod Runs
pub mod Others
pub mod Claims
pub mod Addressing
mod Tests
use cogni_gate.Prelude.{
  ℕ, ◌-◌, ◌==◌, List, [], ◌∷◌, Bool, Option, none, some, Text, text_dec, lookup, if◌then◌else◌,
}
use cogni_gate.Store.{Model}

pub record CatalogEntry : Type 0 where
  pub model : Model
  pub provider_id : Text

pub record Snapshot : Type 0 where
  pub models : List CatalogEntry
  pub by_id : List (Text × CatalogEntry)
  pub fetched_at : ℕ
  pub stale : Bool
  pub errors : List (Text × Text)

unfoldable pub lookup_id : Snapshot → Text → Option CatalogEntry
lookup_id snap id = lookup text_dec id snap.by_id

unfoldable pub age : Option Snapshot → ℕ → ℕ
age none now = 0
age (some snap) now = if snap.fetched_at == 0 then 0 else now - snap.fetched_at

-- The part of a reference behind its first slash.
unfoldable pub after_slash : Text → Option Text
after_slash [] = none
after_slash (c ∷ t) = if c == 47 then some t else after_slash t

-- The part of a reference before its first slash.
unfoldable pub before_slash : Text → Text
before_slash [] = []
before_slash (c ∷ t) = let rest = before_slash t in if c == 47 then [] else c ∷ rest

-- The second result of ProviderOf: a slash counts where at least one byte stands before it.
unfoldable pub model_of : Text → Text
model_of [] = []
model_of (c ∷ t) = if c == 47 then c ∷ t else elim (after_slash t) [ none ↦ c ∷ t | some m ↦ m ]

-- The first result of ProviderOf.
unfoldable pub provider_of : Text → Text
provider_of [] = []
provider_of (c ∷ t) =
    if c == 47 then [] else elim (after_slash t) [ none ↦ [] | some _ ↦ c ∷ before_slash t ]
