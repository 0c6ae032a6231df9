-- ===== src/Memory.antt =====
-- gateway/internal/store/memory.go: the in-memory store, and gateway/internal/store/keys.go. Each
-- table is a Go map as an association list. A record handed out is a copy, so it is a value here.
-- The clock's reading and what crypto/rand gives (the id and the secret of a new record) are
-- arguments, and SHA-256 is the parameter `hash`. An API key object is named by its id, so the two
-- maps that point at it agree as they do in Go. An event's payload is an encoded text.
mod Tables
unfoldable pub use Tables.*
pub mod Credentials
pub mod Tenants
pub mod ApiKeys
pub mod Providers
pub mod Rules
pub mod Quotas
pub mod History
pub mod Usage
pub mod Deletion
pub mod Others
mod Tests
