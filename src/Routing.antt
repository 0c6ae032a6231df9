-- ===== src/Routing.antt =====
-- gateway/internal/routing.
pub mod Breaker
pub mod BreakerKey
pub mod KeyPool
pub mod Dispatch
pub mod Resolve
pub mod Diagnose
mod Tests
