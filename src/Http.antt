-- ===== src/Http.antt =====
-- internal/order/controller/http: the REST controllers of the order service.
pub mod Wire
pub mod Middleware
pub mod Handlers
pub mod Router
pub mod Requests
pub mod Calls
pub mod Races
pub mod Protection
pub mod Effects
pub mod Retries
pub mod Placement
pub mod Logs
pub mod Tracing
pub mod Validation
pub mod Lookups
pub mod Strict
pub mod Sample
mod Tests
