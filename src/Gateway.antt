-- ===== src/Gateway.antt =====
-- apps/api-gateway: what a request passes before a handler of the gateway runs.
pub mod Tenants
pub mod Guards
pub mod Access
pub mod Rpc
pub mod Events
pub mod Endpoints
pub mod Courses
pub mod Auth
pub mod Metrics
pub mod Throttle
mod Examples
