-- ===== src/Auth.antt =====
-- apps/auth-org-service/src: tenants, users, invites, sessions and learner seats.
pub mod State
pub mod Seats
pub mod Domains
pub mod Tenants
pub mod Invites
pub mod Sessions
pub mod Calls
pub mod Controller
pub mod Operations
mod Examples
