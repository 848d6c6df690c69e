-- ===== src/Common.antt =====
-- libs/common/src: the rules that the gateway and the services share.
pub mod Roles
pub mod Tiers
pub mod Seats
pub mod Catalog
mod Examples
