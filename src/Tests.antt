-- ===== src/Tests.antt =====
-- The theorems of the domains at concrete tables.
mod Signals
mod Records
pub mod Markets
mod Series
mod Listings
mod Flows
mod Contexts
