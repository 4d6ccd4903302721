-- ===== src/Examples.antt =====
-- The theorems at concrete inputs, and the data that they share.
pub mod Data
pub mod Services
pub mod Fixes
pub mod Reads
pub mod Fetches
pub mod Backfills
pub mod Bodies
pub mod Filings
pub mod Raced
pub mod Simulated
pub mod Reports
pub mod Upgrades
pub mod Environments
pub mod Fixing
pub mod Apps
