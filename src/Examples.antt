-- ===== src/Examples.antt =====
-- The theorems at concrete inputs.
pub mod Hashing
mod Journals
mod Migrations
mod Vms
mod Disks
mod Server
mod Logins
mod Clusters
mod Accounts
mod Guests
mod Workers
mod Transfers
mod Sessions
