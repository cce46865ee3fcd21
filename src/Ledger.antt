-- ===== src/Ledger.antt =====
-- The stock ledger: backend/app/services/inventory.py over backend/app/repositories/inventory.py,
-- the tables of one tenant and the requests that change them.
pub mod Tables
pub mod Exec
pub mod Change
pub mod Draw
pub mod Orders
pub mod Direct
pub mod Transfers
pub mod Returns
pub mod Takings
pub mod Service
mod Tests
