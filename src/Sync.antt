-- ===== src/Sync.antt =====
-- The engine that fetches orders from the platforms: backend/app/sync_engine and the part of
-- backend/app/services/order_sync.py that drives it. Times are microseconds since an epoch.
pub mod Circuit
pub mod Retry
pub mod Cursor
pub mod Idempotency
pub mod Bloom
pub mod Locks
pub mod States
pub mod Rounds
mod Tests
