-- ===== src/Stock.antt =====
-- The pure stock rules of backend/app/engines/inventory.py: one bin under an optimistic lock, the
-- choice of bins, the numbers pushed to a platform, and the moves of transfers and stock takings.
pub mod Level
pub mod Allocate
pub mod Push
pub mod Moves
mod Tests
