-- ===== src/Sales.antt =====
-- Orders as they are stored, and what moves them: their ingestion from the platforms, the batch that
-- ships them, and the order desk's returns.
pub mod Tables
pub mod Upsert
pub mod Rows
pub mod Ingest
pub mod Frame
pub mod Invariant
pub mod Writing
pub mod Upserting
pub mod Keeping
pub mod Laws
pub mod Again
pub mod Lines
pub mod Idle
pub mod Ship
pub mod RollBack
pub mod Shipping
pub mod Attempts
pub mod Batch
pub mod Returns
pub mod Refunds
pub mod Refinement
pub mod Service
mod Tests
