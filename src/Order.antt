-- ===== src/Order.antt =====
-- Orders: the unified status machine and the review desk (backend/app/engines).
pub mod Status
