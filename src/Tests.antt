-- ===== src/Tests.antt =====
-- Concrete inputs at which the theorems apply.
pub mod Registry
pub mod Stores
pub mod Surfaces
pub mod Receipts
pub mod Requests
pub mod Contemplants
pub mod Executors
