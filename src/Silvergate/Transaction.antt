-- ===== src/Silvergate/Transaction.antt =====
-- services/silvergate/internal/transaction
pub mod Entity
pub mod Repo
pub mod Service
pub mod Settlement
pub mod Lifecycle
