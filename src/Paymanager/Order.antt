-- ===== src/Paymanager/Order.antt =====
-- services/paymanager/internal/order
pub mod Entity
pub mod Tables
pub mod Repo
pub mod Service
mod Tests
