-- ===== src/Paymanager/Dispute.antt =====
-- services/paymanager/internal/dispute
pub mod Entity
pub mod Tables
pub mod Repo
pub mod Service
mod Tests
