-- ===== src/Paymanager/Payment.antt =====
-- services/paymanager/internal/payment, and the events that it stores.
pub mod Entity
pub mod Tables
pub mod Repo
pub mod Service
pub mod Webhooks
pub mod Duplicates
