-- ===== src/Paymanager.antt =====
-- services/paymanager: the payment manager. Each child is one of its packages.
pub mod Payment
pub mod Events
pub mod Order
pub mod Dispute
pub mod SilvergateClient
mod Tests
