-- ===== src/Silvergate.antt =====
-- services/silvergate: the payment gateway. Each child is one of its packages.
pub mod Errors
pub mod Acquirer
pub mod Transaction
pub mod Product
pub mod Tables
pub mod Runtime
pub mod Sender
pub mod Ledger
pub mod Purchase
pub mod Machine
pub mod Tests
