-- ===== src/Silvergate/Product.antt =====
-- services/silvergate/internal/product: products for sale.
pub mod Entity
pub mod Update
pub mod Repo
pub mod Service
pub mod Locked
pub mod Slugs
pub mod Paging
