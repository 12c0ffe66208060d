-- ===== src/Market.antt =====
-- internal/market: listings of hardware that members offer, and the catalog of listings and sales.
pub mod Listing
pub mod Catalog
mod Tests
