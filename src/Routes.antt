-- ===== src/Routes.antt =====
-- internal/routes: the candidates of a route group for one device.
pub mod Select
pub mod Before
pub mod Removal
pub mod Ranking
pub mod Offers
pub mod Order
