-- ===== src/Overlay.antt =====
-- src/DomainDetermine/overlay: the nodes of the overlay namespace and their life cycle.
pub mod Models
pub mod Lifecycle
pub mod Minting
pub mod Review
pub mod Quality
mod Tests
mod Runs
