-- ===== src/Readiness.antt =====
-- src/DomainDetermine/readiness: the runs of the suites, the release gate, and the registration of a
-- release manifest.
pub mod Pipeline
pub mod Gate
pub mod Manifest
mod Tests
