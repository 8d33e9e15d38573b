-- ===== src/Service.antt =====
-- src/DomainDetermine/service: the in-memory registry, and the job manager with its runner, and
-- the role checks.
pub mod Repos
pub mod Jobs
pub mod Auth
mod Tests
