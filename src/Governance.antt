-- ===== src/Governance.antt =====
-- src/DomainDetermine/governance: the artifact registry, its event log, versions and access rules.
pub mod Models
pub mod EventLog
pub mod Sink
pub mod Versioning
pub mod Rbac
pub mod Registry
mod Tests
