-- ===== src/CoveragePlanner.antt =====
-- src/DomainDetermine/coverage_planner: the combinations of facet values and the rounding of quotas.
pub mod Combinatorics
pub mod Allocation
mod Tests
mod Runs
