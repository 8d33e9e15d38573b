-- ===== src/PromptPack.antt =====
-- src/DomainDetermine/prompt_pack: the registry of prompt manifests and their references.
pub mod Registry
pub mod Versioning
mod Tests
mod Runs
