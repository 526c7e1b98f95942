-- ===== src/Artifact.antt =====
-- core/src/artifact: the identities of artifacts.
pub mod Digest
pub mod LocalPath
pub mod PathExact
pub mod DeclaredOutput
mod Tests
