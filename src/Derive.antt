-- ===== src/Derive.antt =====
-- collect/: what is derived for the tags of a repository.
pub mod Parse
pub mod Resolve
pub mod Repository
mod Tests
