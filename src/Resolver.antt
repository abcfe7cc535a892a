-- ===== src/Resolver.antt =====
-- The context resolver of src/resolver.rs.
pub mod Levenshtein
pub mod EditScript
pub mod Context
pub mod Deepest
pub mod Precedence
pub mod Profiles
pub mod Suggestion
