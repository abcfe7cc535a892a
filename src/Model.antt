-- ===== src/Model.antt =====
-- The configuration model: src/model.rs and src/model.
pub mod Name
pub mod NameLaws
pub mod FilePath
pub mod ProfileUid
pub mod Crockford
pub mod CanonicalUid
pub mod DerivedUid
pub mod Automation
pub mod Wif
pub mod Profile
pub mod Config
pub mod ConfigLaws
pub mod SoundConfig
pub mod PathLaws
