-- ===== src/Shell.antt =====
-- Shell integration: src/shell.rs. A text here is its list of characters (Unicode scalar values),
-- since the source replaces characters and takes them from both ends.
pub mod Mask
pub mod MaskLaws
pub mod Quote
pub mod Words
pub mod Init
pub mod Posix
pub mod Fish
pub mod Powershell
pub mod Commands
