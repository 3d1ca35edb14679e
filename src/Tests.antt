-- ===== src/Tests.antt =====
-- The theorems and the functions at concrete inputs.
pub mod Phones
pub mod Typing
pub mod Edits
pub mod Phrasings
pub mod Users
pub mod Choosing
