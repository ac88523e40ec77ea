-- ===== src/Ctx/Pins.antt =====
-- Every method of the context releases what it has pinned.
pub mod Base
pub mod Marshal
pub mod Brackets
pub mod Output
pub mod General
pub mod Slots
pub mod Sessions
pub mod Objects
pub mod Crypto
pub mod Signatures
pub mod Keys
pub mod Release
