-- ===== src/Ctx/Reports.antt =====
-- Every method of the context reports what the module returns.
pub mod Base
pub mod Marshal
pub mod Output
pub mod General
pub mod Slots
pub mod Sessions
pub mod Objects
pub mod Crypto
pub mod Signatures
pub mod Keys
pub mod Refusals
