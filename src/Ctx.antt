-- ===== src/Ctx.antt =====
-- pkcs11.go: the context, one method for each function of the module.
pub mod Base
pub mod Output
pub mod General
pub mod Slots
pub mod Sessions
pub mod Objects
pub mod Crypto
pub mod Signatures
pub mod Keys
pub mod Methods
pub mod Pins
pub mod Reports
