-- ===== src/Signer.antt =====
-- signer/signer.go: a crypto.Signer on top of a token.
pub mod Interface
pub mod Der
pub mod Params
pub mod Setup
pub mod Sign
pub mod Pool
pub mod Login
pub mod Registry
pub mod Shared
