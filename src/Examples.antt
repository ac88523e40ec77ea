-- ===== src/Examples.antt =====
-- The theorems on concrete inputs.
pub mod Worlds
pub mod Texts
pub mod Memory
pub mod Outputs
pub mod Signatures
pub mod Keys
pub mod Pools
pub mod Parameters
pub mod Lists
pub mod Logins
pub mod Shared
pub mod Registries
pub mod Signing
pub mod Labels
pub mod Mechanisms
pub mod Calls
pub mod Attributes
pub mod Headers
pub mod Loading
pub mod ReturnValues
