-- ===== src/Machine.antt =====
-- The machine on which the binding runs: flat memory, Go's allocator, `runtime.Pinner`, and the
-- call of a function of the module (`purego.SyscallN`), as a monad with Go's error results and panics.
pub mod Bytes
pub mod Words
pub mod Structures
pub mod Effects
pub mod Laws
pub mod Pins
pub mod Reports
