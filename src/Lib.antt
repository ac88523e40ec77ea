-- ===== src/Lib.antt =====
-- Verification of gopkcs11, a binding of PKCS#11 modules for Go without cgo, and of its package
-- signer, which makes crypto.Signer keys of such a module.
--
-- The binding (package pkcs11) loads a module with dlopen and reads its table of functions
-- (funclist.go), lays arguments out as C structures in Go memory that is pinned for the call
-- (arena.go, params.go, types.go), calls a function of the table and reads the results back
-- (pkcs11.go, error.go). The signer (signer/signer.go) opens a session, logs in, finds a private
-- key and signs with it; a Pool holds several such keys.
--
-- Machine is the machine that both sides share. Memory is flat: a function from addresses to
-- bytes. A slice is an address and a length, and every slice is as long as its array. Go's
-- allocator hands out fresh, increasing addresses and leaves a gap behind each object; `make`
-- panics above 2^48 bytes. A runtime.Pinner is a number, and `pins` says which addresses it
-- holds. A call returns its results, returns an error, or panics. What the repository does not
-- implement is the parameter `Env`: what the module's function at an address does to its own
-- state and to memory, whether the kernel grants a mapping, and the dynamic linker.
--
-- Errors models error.go, with Errors/Text the text of an error, the table of zerror_strings.go,
-- and Errors/ReturnValues the return values of zconst.go. Text is Go's package strings on ASCII
-- bytes, as far as cmd/constgen uses it, and Constgen models the loop of cmd/constgen/main.go
-- over the lines of pkcs11t.h, up to the two buffers that gofmt gets; Constgen/Entries reads one
-- line alone. Types models types.go (NewAttribute, NewMechanism, the records), and Types/Padding
-- trimPaddedString and padString. Params models params.go, Arena arena.go, FuncList with
-- FuncList/Load funclist.go. Ctx models pkcs11.go, every method: Ctx/Base New and Destroy,
-- Ctx/Output twoPassOutput and twoPassOutputNoInput, Ctx/General, Ctx/Slots, Ctx/Sessions,
-- Ctx/Objects, Ctx/Crypto, Ctx/Signatures and Ctx/Keys the methods by their subject.
-- Signer/Interface is the interface ctx of signer.go, Signer/Setup the opening of a key,
-- Signer/Sign New, Sign and Destroy, Signer/Params the choice of mechanism and the encodings,
-- Signer/Der the part of encoding/asn1 that they use, Signer/Pool NewPool. Signer/Registry is
-- initialize and loginLock, and Signer/Login has setup and Sign as steps of any number of
-- goroutines under the read-write lock of one token. Signer/Shared has Sign, Destroy and New as
-- steps of any number of goroutines with any number of keys of one token, under sessionMu of each
-- key and that lock; what a goroutine waits for is a guard of its step, and Lock has two steps:
-- the first keeps other writers and new readers out, the second waits for the readers that are
-- there. Signer/Pool/Concurrent has Pool.Sign and Pool.Destroy as steps of any number of
-- goroutines over the channel of idle keys and destroyOnce; a key there is its place in the pool,
-- and the steps are the sends, the receives and the guards. Ctx/Methods has the methods as
-- values, so that a theorem can speak of any of them. Machine/Pins and the modules Pins of Params
-- and Ctx follow the pinners through every method, and Machine/Reports and the modules Reports of
-- Params and Ctx the return values of the module; Ctx/Output/Refused is about a refused size
-- query, FuncList/Table is about the table's words and Signer/Sign/Destroyed about a key after
-- Destroy. Ctx/Objects/Convention says what a module does in C_GetAttributeValue, and the modules
-- beside it follow GetAttributeValue through its two passes; Ctx/Slots/Lists does the same for
-- GetSlotList and GetMechanismList. In Signer/Pool/Concurrent, Owners is the table of owners that
-- a pool implements, and Termination counts the steps that are left. Types/Padding,
-- Errors/Text/Read, Constgen/Entries/Scan, Ctx/Pins/Release, Ctx/Reports/Refusals,
-- FuncList/Load/Handles, Ctx/Objects/GetAttributes, Signer/Pool/Concurrent/Refinement,
-- Signer/Pool/Concurrent/Termination, Params/Layout, Params/Gcm, Params/Release, Arena/Marshal,
-- Arena/Unmarshal, Arena/Mechanisms, Ctx/Output/TwoPass, Ctx/Slots/Label, Ctx/Slots/Lists,
-- Signer/Params/Signatures, Signer/Sign/Pss, Signer/Setup/Sessions, Signer/Sign/Verifies,
-- Signer/Pool/Sessions, Signer/Pool/Concurrent/Safety, Signer/Login/Safety, Signer/Shared/Safety,
-- Signer/Shared/Progress, Signer/Registry/Cached and Signer/Registry/Kept have the theorems,
-- Examples their instances; Examples/ReturnValues runs the generator's model on the lines of
-- pkcs11t.h that define return values.
--
-- Integers are natural numbers: a CK_ULONG that is written keeps its low 64 bits, an int is a
-- signed number. Platforms have 64 bits and little-endian order. Strings are the lists of their
-- bytes. Messages of errors are cut to their fixed parts. At the signer's level slices are lists
-- of bytes (the parameter that NewPSSParams builds is what a run of the binding's model leaves),
-- and what PublicKey.Bytes gives is part of an ECDSA key. Loops are recursion on their list or on
-- the number that is left; the digits of a number are taken with the number itself as fuel, which
-- is enough since each step divides by 256 (or by 128), and the hexadecimal digits of a word with
-- 16, which are as many as it has.
--
-- Not modelled: the constants of zconst.go other than the return values, which are generated,
-- unless the modelled code uses them; the files that cmd/constgen reads and writes, gofmt, and
-- the limit on the length of a line; what several goroutines do with one GCMParams; the logout
-- that a module makes by itself when the last session of an application closes; nil pointers
-- among attributes; years of more than four digits.
pub mod Prelude
pub mod Machine
pub mod Errors
pub mod Types
pub mod Params
pub mod Arena
pub mod FuncList
pub mod Text
pub mod Constgen
pub mod Ctx
pub mod Signer
pub mod Examples
