-- ===== src/Errors.antt =====
-- error.go: return values of the module as errors.
pub mod ReturnValues
pub mod Text
use gopkcs.Prelude.{ℕ, Option, none, some, ◌==◌, if◌then◌else◌}
use gopkcs.Machine.Effects.{Error, code, M, pure, fail}

abbrev pub ckr_ok : ℕ
ckr_ok = 0

abbrev pub ckr_host_memory : ℕ
ckr_host_memory = 2

abbrev pub ckr_arguments_bad : ℕ
ckr_arguments_bad = 7

abbrev pub ckr_attribute_type_invalid : ℕ
ckr_attribute_type_invalid = 0x12

abbrev pub ckr_user_already_logged_in : ℕ
ckr_user_already_logged_in = 0x100

abbrev pub to_error : ℕ → Option Error
to_error rv = if rv == ckr_ok then none else some (code rv)

-- `if err := toError(rv); err != nil { return …, err }`, and `return toError(rv)` at the end.
abbrev pub return_error : {S : Type 0} → Option Error → M S (Unit {0})
return_error none = pure tt
return_error (some e) = fail e

abbrev pub check : {S : Type 0} → ℕ → M S (Unit {0})
check rv = return_error (to_error rv)
