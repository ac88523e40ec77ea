-- ===== src/Ctx/Output.antt =====
-- twoPassOutput and twoPassOutputNoInput of pkcs11.go: ask for the size, then fetch the output.
pub mod Convention
pub mod TwoPass
pub mod Refused
use gopkcs.Prelude.{ℕ, ◌+◌, List, [], ◌∷◌, ◌++◌}
use gopkcs.Machine.Effects.{
  Slice, Env, M, pure, ◌>>=◌, ◌>>◌, new_word, get_word, make_bytes, pin, prefix, with_pinner,
  syscall_n,
}
use gopkcs.Errors.{check}
use gopkcs.Arena.{pin_non_null}

module _ {S : Type 0} (env : Env S) where
  -- What the two functions share, behind the arguments that come first: the call with NULL, the
  -- buffer, the second call, and the part of the buffer that the module has filled.
  unfoldable pub fetch : ℕ → ℕ → List ℕ → M S Slice
  fetch o fn args = do
    out_len ← new_word
    pin o out_len
    rv ← syscall_n env fn (args ++ 0 ∷ out_len ∷ [])
    check rv
    size ← get_word out_len
    out ← make_bytes size
    p_out ← pin_non_null 1 o out
    rv2 ← syscall_n env fn (args ++ p_out ∷ out_len ∷ [])
    check rv2
    written ← get_word out_len
    prefix out written

  unfoldable pub two_pass_output : ℕ → ℕ → Slice → M S Slice
  two_pass_output fn sh input =
      with_pinner
        λ o. do p_input ← pin_non_null 1 o input; fetch o fn (sh ∷ p_input ∷ input.len ∷ [])

  unfoldable pub two_pass_output_no_input : ℕ → ℕ → M S Slice
  two_pass_output_no_input fn sh = with_pinner λ o. fetch o fn (sh ∷ [])
