-- ===== src/Ctx/Signatures.antt =====
-- The methods of pkcs11.go that sign and verify.
use gopkcs.Prelude.{ℕ, List, [], ◌∷◌}
use gopkcs.Machine.Effects.{Slice, Env, M, ◌>>=◌, with_pinner}
use gopkcs.Errors.{check}
use gopkcs.Types.{Mechanism}
use gopkcs.Params.{pin_bytes}
use gopkcs.Arena.{marshal_mechanism}
use gopkcs.Ctx.Base.{Ctx, functions, invoke}
use gopkcs.Ctx.Output.{two_pass_output, two_pass_output_no_input}

module _ {S : Type 0} (env : Env S) (c : Ctx) where
  unfoldable pub sign_init : ℕ → List Mechanism → ℕ → M S (Unit {0})
  sign_init sh m key = with_pinner λ a. do
    mech_ptr ← marshal_mechanism env a m
    rv ← invoke env c (λ fl. fl.c_sign_init) (sh ∷ mech_ptr ∷ key ∷ [])
    check rv

  unfoldable pub sign : ℕ → Slice → M S Slice
  sign sh input = do fl ← functions c; two_pass_output env fl.c_sign sh input

  unfoldable pub sign_update : ℕ → Slice → M S (Unit {0})
  sign_update sh part = with_pinner λ o. do
    p_part ← pin_bytes o part
    rv ← invoke env c (λ fl. fl.c_sign_update) (sh ∷ p_part ∷ part.len ∷ [])
    check rv

  unfoldable pub sign_final : ℕ → M S Slice
  sign_final sh = do fl ← functions c; two_pass_output_no_input env fl.c_sign_final sh

  unfoldable pub sign_recover_init : ℕ → List Mechanism → ℕ → M S (Unit {0})
  sign_recover_init sh m key = with_pinner λ a. do
    mech_ptr ← marshal_mechanism env a m
    rv ← invoke env c (λ fl. fl.c_sign_recover_init) (sh ∷ mech_ptr ∷ key ∷ [])
    check rv

  unfoldable pub sign_recover : ℕ → Slice → M S Slice
  sign_recover sh input = do fl ← functions c; two_pass_output env fl.c_sign_recover sh input

  unfoldable pub verify_init : ℕ → List Mechanism → ℕ → M S (Unit {0})
  verify_init sh m key = with_pinner λ a. do
    mech_ptr ← marshal_mechanism env a m
    rv ← invoke env c (λ fl. fl.c_verify_init) (sh ∷ mech_ptr ∷ key ∷ [])
    check rv

  unfoldable pub verify : ℕ → Slice → Slice → M S (Unit {0})
  verify sh message signature = with_pinner λ o. do
    p_data ← pin_bytes o message
    p_sig ← pin_bytes o signature
    rv ← invoke env c (λ fl. fl.c_verify) (sh ∷ p_data ∷ message.len ∷ p_sig ∷ signature.len ∷ [])
    check rv

  unfoldable pub verify_update : ℕ → Slice → M S (Unit {0})
  verify_update sh part = with_pinner λ o. do
    p_part ← pin_bytes o part
    rv ← invoke env c (λ fl. fl.c_verify_update) (sh ∷ p_part ∷ part.len ∷ [])
    check rv

  unfoldable pub verify_final : ℕ → Slice → M S (Unit {0})
  verify_final sh part = with_pinner λ o. do
    p_part ← pin_bytes o part
    rv ← invoke env c (λ fl. fl.c_verify_final) (sh ∷ p_part ∷ part.len ∷ [])
    check rv

  unfoldable pub verify_recover_init : ℕ → List Mechanism → ℕ → M S (Unit {0})
  verify_recover_init sh m key = with_pinner λ a. do
    mech_ptr ← marshal_mechanism env a m
    rv ← invoke env c (λ fl. fl.c_verify_recover_init) (sh ∷ mech_ptr ∷ key ∷ [])
    check rv

  unfoldable pub verify_recover : ℕ → Slice → M S Slice
  verify_recover sh input = do fl ← functions c; two_pass_output env fl.c_verify_recover sh input

  unfoldable pub sign_encrypt_update : ℕ → Slice → M S Slice
  sign_encrypt_update sh input = do
    fl ← functions c
    two_pass_output env fl.c_sign_encrypt_update sh input

  unfoldable pub decrypt_verify_update : ℕ → Slice → M S Slice
  decrypt_verify_update sh input = do
    fl ← functions c
    two_pass_output env fl.c_decrypt_verify_update sh input
