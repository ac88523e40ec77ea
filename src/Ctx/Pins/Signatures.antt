-- ===== src/Ctx/Pins/Signatures.antt =====
-- Which pinners signing and verification use: none but their own.
use gopkcs.Prelude.{ℕ, none, List}
use gopkcs.Machine.Effects.{Slice, Env}
use gopkcs.Machine.Pins.{Uses}
use gopkcs.Ctx.Pins.Base.{shared}
use gopkcs.Ctx.Signatures.{
  sign_init, sign, sign_update, sign_final, sign_recover_init, sign_recover, verify_init, verify,
  verify_update, verify_final, verify_recover_init, verify_recover, sign_encrypt_update,
  decrypt_verify_update,
}
use gopkcs.Ctx.Base.{Ctx}
use gopkcs.Types.{Mechanism}
use gopkcs.Ctx.Pins.Output.{two_pass_output_no_input-Uses, two_pass_output-Uses}
use gopkcs.Params.Pins.{pin_bytes-Uses}
use gopkcs.Ctx.Pins.Marshal.{marshal_mechanism-Uses}

module _ {S : Type 0} (env : Env S) (c : Ctx) where
  pub sign_init-Uses :
      (sh : ℕ) (m : List Mechanism) (key : ℕ) → Uses none (sign_init env c sh m key)
  unfolding sign_init
  sign_init-Uses sh m key = search (shared, marshal_mechanism-Uses) depth 40

  pub sign-Uses : (sh : ℕ) (input : Slice) → Uses none (sign env c sh input)
  unfolding sign
  sign-Uses sh input = search (shared, two_pass_output-Uses) depth 40

  pub sign_update-Uses : (sh : ℕ) (part : Slice) → Uses none (sign_update env c sh part)
  unfolding sign_update
  sign_update-Uses sh part = search (shared, pin_bytes-Uses) depth 40

  pub sign_final-Uses : (sh : ℕ) → Uses none (sign_final env c sh)
  unfolding sign_final
  sign_final-Uses sh = search (shared, two_pass_output_no_input-Uses) depth 40

  pub sign_recover_init-Uses :
      (sh : ℕ) (m : List Mechanism) (key : ℕ) → Uses none (sign_recover_init env c sh m key)
  unfolding sign_recover_init
  sign_recover_init-Uses sh m key = search (shared, marshal_mechanism-Uses) depth 40

  pub sign_recover-Uses : (sh : ℕ) (input : Slice) → Uses none (sign_recover env c sh input)
  unfolding sign_recover
  sign_recover-Uses sh input = search (shared, two_pass_output-Uses) depth 40

  pub verify_init-Uses :
      (sh : ℕ) (m : List Mechanism) (key : ℕ) → Uses none (verify_init env c sh m key)
  unfolding verify_init
  verify_init-Uses sh m key = search (shared, marshal_mechanism-Uses) depth 40

  pub verify-Uses :
      (sh : ℕ) (message : Slice) (signature : Slice) → Uses none (verify env c sh message signature)
  unfolding verify
  verify-Uses sh message signature = search (shared, pin_bytes-Uses) depth 40

  pub verify_update-Uses : (sh : ℕ) (part : Slice) → Uses none (verify_update env c sh part)
  unfolding verify_update
  verify_update-Uses sh part = search (shared, pin_bytes-Uses) depth 40

  pub verify_final-Uses : (sh : ℕ) (part : Slice) → Uses none (verify_final env c sh part)
  unfolding verify_final
  verify_final-Uses sh part = search (shared, pin_bytes-Uses) depth 40

  pub verify_recover_init-Uses :
      (sh : ℕ) (m : List Mechanism) (key : ℕ) → Uses none (verify_recover_init env c sh m key)
  unfolding verify_recover_init
  verify_recover_init-Uses sh m key = search (shared, marshal_mechanism-Uses) depth 40

  pub verify_recover-Uses : (sh : ℕ) (input : Slice) → Uses none (verify_recover env c sh input)
  unfolding verify_recover
  verify_recover-Uses sh input = search (shared, two_pass_output-Uses) depth 40

  pub sign_encrypt_update-Uses :
      (sh : ℕ) (input : Slice) → Uses none (sign_encrypt_update env c sh input)
  unfolding sign_encrypt_update
  sign_encrypt_update-Uses sh input = search (shared, two_pass_output-Uses) depth 40

  pub decrypt_verify_update-Uses :
      (sh : ℕ) (input : Slice) → Uses none (decrypt_verify_update env c sh input)
  unfolding decrypt_verify_update
  decrypt_verify_update-Uses sh input = search (shared, two_pass_output-Uses) depth 40
