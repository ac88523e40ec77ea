-- ===== src/Ctx/Reports/Signatures.antt =====
-- The methods that sign and verify report what the module returns.
use gopkcs.Prelude.{ℕ, List}
use gopkcs.Machine.Reports.{Reports, Logs}
use gopkcs.Ctx.Reports.Base.{shared}
use gopkcs.Params.Reports.{pin_bytes-Reports}
use gopkcs.Ctx.Reports.Marshal.{marshal_mechanism-Reports}
use gopkcs.Ctx.Reports.Output.{two_pass_output-Reports, two_pass_output_no_input-Reports}
use gopkcs.Machine.Effects.{Slice, Env}
use gopkcs.Ctx.Signatures.{
  sign_init, sign, sign_update, sign_final, sign_recover_init, sign_recover, verify_init, verify,
  verify_update, verify_final, verify_recover_init, verify_recover, sign_encrypt_update,
  decrypt_verify_update,
}
use gopkcs.Ctx.Base.{Ctx}
use gopkcs.Types.{Mechanism}

module _ {S : Type 0} (log : S → List ℕ) (env : Env S) (logs : Logs env log) (c : Ctx) where
  pub sign_init-Reports :
      (sh : ℕ) (m : List Mechanism) (key : ℕ) → Reports log (sign_init env c sh m key)
  unfolding sign_init
  sign_init-Reports sh m key = search (shared, marshal_mechanism-Reports) depth 40

  pub sign-Reports : (sh : ℕ) (input : Slice) → Reports log (sign env c sh input)
  unfolding sign
  sign-Reports sh input = search (shared, two_pass_output-Reports) depth 40

  pub sign_update-Reports : (sh : ℕ) (part : Slice) → Reports log (sign_update env c sh part)
  unfolding sign_update
  sign_update-Reports sh part = search (shared, pin_bytes-Reports) depth 40

  pub sign_final-Reports : (sh : ℕ) → Reports log (sign_final env c sh)
  unfolding sign_final
  sign_final-Reports sh = search (shared, two_pass_output_no_input-Reports) depth 40

  pub sign_recover_init-Reports :
      (sh : ℕ) (m : List Mechanism) (key : ℕ) → Reports log (sign_recover_init env c sh m key)
  unfolding sign_recover_init
  sign_recover_init-Reports sh m key = search (shared, marshal_mechanism-Reports) depth 40

  pub sign_recover-Reports : (sh : ℕ) (input : Slice) → Reports log (sign_recover env c sh input)
  unfolding sign_recover
  sign_recover-Reports sh input = search (shared, two_pass_output-Reports) depth 40

  pub verify_init-Reports :
      (sh : ℕ) (m : List Mechanism) (key : ℕ) → Reports log (verify_init env c sh m key)
  unfolding verify_init
  verify_init-Reports sh m key = search (shared, marshal_mechanism-Reports) depth 40

  pub verify-Reports :
      (sh : ℕ) (message : Slice) (signature : Slice)
      → Reports log (verify env c sh message signature)
  unfolding verify
  verify-Reports sh message signature = search (shared, pin_bytes-Reports) depth 40

  pub verify_update-Reports : (sh : ℕ) (part : Slice) → Reports log (verify_update env c sh part)
  unfolding verify_update
  verify_update-Reports sh part = search (shared, pin_bytes-Reports) depth 40

  pub verify_final-Reports : (sh : ℕ) (part : Slice) → Reports log (verify_final env c sh part)
  unfolding verify_final
  verify_final-Reports sh part = search (shared, pin_bytes-Reports) depth 40

  pub verify_recover_init-Reports :
      (sh : ℕ) (m : List Mechanism) (key : ℕ) → Reports log (verify_recover_init env c sh m key)
  unfolding verify_recover_init
  verify_recover_init-Reports sh m key = search (shared, marshal_mechanism-Reports) depth 40

  pub verify_recover-Reports :
      (sh : ℕ) (input : Slice) → Reports log (verify_recover env c sh input)
  unfolding verify_recover
  verify_recover-Reports sh input = search (shared, two_pass_output-Reports) depth 40

  pub sign_encrypt_update-Reports :
      (sh : ℕ) (input : Slice) → Reports log (sign_encrypt_update env c sh input)
  unfolding sign_encrypt_update
  sign_encrypt_update-Reports sh input = search (shared, two_pass_output-Reports) depth 40

  pub decrypt_verify_update-Reports :
      (sh : ℕ) (input : Slice) → Reports log (decrypt_verify_update env c sh input)
  unfolding decrypt_verify_update
  decrypt_verify_update-Reports sh input = search (shared, two_pass_output-Reports) depth 40
