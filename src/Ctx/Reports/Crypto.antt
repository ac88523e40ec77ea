-- ===== src/Ctx/Reports/Crypto.antt =====
-- The methods that encrypt, decrypt and digest report what the module returns.
use gopkcs.Prelude.{ℕ, List}
use gopkcs.Machine.Reports.{Reports, Logs}
use gopkcs.Ctx.Reports.Base.{shared}
use gopkcs.Params.Reports.{pin_bytes-Reports}
use gopkcs.Ctx.Reports.Marshal.{marshal_mechanism-Reports}
use gopkcs.Ctx.Reports.Output.{two_pass_output-Reports, two_pass_output_no_input-Reports}
use gopkcs.Machine.Effects.{Slice, Env}
use gopkcs.Ctx.Crypto.{
  encrypt_init, encrypt, encrypt_update, encrypt_final, decrypt_init, decrypt, decrypt_update,
  decrypt_final, digest_init, digest, digest_update, digest_key, digest_final,
  digest_encrypt_update, decrypt_digest_update,
}
use gopkcs.Ctx.Base.{Ctx}
use gopkcs.Types.{Mechanism}

module _ {S : Type 0} (log : S → List ℕ) (env : Env S) (logs : Logs env log) (c : Ctx) where
  pub encrypt_init-Reports :
      (sh : ℕ) (m : List Mechanism) (key : ℕ) → Reports log (encrypt_init env c sh m key)
  unfolding encrypt_init
  encrypt_init-Reports sh m key = search (shared, marshal_mechanism-Reports) depth 40

  pub encrypt-Reports : (sh : ℕ) (input : Slice) → Reports log (encrypt env c sh input)
  unfolding encrypt
  encrypt-Reports sh input = search (shared, two_pass_output-Reports) depth 40

  pub encrypt_update-Reports :
      (sh : ℕ) (input : Slice) → Reports log (encrypt_update env c sh input)
  unfolding encrypt_update
  encrypt_update-Reports sh input = search (shared, two_pass_output-Reports) depth 40

  pub encrypt_final-Reports : (sh : ℕ) → Reports log (encrypt_final env c sh)
  unfolding encrypt_final
  encrypt_final-Reports sh = search (shared, two_pass_output_no_input-Reports) depth 40

  pub decrypt_init-Reports :
      (sh : ℕ) (m : List Mechanism) (key : ℕ) → Reports log (decrypt_init env c sh m key)
  unfolding decrypt_init
  decrypt_init-Reports sh m key = search (shared, marshal_mechanism-Reports) depth 40

  pub decrypt-Reports : (sh : ℕ) (input : Slice) → Reports log (decrypt env c sh input)
  unfolding decrypt
  decrypt-Reports sh input = search (shared, two_pass_output-Reports) depth 40

  pub decrypt_update-Reports :
      (sh : ℕ) (input : Slice) → Reports log (decrypt_update env c sh input)
  unfolding decrypt_update
  decrypt_update-Reports sh input = search (shared, two_pass_output-Reports) depth 40

  pub decrypt_final-Reports : (sh : ℕ) → Reports log (decrypt_final env c sh)
  unfolding decrypt_final
  decrypt_final-Reports sh = search (shared, two_pass_output_no_input-Reports) depth 40

  pub digest_init-Reports : (sh : ℕ) (m : List Mechanism) → Reports log (digest_init env c sh m)
  unfolding digest_init
  digest_init-Reports sh m = search (shared, marshal_mechanism-Reports) depth 40

  pub digest-Reports : (sh : ℕ) (input : Slice) → Reports log (digest env c sh input)
  unfolding digest
  digest-Reports sh input = search (shared, two_pass_output-Reports) depth 40

  pub digest_update-Reports : (sh : ℕ) (part : Slice) → Reports log (digest_update env c sh part)
  unfolding digest_update
  digest_update-Reports sh part = search (shared, pin_bytes-Reports) depth 40

  pub digest_key-Reports : (sh : ℕ) (key : ℕ) → Reports log (digest_key env c sh key)
  unfolding digest_key
  digest_key-Reports sh key = search shared depth 40

  pub digest_final-Reports : (sh : ℕ) → Reports log (digest_final env c sh)
  unfolding digest_final
  digest_final-Reports sh = search (shared, two_pass_output_no_input-Reports) depth 40

  pub digest_encrypt_update-Reports :
      (sh : ℕ) (input : Slice) → Reports log (digest_encrypt_update env c sh input)
  unfolding digest_encrypt_update
  digest_encrypt_update-Reports sh input = search (shared, two_pass_output-Reports) depth 40

  pub decrypt_digest_update-Reports :
      (sh : ℕ) (input : Slice) → Reports log (decrypt_digest_update env c sh input)
  unfolding decrypt_digest_update
  decrypt_digest_update-Reports sh input = search (shared, two_pass_output-Reports) depth 40
