-- ===== src/Ctx/Pins/Crypto.antt =====
-- Which pinners encryption, decryption and digests use: none but their own.
use gopkcs.Prelude.{ℕ, none, List}
use gopkcs.Machine.Effects.{Slice, Env}
use gopkcs.Machine.Pins.{Uses}
use gopkcs.Ctx.Pins.Base.{shared}
use gopkcs.Ctx.Crypto.{
  encrypt_init, encrypt, encrypt_update, encrypt_final, decrypt_init, decrypt, decrypt_update,
  decrypt_final, digest_init, digest, digest_update, digest_key, digest_final,
  digest_encrypt_update, decrypt_digest_update,
}
use gopkcs.Ctx.Base.{Ctx}
use gopkcs.Types.{Mechanism}
use gopkcs.Ctx.Pins.Output.{two_pass_output_no_input-Uses, two_pass_output-Uses}
use gopkcs.Params.Pins.{pin_bytes-Uses}
use gopkcs.Ctx.Pins.Marshal.{marshal_mechanism-Uses}

module _ {S : Type 0} (env : Env S) (c : Ctx) where
  pub encrypt_init-Uses :
      (sh : ℕ) (m : List Mechanism) (key : ℕ) → Uses none (encrypt_init env c sh m key)
  unfolding encrypt_init
  encrypt_init-Uses sh m key = search (shared, marshal_mechanism-Uses) depth 40

  pub encrypt-Uses : (sh : ℕ) (input : Slice) → Uses none (encrypt env c sh input)
  unfolding encrypt
  encrypt-Uses sh input = search (shared, two_pass_output-Uses) depth 40

  pub encrypt_update-Uses : (sh : ℕ) (input : Slice) → Uses none (encrypt_update env c sh input)
  unfolding encrypt_update
  encrypt_update-Uses sh input = search (shared, two_pass_output-Uses) depth 40

  pub encrypt_final-Uses : (sh : ℕ) → Uses none (encrypt_final env c sh)
  unfolding encrypt_final
  encrypt_final-Uses sh = search (shared, two_pass_output_no_input-Uses) depth 40

  pub decrypt_init-Uses :
      (sh : ℕ) (m : List Mechanism) (key : ℕ) → Uses none (decrypt_init env c sh m key)
  unfolding decrypt_init
  decrypt_init-Uses sh m key = search (shared, marshal_mechanism-Uses) depth 40

  pub decrypt-Uses : (sh : ℕ) (input : Slice) → Uses none (decrypt env c sh input)
  unfolding decrypt
  decrypt-Uses sh input = search (shared, two_pass_output-Uses) depth 40

  pub decrypt_update-Uses : (sh : ℕ) (input : Slice) → Uses none (decrypt_update env c sh input)
  unfolding decrypt_update
  decrypt_update-Uses sh input = search (shared, two_pass_output-Uses) depth 40

  pub decrypt_final-Uses : (sh : ℕ) → Uses none (decrypt_final env c sh)
  unfolding decrypt_final
  decrypt_final-Uses sh = search (shared, two_pass_output_no_input-Uses) depth 40

  pub digest_init-Uses : (sh : ℕ) (m : List Mechanism) → Uses none (digest_init env c sh m)
  unfolding digest_init
  digest_init-Uses sh m = search (shared, marshal_mechanism-Uses) depth 40

  pub digest-Uses : (sh : ℕ) (input : Slice) → Uses none (digest env c sh input)
  unfolding digest
  digest-Uses sh input = search (shared, two_pass_output-Uses) depth 40

  pub digest_update-Uses : (sh : ℕ) (part : Slice) → Uses none (digest_update env c sh part)
  unfolding digest_update
  digest_update-Uses sh part = search (shared, pin_bytes-Uses) depth 40

  pub digest_key-Uses : (sh : ℕ) (key : ℕ) → Uses none (digest_key env c sh key)
  unfolding digest_key
  digest_key-Uses sh key = search shared depth 40

  pub digest_final-Uses : (sh : ℕ) → Uses none (digest_final env c sh)
  unfolding digest_final
  digest_final-Uses sh = search (shared, two_pass_output_no_input-Uses) depth 40

  pub digest_encrypt_update-Uses :
      (sh : ℕ) (input : Slice) → Uses none (digest_encrypt_update env c sh input)
  unfolding digest_encrypt_update
  digest_encrypt_update-Uses sh input = search (shared, two_pass_output-Uses) depth 40

  pub decrypt_digest_update-Uses :
      (sh : ℕ) (input : Slice) → Uses none (decrypt_digest_update env c sh input)
  unfolding decrypt_digest_update
  decrypt_digest_update-Uses sh input = search (shared, two_pass_output-Uses) depth 40
