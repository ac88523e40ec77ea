-- ===== src/Ctx/Crypto.antt =====
-- The cryptographic methods of pkcs11.go without signatures: encryption, decryption and digests.
use gopkcs.Prelude.{ℕ, List, [], ◌∷◌}
use gopkcs.Machine.Effects.{Slice, Env, M, ◌>>=◌, with_pinner}
use gopkcs.Errors.{check}
use gopkcs.Types.{Mechanism}
use gopkcs.Params.{pin_bytes}
use gopkcs.Arena.{marshal_mechanism}
use gopkcs.Ctx.Base.{Ctx, functions, invoke}
use gopkcs.Ctx.Output.{two_pass_output, two_pass_output_no_input}

module _ {S : Type 0} (env : Env S) (c : Ctx) where
  unfoldable pub encrypt_init : ℕ → List Mechanism → ℕ → M S (Unit {0})
  encrypt_init sh m key = with_pinner λ a. do
    mech_ptr ← marshal_mechanism env a m
    rv ← invoke env c (λ fl. fl.c_encrypt_init) (sh ∷ mech_ptr ∷ key ∷ [])
    check rv

  unfoldable pub encrypt : ℕ → Slice → M S Slice
  encrypt sh input = do fl ← functions c; two_pass_output env fl.c_encrypt sh input

  unfoldable pub encrypt_update : ℕ → Slice → M S Slice
  encrypt_update sh input = do fl ← functions c; two_pass_output env fl.c_encrypt_update sh input

  unfoldable pub encrypt_final : ℕ → M S Slice
  encrypt_final sh = do fl ← functions c; two_pass_output_no_input env fl.c_encrypt_final sh

  unfoldable pub decrypt_init : ℕ → List Mechanism → ℕ → M S (Unit {0})
  decrypt_init sh m key = with_pinner λ a. do
    mech_ptr ← marshal_mechanism env a m
    rv ← invoke env c (λ fl. fl.c_decrypt_init) (sh ∷ mech_ptr ∷ key ∷ [])
    check rv

  unfoldable pub decrypt : ℕ → Slice → M S Slice
  decrypt sh input = do fl ← functions c; two_pass_output env fl.c_decrypt sh input

  unfoldable pub decrypt_update : ℕ → Slice → M S Slice
  decrypt_update sh input = do fl ← functions c; two_pass_output env fl.c_decrypt_update sh input

  unfoldable pub decrypt_final : ℕ → M S Slice
  decrypt_final sh = do fl ← functions c; two_pass_output_no_input env fl.c_decrypt_final sh

  unfoldable pub digest_init : ℕ → List Mechanism → M S (Unit {0})
  digest_init sh m = with_pinner λ a. do
    mech_ptr ← marshal_mechanism env a m
    rv ← invoke env c (λ fl. fl.c_digest_init) (sh ∷ mech_ptr ∷ [])
    check rv

  unfoldable pub digest : ℕ → Slice → M S Slice
  digest sh input = do fl ← functions c; two_pass_output env fl.c_digest sh input

  unfoldable pub digest_update : ℕ → Slice → M S (Unit {0})
  digest_update sh part = with_pinner λ o. do
    p_part ← pin_bytes o part
    rv ← invoke env c (λ fl. fl.c_digest_update) (sh ∷ p_part ∷ part.len ∷ [])
    check rv

  unfoldable pub digest_key : ℕ → ℕ → M S (Unit {0})
  digest_key sh key = do rv ← invoke env c (λ fl. fl.c_digest_key) (sh ∷ key ∷ []); check rv

  unfoldable pub digest_final : ℕ → M S Slice
  digest_final sh = do fl ← functions c; two_pass_output_no_input env fl.c_digest_final sh

  unfoldable pub digest_encrypt_update : ℕ → Slice → M S Slice
  digest_encrypt_update sh input = do
    fl ← functions c
    two_pass_output env fl.c_digest_encrypt_update sh input

  unfoldable pub decrypt_digest_update : ℕ → Slice → M S Slice
  decrypt_digest_update sh input = do
    fl ← functions c
    two_pass_output env fl.c_decrypt_digest_update sh input
