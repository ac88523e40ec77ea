-- ===== src/Signer/Sign/Pss.antt =====
-- Sign of an RSA key with PSS, against a module that reads the parameter.
use gopkcs.Prelude.{ℕ, ◌^◌, ◌<◌, ◌≡◌, ap, ◌∙◌, ◌≢◌, some, List}
use gopkcs.Prelude.Int.{ℤ}
use gopkcs.Signer.Interface.{
  ok, Mech, Module, PublicKey, rsa, Hash, other_hash, pss, SignerOpts, Key,
}
use gopkcs.Signer.Params.{signing_params, rsa_signing_params}
use gopkcs.Signer.Params.Pss.{Asks, read_pss, pss_with, rsa_signing_params-pss}
use gopkcs.Signer.Sign.{key_sign}
use gopkcs.Signer.Sign.Verifies.{Works, entered, key_sign_run, rsa_convert}

pss_chosen :
    (key : PublicKey) (n : ℕ) (x : ℤ) (msg : List ℕ) (opts : SignerOpts) (mechanism : List Mech)
    → key ≡ rsa n x
    → rsa_signing_params msg opts ≡ ok (mechanism, msg)
    → signing_params key msg opts ≡ ok (mechanism, msg)
unfolding signing_params
pss_chosen key n x msg opts mechanism f g = rw f g

-- Key.Sign of an RSA key with a session and PSS options, with a hash that it knows, on a module
-- that lets it sign if it reads in CK_RSA_PKCS_PSS_PARAMS the hash, for digest and mask, and the
-- length of the salt (that of the hash for the two special values, else the number given): it
-- succeeds with the module's signature of the message as it is, whether or not the key always
-- authenticates.
pub key_sign-pss :
    {T : Type 0} (m : Module T) (k : Key) (session n : ℕ) (x : ℤ) (signature : List ℕ → List ℕ)
    (hash : Hash) (salt : ℤ) (salt_size : ℕ) (msg : List ℕ) (t : T)
    → k.session ≡ some session
    → k.public_key ≡ rsa n x
    → hash ≢ other_hash
    → Asks hash salt salt_size
    → salt_size < 2 ^ 63
    → ((p : List ℕ)
        → read_pss p ≡ some (hash, salt_size)
        → Works m session k.private_key_handle (pss_with p) signature)
    → (t' : T) × (key_sign m k msg (pss hash salt) t ≡ (ok (signature msg), t'))
key_sign-pss m k session n x signature hash salt salt_size msg t e f known asks small reads =
    let (p, chosen, has) = rsa_signing_params-pss msg hash salt salt_size known asks small in
    let works = reads p has in
    let after = works.signed msg (entered m k session (pss_with p) signature works t) in
    (
      after,
      key_sign_run m k session (pss_with p) signature works msg msg (pss hash salt) t e
            (pss_chosen k.public_key n x msg (pss hash salt) (pss_with p) f chosen)
          ∙ ap (λ r. (r, after)) (rsa_convert k.public_key n x (signature msg) f),
    )
