-- ===== src/Signer/Sign.antt =====
-- New (behind the registry of modules), Sign and Destroy of a Key.
pub mod Destroyed
pub mod Verifies
pub mod Pss
use gopkcs.Prelude.{ℕ, ◌-◌, false, Option, none, some, List, if◌then◌else◌}
use gopkcs.Machine.Effects.{Error, message}
use gopkcs.Signer.Interface.{
  Ret, ok, err, Act, pure, fail, ◌>>=◌, ◌>>◌, wrapping, best_effort, Module, PublicKey, rsa, ecdsa,
  other_key, SignerOpts, Key,
}
use gopkcs.Signer.Params.{pkcs11_to_rfc5480, signing_params}
use gopkcs.Signer.Setup.{cku_user, setup}

abbrev pub no_session : Error
no_session = message "pkcs11key: session is nil (key destroyed?)"

-- ECDSA signatures are converted, all others are returned as they are.
unfoldable pub convert : PublicKey → List ℕ → Ret (List ℕ)
convert (rsa n e) sig = ok sig
convert (ecdsa curve point) sig = pkcs11_to_rfc5480 sig
convert other_key sig = ok sig

-- The literal `&Key{…}` of New.
abbrev pub blank : List ℕ → List ℕ → PublicKey → Key
blank token_label pass public_key = record {
  token_label = token_label;
  pin = pass;
  public_key = public_key;
  private_key_handle = 0;
  session = none;
  always_authenticate = false;
}

module _ {T : Type 0} (m : Module T) where
  abbrev lift : {A : Type 0} → Ret A → Act T A
  lift r t = (r, t)

  -- The logout and login of a key that always authenticates.
  unfoldable pub authenticate : Key → ℕ → Act T (Unit {0})
  authenticate k session =
      if k.always_authenticate
      then (do
        best_effort (m.logout session)
        wrapping "pkcs11key: re-login" (m.login session cku_user k.pin))
      else pure tt

  sign_on : Key → List ℕ → SignerOpts → Option ℕ → Act T (List ℕ)
  unfolding authenticate
  sign_on k msg opts none = fail no_session
  sign_on k msg opts (some session) = do
    authenticate k session
    (mechanism, sign_data) ← lift (signing_params k.public_key msg opts)
    wrapping "pkcs11key: SignInit" (m.sign_init session mechanism k.private_key_handle)
    sig ← wrapping "pkcs11key: Sign" (m.sign session sign_data)
    lift (convert k.public_key sig)

  -- `Key.Sign`
  unfoldable pub key_sign : Key → List ℕ → SignerOpts → Act T (List ℕ)
  unfolding sign_on
  key_sign k msg opts = sign_on k msg opts k.session

  close_open : Key → Option ℕ → T → Key × T
  close_open k none t = (k, t)
  close_open k (some session) t =
      let (r, t') = m.close_session session t in (record k { session = none }, t')

  -- `Key.Destroy`: the key afterwards and the module's state.
  unfoldable pub key_destroy : Key → T → Key × T
  unfolding close_open
  key_destroy k t = close_open k k.session t

  -- `New`, once the module is initialised.
  unfoldable pub new_key : List ℕ → List ℕ → PublicKey → T → Ret Key × T
  unfolding setup
  new_key token_label pass public_key t =
      let (r, k, t') = setup m (blank token_label pass public_key) t in
      (elim r [ ok _ ↦ ok k | err e ↦ err e ], t')
