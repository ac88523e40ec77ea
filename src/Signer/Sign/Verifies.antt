-- ===== src/Signer/Sign/Verifies.antt =====
-- Sign of an ECDSA key and of an RSA key, against a module whose signatures verify.
use gopkcs.Prelude.{
  ℕ, ◌+◌, ◌/◌, ◌<◌, ◌≡◌, refl, ap, ◌∙◌, inl, inr, Bool, true, Option, some, List, [], ◌∷◌, ◌++◌,
  arith, if◌then◌else◌, Bool-cases, length, take, drop,
}
use gopkcs.Signer.Interface.{
  ok, Mech, Module, PublicKey, ecdsa, rsa, Curve, Hash, plain, SignerOpts, Key,
}
use gopkcs.Signer.Der.{from_be}
use gopkcs.Signer.Der.Read.{read_signature}
use gopkcs.Signer.Params.{
  pkcs11_to_rfc5480, signing_params, rsa_signing_params, digest_info_prefix, hash_size,
}
use gopkcs.Signer.Params.Signatures.{
  Converts, pkcs11_to_rfc5480-Converts, read_digest_info, oid_of, digest_info_prefix-reads,
}
use gopkcs.Signer.Sign.{convert, authenticate, sign_on, key_sign}
use gopkcs.Prelude.Int.{ℤ}

-- A module that lets the key sign with the mechanism in a session: a login succeeds, C_SignInit arms
-- the session, and C_Sign of an armed session gives the signature of its data.
pub record Works {T : Type 0} (m : Module T) (session handle : ℕ) (mechanism : List Mech)
    (signature : List ℕ → List ℕ) : Type 0 where
  pub logged : T → T
  pub armed : T → T
  pub signed : List ℕ → T → T
  pub login : (user : ℕ) (pass : List ℕ) (t : T) → m.login session user pass t ≡ (ok tt, logged t)
  pub sign_init : (t : T) → m.sign_init session mechanism handle t ≡ (ok tt, armed t)
  pub sign : (d : List ℕ) (t : T) → m.sign session d (armed t) ≡ (ok (signature d), signed d t)

abbrev pub ecdsa_mechanism : List Mech
ecdsa_mechanism = record { mechanism = 0x1041; parameter = [] } ∷ []

module _ {T : Type 0} (m : Module T) (k : Key) (session : ℕ) (mechanism : List Mech)
    (signature : List ℕ → List ℕ)
    (works : Works m session k.private_key_handle mechanism signature) where
  -- The state in which the signing starts.
  pub entered : T → T
  entered t = if k.always_authenticate then works.logged (m.logout session t).1 else t

  authenticate_run : (t : T) → authenticate m k session t ≡ (ok tt, entered t)
  unfolding authenticate entered
  authenticate_run t = elim (Bool-cases k.always_authenticate) [
    | inl always ↦ rw (always, works.login) refl
    | inr never ↦ rw never refl
  ]

  sign_on_run :
      (msg input : List ℕ) (opts : SignerOpts) (t : T)
      → signing_params k.public_key msg opts ≡ ok (mechanism, input)
      → sign_on m k msg opts (some session) t
        ≡ (convert k.public_key (signature input), works.signed input (entered t))
  unfolding sign_on
  sign_on_run msg input opts t e = rw (authenticate_run t, e, works.sign_init, works.sign) refl

  pub key_sign_run :
      (msg input : List ℕ) (opts : SignerOpts) (t : T)
      → k.session ≡ some session
      → signing_params k.public_key msg opts ≡ ok (mechanism, input)
      → key_sign m k msg opts t
        ≡ (convert k.public_key (signature input), works.signed input (entered t))
  unfolding key_sign
  key_sign_run msg input opts t e f =
      ap (λ r. sign_on m k msg opts r t) e ∙ sign_on_run msg input opts t f

ecdsa_chosen :
    (key : PublicKey) (curve : Curve) (point : Option (List ℕ)) (msg : List ℕ) (opts : SignerOpts)
    → key ≡ ecdsa curve point
    → signing_params key msg opts ≡ ok (ecdsa_mechanism, msg)
unfolding signing_params
ecdsa_chosen key curve point msg opts f = rw f refl

ecdsa_convert :
    (key : PublicKey) (curve : Curve) (point : Option (List ℕ)) (sig : List ℕ)
    → key ≡ ecdsa curve point
    → convert key sig ≡ pkcs11_to_rfc5480 sig
unfolding convert
ecdsa_convert key curve point sig f = rw f refl

-- An ECDSA signature of even length that is not empty has DER of its halves.
converts :
    (sig : List ℕ) (half : ℕ)
    → 0 < half
    → length sig ≡ half + half
    → (der : List ℕ) × (pkcs11_to_rfc5480 sig ≡ ok der)
      × (read_signature der ≡ some (from_be (take half sig), from_be (drop half sig)))
converts sig half some_bytes size = go (pkcs11_to_rfc5480-Converts sig)
  where
    halves : length sig / 2 ≡ half
    halves = omega (arith, size)

    go :
        Converts sig (pkcs11_to_rfc5480 sig)
        → (der : List ℕ) × (pkcs11_to_rfc5480 sig ≡ ok der)
          × (read_signature der ≡ some (from_be (take half sig), from_be (drop half sig)))
    go (inl (some_left, even, (der, h, reads))) = (der, h, rw halves at reads)
    go (inr (inl none_left, h)) = absurd (omega (arith, none_left, size))
    go (inr (inr odd, h)) = absurd (omega (arith, odd, size))

-- Key.Sign of an ECDSA key with a session, on a module that lets it sign, whose raw signatures
-- have a fixed even length that is not 0 and verify, succeeds with DER of two numbers that verify
-- the message, whether or not the key always authenticates.
pub key_sign-ecdsa :
    {T : Type 0} (m : Module T) (k : Key) (session half : ℕ) (curve : Curve)
    (point : Option (List ℕ)) (signature : List ℕ → List ℕ) (verify : List ℕ → ℕ → ℕ → Bool)
    (msg : List ℕ) (opts : SignerOpts) (t : T)
    → k.session ≡ some session
    → k.public_key ≡ ecdsa curve point
    → Works m session k.private_key_handle ecdsa_mechanism signature
    → 0 < half
    → ((d : List ℕ) → length (signature d) ≡ half + half)
    → ((d : List ℕ)
        → verify d (from_be (take half (signature d))) (from_be (drop half (signature d))) ≡ true)
    → (der : List ℕ) × (r : ℕ) × (s : ℕ) × (t' : T) × (key_sign m k msg opts t ≡ (ok der, t'))
      × (read_signature der ≡ some (r, s))
      × (verify msg r s ≡ true)
key_sign-ecdsa m k session half curve point signature verify msg opts t e f works some_bytes size
      good =
    let (der, h, reads) = converts (signature msg) half some_bytes (size msg) in
    let chosen : signing_params k.public_key msg opts ≡ ok (ecdsa_mechanism, msg) =
      ecdsa_chosen k.public_key curve point msg opts f in
    (
      der,
      from_be (take half (signature msg)),
      from_be (drop half (signature msg)),
      works.signed msg (entered m k session ecdsa_mechanism signature works t),
      key_sign_run m k session ecdsa_mechanism signature works msg msg opts t e chosen
          ∙ ap (λ r. (r, works.signed msg (entered m k session ecdsa_mechanism signature works t)))
              (ecdsa_convert k.public_key curve point (signature msg) f ∙ h),
      reads,
      good msg,
    )

abbrev pub rsa_mechanism : List Mech
rsa_mechanism = record { mechanism = 1; parameter = [] } ∷ []

rsa_chosen :
    (key : PublicKey) (n : ℕ) (x : ℤ) (hash : Hash) (msg prefix : List ℕ)
    → key ≡ rsa n x
    → digest_info_prefix hash ≡ ok prefix
    → signing_params key msg (plain hash) ≡ ok (rsa_mechanism, prefix ++ msg)
unfolding signing_params rsa_signing_params
rsa_chosen key n x hash msg prefix f g = rw (f, g) refl

pub rsa_convert :
    (key : PublicKey) (n : ℕ) (x : ℤ) (sig : List ℕ) → key ≡ rsa n x → convert key sig ≡ ok sig
unfolding convert
rsa_convert key n x sig f = rw f refl

-- Key.Sign of an RSA key with a session, without PSS, with a hash that it knows and a digest of
-- the hash's length, on a module that lets it sign: it succeeds with the module's signature of
-- data that reads as the DigestInfo of the hash and the digest, whether or not the key always
-- authenticates.
pub key_sign-rsa :
    {T : Type 0} (m : Module T) (k : Key) (session n : ℕ) (x : ℤ) (signature : List ℕ → List ℕ)
    (hash : Hash) (msg prefix : List ℕ) (t : T)
    → k.session ≡ some session
    → k.public_key ≡ rsa n x
    → Works m session k.private_key_handle rsa_mechanism signature
    → digest_info_prefix hash ≡ ok prefix
    → length msg ≡ hash_size hash
    → (input : List ℕ) × (t' : T) × (key_sign m k msg (plain hash) t ≡ (ok (signature input), t'))
      × (read_digest_info input ≡ some (oid_of hash, msg))
key_sign-rsa m k session n x signature hash msg prefix t e f works known size =
    let chosen : signing_params k.public_key msg (plain hash) ≡ ok (rsa_mechanism, prefix ++ msg) =
      rsa_chosen k.public_key n x hash msg prefix f known in
    let after =
      works.signed (prefix ++ msg) (entered m k session rsa_mechanism signature works t) in
    (
      prefix ++ msg,
      after,
      key_sign_run m k session rsa_mechanism signature works msg (prefix ++ msg) (plain hash) t e
            chosen
          ∙ ap (λ r. (r, after)) (rsa_convert k.public_key n x (signature (prefix ++ msg)) f),
      digest_info_prefix-reads hash msg prefix known size,
    )
