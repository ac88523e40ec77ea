-- ===== src/Signer/Params.antt =====
-- The helpers of signer.go that choose mechanisms and convert encodings. The messages of errors are
-- cut to their fixed parts.
pub mod Signatures
pub mod Pss
use gopkcs.Prelude.{
  ℕ, zero, suc, ◌+◌, ◌/◌, ◌%◌, ◌||◌, not, List, [], ◌∷◌, ◌++◌, ◌==◌, if◌then◌else◌, length, take,
  drop,
}
use gopkcs.Prelude.Int.{ℤ, pos, negsuc, to_u64}
use gopkcs.Machine.Bytes.{load}
use gopkcs.Machine.Effects
use gopkcs.Machine.Effects.{message, nil, World, Outcome, Slice}
use gopkcs.Params.{new_pss_params}
use gopkcs.Signer.Interface.{
  Ret, ok, err, Mech, Curve, p224, p256, p384, p521, other_curve, Hash, sha1, sha224, sha256,
  sha384, sha512, other_hash, PublicKey, rsa, ecdsa, other_key, SignerOpts, pss, plain,
}
use gopkcs.Signer.Der.{from_be, der_element, der_integer, der_oid, tag_sequence}

unfoldable pub digest_info_prefix : Hash → Ret (List ℕ)
digest_info_prefix sha1 = ok (
    0x30 ∷ 0x21 ∷ 0x30 ∷ 0x09 ∷ 0x06 ∷ 0x05 ∷ 0x2b ∷ 0x0e ∷ 0x03 ∷ 0x02 ∷ 0x1a ∷ 0x05 ∷ 0x00 ∷ 0x04
    ∷ 0x14 ∷ [])
digest_info_prefix sha224 = ok (
    0x30 ∷ 0x2d ∷ 0x30 ∷ 0x0d ∷ 0x06 ∷ 0x09 ∷ 0x60 ∷ 0x86 ∷ 0x48 ∷ 0x01 ∷ 0x65 ∷ 0x03 ∷ 0x04 ∷ 0x02
    ∷ 0x04 ∷ 0x05 ∷ 0x00 ∷ 0x04 ∷ 0x1c ∷ [])
digest_info_prefix sha256 = ok (
    0x30 ∷ 0x31 ∷ 0x30 ∷ 0x0d ∷ 0x06 ∷ 0x09 ∷ 0x60 ∷ 0x86 ∷ 0x48 ∷ 0x01 ∷ 0x65 ∷ 0x03 ∷ 0x04 ∷ 0x02
    ∷ 0x01 ∷ 0x05 ∷ 0x00 ∷ 0x04 ∷ 0x20 ∷ [])
digest_info_prefix sha384 = ok (
    0x30 ∷ 0x41 ∷ 0x30 ∷ 0x0d ∷ 0x06 ∷ 0x09 ∷ 0x60 ∷ 0x86 ∷ 0x48 ∷ 0x01 ∷ 0x65 ∷ 0x03 ∷ 0x04 ∷ 0x02
    ∷ 0x02 ∷ 0x05 ∷ 0x00 ∷ 0x04 ∷ 0x30 ∷ [])
digest_info_prefix sha512 = ok (
    0x30 ∷ 0x51 ∷ 0x30 ∷ 0x0d ∷ 0x06 ∷ 0x09 ∷ 0x60 ∷ 0x86 ∷ 0x48 ∷ 0x01 ∷ 0x65 ∷ 0x03 ∷ 0x04 ∷ 0x02
    ∷ 0x03 ∷ 0x05 ∷ 0x00 ∷ 0x04 ∷ 0x40 ∷ [])
digest_info_prefix other_hash = err (message "pkcs11key: unsupported hash for PKCS#1v1.5")

-- CKM_SHA_… and CKG_MGF1_SHA….
unfoldable pub pss_hash_to_mechanism : Hash → Ret (ℕ × ℕ)
pss_hash_to_mechanism sha1 = ok (0x220, 1)
pss_hash_to_mechanism sha224 = ok (0x255, 5)
pss_hash_to_mechanism sha256 = ok (0x250, 2)
pss_hash_to_mechanism sha384 = ok (0x260, 3)
pss_hash_to_mechanism sha512 = ok (0x270, 4)
pss_hash_to_mechanism other_hash = err (message "pkcs11key: unsupported hash for PSS")

-- `crypto.Hash.Size`; for other hashes it is not called.
unfoldable pub hash_size : Hash → ℕ
hash_size sha1 = 20
hash_size sha224 = 28
hash_size sha256 = 32
hash_size sha384 = 48
hash_size sha512 = 64
hash_size other_hash = 0

unfoldable pub ec_curve_to_params : Curve → Ret (List ℕ)
ec_curve_to_params p224 = ok (der_oid 1 3 (132 ∷ 0 ∷ 33 ∷ []))
ec_curve_to_params p256 = ok (der_oid 1 2 (840 ∷ 10045 ∷ 3 ∷ 1 ∷ 7 ∷ []))
ec_curve_to_params p384 = ok (der_oid 1 3 (132 ∷ 0 ∷ 34 ∷ []))
ec_curve_to_params p521 = ok (der_oid 1 3 (132 ∷ 0 ∷ 35 ∷ []))
ec_curve_to_params other_curve = err (message "pkcs11key: unsupported EC curve")

unfoldable pub pkcs11_to_rfc5480 : List ℕ → Ret (List ℕ)
pkcs11_to_rfc5480 sig =
    if length sig == 0 || not (length sig % 2 == 0)
    then err (message "pkcs11key: invalid ECDSA signature length")
    else (let half = length sig / 2 in
        ok (
          der_element tag_sequence
            (der_integer (from_be (take half sig)) ++ der_integer (from_be (drop half sig)))))

abbrev pub ckm_rsa_pkcs : ℕ
ckm_rsa_pkcs = 1

abbrev pub ckm_rsa_pkcs_pss : ℕ
ckm_rsa_pkcs_pss = 0xd

abbrev pub ckm_ecdsa : ℕ
ckm_ecdsa = 0x1041

-- `rsa.PSSSaltLengthAuto` is 0 and `rsa.PSSSaltLengthEqualsHash` is -1.
pub salt_length : Hash → ℤ → ℕ
salt_length hash (pos zero) = hash_size hash
salt_length hash (pos (suc n)) = to_u64 (pos (suc n))
salt_length hash (negsuc zero) = hash_size hash
salt_length hash (negsuc (suc n)) = to_u64 (negsuc (suc n))

-- The binding's memory, of which the signer's level sees the bytes of a result only.
abbrev pub unused : World (Unit {0})
unused = record {
  mem = λ _. 0;
  next = 1;
  pinners = 0;
  pins = λ _. [];
  maps = [];
  gcms = λ _. record { iv = nil; aad = nil; tag_size = pos 0; ops = [] };
  token = tt;
}

abbrev pub bytes_of : Outcome (Unit {0}) Slice → List ℕ
bytes_of (Effects.ok b w) = load w.mem b.ptr b.len
bytes_of (Effects.err e w) = []
bytes_of Effects.panic = []

pss_mechanism : List ℕ → Hash → ℤ → Ret (ℕ × ℕ) → Ret (List Mech × List ℕ)
unfolding salt_length
pss_mechanism msg hash salt (ok (hash_alg, mgf)) = ok (
  record {
    mechanism = ckm_rsa_pkcs_pss;
    parameter = bytes_of (new_pss_params hash_alg mgf (salt_length hash salt) unused);
  }
      ∷ [],
  msg,
)
pss_mechanism msg hash salt (err e) = err e

pkcs1_mechanism : List ℕ → Ret (List ℕ) → Ret (List Mech × List ℕ)
pkcs1_mechanism msg (ok prefix) =
    ok (record { mechanism = ckm_rsa_pkcs; parameter = [] } ∷ [], prefix ++ msg)
pkcs1_mechanism msg (err e) = err e

unfoldable pub rsa_signing_params : List ℕ → SignerOpts → Ret (List Mech × List ℕ)
unfolding pss_mechanism pkcs1_mechanism
rsa_signing_params msg (pss hash salt) = pss_mechanism msg hash salt (pss_hash_to_mechanism hash)
rsa_signing_params msg (plain hash) = pkcs1_mechanism msg (digest_info_prefix hash)

unfoldable pub signing_params : PublicKey → List ℕ → SignerOpts → Ret (List Mech × List ℕ)
signing_params (rsa n e) msg opts = rsa_signing_params msg opts
signing_params (ecdsa curve point) msg opts =
    ok (record { mechanism = ckm_ecdsa; parameter = [] } ∷ [], msg)
signing_params other_key msg opts = err (message "pkcs11key: unsupported key type")
