-- ===== src/Examples/Signatures.antt =====
-- A raw ECDSA signature, and the prefix of a DigestInfo.
use gopkcs.Prelude.{ℕ, ◌≡◌, refl, List, [], ◌∷◌}
use gopkcs.Signer.Interface.{ok, sha256}
use gopkcs.Signer.Params.{pkcs11_to_rfc5480, digest_info_prefix}
use gopkcs.Signer.Params.Signatures.{Converts, pkcs11_to_rfc5480-Converts}

abbrev raw_signature : List ℕ
raw_signature = 0x00 ∷ 0x91 ∷ 0x12 ∷ 0x34 ∷ []

pkcs11_to_rfc5480-Converts_example : Converts raw_signature (pkcs11_to_rfc5480 raw_signature)
pkcs11_to_rfc5480-Converts_example = pkcs11_to_rfc5480-Converts raw_signature

abbrev prefix : List ℕ
prefix =
    0x30 ∷ 0x31 ∷ 0x30 ∷ 0x0d ∷ 0x06 ∷ 0x09 ∷ 0x60 ∷ 0x86 ∷ 0x48 ∷ 0x01 ∷ 0x65 ∷ 0x03 ∷ 0x04 ∷ 0x02
    ∷ 0x01 ∷ 0x05 ∷ 0x00 ∷ 0x04 ∷ 0x20 ∷ []

prefix_known : digest_info_prefix sha256 ≡ ok prefix
unfolding digest_info_prefix
prefix_known = refl
