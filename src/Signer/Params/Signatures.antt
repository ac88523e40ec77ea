-- ===== src/Signer/Params/Signatures.antt =====
-- ECDSA signatures and DigestInfo, read back with the reader of DER.
use gopkcs.Prelude.{
  ℕ, zero, suc, ◌+◌, ◌*◌, ◌/◌, ◌%◌, ◌≡◌, refl, ap, ◌≢◌, ◌⊎◌, inl, inr, Option, none, some, List, [],
  ◌∷◌, ◌++◌, arith, ◌==◌, Bool-cases, length, take, drop,
}
use gopkcs.Machine.Effects.{message}
use gopkcs.Signer.Interface.{Ret, ok, err, Hash, sha1, sha224, sha256, sha384, sha512, other_hash}
use gopkcs.Signer.Der.{from_be, arc, arcs, tag_sequence, tag_oid, tag_octet_string}
use gopkcs.Signer.Der.Read.{split, read_length, read_element, read_signature, ◌>>=◌}
use gopkcs.Signer.Der.RoundTrip.{read_signature-der}
use gopkcs.Signer.Params.{pkcs11_to_rfc5480, digest_info_prefix, hash_size}

-- What a reader of the DER finds: the two halves as numbers; and every other length is refused.
abbrev pub Converts : List ℕ → Ret (List ℕ) → Type 0
Converts sig r =
    ((length sig ≢ 0)
      × (length sig % 2 ≡ 0)
      × ((der : List ℕ) × (r ≡ ok der)
          × (read_signature der
              ≡ some (from_be (take (length sig / 2) sig), from_be (drop (length sig / 2) sig)))))
    ⊎ (((length sig ≡ 0) ⊎ (length sig % 2 ≡ 1))
        × (r ≡ err (message "pkcs11key: invalid ECDSA signature length")))

-- pkcs11ToRFC5480: a raw signature of even length that is not empty becomes DER that reads back
-- as the numbers of its two halves; every other length is refused.
pub pkcs11_to_rfc5480-Converts : (sig : List ℕ) → Converts sig (pkcs11_to_rfc5480 sig)
unfolding pkcs11_to_rfc5480
pkcs11_to_rfc5480-Converts sig = elim (Bool-cases (length sig == 0)) [
  | inl none_left ↦ inr (inl (ground arith), rw none_left refl)
  | inr some_left ↦ elim (Bool-cases (length sig % 2 == 0)) [
    | inl even ↦ inl (
      ground arith,
      ground arith,
      (
        _,
        rw (some_left, even) refl,
        read_signature-der (from_be (take (length sig / 2) sig))
            (from_be (drop (length sig / 2) sig)),
      ),
    )
    | inr odd ↦ inr (inr (ground arith), rw (some_left, odd) refl)
  ]
]

abbrev at_end : List ℕ → Option (Unit {0})
at_end [] = some tt
at_end (b ∷ bs) = none

-- DigestInfo of PKCS #1: an algorithm identifier with NULL parameters, and the digest.
pub read_digest_info : List ℕ → Option (List ℕ × List ℕ)
read_digest_info bs = do
  (body, rest) ← read_element tag_sequence bs
  _ ← at_end rest
  (algorithm, rest1) ← read_element tag_sequence body
  (oid, rest2) ← read_element tag_oid algorithm
  (null, rest3) ← read_element 5 rest2
  _ ← at_end null
  _ ← at_end rest3
  (digest, rest4) ← read_element tag_octet_string rest1
  _ ← at_end rest4
  some (oid, digest)

-- The hash's object identifier, as a content in DER.
pub oid_of : Hash → List ℕ
oid_of sha1 = arc (1 * 40 + 3) ++ arcs (14 ∷ 3 ∷ 2 ∷ 26 ∷ [])
oid_of sha224 = arc (2 * 40 + 16) ++ arcs (840 ∷ 1 ∷ 101 ∷ 3 ∷ 4 ∷ 2 ∷ 4 ∷ [])
oid_of sha256 = arc (2 * 40 + 16) ++ arcs (840 ∷ 1 ∷ 101 ∷ 3 ∷ 4 ∷ 2 ∷ 1 ∷ [])
oid_of sha384 = arc (2 * 40 + 16) ++ arcs (840 ∷ 1 ∷ 101 ∷ 3 ∷ 4 ∷ 2 ∷ 2 ∷ [])
oid_of sha512 = arc (2 * 40 + 16) ++ arcs (840 ∷ 1 ∷ 101 ∷ 3 ∷ 4 ∷ 2 ∷ 3 ∷ [])
oid_of other_hash = []

take_all : (n : ℕ) (xs : List ℕ) → length xs ≡ n → take n xs ≡ xs
take_all zero [] h = refl
take_all zero (x ∷ xs) h = absurd (omega arith)
take_all (suc n) [] h = refl
take_all (suc n) (x ∷ xs) h = ap (◌∷◌ x) (take_all n xs (omega arith))

drop_all : (n : ℕ) (xs : List ℕ) → length xs ≡ n → drop n xs ≡ []
drop_all zero [] h = refl
drop_all zero (x ∷ xs) h = absurd (omega arith)
drop_all (suc n) [] h = refl
drop_all (suc n) (x ∷ xs) h = drop_all n xs (omega arith)

-- digestInfoPrefix, for a hash that it knows and a digest of the hash's length: the prefix and
-- the digest are the DER of a DigestInfo with the hash's object identifier, NULL parameters and
-- that digest.
pub digest_info_prefix-reads :
    (h : Hash) (msg p : List ℕ)
    → digest_info_prefix h ≡ ok p
    → length msg ≡ hash_size h
    → read_digest_info (p ++ msg) ≡ some (oid_of h, msg)
unfolding digest_info_prefix read_digest_info read_element read_length split oid_of arc arcs
    hash_size from_be
digest_info_prefix-reads sha1 msg p e size =
    let known : p
        ≡ 0x30 ∷ 0x21 ∷ 0x30 ∷ 0x09 ∷ 0x06 ∷ 0x05 ∷ 0x2b ∷ 0x0e ∷ 0x03 ∷ 0x02 ∷ 0x1a ∷ 0x05 ∷ 0x00
          ∷ 0x04 ∷ 0x14 ∷ [] =
      cc in
    rw known (simp (size, take_all 20 msg size, drop_all 20 msg size) refl)
digest_info_prefix-reads sha224 msg p e size =
    let known : p
        ≡ 0x30 ∷ 0x2d ∷ 0x30 ∷ 0x0d ∷ 0x06 ∷ 0x09 ∷ 0x60 ∷ 0x86 ∷ 0x48 ∷ 0x01 ∷ 0x65 ∷ 0x03 ∷ 0x04
          ∷ 0x02 ∷ 0x04 ∷ 0x05 ∷ 0x00 ∷ 0x04 ∷ 0x1c ∷ [] =
      cc in
    rw known (simp (size, take_all 28 msg size, drop_all 28 msg size) refl)
digest_info_prefix-reads sha256 msg p e size =
    let known : p
        ≡ 0x30 ∷ 0x31 ∷ 0x30 ∷ 0x0d ∷ 0x06 ∷ 0x09 ∷ 0x60 ∷ 0x86 ∷ 0x48 ∷ 0x01 ∷ 0x65 ∷ 0x03 ∷ 0x04
          ∷ 0x02 ∷ 0x01 ∷ 0x05 ∷ 0x00 ∷ 0x04 ∷ 0x20 ∷ [] =
      cc in
    rw known (simp (size, take_all 32 msg size, drop_all 32 msg size) refl)
digest_info_prefix-reads sha384 msg p e size =
    let known : p
        ≡ 0x30 ∷ 0x41 ∷ 0x30 ∷ 0x0d ∷ 0x06 ∷ 0x09 ∷ 0x60 ∷ 0x86 ∷ 0x48 ∷ 0x01 ∷ 0x65 ∷ 0x03 ∷ 0x04
          ∷ 0x02 ∷ 0x02 ∷ 0x05 ∷ 0x00 ∷ 0x04 ∷ 0x30 ∷ [] =
      cc in
    rw known (simp (size, take_all 48 msg size, drop_all 48 msg size) refl)
digest_info_prefix-reads sha512 msg p e size =
    let known : p
        ≡ 0x30 ∷ 0x51 ∷ 0x30 ∷ 0x0d ∷ 0x06 ∷ 0x09 ∷ 0x60 ∷ 0x86 ∷ 0x48 ∷ 0x01 ∷ 0x65 ∷ 0x03 ∷ 0x04
          ∷ 0x02 ∷ 0x03 ∷ 0x05 ∷ 0x00 ∷ 0x04 ∷ 0x40 ∷ [] =
      cc in
    rw known (simp (size, take_all 64 msg size, drop_all 64 msg size) refl)
digest_info_prefix-reads other_hash msg p e size = cc
