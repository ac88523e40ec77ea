-- ===== src/Signer/Der.antt =====
-- encoding/asn1 and math/big as far as signer.go uses them: definite lengths, octet strings, object
-- identifiers, and integers that are not negative.
pub mod Read
pub mod RoundTrip
use gopkcs.Prelude.{
  ℕ, zero, suc, ◌+◌, ◌*◌, ◌/◌, ◌%◌, ◌≡◌, refl, List, [], ◌∷◌, ◌++◌, ltb, ◌==◌, if◌then◌else◌,
  length,
}

-- Digits to base 256 in front of `acc`. The number itself is fuel enough.
unfoldable pub digits : ℕ → ℕ → List ℕ → List ℕ
digits zero n acc = acc
digits (suc f) n acc =
    let more = digits f (n / 256) ((n % 256) ∷ acc) in if n == 0 then acc else more

-- `big.Int.Bytes`: big-endian, with no leading zero, and empty for 0.
unfoldable pub be_bytes : ℕ → List ℕ
unfolding digits
be_bytes n = digits n n []

unfoldable pub from_be_acc : ℕ → List ℕ → ℕ
from_be_acc acc [] = acc
from_be_acc acc (b ∷ bs) = from_be_acc (acc * 256 + b) bs

-- `big.Int.SetBytes`
unfoldable pub from_be : List ℕ → ℕ
unfolding from_be_acc
from_be bs = from_be_acc 0 bs

unfoldable pub der_length : ℕ → List ℕ
der_length n = if ltb n 128 then n ∷ [] else (128 + length (be_bytes n)) ∷ be_bytes n

-- One element: tag, length, content.
unfoldable pub der_element : ℕ → List ℕ → List ℕ
der_element tag content = tag ∷ (der_length (length content) ++ content)

abbrev pub tag_integer : ℕ
tag_integer = 2

abbrev pub tag_octet_string : ℕ
tag_octet_string = 4

abbrev pub tag_oid : ℕ
tag_oid = 6

abbrev pub tag_sequence : ℕ
tag_sequence = 0x30

-- The content of an integer: at least one byte, and a sign bit that is clear.
unfoldable pub unsigned : List ℕ → List ℕ
unsigned [] = 0 ∷ []
unsigned (b ∷ bs) = if ltb b 128 then b ∷ bs else 0 ∷ b ∷ bs

unfoldable pub der_integer : ℕ → List ℕ
der_integer n = der_element tag_integer (unsigned (be_bytes n))

-- `asn1.Marshal` of a `[]byte`.
unfoldable pub der_octet_string : List ℕ → List ℕ
der_octet_string bs = der_element tag_octet_string bs

-- An arc in base 128, the high bit set on all bytes but the last. The fuel is the arc.
unfoldable pub arc_digits : ℕ → ℕ → List ℕ → List ℕ
arc_digits zero n acc = acc
arc_digits (suc f) n acc =
    let more = arc_digits f (n / 128) ((128 + n % 128) ∷ acc) in if n == 0 then acc else more

unfoldable pub arc : ℕ → List ℕ
unfolding arc_digits
arc n = arc_digits n (n / 128) ((n % 128) ∷ [])

unfoldable pub arcs : List ℕ → List ℕ
unfolding arc
arcs [] = []
arcs (a ∷ rest) = arc a ++ arcs rest

-- `asn1.Marshal` of an `asn1.ObjectIdentifier`, given its first two arcs and the others.
unfoldable pub der_oid : ℕ → ℕ → List ℕ → List ℕ
der_oid first second rest = der_element tag_oid (arc (first * 40 + second) ++ arcs rest)

oid_p256 :
    der_oid 1 2 (840 ∷ 10045 ∷ 3 ∷ 1 ∷ 7 ∷ [])
    ≡ 0x06 ∷ 0x08 ∷ 0x2a ∷ 0x86 ∷ 0x48 ∷ 0xce ∷ 0x3d ∷ 0x03 ∷ 0x01 ∷ 0x07 ∷ []
unfolding der_oid der_element der_length arc arcs
oid_p256 = refl

integer_high_bit : der_integer 0x80 ≡ 2 ∷ 2 ∷ 0 ∷ 0x80 ∷ []
unfolding der_integer der_element der_length unsigned be_bytes
integer_high_bit = refl
