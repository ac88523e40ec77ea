-- ===== src/Signer/Der/RoundTrip.antt =====
-- What the writer writes, the reader reads.
use gopkcs.Prelude.{
  ℕ, zero, suc, ◌+◌, ◌-◌, ◌/◌, ◌%◌, ◌≤◌, ◌≡◌, refl, sym, ap, ◌∙◌, inl, inr, true, false, some, List,
  [], ◌∷◌, ◌++◌, arith, ltb, leb, ◌==◌, Bool-cases, length, length-append, take, drop,
}
use mathlib.Core.List.{append_assoc, append-nil}
use gopkcs.Signer.Der.{
  digits, be_bytes, from_be_acc, from_be, der_length, der_element, unsigned, der_integer,
  tag_integer, tag_sequence,
}
use gopkcs.Signer.Der.Read.{split, read_length, read_element, read_unsigned, read_signature}

from_be_acc-digits :
    (f n : ℕ) (acc : List ℕ) → n ≤ f → from_be_acc 0 (digits f n acc) ≡ from_be_acc n acc
unfolding digits from_be_acc
from_be_acc-digits zero n acc h = let z : n ≡ 0 = omega arith in rw z refl
from_be_acc-digits (suc f) n acc h = elim (Bool-cases (n == 0)) [
  | inl hit ↦ let z : n ≡ 0 = ground arith in rw (hit, z) refl
  | inr miss ↦ rw miss (
      from_be_acc-digits f (n / 256) ((n % 256) ∷ acc) (ground arith)
      ∙ ap (λ k. from_be_acc k acc) (omega arith))
]

-- The bytes of a number stand for it.
pub from_be-be_bytes : (n : ℕ) → from_be (be_bytes n) ≡ n
from_be-be_bytes n = unfold from_be be_bytes in from_be_acc-digits n n [] (omega arith)

take-append : (xs ys : List ℕ) → take (length xs) (xs ++ ys) ≡ xs
take-append [] ys = refl
take-append (x ∷ xs) ys = ap (◌∷◌ x) (take-append xs ys)

drop-append : (xs ys : List ℕ) → drop (length xs) (xs ++ ys) ≡ ys
drop-append [] ys = refl
drop-append (x ∷ xs) ys = drop-append xs ys

leb_of_le : (a b : ℕ) → a ≤ b → leb a b ≡ true
leb_of_le a b h = ground arith

split-append : (xs ys : List ℕ) → split (length xs) (xs ++ ys) ≡ some (xs, ys)
unfolding split
split-append xs ys =
    let fits : leb (length xs) (length (xs ++ ys)) ≡ true =
      leb_of_le _ _ (omega (arith, length-append xs ys)) in
    rw (fits, take-append xs ys, drop-append xs ys) refl

read_length-der_length :
    (n : ℕ) (rest : List ℕ) → read_length (der_length n ++ rest) ≡ some (n, rest)
unfolding read_length der_length
read_length-der_length n rest = elim (Bool-cases (ltb n 128)) [
  | inl short ↦ rw (short, short) refl
  | inr long ↦
      let high : ltb (128 + length (be_bytes n)) 128 ≡ false = ground arith in
      let count : 128 + length (be_bytes n) - 128 ≡ length (be_bytes n) = omega arith in
      rw (long, high, count, split-append (be_bytes n) rest, from_be-be_bytes n) refl
]

-- An element is read back, whatever follows it.
pub read_element-der_element :
    (tag : ℕ) (content rest : List ℕ)
    → read_element tag (der_element tag content ++ rest) ≡ some (content, rest)
unfolding read_element der_element
read_element-der_element tag content rest =
    let here : (tag == tag) ≡ true = ground arith in
    rw
      (
        here,
        append_assoc,
        read_length-der_length (length content) (content ++ rest),
        split-append content rest,
      )
      refl

from_be-zero : (bs : List ℕ) → from_be (0 ∷ bs) ≡ from_be bs
unfolding from_be from_be_acc
from_be-zero bs = refl

read_unsigned-unsigned : (bs : List ℕ) → read_unsigned (unsigned bs) ≡ some (from_be bs)
unfolding read_unsigned unsigned
read_unsigned-unsigned [] = ap some (from_be-zero [])
read_unsigned-unsigned (b ∷ bs) = elim (Bool-cases (ltb b 128)) [
  | inl low ↦ rw (low, low) refl
  | inr high ↦ rw high (ap some (from_be-zero (b ∷ bs)))
]

read_element-der_element_last :
    (tag : ℕ) (content : List ℕ) → read_element tag (der_element tag content) ≡ some (content, [])
read_element-der_element_last tag content =
    ap (read_element tag) (sym (append-nil _)) ∙ read_element-der_element tag content []

-- A sequence of two integers reads back as their values.
pub read_signature-der :
    (r s : ℕ)
    → read_signature (der_element tag_sequence (der_integer r ++ der_integer s)) ≡ some (r, s)
unfolding read_signature der_integer
read_signature-der r s =
    rw
      (
        read_element-der_element_last tag_sequence,
        read_element-der_element tag_integer (unsigned (be_bytes r)),
        read_element-der_element_last tag_integer,
        read_unsigned-unsigned (be_bytes r),
        read_unsigned-unsigned (be_bytes s),
        from_be-be_bytes r,
        from_be-be_bytes s,
      )
      refl
