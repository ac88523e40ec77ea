-- ===== src/Signer/Der/Read.antt =====
-- A reader of DER, written from the encoding's rules and not from the writer.
use gopkcs.Prelude.{
  ℕ, ◌-◌, Option, none, some, List, [], ◌∷◌, ltb, leb, ◌==◌, if◌then◌else◌, length, take, drop,
}
use gopkcs.Signer.Der.{from_be, tag_integer, tag_sequence}

infixl 5 ◌>>=◌
abbrev pub ◌>>=◌ : {A B : Type 0} → Option A → (A → Option B) → Option B
none >>= f = none
some a >>= f = f a

-- The first n bytes and what follows them.
unfoldable pub split : ℕ → List ℕ → Option (List ℕ × List ℕ)
split n bs = if leb n (length bs) then some (take n bs, drop n bs) else none

unfoldable pub read_length : List ℕ → Option (ℕ × List ℕ)
read_length [] = none
read_length (b ∷ bs) =
    if ltb b 128 then some (b, bs) else (do (d, rest) ← split (b - 128) bs; some (from_be d, rest))

-- The content of an element with the given tag, and what follows the element.
unfoldable pub read_element : ℕ → List ℕ → Option (List ℕ × List ℕ)
read_element tag [] = none
read_element tag (t ∷ bs) = if t == tag then (do (n, rest) ← read_length bs; split n rest) else none

-- An integer that is not negative.
unfoldable pub read_unsigned : List ℕ → Option ℕ
read_unsigned [] = none
read_unsigned (b ∷ bs) = if ltb b 128 then some (from_be (b ∷ bs)) else none

abbrev at_end : List ℕ → Option (Unit {0})
at_end [] = some tt
at_end (b ∷ bs) = none

-- ECDSA-Sig-Value of RFC 5480: a sequence of two integers and nothing else.
unfoldable pub read_signature : List ℕ → Option (ℕ × ℕ)
read_signature bs = do
  (body, rest) ← read_element tag_sequence bs
  _ ← at_end rest
  (r_content, rest1) ← read_element tag_integer body
  (s_content, rest2) ← read_element tag_integer rest1
  _ ← at_end rest2
  r ← read_unsigned r_content
  s ← read_unsigned s_content
  some (r, s)
