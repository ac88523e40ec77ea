-- ===== src/Errors/Text/Read.antt =====
-- An error's text tells its code.
use gopkcs.Prelude.{
  ℕ, zero, suc, ◌+◌, ◌-◌, ◌*◌, ◌/◌, ◌%◌, ◌^◌, ◌<◌, ◌≡◌, refl, ap, ◌∙◌, ◌≢◌, inl, inr, Bool, true,
  false, ◌&&◌, Option, none, some, List, [], ◌∷◌, ◌++◌, arith, ltb, ◌==◌, if◌then◌else◌, ==_iff,
  Bool-cases, Option-cases, length, drop, replicate,
}
use gopkcs.Text.{Bytes, codes, ◌===◌, has_prefix}
use gopkcs.Errors.ReturnValues.{return_values}
use gopkcs.Errors.Text.{strerror, lookup, hex_digit, hex_from, hex, error_text}

abbrev code_of : Bytes → List (Bytes × ℕ) → Option ℕ
code_of s [] = none
code_of s ((name, k) ∷ rest) = if s === name then some k else code_of s rest

abbrev digit_value : ℕ → ℕ
digit_value c = if ltb c b'A' then c - b'0' else c - b'A' + 10

unfoldable read_hex : ℕ → Bytes → ℕ
read_hex n [] = n
read_hex n (c ∷ s) = read_hex (n * 16 + digit_value c) s

-- The code of a text: a number, or the name of a return value of zconst.go.
unfoldable pub read_error : Bytes → Option ℕ
unfolding read_hex
read_error s =
    if has_prefix s (codes "pkcs11: 0x")
    then some (read_hex 0 (drop 10 s))
    else code_of s return_values

digit_value-hex_digit : (d : ℕ) → d < 16 → digit_value (hex_digit d) ≡ d
digit_value-hex_digit d h = ground arith

read_hex-hex_from :
    (fuel n : ℕ) (digits : Bytes)
    → n < 16 ^ fuel
    → read_hex 0 (hex_from fuel n digits) ≡ read_hex n digits
unfolding read_hex hex_from
read_hex-hex_from zero n digits h = let none_left : n ≡ 0 = omega arith in rw none_left refl
read_hex-hex_from (suc fuel) n digits h = elim (Bool-cases (n == 0)) [
  | inl hit ↦ let none_left : n ≡ 0 = ground arith in rw none_left refl
  | inr miss ↦ rw miss (
      read_hex-hex_from fuel (n / 16) (hex_digit (n % 16) ∷ digits) (omega arith)
      ∙ ap (λ k. read_hex k digits) (omega (arith, digit_value-hex_digit (n % 16) (omega arith))))
]

read_hex-zeros : (k : ℕ) (s : Bytes) → read_hex 0 (replicate k b'0' ++ s) ≡ read_hex 0 s
unfolding read_hex
read_hex-zeros zero s = refl
read_hex-zeros (suc k) s = read_hex-zeros k s

read_hex-hex : (n : ℕ) → n < 2 ^ 64 → read_hex 0 (hex n) ≡ n
unfolding hex read_hex
read_hex-hex n h =
    read_hex-zeros (8 - length (hex_from 16 n [])) (hex_from 16 n []) ∙ read_hex-hex_from 16 n [] h

-- Every text of the table reads as its key.
abbrev reads_as : Bytes → ℕ → Bool
reads_as s k = elim (read_error s) [ some j ↦ j == k | none ↦ false ]

abbrev all_read : List (ℕ × Bytes) → Bool
all_read [] = true
all_read ((k, s) ∷ rest) = reads_as s k && all_read rest

strerror-all_read : all_read strerror ≡ true
unfolding read_error strerror
strerror-all_read = refl

false-ne-true : false ≢ true
false-ne-true e = cc

some_inj : {s t : Bytes} → some s ≡ some t → s ≡ t
some_inj e = cc

and_true : (a b : Bool) → (a && b) ≡ true → (a ≡ true) × (b ≡ true)
and_true true b h = (refl, h)
and_true false b h = cc

reads_as_lem : (s : Bytes) (k : ℕ) → reads_as s k ≡ true → read_error s ≡ some k
reads_as_lem s k h = elim (Option-cases (read_error s)) [
  | inl e ↦ absurd (false-ne-true (rw (e, reads_as) at h))
  | inr (j, e) ↦
      let hit : (j == k) ≡ true = rw (e, reads_as) at h in e ∙ ap some ((==_iff j k).0 hit)
]

lookup-read :
    (e : ℕ) (s : Bytes) (table : List (ℕ × Bytes))
    → all_read table ≡ true
    → lookup e table ≡ some s
    → read_error s ≡ some e
unfolding lookup
lookup-read e s [] h l = cc
lookup-read e s ((k, t) ∷ rest) h l = elim (Bool-cases (e == k)) [
  | inl hit ↦
      let text : some t ≡ some s = rw hit at l in
      let same : e ≡ k = ground arith in
      rw (← some_inj text, same) (reads_as_lem t k (and_true (reads_as t k) (all_read rest) h).0)
  | inr miss ↦ lookup-read e s rest (and_true (reads_as t k) (all_read rest) h).1 (rw miss at l)
]

-- The text of Error() tells the code, for every word: it is a number that reads back as the code,
-- or the name of a return value of zconst.go that has the code.
pub read_error-error_text : (e : ℕ) → e < 2 ^ 64 → read_error (error_text e) ≡ some e
unfolding error_text read_error
read_error-error_text e h = elim (Option-cases (lookup e strerror)) [
  | inl l ↦ rw (l, error_text) (ap some (read_hex-hex e h))
  | inr (s, l) ↦ rw (l, error_text) (lookup-read e s strerror strerror-all_read l)
]
