-- ===== src/Machine/Pins/Primitives.antt =====
-- The primitives of the machine: only `pin` and `unpin` touch a pinner.
use gopkcs.Prelude.{
  ℕ, ◌*◌, refl, ap, inl, inr, Bool, true, false, Option, some, List, arith, ◌==◌, if◌then◌else◌,
  Bool-cases, length,
}
use gopkcs.Prelude.Int.{ℤ, pos, negsuc}
use gopkcs.Machine.Effects.{
  Slice, Env, M, allocate, make_bytes, make_words, make_bytes_int, make_words_int, put_bytes,
  put_word, get_bytes, get_word, get_byte, get_words, new_word, bytes_of_string, prefix, pin,
  syscall_n,
}
use gopkcs.Machine.Pins.{
  fail-Uses, with_pinner-Uses, Uses, Keeps-same, pure-Uses, crash-Uses, bind-Uses,
}

module _ {S : Type 0} (own : Option ℕ) where
  pub allocate-Uses : (n : ℕ) → Uses own (allocate {S = S} n)
  unfolding allocate
  allocate-Uses n = record { runs = λ w tidy made. Keeps-same own w _ refl (λ x. refl) }

  pub if-Uses :
      {A : Type 0} (b : Bool) (m k : M S A)
      → Uses own m
      → Uses own k
      → Uses own (if b then m else k)
  if-Uses true m k h l = h
  if-Uses false m k h l = l

  pub make_bytes-Uses : (n : ℕ) → Uses own (make_bytes {S = S} n)
  unfolding make_bytes
  make_bytes-Uses n =
      if-Uses _ _ _ (crash-Uses own) (bind-Uses own _ _ (allocate-Uses n) (λ p. pure-Uses own _))

  pub make_words-Uses : (n : ℕ) → Uses own (make_words {S = S} n)
  unfolding make_words
  make_words-Uses n =
      if-Uses _ _ _ (crash-Uses own)
        (bind-Uses own _ _ (allocate-Uses (n * 8)) (λ p. pure-Uses own _))

  pub make_bytes_int-Uses : (n : ℤ) → Uses own (make_bytes_int {S = S} n)
  unfolding make_bytes_int
  make_bytes_int-Uses (pos n) = make_bytes-Uses n
  make_bytes_int-Uses (negsuc n) = crash-Uses own

  pub make_words_int-Uses : (n : ℤ) → Uses own (make_words_int {S = S} n)
  unfolding make_words_int
  make_words_int-Uses (pos n) = make_words-Uses n
  make_words_int-Uses (negsuc n) = crash-Uses own

  pub new_word-Uses : Uses own (new_word {S = S})
  unfolding new_word
  new_word-Uses = allocate-Uses 8

  pub put_bytes-Uses : (p : ℕ) (bs : List ℕ) → Uses own (put_bytes {S = S} p bs)
  unfolding put_bytes
  put_bytes-Uses p bs = record { runs = λ w tidy made. Keeps-same own w _ refl (λ x. refl) }

  pub put_word-Uses : (p v : ℕ) → Uses own (put_word {S = S} p v)
  unfolding put_word
  put_word-Uses p v = record { runs = λ w tidy made. Keeps-same own w _ refl (λ x. refl) }

  pub get_bytes-Uses : (p n : ℕ) → Uses own (get_bytes {S = S} p n)
  unfolding get_bytes
  get_bytes-Uses p n = record { runs = λ w tidy made. Keeps-same own w _ refl (λ x. refl) }

  pub get_words-Uses : (p n : ℕ) → Uses own (get_words {S = S} p n)
  unfolding get_words
  get_words-Uses p n = record { runs = λ w tidy made. Keeps-same own w _ refl (λ x. refl) }

  pub get_word-Uses : (p : ℕ) → Uses own (get_word {S = S} p)
  unfolding get_word
  get_word-Uses p = record { runs = λ w tidy made. Keeps-same own w _ refl (λ x. refl) }

  pub get_byte-Uses : (p : ℕ) → Uses own (get_byte {S = S} p)
  unfolding get_byte
  get_byte-Uses p = record { runs = λ w tidy made. Keeps-same own w _ refl (λ x. refl) }

  pub bytes_of_string-Uses : (s : List ℕ) → Uses own (bytes_of_string {S = S} s)
  unfolding bytes_of_string
  bytes_of_string-Uses s =
      bind-Uses own _ _ (allocate-Uses (length s))
        λ p. bind-Uses own _ _ (put_bytes-Uses p s) (λ u. pure-Uses own _)

  pub prefix-Uses : (s : Slice) (n : ℕ) → Uses own (prefix {S = S} s n)
  unfolding prefix
  prefix-Uses s n = if-Uses _ _ _ (pure-Uses own _) (crash-Uses own)

  pub syscall_n-Uses : (env : Env S) (fn : ℕ) (args : List ℕ) → Uses own (syscall_n env fn args)
  unfolding syscall_n
  syscall_n-Uses env fn args = record { runs = λ w tidy made. Keeps-same own w _ refl (λ x. refl) }

pub pin-Uses : {S : Type 0} (o p : ℕ) → Uses (some o) (pin {S = S} o p)
unfolding pin
pin-Uses o p = record {
  runs = λ w tidy made. record {
    later = omega arith;
    others = λ x ne. elim (Bool-cases (o == x)) [
      | inl hit ↦ absurd (ne (ap some (ground arith)))
      | inr miss ↦ rw miss refl
    ];
  };
}

pub ruleset primitives = (
  bind-Uses, pure-Uses, fail-Uses, crash-Uses, with_pinner-Uses, if-Uses, allocate-Uses,
  make_bytes-Uses, make_words-Uses, make_bytes_int-Uses, make_words_int-Uses, put_bytes-Uses,
  put_word-Uses, get_bytes-Uses, get_words-Uses, get_word-Uses, get_byte-Uses, new_word-Uses,
  bytes_of_string-Uses, prefix-Uses, syscall_n-Uses, pin-Uses,
)
