-- ===== src/Machine/Reports/Primitives.antt =====
-- The primitives of the machine make no call and no error.
use gopkcs.Prelude.{ℕ, ◌*◌, refl, List, length}
use gopkcs.Prelude.Int.{ℤ, pos, negsuc}
use gopkcs.Machine.Effects.{
  new_pinner, unpin, Slice, allocate, make_bytes, make_words, make_bytes_int, make_words_int,
  put_bytes, put_word, get_bytes, get_word, get_byte, get_words, new_word, bytes_of_string, prefix,
  pin,
}
use gopkcs.Machine.Reports.{
  Reports, Clean-same, pure-Reports, crash-Reports, bind-Reports, if-Reports, with_pinner-Reports,
  checked, checked_last, checked_unpinned, syscall_n-Asks,
}

module _ {S : Type 0} (log : S → List ℕ) where
  pub allocate-Reports : (n : ℕ) → Reports log (allocate {S = S} n)
  unfolding allocate
  allocate-Reports n = record { runs = λ w. (0, refl) }

  pub make_bytes-Reports : (n : ℕ) → Reports log (make_bytes {S = S} n)
  unfolding make_bytes
  make_bytes-Reports n =
      if-Reports log _ _ _ (crash-Reports log)
        (bind-Reports log _ _ (allocate-Reports n) (λ p. pure-Reports log _))

  pub make_words-Reports : (n : ℕ) → Reports log (make_words {S = S} n)
  unfolding make_words
  make_words-Reports n =
      if-Reports log _ _ _ (crash-Reports log)
        (bind-Reports log _ _ (allocate-Reports (n * 8)) (λ p. pure-Reports log _))

  pub make_bytes_int-Reports : (n : ℤ) → Reports log (make_bytes_int {S = S} n)
  unfolding make_bytes_int
  make_bytes_int-Reports (pos n) = make_bytes-Reports n
  make_bytes_int-Reports (negsuc n) = crash-Reports log

  pub make_words_int-Reports : (n : ℤ) → Reports log (make_words_int {S = S} n)
  unfolding make_words_int
  make_words_int-Reports (pos n) = make_words-Reports n
  make_words_int-Reports (negsuc n) = crash-Reports log

  pub new_word-Reports : Reports log (new_word {S = S})
  unfolding new_word
  new_word-Reports = allocate-Reports 8

  pub put_bytes-Reports : (p : ℕ) (bs : List ℕ) → Reports log (put_bytes {S = S} p bs)
  unfolding put_bytes
  put_bytes-Reports p bs = record { runs = λ w. (0, refl) }

  pub put_word-Reports : (p v : ℕ) → Reports log (put_word {S = S} p v)
  unfolding put_word
  put_word-Reports p v = record { runs = λ w. (0, refl) }

  pub get_bytes-Reports : (p n : ℕ) → Reports log (get_bytes {S = S} p n)
  unfolding get_bytes
  get_bytes-Reports p n = record { runs = λ w. (0, refl) }

  pub get_words-Reports : (p n : ℕ) → Reports log (get_words {S = S} p n)
  unfolding get_words
  get_words-Reports p n = record { runs = λ w. (0, refl) }

  pub get_word-Reports : (p : ℕ) → Reports log (get_word {S = S} p)
  unfolding get_word
  get_word-Reports p = record { runs = λ w. (0, refl) }

  pub get_byte-Reports : (p : ℕ) → Reports log (get_byte {S = S} p)
  unfolding get_byte
  get_byte-Reports p = record { runs = λ w. (0, refl) }

  pub bytes_of_string-Reports : (s : List ℕ) → Reports log (bytes_of_string {S = S} s)
  unfolding bytes_of_string
  bytes_of_string-Reports s =
      bind-Reports log _ _ (allocate-Reports (length s))
        λ p. bind-Reports log _ _ (put_bytes-Reports p s) (λ u. pure-Reports log _)

  pub prefix-Reports : (s : Slice) (n : ℕ) → Reports log (prefix {S = S} s n)
  unfolding prefix
  prefix-Reports s n = if-Reports log _ _ _ (pure-Reports log _) (crash-Reports log)

  pub pin-Reports : (o p : ℕ) → Reports log (pin {S = S} o p)
  unfolding pin
  pin-Reports o p = record { runs = λ w. (0, refl) }

  pub unpin-Reports : (o : ℕ) → Reports log (unpin {S = S} o)
  unfolding unpin
  unpin-Reports o = record { runs = λ w. (0, refl) }

  pub new_pinner-Reports : Reports log (new_pinner {S = S})
  unfolding new_pinner
  new_pinner-Reports = record { runs = λ w. (0, refl) }

pub ruleset primitives = (
  bind-Reports, pure-Reports, crash-Reports, with_pinner-Reports, if-Reports, allocate-Reports,
  make_bytes-Reports, make_words-Reports, make_bytes_int-Reports, make_words_int-Reports,
  put_bytes-Reports, put_word-Reports, get_bytes-Reports, get_words-Reports, get_word-Reports,
  get_byte-Reports, new_word-Reports, bytes_of_string-Reports, prefix-Reports, pin-Reports,
  new_pinner-Reports, checked_last, checked, checked_unpinned, syscall_n-Asks,
)
