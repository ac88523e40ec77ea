-- ===== src/Machine/Words.antt =====
-- 64-bit words in memory: what `*(*uintptr)(unsafe.Pointer(&buf[off]))` reads and writes.
use gopkcs.Prelude.{
  ℕ, zero, suc, ◌+◌, ◌*◌, ◌^◌, ◌≤◌, ◌<◌, ◌≡◌, refl, ap, ◌∙◌, ◌⊎◌, List, [], ◌∷◌, arith, length,
}
use mathlib.Core.Path.{ap₂}
use gopkcs.Machine.Bytes.{
  Memory, le_bytes, from_le, length-le_bytes, from_le-le_bytes, store, load, load-congr,
  load-store_self, load-store_apart, store-outside,
}

unfoldable pub store_word : Memory → ℕ → ℕ → Memory
unfolding store le_bytes
store_word m p v = store m p (le_bytes 8 v)

unfoldable pub load_word : Memory → ℕ → ℕ
unfolding load from_le
load_word m p = from_le (load m p 8)

abbrev pub word_size : ℕ
word_size = 8

pub load_word-store_word_self :
    (m : Memory) (p v : ℕ) → v < 2 ^ 64 → load_word (store_word m p v) p ≡ v
load_word-store_word_self m p v h =
    unfold load_word store_word in
    (ap from_le (load-store_self m p (le_bytes 8 v)) ∙ from_le-le_bytes 8 v h)

pub load-store_word_apart :
    (m : Memory) (p v q n : ℕ)
    → (q + n ≤ p) ⊎ (p + 8 ≤ q)
    → load (store_word m p v) q n ≡ load m q n
load-store_word_apart m p v q n h =
    unfold store_word in
    load-store_apart m p (le_bytes 8 v) q n (omega (arith, length-le_bytes 8 v))

pub load_word-store_word_apart :
    (m : Memory) (p v q : ℕ)
    → (q + 8 ≤ p) ⊎ (p + 8 ≤ q)
    → load_word (store_word m p v) q ≡ load_word m q
load_word-store_word_apart m p v q h =
    unfold load_word in ap from_le (load-store_word_apart m p v q 8 h)

pub load_word-store_apart :
    (m : Memory) (p : ℕ) (bs : List ℕ) (q : ℕ)
    → (q + 8 ≤ p) ⊎ (p + length bs ≤ q)
    → load_word (store m p bs) q ≡ load_word m q
load_word-store_apart m p bs q h = unfold load_word in ap from_le (load-store_apart m p bs q 8 h)

pub load_word-congr :
    (m k : Memory) (p : ℕ)
    → ((x : ℕ) → p ≤ x → x < p + 8 → m x ≡ k x)
    → load_word m p ≡ load_word k p
load_word-congr m k p h = unfold load_word in ap from_le (load-congr m k p 8 h)

pub store_word-outside : (m : Memory) (p v x : ℕ) → (x < p) ⊎ (p + 8 ≤ x) → store_word m p v x ≡ m x
store_word-outside m p v x h =
    unfold store_word in store-outside m p (le_bytes 8 v) x (omega (arith, length-le_bytes 8 v))

-- Consecutive words.
unfoldable pub load_words : Memory → ℕ → ℕ → List ℕ
load_words m p zero = []
load_words m p (suc n) = load_word m p ∷ load_words m (p + 8) n

pub load_words-congr :
    (m k : Memory) (p n : ℕ)
    → ((x : ℕ) → p ≤ x → x < p + n * 8 → m x ≡ k x)
    → load_words m p n ≡ load_words k p n
unfolding load_words
load_words-congr m k p zero h = refl
load_words-congr m k p (suc n) h =
    ap₂ ◌∷◌ (load_word-congr m k p (λ x l u. h x l (omega arith)))
      (load_words-congr m k (p + 8) n (λ x l u. h x (omega arith) (omega arith)))
