-- ===== src/Machine/Structures.antt =====
-- C structures of words: what is written word by word is read back.
use gopkcs.Prelude.{
  ℕ, ◌+◌, ◌*◌, ◌^◌, ◌≤◌, ◌<◌, ◌≡◌, refl, ◌∙◌, ◌⊎◌, inl, List, [], ◌∷◌, arith, length,
}
use mathlib.Core.Path.{ap₂}
use gopkcs.Machine.Bytes.{Memory}
use gopkcs.Machine.Words.{
  store_word, load_word, load_words, load_word-store_word_self, load_word-congr, store_word-outside,
}

unfoldable pub store_words : Memory → ℕ → List ℕ → Memory
store_words m p [] = m
store_words m p (v ∷ vs) = store_words (store_word m p v) (p + 8) vs

abbrev pub AreWords : List ℕ → Type 0
AreWords [] = Unit
AreWords (v ∷ vs) = (v < 2 ^ 64) × AreWords vs

pub store_words-outside :
    (m : Memory) (p : ℕ) (vs : List ℕ) (x : ℕ)
    → (x < p) ⊎ (p + length vs * 8 ≤ x)
    → store_words m p vs x ≡ m x
unfolding store_words
store_words-outside m p [] x h = refl
store_words-outside m p (v ∷ vs) x h =
    store_words-outside (store_word m p v) (p + 8) vs x (omega arith)
    ∙ store_word-outside m p v x (omega arith)

pub load_words-store_words :
    (m : Memory) (p : ℕ) (vs : List ℕ)
    → AreWords vs
    → load_words (store_words m p vs) p (length vs) ≡ vs
unfolding store_words load_words
load_words-store_words m p [] h = refl
load_words-store_words m p (v ∷ vs) h =
    let here : load_word (store_words (store_word m p v) (p + 8) vs) p ≡ v =
      load_word-congr _ (store_word m p v) p
        (λ x l u. store_words-outside (store_word m p v) (p + 8) vs x (inl (omega arith)))
      ∙ load_word-store_word_self m p v h.0 in
    ap₂ ◌∷◌ here (load_words-store_words (store_word m p v) (p + 8) vs h.1)
