-- ===== src/Ctx/Objects/Prepared.antt =====
-- The arrays that the two passes of GetAttributeValue prepare.
use gopkcs.Prelude.{
  ℕ, ◌+◌, ◌*◌, ◌^◌, ◌≤◌, ◌<◌, ◌≡◌, refl, ◌∙◌, ◌⊎◌, inl, List, [], ◌∷◌, arith, length, All,
}
use gopkcs.Machine.Bytes.{Memory}
use gopkcs.Machine.Words.{
  store_word, load_word-congr, load_word-store_word_apart, load_word-store_word_self,
  store_word-outside,
}
use gopkcs.Machine.Effects.{Slice, nil, World, ok, put_word}
use gopkcs.Types.{Attribute}
use gopkcs.Arena.{put_types}
use gopkcs.Arena.Layout.{IsZero, load_word-IsZero}
use gopkcs.Ctx.Objects.Answers.{Ready}

abbrev pub AreTypes : List Attribute → Type 0
AreTypes = All (λ a. a.type < 2 ^ 64)

pub types_memory : Memory → ℕ → List Attribute → Memory
types_memory m off [] = m
types_memory m off (a ∷ rest) = types_memory (store_word m off a.type) (off + 24) rest

pub types_memory-outside :
    (m : Memory) (off : ℕ) (attrs : List Attribute) (x : ℕ)
    → (x < off) ⊎ (off + length attrs * 24 ≤ x)
    → types_memory m off attrs x ≡ m x
unfolding types_memory
types_memory-outside m off [] x h = refl
types_memory-outside m off (a ∷ rest) x h =
    types_memory-outside (store_word m off a.type) (off + 24) rest x (omega arith)
    ∙ store_word-outside m off a.type x (omega arith)

abbrev pub no_buffers : List Attribute → List Slice
no_buffers [] = []
no_buffers (a ∷ rest) = nil ∷ no_buffers rest

module _ {S : Type 0} where
  pub put_types_run :
      (off : ℕ) (attrs : List Attribute) (w : World S)
      → put_types off attrs w ≡ ok tt (record w { mem = types_memory w.mem off attrs })
  unfolding put_types types_memory put_word
  put_types_run off [] w = refl
  put_types_run off (a ∷ rest) w =
      put_types_run (off + 24) rest (record w { mem = store_word w.mem off a.type })

module _ (value : ℕ → List ℕ) where
  pub types_memory-Ready :
      (m : Memory) (off floor : ℕ) (attrs : List Attribute)
      → AreTypes attrs
      → IsZero m off (length attrs * 24)
      → Ready value (types_memory m off attrs) off floor attrs (no_buffers attrs)
  unfolding types_memory
  types_memory-Ready m off floor [] types z = tt
  types_memory-Ready m off floor (a ∷ rest) (typ, types) z =
      let m' : Memory = store_word m off a.type in
      let same : (x : ℕ) → x < off + 24 → types_memory m' (off + 24) rest x ≡ m' x =
        λ x h. types_memory-outside m' (off + 24) rest x (inl h) in
      (
        load_word-congr _ m' off (λ x b c. same x (omega arith))
            ∙ load_word-store_word_self m off a.type typ,
        load_word-congr _ m' (off + 8) (λ x b c. same x (omega arith))
            ∙ load_word-store_word_apart m off a.type (off + 8) (omega arith)
            ∙ load_word-IsZero m (off + 8) (λ x b c. z x (omega arith) (omega arith)),
        load_word-congr _ m' (off + 16) (λ x b c. same x (omega arith))
            ∙ load_word-store_word_apart m off a.type (off + 16) (omega arith)
            ∙ load_word-IsZero m (off + 16) (λ x b c. z x (omega arith) (omega arith)),
        inl refl,
        types_memory-Ready m' (off + 24) floor rest types (λ x b c.
            store_word-outside m off a.type x (omega arith) ∙ z x (omega arith) (omega arith)),
      )
