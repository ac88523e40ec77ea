-- ===== src/Ctx/Objects/Answers.antt =====
-- What such a module leaves in an array of attributes and in its buffers.
use gopkcs.Prelude.{
  ℕ, suc, ◌+◌, ◌*◌, ◌^◌, ◌≤◌, ◌<◌, ◌≡◌, refl, sym, ◌∙◌, ◌⊎◌, inl, inr, false, List, [], ◌∷◌, arith,
  ◌==◌, if◌then◌else◌, length, All,
}
use gopkcs.Machine.Bytes.{Memory, store, load, load-congr, load-store_self, store-outside}
use gopkcs.Machine.Words.{
  load_word, store_word, load_word-congr, load_word-store_apart, load_word-store_word_apart,
  load_word-store_word_self, load-store_word_apart, store_word-outside,
}
use gopkcs.Machine.Effects.{Slice}
use gopkcs.Types.{Attribute}
use gopkcs.Arena.Layout.{read_entry, read_entries}
use gopkcs.Ctx.Objects.Convention.{answer_entry, answer, HasRoom}

module _ (value : ℕ → List ℕ) where
  -- A buffer at or above floor that has just the room for a value, or none.
  abbrev pub Place : ℕ → Attribute → Slice → Type 0
  Place floor a v = (v.ptr ≡ 0) ⊎ ((v.len ≡ length (value a.type)) × (0 < v.ptr) × (floor ≤ v.ptr))

  -- The first address behind the buffer.
  abbrev pub top : ℕ → Slice → ℕ
  top floor v = if v.ptr == 0 then floor else v.ptr + suc v.len

  -- An array at off whose buffers lie one behind the other.
  abbrev pub Ready : Memory → ℕ → ℕ → List Attribute → List Slice → Type 0
  Ready m off floor [] [] = Unit
  Ready m off floor [] (v ∷ vs) = ⊥
  Ready m off floor (a ∷ attrs) [] = ⊥
  Ready m off floor (a ∷ attrs) (v ∷ vs) =
      (load_word m off ≡ a.type)
      × (load_word m (off + 8) ≡ v.ptr)
      × (load_word m (off + 16) ≡ v.len)
      × Place floor a v
      × Ready m (off + 24) (top floor v) attrs vs

  -- The same array afterwards.
  abbrev pub Answered : Memory → ℕ → List Attribute → List Slice → Type 0
  Answered m off [] [] = Unit
  Answered m off [] (v ∷ vs) = ⊥
  Answered m off (a ∷ attrs) [] = ⊥
  Answered m off (a ∷ attrs) (v ∷ vs) =
      (load_word m off ≡ a.type)
      × (load_word m (off + 16) ≡ length (value a.type))
      × ((v.ptr ≡ 0) ⊎ (load m v.ptr (length (value a.type)) ≡ value a.type))
      × Answered m (off + 24) attrs vs

  abbrev pub AreWords : List Attribute → Type 0
  AreWords = All (λ a. length (value a.type) < 2 ^ 64)

  pub Ready-room :
      (m : Memory) (off floor : ℕ) (attrs : List Attribute) (vs : List Slice)
      → Ready m off floor attrs vs
      → All (HasRoom value) (read_entries m off (length attrs))
  unfolding read_entries read_entry
  Ready-room m off floor [] [] r = tt
  Ready-room m off floor [] (v ∷ vs) r = absurd r
  Ready-room m off floor (a ∷ attrs) [] r = absurd r
  Ready-room m off floor (a ∷ attrs) (v ∷ vs) (t, p, l, place, r) = (
    elim place [
      | inl z ↦ inl (p ∙ z)
      | inr (size, some_ptr, high) ↦ inr (rw (t, l) (omega (arith, size)))
    ],
    Ready-room m (off + 24) (top floor v) attrs vs r,
  )

  pub Ready-congr :
      (m k : Memory) (off floor : ℕ) (attrs : List Attribute) (vs : List Slice)
      → ((x : ℕ) → off ≤ x → x < off + length attrs * 24 → m x ≡ k x)
      → Ready m off floor attrs vs
      → Ready k off floor attrs vs
  Ready-congr m k off floor [] [] h r = tt
  Ready-congr m k off floor [] (v ∷ vs) h r = absurd r
  Ready-congr m k off floor (a ∷ attrs) [] h r = absurd r
  Ready-congr m k off floor (a ∷ attrs) (v ∷ vs) h (t, p, l, place, r) = (
    sym (load_word-congr m k off (λ x a b. h x (omega arith) (omega arith))) ∙ t,
    sym (load_word-congr m k (off + 8) (λ x a b. h x (omega arith) (omega arith))) ∙ p,
    sym (load_word-congr m k (off + 16) (λ x a b. h x (omega arith) (omega arith))) ∙ l,
    place,
    Ready-congr m k (off + 24) (top floor v) attrs vs (λ x a b. h x (omega arith) (omega arith)) r,
  )

  -- One entry.
  module _ (m : Memory) (off floor : ℕ) (a : Attribute) (v : Slice) (typ : load_word m off ≡ a.type)
      (ptr : load_word m (off + 8) ≡ v.ptr) (place : Place floor a v) (above : off + 24 ≤ floor)
      (small : length (value a.type) < 2 ^ 64) where
    entry_null :
        v.ptr ≡ 0 → answer_entry value m off ≡ store_word m (off + 16) (length (value a.type))
    unfolding answer_entry
    entry_null z = rw (typ, ptr, z) refl

    entry_filled :
        0 < v.ptr
        → answer_entry value m off
          ≡ store_word (store m v.ptr (value a.type)) (off + 16) (length (value a.type))
    unfolding answer_entry
    entry_filled h = let miss : (v.ptr == 0) ≡ false = ground arith in rw (typ, ptr, miss) refl

    pub entry-outside :
        (x : ℕ) → (x < off) ⊎ ((off + 24 ≤ x) × (x < floor)) → answer_entry value m off x ≡ m x
    entry-outside x h = elim place [
      | inl z ↦ rw (entry_null z) (store_word-outside m (off + 16) _ x (omega arith))
      | inr (size, some_ptr, high) ↦ rw (entry_filled some_ptr) (
          store_word-outside _ (off + 16) _ x (omega arith)
          ∙ store-outside m v.ptr (value a.type) x (omega arith))
    ]

    pub entry-type : load_word (answer_entry value m off) off ≡ a.type
    entry-type = elim place [
      | inl z ↦
          rw (entry_null z) (load_word-store_word_apart m (off + 16) _ off (omega arith) ∙ typ)
      | inr (size, some_ptr, high) ↦ rw (entry_filled some_ptr) (
          load_word-store_word_apart _ (off + 16) _ off (omega arith)
          ∙ load_word-store_apart m v.ptr (value a.type) off (omega arith)
          ∙ typ)
    ]

    pub entry-len : load_word (answer_entry value m off) (off + 16) ≡ length (value a.type)
    entry-len = elim place [
      | inl z ↦ rw (entry_null z) (load_word-store_word_self m (off + 16) _ small)
      | inr (size, some_ptr, high) ↦
          rw (entry_filled some_ptr) (load_word-store_word_self _ (off + 16) _ small)
    ]

    pub entry-value :
        (v.ptr ≡ 0) ⊎ (load (answer_entry value m off) v.ptr (length (value a.type)) ≡ value a.type)
    entry-value = elim place [
      | inl z ↦ inl z
      | inr (size, some_ptr, high) ↦ inr (
          rw (entry_filled some_ptr) (
            load-store_word_apart _ (off + 16) _ v.ptr (length (value a.type)) (omega arith)
            ∙ load-store_self m v.ptr (value a.type)))
    ]

  top_ge : (floor : ℕ) (a : Attribute) (v : Slice) → Place floor a v → floor ≤ top floor v
  top_ge floor a v (inl z) = rw z (omega arith)
  top_ge floor a v (inr (size, some_ptr, high)) = ground arith

  below_top :
      (floor x : ℕ) (a : Attribute) (v : Slice)
      → v.len ≡ length (value a.type)
      → 0 < v.ptr
      → x < v.ptr + length (value a.type)
      → x < top floor v
  below_top floor x a v size some_ptr h =
      let miss : (v.ptr == 0) ≡ false = ground arith in rw miss (omega (arith, size))

  pub answer-outside :
      (m : Memory) (off floor : ℕ) (attrs : List Attribute) (vs : List Slice)
      → Ready m off floor attrs vs
      → off + length attrs * 24 ≤ floor
      → AreWords attrs
      → (x : ℕ) → (x < off) ⊎ ((off + length attrs * 24 ≤ x) × (x < floor))
      → answer value m off (length attrs) x ≡ m x
  unfolding answer
  answer-outside m off floor [] [] r above words x h = refl
  answer-outside m off floor [] (v ∷ vs) r above words x h = absurd r
  answer-outside m off floor (a ∷ attrs) [] r above words x h = absurd r
  answer-outside m off floor (a ∷ attrs) (v ∷ vs) (t, p, l, place, r) above (small, words) x h =
      let m' : Memory = answer_entry value m off in
      let rise : floor ≤ top floor v = top_ge floor a v place in
      let keeps = entry-outside m off floor a v t p place (omega arith) small in
      answer-outside m' (off + 24) (top floor v) attrs vs
        (Ready-congr m m' (off + 24) (top floor v) attrs vs (λ x b c. sym (keeps x (omega arith)))
          r)
        (omega (arith, rise)) words x (omega (arith, rise))
      ∙ keeps x (omega arith)

  pub answer-Answered :
      (m : Memory) (off floor : ℕ) (attrs : List Attribute) (vs : List Slice)
      → Ready m off floor attrs vs
      → off + length attrs * 24 ≤ floor
      → AreWords attrs
      → Answered (answer value m off (length attrs)) off attrs vs
  unfolding answer
  answer-Answered m off floor [] [] r above words = tt
  answer-Answered m off floor [] (v ∷ vs) r above words = absurd r
  answer-Answered m off floor (a ∷ attrs) [] r above words = absurd r
  answer-Answered m off floor (a ∷ attrs) (v ∷ vs) (t, p, l, place, r) above (small, words) =
      let m' : Memory = answer_entry value m off in
      let rise : floor ≤ top floor v = top_ge floor a v place in
      let keeps = entry-outside m off floor a v t p place (omega arith) small in
      let written = entry-value m off floor a v t p place (omega arith) small in
      let r' =
        Ready-congr m m' (off + 24) (top floor v) attrs vs (λ x b c. sym (keeps x (omega arith)))
          r in
      let later : (x : ℕ)
          → (x < off + 24) ⊎ ((off + 24 + length attrs * 24 ≤ x) × (x < top floor v))
          → answer value m' (off + 24) (length attrs) x ≡ m' x =
        answer-outside m' (off + 24) (top floor v) attrs vs r' (omega (arith, rise)) words in
      (
        load_word-congr _ m' off (λ x b c. later x (omega arith))
            ∙ entry-type m off floor a v t p place (omega arith) small,
        load_word-congr _ m' (off + 16) (λ x b c. later x (omega arith))
            ∙ entry-len m off floor a v t p place (omega arith) small,
        elim place [
          | inl z ↦ inl z
          | inr (size, some_ptr, high) ↦ elim written [
            | inl z ↦ inl z
            | inr loaded ↦ inr (
                load-congr _ m' v.ptr (length (value a.type))
                  (λ x b c. later x (inr (omega arith, below_top floor x a v size some_ptr c)))
                ∙ loaded)
          ]
        ],
        answer-Answered m' (off + 24) (top floor v) attrs vs r' (omega (arith, rise)) words,
      )
