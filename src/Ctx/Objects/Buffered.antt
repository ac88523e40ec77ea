-- ===== src/Ctx/Objects/Buffered.antt =====
-- The buffers of the second pass of GetAttributeValue.
use gopkcs.Prelude.{
  ℕ, suc, ◌+◌, ◌*◌, ◌^◌, ◌≤◌, ◌<◌, ◌≡◌, refl, sym, ◌∙◌, ◌⊎◌, inl, inr, List, [], ◌∷◌, arith, length,
  All,
}
use gopkcs.Machine.Words.{
  load_word, store_word, load_word-congr, load_word-store_word_apart, load_word-store_word_self,
  store_word-outside,
}
use gopkcs.Machine.Effects.{Slice, World, ok, max_alloc, put_word}
use gopkcs.Types.{Attribute}
use gopkcs.Arena.{put_buffers}
use gopkcs.Arena.Layout.{IsZero, load_word-IsZero}
use gopkcs.Ctx.Objects.Answers.{Place, top, Ready}
use gopkcs.Ctx.Objects.Prepared.{AreTypes}
use gopkcs.Ctx.Objects.Buffer.{Buffer, buffer}

module _ (value : ℕ → List ℕ) where
  -- The lengths of the values, which the first pass reports.
  abbrev pub sizes_of : List Attribute → List ℕ
  sizes_of [] = []
  sizes_of (a ∷ rest) = length (value a.type) ∷ sizes_of rest

  -- The memory that the buffers take at most.
  abbrev pub total : List Attribute → ℕ
  total [] = 0
  total (a ∷ rest) = suc (length (value a.type)) + total rest

  abbrev pub AreSmall : List Attribute → Type 0
  AreSmall = All (λ a. length (value a.type) ≤ max_alloc)

  -- Every value has a buffer of its length, unless it is empty.
  abbrev pub Filled : List Attribute → List Slice → Type 0
  Filled [] [] = Unit
  Filled [] (v ∷ vs) = ⊥
  Filled (a ∷ attrs) [] = ⊥
  Filled (a ∷ attrs) (v ∷ vs) =
      (v.len ≡ length (value a.type))
      × ((length (value a.type) ≡ 0) ⊎ (0 < v.ptr))
      × Filled attrs vs

  pub record Buffered {S : Type 0} (o off : ℕ) (attrs : List Attribute) (w : World S) : Type 0 where
    pub slices : List Slice
    pub world : World S
    pub runs : put_buffers o off attrs (sizes_of attrs) w ≡ ok slices world
    pub ready : Ready value world.mem off w.next attrs slices
    pub filled : Filled attrs slices
    pub later : w.next ≤ world.next
    pub outside :
        (x : ℕ) → (x < off) ⊎ ((off + length attrs * 24 ≤ x) × (x < w.next)) → world.mem x ≡ w.mem x
    pub token : world.token ≡ w.token

  module _ {S : Type 0} (o off : ℕ) (a : Attribute) (w : World S)
      (b : Buffer o off
        (length (value a.type))
        (record w { mem = store_word w.mem off a.type })) where
    -- The world after the first attribute.
    abbrev headed : World S
    headed = record b.world { mem = store_word b.world.mem (off + 16) (length (value a.type)) }

    headed-outside : (x : ℕ) → (x < off) ⊎ ((off + 24 ≤ x) × (x < w.next)) → headed.mem x ≡ w.mem x
    headed-outside x h =
        store_word-outside b.world.mem (off + 16) (length (value a.type)) x (omega arith)
        ∙ b.outside x (omega arith)
        ∙ store_word-outside w.mem off a.type x (omega arith)

    headed-type : a.type < 2 ^ 64 → off + 24 ≤ w.next → load_word headed.mem off ≡ a.type
    headed-type h room =
        load_word-store_word_apart b.world.mem (off + 16) (length (value a.type)) off (omega arith)
        ∙ load_word-congr b.world.mem (store_word w.mem off a.type) off
            (λ x l u. b.outside x (omega arith))
        ∙ load_word-store_word_self w.mem off a.type h

    headed-ptr : load_word headed.mem (off + 8) ≡ b.slice.ptr
    headed-ptr =
        load_word-store_word_apart b.world.mem (off + 16) (length (value a.type)) (off + 8)
          (omega arith)
        ∙ b.word

    headed-len : length (value a.type) ≤ max_alloc → load_word headed.mem (off + 16) ≡ b.slice.len
    headed-len h =
        load_word-store_word_self b.world.mem (off + 16) (length (value a.type)) (omega arith)
        ∙ sym b.len

    headed-place : 0 < w.next → Place value w.next a b.slice
    headed-place h = elim b.place [
      | inl z ↦ inl z
      | inr e ↦ inr (b.len, omega (arith, e), omega (arith, e))
    ]

    headed-top : headed.next ≡ top value w.next b.slice
    headed-top = b.next

    headed-bounds : (w.next ≤ headed.next) × (headed.next ≤ w.next + suc (length (value a.type)))
    headed-bounds = elim b.place [
      | inl z ↦
          let e : headed.next ≡ w.next = b.next ∙ rw z refl in (omega (arith, e), omega (arith, e))
      | inr e ↦
          let e : headed.next ≤ w.next + suc (length (value a.type)) =
            ground (arith, b.next, b.len) in
          (ground (arith, b.next, b.len), e)
    ]

    extend :
        (rest : List Attribute)
        → a.type < 2 ^ 64
        → length (value a.type) ≤ max_alloc
        → 0 < w.next
        → off + suc (length rest) * 24 ≤ w.next
        → Buffered o (off + 24) rest headed
        → Buffered o off (a ∷ rest) w
    unfolding put_buffers put_word
    extend rest typ little some_address room next =
        let same : (x : ℕ) → x < off + 24 → next.world.mem x ≡ headed.mem x =
          λ x u. next.outside x (inl u) in
        record {
          slices = b.slice ∷ next.slices;
          world = next.world;
          runs = rw (b.runs, next.runs) refl;
          ready = (
            load_word-congr _ headed.mem off (λ x l u. same x (omega arith))
                ∙ headed-type typ (omega arith),
            load_word-congr _ headed.mem (off + 8) (λ x l u. same x (omega arith)) ∙ headed-ptr,
            load_word-congr _ headed.mem (off + 16) (λ x l u. same x (omega arith))
                ∙ headed-len little,
            headed-place some_address,
            rw (← headed-top) next.ready,
          );
          filled = (b.len, b.used, next.filled);
          later = omega (arith, next.later, headed-bounds.0);
          outside = λ x k.
              next.outside x (omega (arith, headed-bounds.0)) ∙ headed-outside x (omega arith);
          token = next.token ∙ b.token;
        }

  pub put_buffers-Buffered :
      {S : Type 0} (o off : ℕ) (attrs : List Attribute) (w : World S)
      → AreTypes attrs
      → AreSmall attrs
      → 0 < w.next
      → w.next + total attrs < 2 ^ 64
      → off + length attrs * 24 ≤ w.next
      → IsZero w.mem off (length attrs * 24)
      → Buffered o off attrs w
  unfolding put_buffers
  put_buffers-Buffered o off [] w types small some_address fits room z = record {
    slices = [];
    world = w;
    runs = refl;
    ready = tt;
    filled = tt;
    later = omega arith;
    outside = λ x h. refl;
    token = refl;
  }
  put_buffers-Buffered {S} o off (a ∷ rest) w (typ, types) (little, small) some_address fits room
        z =
      let zero_here : load_word (store_word w.mem off a.type) (off + 8) ≡ 0 =
        load_word-store_word_apart w.mem off a.type (off + 8) (omega arith)
        ∙ load_word-IsZero w.mem (off + 8) (λ x l u. z x (omega arith) (omega arith)) in
      let next : (b : Buffer o off (length (value a.type))
            (record w { mem = store_word w.mem off a.type }))
          → Buffered o (off + 24) rest (headed o off a w b) =
        λ b.
          (let (low, high) = headed-bounds o off a w b in
            put_buffers-Buffered o (off + 24) rest (headed o off a w b) types small (omega arith)
              (omega arith) (omega arith)
              (λ x l u.
                headed-outside o off a w b x (omega arith) ∙ z x (omega arith) (omega arith))) in
      let b =
        buffer o off (length (value a.type)) (record w { mem = store_word w.mem off a.type }) little
          some_address (omega arith) (omega arith) zero_here in
      extend o off a w b rest typ little some_address room (next b)
