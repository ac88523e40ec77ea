-- ===== src/Params/Layout.antt =====
-- What the module reads in the parameter structures of params.go.
use gopkcs.Prelude.{
  ℕ, ◌+◌, ◌*◌, ◌<◌, ◌≡◌, refl, ◌∙◌, ◌≢◌, inl, inr, true, List, [], ◌∷◌, arith, ◌==◌, if◌then◌else◌,
  Bool-cases, length, replicate,
}
use gopkcs.Machine.Bytes.{store-outside, Memory, store}
use gopkcs.Machine.Words.{load_words}
use gopkcs.Machine.Structures.{store_words, AreWords, store_words-outside, load_words-store_words}
use gopkcs.Machine.Effects.{Slice, World, ok, set_pins, pin, put_word}
use gopkcs.Machine.Laws.{elem, make_bytes_run}
use gopkcs.Types.{OaepParams, Ecdh1DeriveParams}
use gopkcs.Params.{pin_bytes, oaep_marshal, ecdh_marshal, new_pss_params}

-- The address that C code gets for a slice.
abbrev pub address : Slice → ℕ
address s = if s.len == 0 then 0 else s.ptr

-- What a call leaves that has built a structure of the given words.
pub record Builds {S : Type 0} (words : List ℕ) (w : World S) (b : Slice) (w' : World S)
    : Type 0 where
  pub size : b.len ≡ length words * 8
  pub reads : load_words w'.mem b.ptr (length words) ≡ words
  pub same : (x : ℕ) → x < w.next → w'.mem x ≡ w.mem x

module _ {S : Type 0} (w : World S) where
  unfoldable pub built : ℕ → List ℕ → Memory
  built n vs = store_words (store w.mem w.next (replicate n 0)) w.next vs

  -- A structure in fresh memory.
  pub built-Builds :
      (next : ℕ) (pins : ℕ → List ℕ) (vs : List ℕ)
      → AreWords vs
      → Builds vs w
          (record { ptr = w.next; len = length vs * 8 })
          (record w { mem = built (length vs * 8) vs; next = next; pins = pins })
  unfolding built
  built-Builds next pins vs words = record {
    size = refl;
    reads = load_words-store_words _ w.next vs words;
    same = λ x h.
        store_words-outside (store w.mem w.next (replicate (length vs * 8) 0)) w.next vs x (inl h)
        ∙ store-outside w.mem w.next (replicate (length vs * 8) 0) x (inl h);
  }

  new_pss_params_run :
      (hash_alg mgf salt_length : ℕ)
      → new_pss_params hash_alg mgf salt_length w
        ≡ ok
            (record { ptr = w.next; len = 24 })
            (record w { mem = built 24 (hash_alg ∷ mgf ∷ salt_length ∷ []); next = w.next + 25 })
  unfolding new_pss_params put_word store_words built
  new_pss_params_run hash_alg mgf salt_length =
      let second : w.next + 8 + 8 ≡ w.next + 16 = omega arith in
      rw (make_bytes_run 24 w (omega arith), second) refl

  -- NewPSSParams, for arguments that fit in words: the bytes are the hash, the generator function
  -- and the length of the salt as words in this order; memory that was in use and the pins are
  -- unchanged.
  pub new_pss_params-Builds :
      (hash_alg mgf salt_length : ℕ)
      → AreWords (hash_alg ∷ mgf ∷ salt_length ∷ [])
      → (b : Slice) × (w' : World S) × (new_pss_params hash_alg mgf salt_length w ≡ ok b w')
        × Builds (hash_alg ∷ mgf ∷ salt_length ∷ []) w b w'
        × ((x : ℕ) → w'.pins x ≡ w.pins x)
  new_pss_params-Builds hash_alg mgf salt_length words = (
    _,
    _,
    new_pss_params_run hash_alg mgf salt_length,
    built-Builds (w.next + 25) w.pins (hash_alg ∷ mgf ∷ salt_length ∷ []) words,
    λ x. refl,
  )

  -- Pinning a slice, if it is not empty.
  abbrev pins_of : ℕ → (ℕ → List ℕ) → Slice → ℕ → List ℕ
  pins_of o pins s = if s.len == 0 then pins else set_pins pins o (s.ptr ∷ pins o)

  pins_of_ne : (o : ℕ) (pins : ℕ → List ℕ) (s : Slice) (x : ℕ) → o ≢ x → pins_of o pins s x ≡ pins x
  pins_of_ne o pins s x h = ground arith

  pins_of_keeps :
      (o : ℕ) (pins : ℕ → List ℕ) (s : Slice) (q : ℕ)
      → elem q (pins o) ≡ true
      → elem q (pins_of o pins s o) ≡ true
  pins_of_keeps o pins s q h = ground arith

  pins_of_self :
      (o : ℕ) (pins : ℕ → List ℕ) (s : Slice) → 0 < s.len → elem s.ptr (pins_of o pins s o) ≡ true
  pins_of_self o pins s h = ground arith

  module _ (o : ℕ) (p : OaepParams) where
    abbrev oaep_words : List ℕ
    oaep_words = p.hash_alg ∷ p.mgf ∷ p.source_type ∷ address p.source_data ∷ p.source_data.len ∷ []

    oaep_marshal_run :
        oaep_marshal o p w
        ≡ ok
            (record { ptr = w.next; len = 40 })
            (record w {
              mem = built 40 oaep_words;
              next = w.next + 41;
              pins = pins_of o w.pins p.source_data;
            })
    unfolding oaep_marshal pin_bytes pin put_word store_words built
    oaep_marshal_run =
        let second : w.next + 8 + 8 ≡ w.next + 16 = omega arith in
        let third : w.next + 16 + 8 ≡ w.next + 24 = omega arith in
        let fourth : w.next + 24 + 8 ≡ w.next + 32 = omega arith in
        elim (Bool-cases (p.source_data.len == 0)) [
          | inl hit ↦ rw (make_bytes_run 40 w (omega arith), second, third, fourth, hit) refl
          | inr miss ↦ rw (make_bytes_run 40 w (omega arith), second, third, fourth, miss) refl
        ]

    -- OAEPParams.marshal, for fields that fit in words: the structure has the hash, the generator
    -- function, the source type, the address of the source data (NULL if empty) and its length;
    -- memory that was in use is unchanged; the source data is pinned and other pinners are
    -- unchanged.
    pub oaep_marshal-Builds :
        AreWords (p.hash_alg ∷ p.mgf ∷ p.source_type ∷ p.source_data.ptr ∷ p.source_data.len ∷ [])
        → (b : Slice) × (w' : World S) × (oaep_marshal o p w ≡ ok b w')
          × Builds
              (p.hash_alg ∷ p.mgf ∷ p.source_type ∷ address p.source_data ∷ p.source_data.len ∷ [])
              w
              b
              w'
          × (0 < p.source_data.len → elem p.source_data.ptr (w'.pins o) ≡ true)
          × ((x : ℕ) → o ≢ x → w'.pins x ≡ w.pins x)
    oaep_marshal-Builds (a, (b, (c, (d, (e, _))))) = (
      _,
      _,
      oaep_marshal_run,
      built-Builds (w.next + 41) (pins_of o w.pins p.source_data) oaep_words
          (a, (b, (c, (ground arith, (e, tt))))),
      pins_of_self o w.pins p.source_data,
      pins_of_ne o w.pins p.source_data,
    )

  module _ (o : ℕ) (e : Ecdh1DeriveParams) where
    abbrev ecdh_words : List ℕ
    ecdh_words =
        e.kdf
        ∷ e.shared_data.len
        ∷ address e.shared_data
        ∷ e.public_key_data.len
        ∷ address e.public_key_data
        ∷ []

    abbrev shared_pins : ℕ → List ℕ
    shared_pins = pins_of o w.pins e.shared_data

    ecdh_marshal_run :
        ecdh_marshal o e w
        ≡ ok
            (record { ptr = w.next; len = 40 })
            (record w {
              mem = built 40 ecdh_words;
              next = w.next + 41;
              pins = pins_of o shared_pins e.public_key_data;
            })
    unfolding ecdh_marshal pin_bytes pin put_word store_words built
    ecdh_marshal_run =
        let second : w.next + 8 + 8 ≡ w.next + 16 = omega arith in
        let third : w.next + 16 + 8 ≡ w.next + 24 = omega arith in
        let fourth : w.next + 24 + 8 ≡ w.next + 32 = omega arith in
        elim (Bool-cases (e.shared_data.len == 0)) [
          | inl hit ↦ elim (Bool-cases (e.public_key_data.len == 0)) [
            | inl hit2 ↦
                rw (make_bytes_run 40 w (omega arith), second, third, fourth, hit, hit2) refl
            | inr miss2 ↦
                rw (make_bytes_run 40 w (omega arith), second, third, fourth, hit, miss2) refl
          ]
          | inr miss ↦ elim (Bool-cases (e.public_key_data.len == 0)) [
            | inl hit2 ↦
                rw (make_bytes_run 40 w (omega arith), second, third, fourth, miss, hit2) refl
            | inr miss2 ↦
                rw (make_bytes_run 40 w (omega arith), second, third, fourth, miss, miss2) refl
          ]
        ]

    -- ECDH1DeriveParams.marshal, for fields that fit in words: the structure has the derivation
    -- function, then length and address (NULL if empty) of the shared data and of the public key
    -- data; memory that was in use is unchanged; both are pinned and other pinners are unchanged.
    pub ecdh_marshal-Builds :
        AreWords (
          e.kdf ∷ e.shared_data.len ∷ e.shared_data.ptr ∷ e.public_key_data.len
          ∷ e.public_key_data.ptr ∷ [])
        → (b : Slice) × (w' : World S) × (ecdh_marshal o e w ≡ ok b w')
          × Builds
              (e.kdf
                ∷ e.shared_data.len
                ∷ address e.shared_data
                ∷ e.public_key_data.len
                ∷ address e.public_key_data
                ∷ [])
              w
              b
              w'
          × (0 < e.shared_data.len → elem e.shared_data.ptr (w'.pins o) ≡ true)
          × (0 < e.public_key_data.len → elem e.public_key_data.ptr (w'.pins o) ≡ true)
          × ((x : ℕ) → o ≢ x → w'.pins x ≡ w.pins x)
    ecdh_marshal-Builds (a, (b, (c, (d, (f, _))))) = (
      _,
      _,
      ecdh_marshal_run,
      built-Builds (w.next + 41) (pins_of o shared_pins e.public_key_data) ecdh_words
          (a, (b, (ground arith, (d, (ground arith, tt))))),
      λ h.
          pins_of_keeps o shared_pins e.public_key_data e.shared_data.ptr
            (pins_of_self o w.pins e.shared_data h),
      pins_of_self o shared_pins e.public_key_data,
      λ x h. pins_of_ne o shared_pins e.public_key_data x h ∙ pins_of_ne o w.pins e.shared_data x h,
    )
