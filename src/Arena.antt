-- ===== src/Arena.antt =====
-- arena.go: C structures built in pinned Go memory. Each function takes the pinner of its arena.
pub mod Layout
pub mod Pins
pub mod Marshal
pub mod Unmarshal
pub mod Mechanisms
use gopkcs.Prelude.{
  ℕ, zero, suc, ◌+◌, ◌*◌, List, [], ◌∷◌, ◌&&◌, ◌==◌, ltb, leb, length, if◌then◌else◌,
}
use gopkcs.Machine.Effects.{
  Slice, nil, Env, M, pure, crash, ◌>>=◌, ◌>>◌, pin, put_word, get_word, make_bytes, allocate,
}
use gopkcs.Types.{Attribute, Mechanism, Generator, absent, gcm, oaep, ecdh}
use gopkcs.Params.{pin_bytes, gcm_marshal, oaep_marshal, ecdh_marshal}

abbrev pub ck_ulong_size : ℕ
ck_ulong_size = 8

abbrev pub ck_attribute_size : ℕ
ck_attribute_size = 24

abbrev pub ck_mechanism_size : ℕ
ck_mechanism_size = 24

module _ {S : Type 0} where
  -- Elements of a size in bytes. An empty slice gets a placeholder element.
  unfoldable pub pin_non_null : ℕ → ℕ → Slice → M S ℕ
  pin_non_null size o s =
      if s.len == 0 then (do p ← allocate size; pin o p; pure p) else (do pin o s.ptr; pure s.ptr)

  -- The body of the loop of marshalAttributes, at offset `off` of the array.
  unfoldable pub put_attribute : ℕ → ℕ → Attribute → M S (Unit {0})
  put_attribute o off a = do
    put_word off a.type
    if ltb 0 a.value.len then (do pin o a.value.ptr; put_word (off + 8) a.value.ptr) else pure tt
    put_word (off + 16) a.value.len

  unfoldable pub put_attributes : ℕ → ℕ → List Attribute → M S (Unit {0})
  unfolding put_attribute
  put_attributes o off [] = pure tt
  put_attributes o off (a ∷ rest) = do put_attribute o off a; put_attributes o (off + 24) rest

  -- The pointer to the array and its length.
  unfoldable pub marshal_attributes : ℕ → List Attribute → M S (ℕ × ℕ)
  unfolding put_attributes
  marshal_attributes o [] = pure (0, 0)
  marshal_attributes o (a ∷ rest) = do
    buf ← make_bytes (length (a ∷ rest) * ck_attribute_size)
    pin o buf.ptr
    put_attributes o buf.ptr (a ∷ rest)
    pure (buf.ptr, length (a ∷ rest))

  unfoldable pub put_types : ℕ → List Attribute → M S (Unit {0})
  put_types off [] = pure tt
  put_types off (a ∷ rest) = do put_word off a.type; put_types (off + 24) rest

  -- The pointer, the length, and the array.
  unfoldable pub marshal_attributes_for_query : ℕ → List Attribute → M S (ℕ × ℕ × Slice)
  unfolding put_types
  marshal_attributes_for_query o [] = pure (0, 0, nil)
  marshal_attributes_for_query o (a ∷ rest) = do
    buf ← make_bytes (length (a ∷ rest) * ck_attribute_size)
    pin o buf.ptr
    put_types buf.ptr (a ∷ rest)
    pure (buf.ptr, length (a ∷ rest), buf)

  -- A buffer of the given size, or nil.
  unfoldable pub put_buffer : ℕ → ℕ → ℕ → M S Slice
  put_buffer o off sz =
      if ltb 0 sz
      then (do v ← make_bytes sz; pin o v.ptr; put_word (off + 8) v.ptr; pure v)
      else pure nil

  -- A size that is missing is an index out of range.
  unfoldable pub put_buffers : ℕ → ℕ → List Attribute → List ℕ → M S (List Slice)
  unfolding put_buffer
  put_buffers o off [] szs = pure []
  put_buffers o off (a ∷ rest) [] = crash
  put_buffers o off (a ∷ rest) (sz ∷ szs) = do
    put_word off a.type
    v ← put_buffer o off sz
    put_word (off + 16) sz
    vs ← put_buffers o (off + 24) rest szs
    pure (v ∷ vs)

  -- The pointer, the length, the array and the value buffers.
  unfoldable pub marshal_attributes_with_buffers :
      ℕ → List Attribute → List ℕ → M S (ℕ × ℕ × Slice × List Slice)
  unfolding put_buffers
  marshal_attributes_with_buffers o [] sizes = pure (0, 0, nil, [])
  marshal_attributes_with_buffers o (a ∷ rest) sizes = do
    buf ← make_bytes (length (a ∷ rest) * ck_attribute_size)
    pin o buf.ptr
    values ← put_buffers o buf.ptr (a ∷ rest) sizes
    pure (buf.ptr, length (a ∷ rest), buf, values)

  -- The array is read at offset `off` on.
  unfoldable pub unmarshal_attributes : ℕ → List Slice → M S (List Attribute)
  unmarshal_attributes off [] = pure []
  unmarshal_attributes off (v ∷ vs) = do
    typ ← get_word off
    value_len ← get_word (off + 16)
    rest ← unmarshal_attributes (off + 24) vs
    pure (
        record {
          type = typ;
          value =
              if ltb 0 value_len && leb value_len v.len
              then record { ptr = v.ptr; len = value_len }
              else nil;
        }
        ∷ rest)

  unfoldable pub query_sizes : ℕ → ℕ → M S (List ℕ)
  query_sizes off zero = pure []
  query_sizes off (suc n) = do
    size ← get_word (off + 16)
    sizes ← query_sizes (off + 24) n
    pure (size ∷ sizes)

  -- The type switch of marshalMechanism on `m.generator`.
  unfoldable pub param_bytes : Env S → ℕ → Slice → Generator → M S Slice
  param_bytes env o parameter absent = pure parameter
  param_bytes env o parameter (gcm g) = gcm_marshal env g
  param_bytes env o parameter (oaep p) = oaep_marshal o p
  param_bytes env o parameter (ecdh e) = ecdh_marshal o e

  unfoldable pub marshal_mechanism : Env S → ℕ → List Mechanism → M S ℕ
  unfolding param_bytes
  marshal_mechanism env o [] = pure 0
  marshal_mechanism env o (m ∷ ms) = do
    params ← param_bytes env o m.parameter m.generator
    buf ← make_bytes ck_mechanism_size
    pin o buf.ptr
    put_word buf.ptr m.mechanism
    put_word (buf.ptr + 8) (← pin_bytes o params)
    put_word (buf.ptr + 16) params.len
    pure buf.ptr
