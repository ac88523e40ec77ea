-- ===== src/Ctx/Pins/Marshal.antt =====
-- Marshalling pins with the arena's pinner and no other.
use gopkcs.Prelude.{ℕ, zero, suc, ◌+◌, some, List, [], ◌∷◌}
use gopkcs.Machine.Effects.{Slice, Env}
use gopkcs.Machine.Pins.{Uses, bind-Uses, pure-Uses, crash-Uses}
use gopkcs.Machine.Pins.Primitives.{put_word-Uses, get_word-Uses}
use gopkcs.Types.{Attribute, Mechanism, Generator, absent, gcm, oaep, ecdh}
use gopkcs.Arena.{
  pin_non_null, put_attribute, put_attributes, marshal_attributes, put_types,
  marshal_attributes_for_query, put_buffer, put_buffers, marshal_attributes_with_buffers,
  unmarshal_attributes, query_sizes, param_bytes, marshal_mechanism,
}
use gopkcs.Machine.Pins.Primitives.{primitives}
use gopkcs.Params.Pins.{gcm_marshal-Uses, pin_bytes-Uses, oaep_marshal-Uses, ecdh_marshal-Uses}

module _ {S : Type 0} (o : ℕ) where
  pub pin_non_null-Uses : (n : ℕ) (b : Slice) → Uses (some o) (pin_non_null {S = S} n o b)
  unfolding pin_non_null
  pin_non_null-Uses n b = search primitives depth 9

  put_attribute-Uses : (off : ℕ) (a : Attribute) → Uses (some o) (put_attribute {S = S} o off a)
  unfolding put_attribute
  put_attribute-Uses off a = search primitives depth 20

  put_attributes-Uses :
      (off : ℕ) (attrs : List Attribute) → Uses (some o) (put_attributes {S = S} o off attrs)
  unfolding put_attributes
  put_attributes-Uses off [] = pure-Uses (some o) tt
  put_attributes-Uses off (a ∷ rest) =
      bind-Uses (some o) _ _ (put_attribute-Uses off a) (λ u. put_attributes-Uses (off + 24) rest)

  pub marshal_attributes-Uses :
      (attrs : List Attribute) → Uses (some o) (marshal_attributes {S = S} o attrs)
  unfolding marshal_attributes
  marshal_attributes-Uses [] = pure-Uses (some o) (0, 0)
  marshal_attributes-Uses (a ∷ rest) = search (primitives, put_attributes-Uses) depth 20

  put_types-Uses : (off : ℕ) (attrs : List Attribute) → Uses (some o) (put_types {S = S} off attrs)
  unfolding put_types
  put_types-Uses off [] = pure-Uses (some o) tt
  put_types-Uses off (a ∷ rest) =
      bind-Uses (some o) _ _ (put_word-Uses (some o) off a.type)
        (λ u. put_types-Uses (off + 24) rest)

  pub marshal_attributes_for_query-Uses :
      (attrs : List Attribute) → Uses (some o) (marshal_attributes_for_query {S = S} o attrs)
  unfolding marshal_attributes_for_query
  marshal_attributes_for_query-Uses [] = pure-Uses (some o) _
  marshal_attributes_for_query-Uses (a ∷ rest) = search (primitives, put_types-Uses) depth 20

  put_buffer-Uses : (off sz : ℕ) → Uses (some o) (put_buffer {S = S} o off sz)
  unfolding put_buffer
  put_buffer-Uses off sz = search primitives depth 20

  put_buffers-Uses :
      (off : ℕ) (attrs : List Attribute) (sizes : List ℕ)
      → Uses (some o) (put_buffers {S = S} o off attrs sizes)
  unfolding put_buffers
  put_buffers-Uses off [] sizes = pure-Uses (some o) []
  put_buffers-Uses off (a ∷ rest) [] = crash-Uses (some o)
  put_buffers-Uses off (a ∷ rest) (sz ∷ sizes) =
      bind-Uses (some o) _ _ (put_word-Uses (some o) off a.type) λ _.
        bind-Uses (some o) _ _ (put_buffer-Uses off sz) λ v.
          bind-Uses (some o) _ _ (put_word-Uses (some o) (off + 16) sz) λ _.
            bind-Uses (some o) _ _ (put_buffers-Uses (off + 24) rest sizes)
              λ vs. pure-Uses (some o) (v ∷ vs)

  pub marshal_attributes_with_buffers-Uses :
      (attrs : List Attribute) (sizes : List ℕ)
      → Uses (some o) (marshal_attributes_with_buffers {S = S} o attrs sizes)
  unfolding marshal_attributes_with_buffers
  marshal_attributes_with_buffers-Uses [] sizes = pure-Uses (some o) _
  marshal_attributes_with_buffers-Uses (a ∷ rest) sizes =
      search (primitives, put_buffers-Uses) depth 20

  pub unmarshal_attributes-Uses :
      (off : ℕ) (values : List Slice) → Uses (some o) (unmarshal_attributes {S = S} off values)
  unfolding unmarshal_attributes
  unmarshal_attributes-Uses off [] = pure-Uses (some o) []
  unmarshal_attributes-Uses off (v ∷ vs) = bind-Uses (some o) _ _ (get_word-Uses (some o) off) λ t.
      bind-Uses (some o) _ _ (get_word-Uses (some o) (off + 16)) λ n.
        bind-Uses (some o) _ _ (unmarshal_attributes-Uses (off + 24) vs)
          λ rest. pure-Uses (some o) _

  pub query_sizes-Uses : (off n : ℕ) → Uses (some o) (query_sizes {S = S} off n)
  unfolding query_sizes
  query_sizes-Uses off zero = pure-Uses (some o) []
  query_sizes-Uses off (suc n) = bind-Uses (some o) _ _ (get_word-Uses (some o) (off + 16)) λ size.
      bind-Uses (some o) _ _ (query_sizes-Uses (off + 24) n)
        λ sizes. pure-Uses (some o) (size ∷ sizes)

  param_bytes-Uses :
      (env : Env S) (parameter : Slice) (g : Generator)
      → Uses (some o) (param_bytes env o parameter g)
  unfolding param_bytes
  param_bytes-Uses env parameter absent = pure-Uses (some o) parameter
  param_bytes-Uses env parameter (gcm g) = gcm_marshal-Uses (some o) env g
  param_bytes-Uses env parameter (oaep p) = oaep_marshal-Uses o p
  param_bytes-Uses env parameter (ecdh e) = ecdh_marshal-Uses o e

  pub marshal_mechanism-Uses :
      (env : Env S) (ms : List Mechanism) → Uses (some o) (marshal_mechanism env o ms)
  unfolding marshal_mechanism
  marshal_mechanism-Uses env [] = pure-Uses (some o) 0
  marshal_mechanism-Uses env (m ∷ ms) =
      search (primitives, param_bytes-Uses, pin_bytes-Uses) depth 20
