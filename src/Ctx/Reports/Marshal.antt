-- ===== src/Ctx/Reports/Marshal.antt =====
-- Marshalling makes no call.
use gopkcs.Prelude.{ℕ, zero, suc, ◌+◌, List, [], ◌∷◌}
use gopkcs.Machine.Reports.{Reports, bind-Reports, pure-Reports, crash-Reports}
use gopkcs.Machine.Reports.Primitives.{primitives, put_word-Reports, get_word-Reports}
use gopkcs.Params.Reports.{
  pin_bytes-Reports, oaep_marshal-Reports, ecdh_marshal-Reports, gcm_marshal-Reports,
}
use gopkcs.Machine.Effects.{Slice, Env}
use gopkcs.Types.{Attribute, Mechanism, Generator, absent, gcm, oaep, ecdh}
use gopkcs.Arena.{
  pin_non_null, put_attribute, put_attributes, marshal_attributes, put_types,
  marshal_attributes_for_query, put_buffer, put_buffers, marshal_attributes_with_buffers,
  unmarshal_attributes, query_sizes, param_bytes, marshal_mechanism,
}

module _ {S : Type 0} (log : S → List ℕ) (o : ℕ) where
  pub pin_non_null-Reports : (n : ℕ) (b : Slice) → Reports log (pin_non_null {S = S} n o b)
  unfolding pin_non_null
  pin_non_null-Reports n b = search primitives depth 9

  put_attribute-Reports : (off : ℕ) (a : Attribute) → Reports log (put_attribute {S = S} o off a)
  unfolding put_attribute
  put_attribute-Reports off a = search primitives depth 20

  put_attributes-Reports :
      (off : ℕ) (attrs : List Attribute) → Reports log (put_attributes {S = S} o off attrs)
  unfolding put_attributes
  put_attributes-Reports off [] = pure-Reports log tt
  put_attributes-Reports off (a ∷ rest) =
      bind-Reports log _ _ (put_attribute-Reports off a)
        (λ u. put_attributes-Reports (off + 24) rest)

  pub marshal_attributes-Reports :
      (attrs : List Attribute) → Reports log (marshal_attributes {S = S} o attrs)
  unfolding marshal_attributes
  marshal_attributes-Reports [] = pure-Reports log (0, 0)
  marshal_attributes-Reports (a ∷ rest) = search (primitives, put_attributes-Reports) depth 20

  put_types-Reports : (off : ℕ) (attrs : List Attribute) → Reports log (put_types {S = S} off attrs)
  unfolding put_types
  put_types-Reports off [] = pure-Reports log tt
  put_types-Reports off (a ∷ rest) =
      bind-Reports log _ _ (put_word-Reports log off a.type)
        (λ u. put_types-Reports (off + 24) rest)

  pub marshal_attributes_for_query-Reports :
      (attrs : List Attribute) → Reports log (marshal_attributes_for_query {S = S} o attrs)
  unfolding marshal_attributes_for_query
  marshal_attributes_for_query-Reports [] = pure-Reports log _
  marshal_attributes_for_query-Reports (a ∷ rest) = search (primitives, put_types-Reports) depth 20

  put_buffer-Reports : (off sz : ℕ) → Reports log (put_buffer {S = S} o off sz)
  unfolding put_buffer
  put_buffer-Reports off sz = search primitives depth 20

  put_buffers-Reports :
      (off : ℕ) (attrs : List Attribute) (sizes : List ℕ)
      → Reports log (put_buffers {S = S} o off attrs sizes)
  unfolding put_buffers
  put_buffers-Reports off [] sizes = pure-Reports log []
  put_buffers-Reports off (a ∷ rest) [] = crash-Reports log
  put_buffers-Reports off (a ∷ rest) (sz ∷ sizes) =
      bind-Reports log _ _ (put_word-Reports log off a.type) λ _.
        bind-Reports log _ _ (put_buffer-Reports off sz) λ v.
          bind-Reports log _ _ (put_word-Reports log (off + 16) sz) λ _.
            bind-Reports log _ _ (put_buffers-Reports (off + 24) rest sizes)
              λ vs. pure-Reports log (v ∷ vs)

  pub marshal_attributes_with_buffers-Reports :
      (attrs : List Attribute) (sizes : List ℕ)
      → Reports log (marshal_attributes_with_buffers {S = S} o attrs sizes)
  unfolding marshal_attributes_with_buffers
  marshal_attributes_with_buffers-Reports [] sizes = pure-Reports log _
  marshal_attributes_with_buffers-Reports (a ∷ rest) sizes =
      search (primitives, put_buffers-Reports) depth 20

  pub unmarshal_attributes-Reports :
      (off : ℕ) (values : List Slice) → Reports log (unmarshal_attributes {S = S} off values)
  unfolding unmarshal_attributes
  unmarshal_attributes-Reports off [] = pure-Reports log []
  unmarshal_attributes-Reports off (v ∷ vs) = bind-Reports log _ _ (get_word-Reports log off) λ t.
      bind-Reports log _ _ (get_word-Reports log (off + 16)) λ n.
        bind-Reports log _ _ (unmarshal_attributes-Reports (off + 24) vs) λ rest. pure-Reports log _

  pub query_sizes-Reports : (off n : ℕ) → Reports log (query_sizes {S = S} off n)
  unfolding query_sizes
  query_sizes-Reports off zero = pure-Reports log []
  query_sizes-Reports off (suc n) = bind-Reports log _ _ (get_word-Reports log (off + 16)) λ size.
      bind-Reports log _ _ (query_sizes-Reports (off + 24) n)
        λ sizes. pure-Reports log (size ∷ sizes)

  param_bytes-Reports :
      (env : Env S) (parameter : Slice) (g : Generator)
      → Reports log (param_bytes env o parameter g)
  unfolding param_bytes
  param_bytes-Reports env parameter absent = pure-Reports log parameter
  param_bytes-Reports env parameter (gcm g) = gcm_marshal-Reports log env g
  param_bytes-Reports env parameter (oaep p) = oaep_marshal-Reports log o p
  param_bytes-Reports env parameter (ecdh e) = ecdh_marshal-Reports log o e

  pub marshal_mechanism-Reports :
      (env : Env S) (ms : List Mechanism) → Reports log (marshal_mechanism env o ms)
  unfolding marshal_mechanism
  marshal_mechanism-Reports env [] = pure-Reports log 0
  marshal_mechanism-Reports env (m ∷ ms) =
      search (primitives, param_bytes-Reports, pin_bytes-Reports) depth 20
