-- ===== src/Params.antt =====
-- params.go: mechanism parameters, laid out for the module.
pub mod Layout
pub mod Gcm
pub mod Release
pub mod Pins
pub mod Reports
use gopkcs.Prelude.{ℕ, ◌+◌, ◌*◌, List, [], ◌∷◌, ◌++◌, ◌==◌, if◌then◌else◌}
use gopkcs.Prelude.Int.{ℤ, to_u64}
use gopkcs.Machine.Effects.{
  Slice, nil, Mapping, GcmOp, GcmParams, Env, code, M, ok, err, pure, ◌>>=◌, ◌>>◌, pin, put_word,
  put_bytes, get_bytes, allocate, make_bytes, bytes_of_string,
}
use gopkcs.Errors.{ckr_host_memory}
use gopkcs.Types.{OaepParams, Ecdh1DeriveParams}

-- pinBytes of arena.go.
unfoldable pub pin_bytes : {S : Type 0} → ℕ → Slice → M S ℕ
pin_bytes o b = if b.len == 0 then pure 0 else (do pin o b.ptr; pure b.ptr)

-- `OAEPParams.marshal`
unfoldable pub oaep_marshal : {S : Type 0} → ℕ → OaepParams → M S Slice
unfolding pin_bytes
oaep_marshal o p = do
  b ← make_bytes 40
  put_word b.ptr p.hash_alg
  put_word (b.ptr + 8) p.mgf
  put_word (b.ptr + 16) p.source_type
  put_word (b.ptr + 24) (← pin_bytes o p.source_data)
  put_word (b.ptr + 32) p.source_data.len
  pure b

-- `ECDH1DeriveParams.marshal`
unfoldable pub ecdh_marshal : {S : Type 0} → ℕ → Ecdh1DeriveParams → M S Slice
unfolding pin_bytes
ecdh_marshal o e = do
  b ← make_bytes 40
  put_word b.ptr e.kdf
  put_word (b.ptr + 8) e.shared_data.len
  put_word (b.ptr + 16) (← pin_bytes o e.shared_data)
  put_word (b.ptr + 24) e.public_key_data.len
  put_word (b.ptr + 32) (← pin_bytes o e.public_key_data)
  pure b

unfoldable pub new_pss_params : {S : Type 0} → ℕ → ℕ → ℕ → M S Slice
new_pss_params hash_alg mgf salt_length = do
  b ← make_bytes 24
  put_word b.ptr hash_alg
  put_word (b.ptr + 8) mgf
  put_word (b.ptr + 16) salt_length
  pure b

abbrev pub set_gcm : (ℕ → GcmParams) → ℕ → GcmParams → ℕ → GcmParams
set_gcm f g v x = if g == x then v else f x

-- `bytes.Clone`
unfoldable pub clone : {S : Type 0} → Slice → M S Slice
clone b = if b.len == 0 then pure nil else (do bs ← get_bytes b.ptr b.len; bytes_of_string bs)

abbrev newest_iv : Slice → List GcmOp → Slice
newest_iv iv [] = iv
newest_iv iv (op ∷ []) = op.iv
newest_iv iv (op ∷ next ∷ ops) = newest_iv iv (next ∷ ops)

-- `munmap` releases one mapping; its error is ignored.
abbrev pub unmap : ℕ → List Mapping → List Mapping
unmap base [] = []
unmap base (m ∷ ms) = if m.base == base then ms else m ∷ unmap base ms

-- `addr`: NULL for empty memory.
abbrev pub addr : Slice → ℕ
addr b = if b.len == 0 then 0 else b.ptr

module _ {S : Type 0} where
  get_gcm : ℕ → M S GcmParams
  get_gcm g w = ok (w.gcms g) w

  put_gcm : ℕ → GcmParams → M S (Unit {0})
  put_gcm g v w = ok tt (record w { gcms = set_gcm w.gcms g v })

  -- The new object is the one that `g` points to.
  unfoldable pub new_gcm_params : ℕ → Slice → Slice → ℤ → M S (Unit {0})
  unfolding clone put_gcm
  new_gcm_params g iv aad tag_size = do
    own ← clone iv
    put_gcm g (record { iv = own; aad = aad; tag_size = tag_size; ops = [] })

  -- `GCMParams.IV`
  unfoldable pub gcm_iv : ℕ → M S Slice
  unfolding clone get_gcm
  gcm_iv g = do p ← get_gcm g; clone (newest_iv p.iv p.ops)

  munmap : Mapping → M S (Unit {0})
  munmap m w = ok tt (record w { maps = unmap m.base w.maps })

  free_ops : List GcmOp → M S (Unit {0})
  unfolding munmap
  free_ops [] = pure tt
  free_ops (op ∷ ops) = do munmap op.mem; free_ops ops

  -- `GCMParams.Free`
  unfoldable pub gcm_free : ℕ → M S (Unit {0})
  unfolding get_gcm put_gcm free_ops
  gcm_free g = do p ← get_gcm g; free_ops p.ops; put_gcm g (record p { ops = [] })

  -- `mmap(-1, 0, size, …)`: fresh zeroed memory outside the Go heap, or an error.
  mmap : Env S → ℕ → M S Mapping
  unfolding allocate
  mmap env size w =
      if env.grants size w.token
      then (do
        p ← allocate size
        λ w'.
            ok (record { base = p; size = size })
              (record w' { maps = record { base = p; size = size } ∷ w'.maps }))
          w
      else err (code ckr_host_memory) w

  -- `GCMParams.marshal`
  unfoldable pub gcm_marshal : Env S → ℕ → M S Slice
  unfolding mmap get_gcm put_gcm
  gcm_marshal env g = do
    p ← get_gcm g
    mem ← mmap env (48 + p.iv.len + p.aad.len)
    let b : Slice = record { ptr = mem.base; len = 48 }
    let iv : Slice = record { ptr = mem.base + 48; len = p.iv.len }
    let aad : Slice = record { ptr = mem.base + 48 + p.iv.len; len = p.aad.len }
    put_bytes iv.ptr (← get_bytes p.iv.ptr p.iv.len)
    put_bytes aad.ptr (← get_bytes p.aad.ptr p.aad.len)
    put_word b.ptr (addr iv)
    put_word (b.ptr + 8) iv.len
    put_word (b.ptr + 16) (iv.len * 8)
    put_word (b.ptr + 24) (addr aad)
    put_word (b.ptr + 32) aad.len
    put_word (b.ptr + 40) (to_u64 p.tag_size)
    put_gcm g (record p { ops = p.ops ++ record { mem = mem; iv = iv } ∷ [] })
    pure b
