-- ===== src/Params/Reports.antt =====
-- The structures of params.go make no call; a mapping that is refused is an error of their own.
use gopkcs.Prelude.{ℕ, refl, inl, inr, List, Bool-cases}
use gopkcs.Machine.Reports.{Reports}
use gopkcs.Machine.Reports.Primitives.{primitives}
use gopkcs.Machine.Effects.{allocate, Slice, Env, GcmParams}
use gopkcs.Types.{OaepParams, Ecdh1DeriveParams}
use gopkcs.Params.{pin_bytes, oaep_marshal, ecdh_marshal, gcm_marshal, get_gcm, put_gcm, mmap}

module _ {S : Type 0} (log : S → List ℕ) (o : ℕ) where
  pub pin_bytes-Reports : (b : Slice) → Reports log (pin_bytes {S = S} o b)
  unfolding pin_bytes
  pin_bytes-Reports b = search primitives depth 9

  pub oaep_marshal-Reports : (p : OaepParams) → Reports log (oaep_marshal {S = S} o p)
  unfolding oaep_marshal
  oaep_marshal-Reports p = search (primitives, pin_bytes-Reports) depth 20

  pub ecdh_marshal-Reports : (e : Ecdh1DeriveParams) → Reports log (ecdh_marshal {S = S} o e)
  unfolding ecdh_marshal
  ecdh_marshal-Reports e = search (primitives, pin_bytes-Reports) depth 20

module _ {S : Type 0} (log : S → List ℕ) where
  get_gcm-Reports : (g : ℕ) → Reports log (get_gcm {S = S} g)
  unfolding get_gcm
  get_gcm-Reports g = record { runs = λ w. (0, refl) }

  put_gcm-Reports : (g : ℕ) (v : GcmParams) → Reports log (put_gcm {S = S} g v)
  unfolding put_gcm
  put_gcm-Reports g v = record { runs = λ w. (0, refl) }

  mmap-Reports : (env : Env S) (size : ℕ) → Reports log (mmap env size)
  unfolding mmap allocate
  mmap-Reports env size = record {
    runs = λ w. elim (Bool-cases (env.grants size w.token)) [
      | inl e ↦ rw e ((0, refl))
      | inr e ↦ rw e (inr (inr refl, (0, refl)))
    ];
  }

  pub gcm_marshal-Reports : (env : Env S) (g : ℕ) → Reports log (gcm_marshal env g)
  unfolding gcm_marshal
  gcm_marshal-Reports env g =
      search (primitives, get_gcm-Reports, put_gcm-Reports, mmap-Reports) depth 30
