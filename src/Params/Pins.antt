-- ===== src/Params/Pins.antt =====
-- The structures of params.go pin with the given pinner and no other.
use gopkcs.Prelude.{ℕ, refl, inl, inr, Option, some, Bool-cases}
use gopkcs.Machine.Effects.{allocate, Slice, Env, GcmParams}
use gopkcs.Machine.Pins.{Uses, Keeps-same}
use gopkcs.Machine.Pins.Primitives.{primitives}
use gopkcs.Types.{OaepParams, Ecdh1DeriveParams}
use gopkcs.Params.{pin_bytes, oaep_marshal, ecdh_marshal, gcm_marshal, get_gcm, put_gcm, mmap}

module _ {S : Type 0} (o : ℕ) where
  pub pin_bytes-Uses : (b : Slice) → Uses (some o) (pin_bytes {S = S} o b)
  unfolding pin_bytes
  pin_bytes-Uses b = search primitives depth 9

  pub oaep_marshal-Uses : (p : OaepParams) → Uses (some o) (oaep_marshal {S = S} o p)
  unfolding oaep_marshal
  oaep_marshal-Uses p = search (primitives, pin_bytes-Uses) depth 20

  pub ecdh_marshal-Uses : (e : Ecdh1DeriveParams) → Uses (some o) (ecdh_marshal {S = S} o e)
  unfolding ecdh_marshal
  ecdh_marshal-Uses e = search (primitives, pin_bytes-Uses) depth 20

module _ {S : Type 0} (own : Option ℕ) where
  get_gcm-Uses : (g : ℕ) → Uses own (get_gcm {S = S} g)
  unfolding get_gcm
  get_gcm-Uses g = record { runs = λ w tidy made. Keeps-same own w _ refl (λ x. refl) }

  put_gcm-Uses : (g : ℕ) (v : GcmParams) → Uses own (put_gcm {S = S} g v)
  unfolding put_gcm
  put_gcm-Uses g v = record { runs = λ w tidy made. Keeps-same own w _ refl (λ x. refl) }

  mmap-Uses : (env : Env S) (size : ℕ) → Uses own (mmap env size)
  unfolding mmap allocate
  mmap-Uses env size = record {
    runs = λ w tidy made. elim (Bool-cases (env.grants size w.token)) [
      | inl e ↦ rw e (Keeps-same own w _ refl (λ x. refl))
      | inr e ↦ rw e (Keeps-same own w _ refl (λ x. refl))
    ];
  }

  pub gcm_marshal-Uses : (env : Env S) (g : ℕ) → Uses own (gcm_marshal env g)
  unfolding gcm_marshal
  gcm_marshal-Uses env g = search (primitives, get_gcm-Uses, put_gcm-Uses, mmap-Uses) depth 30
