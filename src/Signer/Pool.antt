-- ===== src/Signer/Pool.antt =====
-- NewPool of signer.go, behind the registry of modules.
pub mod Opened
pub mod Sessions
pub mod Concurrent
use gopkcs.Prelude.{ℕ, zero, suc, ◌+◌, List, [], ◌∷◌, ◌++◌}
use gopkcs.Prelude.Int.{ℤ, pos, negsuc}
use gopkcs.Machine.Effects.{Error, message}
use gopkcs.Signer.Interface.{Ret, ok, err, Module, PublicKey, Key}
use gopkcs.Signer.Sign.{key_destroy, new_key}

-- The pool as it is made: `free` in the order in which its keys come out.
pub record Pool : Type 0 where
  pub public : PublicKey
  pub free : List Key

abbrev pub new_pool_of : PublicKey → List Key → Pool
new_pool_of public keys = record { public = public; free = keys }

module _ {T : Type 0} (m : Module T) where
  -- `for _, prev := range keys { prev.Destroy() }`
  unfoldable pub destroy_all : List Key → T → T
  destroy_all [] t = t
  destroy_all (k ∷ keys) t = destroy_all keys (key_destroy m k t).1

  -- The loop of NewPool: n keys to go, and those made so far.
  unfoldable pub make_keys : List ℕ → List ℕ → PublicKey → ℕ → List Key → T → Ret (List Key) × T
  make_keys token_label pass public zero keys t = (ok keys, t)
  make_keys token_label pass public (suc n) keys t =
      let (r, t') = new_key m token_label pass public t in
      elim r [
        | ok k ↦ make_keys token_label pass public n (keys ++ k ∷ []) t'
        | err e ↦ (err e, destroy_all keys t')
      ]

  -- Keys to make; for n < 1 there is an error.
  unfoldable pub new_pool : ℤ → List ℕ → List ℕ → PublicKey → T → Ret Pool × T
  new_pool (pos (suc n)) token_label pass public t =
      let (r, t') = make_keys token_label pass public (suc n) [] t in
      (elim r [ ok keys ↦ ok (new_pool_of public keys) | err e ↦ err e ], t')
  new_pool (pos zero) token_label pass public t =
      (err (message "pkcs11key: pool size must be >= 1"), t)
  new_pool (negsuc n) token_label pass public t =
      (err (message "pkcs11key: pool size must be >= 1"), t)
