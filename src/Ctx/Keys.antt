-- ===== src/Ctx/Keys.antt =====
-- The methods of pkcs11.go that make, wrap and derive keys, and random numbers.
use gopkcs.Prelude.{ℕ, List, [], ◌∷◌}
use gopkcs.Prelude.Int.{ℤ, to_u64}
use gopkcs.Machine.Effects.{
  Slice, Env, M, pure, ◌>>=◌, ◌>>◌, new_word, get_word, make_bytes, make_bytes_int, pin, prefix,
  with_pinner,
}
use gopkcs.Errors.{check}
use gopkcs.Types.{Attribute, Mechanism}
use gopkcs.Params.{pin_bytes}
use gopkcs.Arena.{pin_non_null, marshal_attributes, marshal_mechanism}
use gopkcs.Ctx.Base.{Ctx, invoke}

module _ {S : Type 0} (env : Env S) (c : Ctx) where
  unfoldable pub generate_key : ℕ → List Mechanism → List Attribute → M S ℕ
  generate_key sh m temp = with_pinner λ a. do
    mech_ptr ← marshal_mechanism env a m
    (attr_ptr, attr_len) ← marshal_attributes a temp
    key ← new_word
    pin a key
    rv ← invoke env c (λ fl. fl.c_generate_key) (sh ∷ mech_ptr ∷ attr_ptr ∷ attr_len ∷ key ∷ [])
    check rv
    get_word key

  unfoldable pub generate_key_pair :
      ℕ → List Mechanism → List Attribute → List Attribute → M S (ℕ × ℕ)
  generate_key_pair sh m public private = with_pinner λ a. do
    mech_ptr ← marshal_mechanism env a m
    (pub_ptr, pub_len) ← marshal_attributes a public
    (priv_ptr, priv_len) ← marshal_attributes a private
    pub_key ← new_word
    priv_key ← new_word
    pin a pub_key
    pin a priv_key
    rv ←
        invoke env c (λ fl. fl.c_generate_key_pair)
          (sh ∷ mech_ptr ∷ pub_ptr ∷ pub_len ∷ priv_ptr ∷ priv_len ∷ pub_key ∷ priv_key ∷ [])
    check rv
    public_handle ← get_word pub_key
    private_handle ← get_word priv_key
    pure (public_handle, private_handle)

  unfoldable pub wrap_key : ℕ → List Mechanism → ℕ → ℕ → M S Slice
  wrap_key sh m wrappingkey key = with_pinner λ a. do
    mech_ptr ← marshal_mechanism env a m
    length_word ← new_word
    pin a length_word
    rv ←
        invoke env c (λ fl. fl.c_wrap_key)
          (sh ∷ mech_ptr ∷ wrappingkey ∷ key ∷ 0 ∷ length_word ∷ [])
    check rv
    size ← get_word length_word
    out ← make_bytes size
    p_out ← pin_non_null 1 a out
    rv2 ←
        invoke env c (λ fl. fl.c_wrap_key)
          (sh ∷ mech_ptr ∷ wrappingkey ∷ key ∷ p_out ∷ length_word ∷ [])
    check rv2
    written ← get_word length_word
    prefix out written

  unfoldable pub unwrap_key : ℕ → List Mechanism → ℕ → Slice → List Attribute → M S ℕ
  unwrap_key sh m unwrappingkey wrappedkey a2 = with_pinner λ a. do
    mech_ptr ← marshal_mechanism env a m
    (attr_ptr, attr_len) ← marshal_attributes a a2
    p_wrap ← pin_bytes a wrappedkey
    key ← new_word
    pin a key
    rv ←
        invoke env c (λ fl. fl.c_unwrap_key)
          (sh ∷ mech_ptr ∷ unwrappingkey ∷ p_wrap ∷ wrappedkey.len ∷ attr_ptr ∷ attr_len ∷ key ∷ [])
    check rv
    get_word key

  unfoldable pub derive_key : ℕ → List Mechanism → ℕ → List Attribute → M S ℕ
  derive_key sh m basekey a2 = with_pinner λ a. do
    mech_ptr ← marshal_mechanism env a m
    (attr_ptr, attr_len) ← marshal_attributes a a2
    key ← new_word
    pin a key
    rv ←
        invoke env c (λ fl. fl.c_derive_key)
          (sh ∷ mech_ptr ∷ basekey ∷ attr_ptr ∷ attr_len ∷ key ∷ [])
    check rv
    get_word key

  unfoldable pub seed_random : ℕ → Slice → M S (Unit {0})
  seed_random sh seed = with_pinner λ o. do
    p_seed ← pin_bytes o seed
    rv ← invoke env c (λ fl. fl.c_seed_random) (sh ∷ p_seed ∷ seed.len ∷ [])
    check rv

  unfoldable pub generate_random : ℕ → ℤ → M S Slice
  generate_random sh n = do
    buf ← make_bytes_int n
    with_pinner λ o. do
      p_buf ← pin_non_null 1 o buf
      rv ← invoke env c (λ fl. fl.c_generate_random) (sh ∷ p_buf ∷ to_u64 n ∷ [])
      check rv
      pure buf
