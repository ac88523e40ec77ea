-- ===== src/Ctx/Pins/Keys.antt =====
-- Which pinners the methods on keys use: none but their own.
use gopkcs.Prelude.{ℕ, none, List}
use gopkcs.Machine.Effects.{Slice, Env}
use gopkcs.Machine.Pins.{Uses}
use gopkcs.Ctx.Pins.Base.{shared}
use gopkcs.Ctx.Keys.{
  generate_key, generate_key_pair, wrap_key, unwrap_key, derive_key, seed_random, generate_random,
}
use gopkcs.Ctx.Base.{Ctx}
use gopkcs.Types.{Attribute, Mechanism}
use gopkcs.Params.Pins.{pin_bytes-Uses}
use gopkcs.Prelude.Int.{ℤ}
use gopkcs.Ctx.Pins.Marshal.{marshal_attributes-Uses, pin_non_null-Uses, marshal_mechanism-Uses}

module _ {S : Type 0} (env : Env S) (c : Ctx) where
  pub generate_key-Uses :
      (sh : ℕ) (m : List Mechanism) (temp : List Attribute)
      → Uses none (generate_key env c sh m temp)
  unfolding generate_key
  generate_key-Uses sh m temp =
      search (shared, marshal_attributes-Uses, marshal_mechanism-Uses) depth 40

  pub generate_key_pair-Uses :
      (sh : ℕ) (m : List Mechanism) (public : List Attribute) (private : List Attribute)
      → Uses none (generate_key_pair env c sh m public private)
  unfolding generate_key_pair
  generate_key_pair-Uses sh m public private =
      search (shared, marshal_attributes-Uses, marshal_mechanism-Uses) depth 40

  pub wrap_key-Uses :
      (sh : ℕ) (m : List Mechanism) (wrappingkey : ℕ) (key : ℕ)
      → Uses none (wrap_key env c sh m wrappingkey key)
  unfolding wrap_key
  wrap_key-Uses sh m wrappingkey key =
      search (shared, marshal_mechanism-Uses, pin_non_null-Uses) depth 40

  pub unwrap_key-Uses :
      (sh : ℕ) (m : List Mechanism) (unwrappingkey : ℕ) (wrappedkey : Slice) (a2 : List Attribute)
      → Uses none (unwrap_key env c sh m unwrappingkey wrappedkey a2)
  unfolding unwrap_key
  unwrap_key-Uses sh m unwrappingkey wrappedkey a2 =
      search (shared, marshal_attributes-Uses, marshal_mechanism-Uses, pin_bytes-Uses) depth 40

  pub derive_key-Uses :
      (sh : ℕ) (m : List Mechanism) (basekey : ℕ) (a2 : List Attribute)
      → Uses none (derive_key env c sh m basekey a2)
  unfolding derive_key
  derive_key-Uses sh m basekey a2 =
      search (shared, marshal_attributes-Uses, marshal_mechanism-Uses) depth 40

  pub seed_random-Uses : (sh : ℕ) (seed : Slice) → Uses none (seed_random env c sh seed)
  unfolding seed_random
  seed_random-Uses sh seed = search (shared, pin_bytes-Uses) depth 40

  pub generate_random-Uses : (sh : ℕ) (n : ℤ) → Uses none (generate_random env c sh n)
  unfolding generate_random
  generate_random-Uses sh n = search (shared, pin_non_null-Uses) depth 40
