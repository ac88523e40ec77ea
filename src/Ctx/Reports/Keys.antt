-- ===== src/Ctx/Reports/Keys.antt =====
-- The methods on keys report what the module returns.
use gopkcs.Prelude.{ℕ, List}
use gopkcs.Machine.Reports.{Reports, Logs}
use gopkcs.Ctx.Reports.Base.{shared}
use gopkcs.Params.Reports.{pin_bytes-Reports}
use gopkcs.Ctx.Reports.Marshal.{
  marshal_attributes-Reports, marshal_mechanism-Reports, pin_non_null-Reports,
}
use gopkcs.Machine.Effects.{Slice, Env}
use gopkcs.Ctx.Keys.{
  generate_key, generate_key_pair, wrap_key, unwrap_key, derive_key, seed_random, generate_random,
}
use gopkcs.Ctx.Base.{Ctx}
use gopkcs.Types.{Attribute, Mechanism}
use gopkcs.Prelude.Int.{ℤ}

module _ {S : Type 0} (log : S → List ℕ) (env : Env S) (logs : Logs env log) (c : Ctx) where
  pub generate_key-Reports :
      (sh : ℕ) (m : List Mechanism) (temp : List Attribute)
      → Reports log (generate_key env c sh m temp)
  unfolding generate_key
  generate_key-Reports sh m temp =
      search (shared, marshal_attributes-Reports, marshal_mechanism-Reports) depth 40

  pub generate_key_pair-Reports :
      (sh : ℕ) (m : List Mechanism) (public : List Attribute) (private : List Attribute)
      → Reports log (generate_key_pair env c sh m public private)
  unfolding generate_key_pair
  generate_key_pair-Reports sh m public private =
      search (shared, marshal_attributes-Reports, marshal_mechanism-Reports) depth 40

  pub wrap_key-Reports :
      (sh : ℕ) (m : List Mechanism) (wrappingkey : ℕ) (key : ℕ)
      → Reports log (wrap_key env c sh m wrappingkey key)
  unfolding wrap_key
  wrap_key-Reports sh m wrappingkey key =
      search (shared, marshal_mechanism-Reports, pin_non_null-Reports) depth 40

  pub unwrap_key-Reports :
      (sh : ℕ) (m : List Mechanism) (unwrappingkey : ℕ) (wrappedkey : Slice) (a2 : List Attribute)
      → Reports log (unwrap_key env c sh m unwrappingkey wrappedkey a2)
  unfolding unwrap_key
  unwrap_key-Reports sh m unwrappingkey wrappedkey a2 =
      search (shared, marshal_attributes-Reports, marshal_mechanism-Reports, pin_bytes-Reports)
        depth 40

  pub derive_key-Reports :
      (sh : ℕ) (m : List Mechanism) (basekey : ℕ) (a2 : List Attribute)
      → Reports log (derive_key env c sh m basekey a2)
  unfolding derive_key
  derive_key-Reports sh m basekey a2 =
      search (shared, marshal_attributes-Reports, marshal_mechanism-Reports) depth 40

  pub seed_random-Reports : (sh : ℕ) (seed : Slice) → Reports log (seed_random env c sh seed)
  unfolding seed_random
  seed_random-Reports sh seed = search (shared, pin_bytes-Reports) depth 40

  pub generate_random-Reports : (sh : ℕ) (n : ℤ) → Reports log (generate_random env c sh n)
  unfolding generate_random
  generate_random-Reports sh n = search (shared, pin_non_null-Reports) depth 40
