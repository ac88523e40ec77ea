-- ===== src/Ctx/Pins/Base.antt =====
-- Which pinners the code that the methods share uses: none.
use gopkcs.Prelude.{ℕ, inl, inr, Option, none, some, List, Option-cases}
use gopkcs.Machine.Effects.{Slice, Env, Error}
use gopkcs.Machine.Pins.{Uses, bind-Uses, pure-Uses, fail-Uses, crash-Uses}
use gopkcs.Machine.Pins.Primitives.{
  primitives, if-Uses, allocate-Uses, make_bytes-Uses, make_words-Uses, make_bytes_int-Uses,
  make_words_int-Uses, put_bytes-Uses, put_word-Uses, get_bytes-Uses, get_words-Uses, get_word-Uses,
  get_byte-Uses, new_word-Uses, bytes_of_string-Uses, prefix-Uses, syscall_n-Uses, pin-Uses,
}
use gopkcs.FuncList.{FunctionList}
use gopkcs.Errors.{return_error}
use gopkcs.Ctx.Base.{Ctx, invoke, functions, get_text, get_version, first_words}

module _ {S : Type 0} (own : Option ℕ) where
  pub return_error-Uses : (e : Option Error) → Uses own (return_error {S = S} e)
  return_error-Uses none = pure-Uses own tt
  return_error-Uses (some e) = fail-Uses own e

  pub functions-Uses : (c : Ctx) → Uses own (functions {S = S} c)
  unfolding functions
  functions-Uses c = elim (Option-cases c.fl) [
    | inl e ↦ rw e (crash-Uses own)
    | inr (fl, e) ↦ rw e (pure-Uses own fl)
  ]

  pub invoke-Uses :
      (env : Env S) (c : Ctx) (f : FunctionList → ℕ) (args : List ℕ)
      → Uses own (invoke env c f args)
  unfolding invoke
  invoke-Uses env c f args =
      bind-Uses own _ _ (functions-Uses c) (λ fl. syscall_n-Uses own env (f fl) args)

  pub get_text-Uses : (p n : ℕ) → Uses own (get_text {S = S} p n)
  unfolding get_text
  get_text-Uses p n = search primitives depth 9

  pub get_version-Uses : (p : ℕ) → Uses own (get_version {S = S} p)
  unfolding get_version
  get_version-Uses p = search primitives depth 9

  pub first_words-Uses : (s : Slice) (n : ℕ) → Uses own (first_words {S = S} s n)
  unfolding first_words
  first_words-Uses s n = search primitives depth 9

pub ruleset shared = (
  primitives, return_error-Uses, functions-Uses, invoke-Uses, get_text-Uses, get_version-Uses,
  first_words-Uses,
)
