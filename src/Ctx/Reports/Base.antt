-- ===== src/Ctx/Reports/Base.antt =====
-- The code that the methods share: one call of the module, and reading.
use gopkcs.Prelude.{ℕ, inl, inr, List, Option-cases}
use gopkcs.Machine.Reports.{Reports, Logs, Asks, pure-Reports, crash-Reports, syscall_n-Asks}
use gopkcs.Machine.Reports.Primitives.{primitives}
use gopkcs.Machine.Effects.{Slice, Env}
use gopkcs.FuncList.{FunctionList}
use gopkcs.Ctx.Base.{Ctx, invoke, functions, get_text, get_version, first_words}

module _ {S : Type 0} (log : S → List ℕ) where
  pub functions-Reports : (c : Ctx) → Reports log (functions {S = S} c)
  unfolding functions
  functions-Reports c = elim (Option-cases c.fl) [
    | inl e ↦ rw e (crash-Reports log)
    | inr (fl, e) ↦ rw e (pure-Reports log fl)
  ]

  pub invoke-Asks :
      (env : Env S) (c : Ctx) (f : FunctionList → ℕ) (args : List ℕ)
      → Logs env log
      → Asks log (invoke env c f args)
  unfolding invoke functions
  invoke-Asks env c f args logs = record {
    runs = λ w. elim (Option-cases c.fl) [
      | inl e ↦ rw e tt
      | inr (fl, e) ↦ rw e ((syscall_n-Asks log env logs (f fl) args).runs w)
    ];
  }

  pub get_text-Reports : (p n : ℕ) → Reports log (get_text {S = S} p n)
  unfolding get_text
  get_text-Reports p n = search primitives depth 9

  pub get_version-Reports : (p : ℕ) → Reports log (get_version {S = S} p)
  unfolding get_version
  get_version-Reports p = search primitives depth 9

  pub first_words-Reports : (s : Slice) (n : ℕ) → Reports log (first_words {S = S} s n)
  unfolding first_words
  first_words-Reports s n = search primitives depth 9

pub ruleset shared = (
  primitives, invoke-Asks, functions-Reports, get_text-Reports, get_version-Reports,
  first_words-Reports,
)
