-- ===== src/Ctx/Pins/Brackets.antt =====
-- The code between `Pin` and `Unpin` in the methods that unpin by hand.
use gopkcs.Prelude.{ℕ, inl, inr, List, Option-cases}
use gopkcs.Machine.Effects.{Slice, Env}
use gopkcs.Machine.Pins.Bracket.{bind-Certain, Certain}
use gopkcs.Machine.Pins.Brackets.{syscall_n-Certain, pure-Certain, crash-Certain, brackets}
use gopkcs.Ctx.Base.{Ctx, functions, invoke}
use gopkcs.Arena.{pin_non_null}
use gopkcs.FuncList.{FunctionList}

module _ {S : Type 0} (o : ℕ) where
  functions-Certain : (c : Ctx) → Certain o (functions {S = S} c)
  unfolding functions
  functions-Certain c = elim (Option-cases c.fl) [
    | inl e ↦ rw e (crash-Certain o)
    | inr (fl, e) ↦ rw e (pure-Certain o fl)
  ]

  pub invoke-Certain :
      (env : Env S) (c : Ctx) (f : FunctionList → ℕ) (args : List ℕ)
      → Certain o (invoke env c f args)
  unfolding invoke
  invoke-Certain env c f args =
      bind-Certain o _ _ (functions-Certain c) (λ fl. syscall_n-Certain o env (f fl) args)

  pub pin_non_null-Certain : (n : ℕ) (b : Slice) → Certain o (pin_non_null {S = S} n o b)
  unfolding pin_non_null
  pin_non_null-Certain n b = search brackets depth 20
