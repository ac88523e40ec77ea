-- ===== src/Ctx/Pins/Output.antt =====
-- Which pinners the calls in two passes use: none but their own.
use gopkcs.Prelude.{ℕ, none, some, List}
use gopkcs.Machine.Effects.{Slice, Env}
use gopkcs.Machine.Pins.{Uses}
use gopkcs.Ctx.Output.{fetch, two_pass_output, two_pass_output_no_input}
use gopkcs.Ctx.Pins.Base.{shared}
use gopkcs.Ctx.Pins.Marshal.{pin_non_null-Uses}

module _ {S : Type 0} (env : Env S) where
  fetch-Uses : (o fn : ℕ) (args : List ℕ) → Uses (some o) (fetch env o fn args)
  unfolding fetch
  fetch-Uses o fn args = search (shared, pin_non_null-Uses) depth 40

  pub two_pass_output-Uses :
      (fn sh : ℕ) (input : Slice) → Uses none (two_pass_output env fn sh input)
  unfolding two_pass_output
  two_pass_output-Uses fn sh input = search (shared, pin_non_null-Uses, fetch-Uses) depth 40

  pub two_pass_output_no_input-Uses : (fn sh : ℕ) → Uses none (two_pass_output_no_input env fn sh)
  unfolding two_pass_output_no_input
  two_pass_output_no_input-Uses fn sh = search (shared, fetch-Uses) depth 40
