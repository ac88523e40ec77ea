-- ===== src/Ctx/Reports/Output.antt =====
-- The calls in two passes report what the module returns.
use gopkcs.Prelude.{ℕ, List}
use gopkcs.Machine.Reports.{Reports, Logs}
use gopkcs.Ctx.Reports.Base.{shared}
use gopkcs.Ctx.Reports.Marshal.{pin_non_null-Reports}
use gopkcs.Machine.Effects.{Slice, Env}
use gopkcs.Ctx.Output.{fetch, two_pass_output, two_pass_output_no_input}

module _ {S : Type 0} (log : S → List ℕ) (env : Env S) (logs : Logs env log) where
  fetch-Reports : (o fn : ℕ) (args : List ℕ) → Reports log (fetch env o fn args)
  unfolding fetch
  fetch-Reports o fn args = search (shared, pin_non_null-Reports) depth 40

  pub two_pass_output-Reports :
      (fn sh : ℕ) (input : Slice) → Reports log (two_pass_output env fn sh input)
  unfolding two_pass_output
  two_pass_output-Reports fn sh input =
      search (shared, pin_non_null-Reports, fetch-Reports) depth 40

  pub two_pass_output_no_input-Reports :
      (fn sh : ℕ) → Reports log (two_pass_output_no_input env fn sh)
  unfolding two_pass_output_no_input
  two_pass_output_no_input-Reports fn sh = search (shared, fetch-Reports) depth 40
