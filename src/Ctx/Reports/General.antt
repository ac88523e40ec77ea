-- ===== src/Ctx/Reports/General.antt =====
-- The general methods report what the module returns.
use gopkcs.Prelude.{ℕ, List}
use gopkcs.Machine.Reports.{Reports, Logs}
use gopkcs.Ctx.Reports.Base.{shared}
use gopkcs.Machine.Effects.{Env}
use gopkcs.Ctx.General.{InitializeOption, initialize, finalize, get_info}
use gopkcs.Ctx.Base.{Ctx}

module _ {S : Type 0} (log : S → List ℕ) (env : Env S) (logs : Logs env log) (c : Ctx) where
  pub initialize-Reports : (opts : List InitializeOption) → Reports log (initialize env c opts)
  unfolding initialize
  initialize-Reports opts = search shared depth 40

  pub finalize-Reports : Reports log (finalize env c)
  unfolding finalize
  finalize-Reports = search shared depth 40

  pub get_info-Reports : Reports log (get_info env c)
  unfolding get_info
  get_info-Reports = search shared depth 40
