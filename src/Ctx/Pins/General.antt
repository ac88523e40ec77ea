-- ===== src/Ctx/Pins/General.antt =====
-- Which pinners the general methods use: none but their own.
use gopkcs.Prelude.{ℕ, none, List}
use gopkcs.Machine.Effects.{Env}
use gopkcs.Machine.Pins.{Uses}
use gopkcs.Machine.Pins.Brackets.{new_pinner-Uses, brackets}
use gopkcs.Ctx.Pins.Base.{shared}
use gopkcs.Ctx.Pins.Brackets.{invoke-Certain}
use gopkcs.Ctx.General.{InitializeOption, initialize, finalize, get_info, wait_for_slot_event}
use gopkcs.Ctx.Base.{Ctx}

module _ {S : Type 0} (env : Env S) (c : Ctx) where
  pub initialize-Uses : (opts : List InitializeOption) → Uses none (initialize env c opts)
  unfolding initialize
  initialize-Uses opts = search shared depth 40

  pub finalize-Uses : Uses none (finalize env c)
  unfolding finalize
  finalize-Uses = search shared depth 40

  pub get_info-Uses : Uses none (get_info env c)
  unfolding get_info
  get_info-Uses = search shared depth 40

  pub wait_for_slot_event-Uses : (flags : ℕ) → Uses none (wait_for_slot_event env c flags)
  unfolding wait_for_slot_event
  wait_for_slot_event-Uses flags =
      search (new_pinner-Uses, shared, brackets, invoke-Certain) depth 60
