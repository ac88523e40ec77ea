-- ===== src/Ctx/Pins/Slots.antt =====
-- Which pinners the methods on slots and tokens use: none but their own.
use gopkcs.Prelude.{ℕ, Bool, none, List, [], ◌∷◌}
use gopkcs.Machine.Effects.{Env}
use gopkcs.Machine.Pins.{Uses}
use gopkcs.Machine.Pins.Brackets.{new_pinner-Uses, brackets}
use gopkcs.Ctx.Pins.Base.{shared}
use gopkcs.Ctx.Pins.Brackets.{invoke-Certain}
use gopkcs.Ctx.Slots.{
  get_slot_list, get_slot_info, get_token_info, get_mechanism_list, get_mechanism_info, init_token,
}
use gopkcs.Ctx.Base.{Ctx}
use gopkcs.Types.{Mechanism}
use gopkcs.Params.Pins.{pin_bytes-Uses}

module _ {S : Type 0} (env : Env S) (c : Ctx) where
  pub get_slot_list-Uses : (token_present : Bool) → Uses none (get_slot_list env c token_present)
  unfolding get_slot_list
  get_slot_list-Uses token_present =
      search (new_pinner-Uses, shared, brackets, invoke-Certain) depth 60

  pub get_slot_info-Uses : (slot_id : ℕ) → Uses none (get_slot_info env c slot_id)
  unfolding get_slot_info
  get_slot_info-Uses slot_id = search shared depth 40

  pub get_token_info-Uses : (slot_id : ℕ) → Uses none (get_token_info env c slot_id)
  unfolding get_token_info
  get_token_info-Uses slot_id = search shared depth 40

  pub get_mechanism_list-Uses : (slot_id : ℕ) → Uses none (get_mechanism_list env c slot_id)
  unfolding get_mechanism_list
  get_mechanism_list-Uses slot_id =
      search (new_pinner-Uses, shared, brackets, invoke-Certain) depth 60

  pub get_mechanism_info-Uses :
      (slot_id : ℕ) (ms : List Mechanism) → Uses none (get_mechanism_info env c slot_id ms)
  unfolding get_mechanism_info
  get_mechanism_info-Uses slot_id [] = search shared depth 5
  get_mechanism_info-Uses slot_id (m ∷ ms) = search shared depth 40

  pub init_token-Uses :
      (slot_id : ℕ) (pass : List ℕ) (label : List ℕ)
      → Uses none (init_token env c slot_id pass label)
  unfolding init_token
  init_token-Uses slot_id pass label = search (shared, pin_bytes-Uses) depth 40
