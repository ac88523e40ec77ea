-- ===== src/Ctx/Pins/Sessions.antt =====
-- Which pinners the methods on sessions use: none but their own.
use gopkcs.Prelude.{ℕ, none, List}
use gopkcs.Machine.Effects.{Slice, Env}
use gopkcs.Machine.Pins.{Uses}
use gopkcs.Machine.Pins.Brackets.{new_pinner-Uses, brackets}
use gopkcs.Ctx.Pins.Base.{shared}
use gopkcs.Ctx.Pins.Brackets.{invoke-Certain, pin_non_null-Certain}
use gopkcs.Ctx.Sessions.{
  init_pin, set_pin, open_session, close_session, close_all_sessions, get_session_info,
  get_operation_state, set_operation_state, login, logout,
}
use gopkcs.Ctx.Base.{Ctx}
use gopkcs.Params.Pins.{pin_bytes-Uses}

module _ {S : Type 0} (env : Env S) (c : Ctx) where
  pub init_pin-Uses : (sh : ℕ) (pass : List ℕ) → Uses none (init_pin env c sh pass)
  unfolding init_pin
  init_pin-Uses sh pass = search (shared, pin_bytes-Uses) depth 40

  pub set_pin-Uses :
      (sh : ℕ) (oldpin : List ℕ) (newpin : List ℕ) → Uses none (set_pin env c sh oldpin newpin)
  unfolding set_pin
  set_pin-Uses sh oldpin newpin = search (shared, pin_bytes-Uses) depth 40

  pub open_session-Uses : (slot_id : ℕ) (flags : ℕ) → Uses none (open_session env c slot_id flags)
  unfolding open_session
  open_session-Uses slot_id flags = search shared depth 40

  pub close_session-Uses : (sh : ℕ) → Uses none (close_session env c sh)
  unfolding close_session
  close_session-Uses sh = search shared depth 40

  pub close_all_sessions-Uses : (slot_id : ℕ) → Uses none (close_all_sessions env c slot_id)
  unfolding close_all_sessions
  close_all_sessions-Uses slot_id = search shared depth 40

  pub get_session_info-Uses : (sh : ℕ) → Uses none (get_session_info env c sh)
  unfolding get_session_info
  get_session_info-Uses sh = search shared depth 40

  pub get_operation_state-Uses : (sh : ℕ) → Uses none (get_operation_state env c sh)
  unfolding get_operation_state
  get_operation_state-Uses sh =
      search (new_pinner-Uses, shared, brackets, invoke-Certain, pin_non_null-Certain) depth 60

  pub set_operation_state-Uses :
      (sh : ℕ) (state : Slice) (encrypt_key : ℕ) (auth_key : ℕ)
      → Uses none (set_operation_state env c sh state encrypt_key auth_key)
  unfolding set_operation_state
  set_operation_state-Uses sh state encrypt_key auth_key = search (shared, pin_bytes-Uses) depth 40

  pub login-Uses :
      (sh : ℕ) (user_type : ℕ) (pass : List ℕ) → Uses none (login env c sh user_type pass)
  unfolding login
  login-Uses sh user_type pass = search (shared, pin_bytes-Uses) depth 40

  pub logout-Uses : (sh : ℕ) → Uses none (logout env c sh)
  unfolding logout
  logout-Uses sh = search shared depth 40
