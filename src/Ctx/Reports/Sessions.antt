-- ===== src/Ctx/Reports/Sessions.antt =====
-- The methods on sessions report what the module returns.
use gopkcs.Prelude.{ℕ, List}
use gopkcs.Machine.Reports.{Reports, Logs}
use gopkcs.Ctx.Reports.Base.{shared}
use gopkcs.Params.Reports.{pin_bytes-Reports}
use gopkcs.Ctx.Reports.Marshal.{pin_non_null-Reports}
use gopkcs.Machine.Effects.{Slice, Env}
use gopkcs.Ctx.Sessions.{
  init_pin, set_pin, open_session, close_session, close_all_sessions, get_session_info,
  get_operation_state, set_operation_state, login, logout,
}
use gopkcs.Ctx.Base.{Ctx}

module _ {S : Type 0} (log : S → List ℕ) (env : Env S) (logs : Logs env log) (c : Ctx) where
  pub init_pin-Reports : (sh : ℕ) (pass : List ℕ) → Reports log (init_pin env c sh pass)
  unfolding init_pin
  init_pin-Reports sh pass = search (shared, pin_bytes-Reports) depth 40

  pub set_pin-Reports :
      (sh : ℕ) (oldpin : List ℕ) (newpin : List ℕ) → Reports log (set_pin env c sh oldpin newpin)
  unfolding set_pin
  set_pin-Reports sh oldpin newpin = search (shared, pin_bytes-Reports) depth 40

  pub open_session-Reports :
      (slot_id : ℕ) (flags : ℕ) → Reports log (open_session env c slot_id flags)
  unfolding open_session
  open_session-Reports slot_id flags = search shared depth 40

  pub close_session-Reports : (sh : ℕ) → Reports log (close_session env c sh)
  unfolding close_session
  close_session-Reports sh = search shared depth 40

  pub close_all_sessions-Reports : (slot_id : ℕ) → Reports log (close_all_sessions env c slot_id)
  unfolding close_all_sessions
  close_all_sessions-Reports slot_id = search shared depth 40

  pub get_session_info-Reports : (sh : ℕ) → Reports log (get_session_info env c sh)
  unfolding get_session_info
  get_session_info-Reports sh = search shared depth 40

  pub get_operation_state-Reports : (sh : ℕ) → Reports log (get_operation_state env c sh)
  unfolding get_operation_state
  get_operation_state-Reports sh = search (shared, pin_non_null-Reports) depth 60

  pub set_operation_state-Reports :
      (sh : ℕ) (state : Slice) (encrypt_key : ℕ) (auth_key : ℕ)
      → Reports log (set_operation_state env c sh state encrypt_key auth_key)
  unfolding set_operation_state
  set_operation_state-Reports sh state encrypt_key auth_key =
      search (shared, pin_bytes-Reports) depth 40

  pub login-Reports :
      (sh : ℕ) (user_type : ℕ) (pass : List ℕ) → Reports log (login env c sh user_type pass)
  unfolding login
  login-Reports sh user_type pass = search (shared, pin_bytes-Reports) depth 40

  pub logout-Reports : (sh : ℕ) → Reports log (logout env c sh)
  unfolding logout
  logout-Reports sh = search shared depth 40
