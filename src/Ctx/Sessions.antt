-- ===== src/Ctx/Sessions.antt =====
-- The methods of pkcs11.go on sessions and PINs. Handles and PIN strings are passed through.
use gopkcs.Prelude.{ℕ, ◌+◌, List, [], ◌∷◌}
use gopkcs.Machine.Effects.{
  Slice, Env, M, pure, ◌>>=◌, ◌>>◌, new_pinner, new_word, get_word, make_bytes, allocate, pin,
  unpin, prefix, with_pinner, bytes_of_string,
}
use gopkcs.Errors.{check}
use gopkcs.Types.{SessionInfo}
use gopkcs.Params.{pin_bytes}
use gopkcs.Arena.{pin_non_null}
use gopkcs.Ctx.Base.{Ctx, invoke}

module _ {S : Type 0} (env : Env S) (c : Ctx) where
  unfoldable pub init_pin : ℕ → List ℕ → M S (Unit {0})
  init_pin sh pass = with_pinner λ o. do
    pass_bytes ← bytes_of_string pass
    p_pin ← pin_bytes o pass_bytes
    rv ← invoke env c (λ fl. fl.c_init_pin) (sh ∷ p_pin ∷ pass_bytes.len ∷ [])
    check rv

  unfoldable pub set_pin : ℕ → List ℕ → List ℕ → M S (Unit {0})
  set_pin sh oldpin newpin = with_pinner λ o. do
    old_bytes ← bytes_of_string oldpin
    new_bytes ← bytes_of_string newpin
    p_old ← pin_bytes o old_bytes
    p_new ← pin_bytes o new_bytes
    rv ← invoke env c (λ fl. fl.c_set_pin) (sh ∷ p_old ∷ old_bytes.len ∷ p_new ∷ new_bytes.len ∷ [])
    check rv

  unfoldable pub open_session : ℕ → ℕ → M S ℕ
  open_session slot_id flags = with_pinner λ o. do
    sh ← new_word
    pin o sh
    rv ← invoke env c (λ fl. fl.c_open_session) (slot_id ∷ flags ∷ 0 ∷ 0 ∷ sh ∷ [])
    check rv
    get_word sh

  unfoldable pub close_session : ℕ → M S (Unit {0})
  close_session sh = do rv ← invoke env c (λ fl. fl.c_close_session) (sh ∷ []); check rv

  unfoldable pub close_all_sessions : ℕ → M S (Unit {0})
  close_all_sessions slot_id = do
    rv ← invoke env c (λ fl. fl.c_close_all_sessions) (slot_id ∷ [])
    check rv

  unfoldable pub get_session_info : ℕ → M S SessionInfo
  get_session_info sh = with_pinner λ o. do
    buf ← allocate 32
    pin o buf
    rv ← invoke env c (λ fl. fl.c_get_session_info) (sh ∷ buf ∷ [])
    check rv
    slot_id ← get_word buf
    state ← get_word (buf + 8)
    flags ← get_word (buf + 16)
    device_error ← get_word (buf + 24)
    pure (record { slot_id = slot_id; state = state; flags = flags; device_error = device_error })

  unfoldable pub get_operation_state : ℕ → M S Slice
  get_operation_state sh = do
    length_word ← new_word
    o ← new_pinner
    pin o length_word
    rv ← invoke env c (λ fl. fl.c_get_operation_state) (sh ∷ 0 ∷ length_word ∷ [])
    unpin o
    check rv
    size ← get_word length_word
    state ← make_bytes size
    p_state ← pin_non_null 1 o state
    pin o length_word
    rv2 ← invoke env c (λ fl. fl.c_get_operation_state) (sh ∷ p_state ∷ length_word ∷ [])
    unpin o
    check rv2
    written ← get_word length_word
    prefix state written

  unfoldable pub set_operation_state : ℕ → Slice → ℕ → ℕ → M S (Unit {0})
  set_operation_state sh state encrypt_key auth_key = with_pinner λ o. do
    p_state ← pin_bytes o state
    rv ←
        invoke env c (λ fl. fl.c_set_operation_state)
          (sh ∷ p_state ∷ state.len ∷ encrypt_key ∷ auth_key ∷ [])
    check rv

  unfoldable pub login : ℕ → ℕ → List ℕ → M S (Unit {0})
  login sh user_type pass = with_pinner λ o. do
    pass_bytes ← bytes_of_string pass
    p_pin ← pin_bytes o pass_bytes
    rv ← invoke env c (λ fl. fl.c_login) (sh ∷ user_type ∷ p_pin ∷ pass_bytes.len ∷ [])
    check rv

  unfoldable pub logout : ℕ → M S (Unit {0})
  logout sh = do rv ← invoke env c (λ fl. fl.c_logout) (sh ∷ []); check rv
