-- ===== src/Ctx/Reports/Refusals.antt =====
-- Every method but WaitForSlotEvent reports what the module returns.
use gopkcs.Prelude.{ℕ, refl, ◌≢◌, List}
use gopkcs.Machine.Effects.{Env, World}
use gopkcs.Machine.Reports.{Logs, Reports, Reported, bind-Reports, pure-Reports}
use gopkcs.Ctx.Base.{Ctx}
use gopkcs.Ctx.Methods.{
  Method, run, call_initialize, call_finalize, call_get_info, call_wait_for_slot_event,
  call_get_slot_list, call_get_slot_info, call_get_token_info, call_get_mechanism_list,
  call_get_mechanism_info, call_init_token, call_init_pin, call_set_pin, call_open_session,
  call_close_session, call_close_all_sessions, call_get_session_info, call_get_operation_state,
  call_set_operation_state, call_login, call_logout, call_create_object, call_copy_object,
  call_destroy_object, call_get_object_size, call_get_attribute_value, call_set_attribute_value,
  call_find_objects_init, call_find_objects, call_find_objects_final, call_encrypt_init,
  call_encrypt, call_encrypt_update, call_encrypt_final, call_decrypt_init, call_decrypt,
  call_decrypt_update, call_decrypt_final, call_digest_init, call_digest, call_digest_update,
  call_digest_key, call_digest_final, call_digest_encrypt_update, call_decrypt_digest_update,
  call_sign_init, call_sign, call_sign_update, call_sign_final, call_sign_recover_init,
  call_sign_recover, call_verify_init, call_verify, call_verify_update, call_verify_final,
  call_verify_recover_init, call_verify_recover, call_sign_encrypt_update,
  call_decrypt_verify_update, call_generate_key, call_generate_key_pair, call_wrap_key,
  call_unwrap_key, call_derive_key, call_seed_random, call_generate_random,
}
use gopkcs.Ctx.Reports.General.{initialize-Reports, finalize-Reports, get_info-Reports}
use gopkcs.Ctx.Reports.Slots.{
  get_slot_list-Reports, get_slot_info-Reports, get_token_info-Reports, get_mechanism_list-Reports,
  get_mechanism_info-Reports, init_token-Reports,
}
use gopkcs.Ctx.Reports.Sessions.{
  init_pin-Reports, set_pin-Reports, open_session-Reports, close_session-Reports,
  close_all_sessions-Reports, get_session_info-Reports, get_operation_state-Reports,
  set_operation_state-Reports, login-Reports, logout-Reports,
}
use gopkcs.Ctx.Reports.Objects.{
  create_object-Reports, copy_object-Reports, destroy_object-Reports, get_object_size-Reports,
  get_attribute_value-Reports, set_attribute_value-Reports, find_objects_init-Reports,
  find_objects-Reports, find_objects_final-Reports,
}
use gopkcs.Ctx.Reports.Crypto.{
  encrypt_init-Reports, encrypt-Reports, encrypt_update-Reports, encrypt_final-Reports,
  decrypt_init-Reports, decrypt-Reports, decrypt_update-Reports, decrypt_final-Reports,
  digest_init-Reports, digest-Reports, digest_update-Reports, digest_key-Reports,
  digest_final-Reports, digest_encrypt_update-Reports, decrypt_digest_update-Reports,
}
use gopkcs.Ctx.Reports.Signatures.{
  sign_init-Reports, sign-Reports, sign_update-Reports, sign_final-Reports,
  sign_recover_init-Reports, sign_recover-Reports, verify_init-Reports, verify-Reports,
  verify_update-Reports, verify_final-Reports, verify_recover_init-Reports, verify_recover-Reports,
  sign_encrypt_update-Reports, decrypt_verify_update-Reports,
}
use gopkcs.Ctx.Reports.Keys.{
  generate_key-Reports, generate_key_pair-Reports, wrap_key-Reports, unwrap_key-Reports,
  derive_key-Reports, seed_random-Reports, generate_random-Reports,
}

module _ {S : Type 0} (log : S → List ℕ) (env : Env S) (logs : Logs env log) (c : Ctx) where
  run-Reports :
      (m : Method) → ((flags : ℕ) → m ≢ call_wait_for_slot_event flags) → Reports log (run env c m)
  unfolding run
  run-Reports (call_initialize opts) other =
      bind-Reports log _ _ (initialize-Reports log env logs c opts) (λ _. pure-Reports log tt)
  run-Reports call_finalize other =
      bind-Reports log _ _ (finalize-Reports log env logs c) (λ _. pure-Reports log tt)
  run-Reports call_get_info other =
      bind-Reports log _ _ (get_info-Reports log env logs c) (λ _. pure-Reports log tt)
  run-Reports (call_wait_for_slot_event flags) other = absurd (other flags refl)
  run-Reports (call_get_slot_list token_present) other =
      bind-Reports log _ _ (get_slot_list-Reports log env logs c token_present)
        (λ _. pure-Reports log tt)
  run-Reports (call_get_slot_info slot_id) other =
      bind-Reports log _ _ (get_slot_info-Reports log env logs c slot_id) (λ _. pure-Reports log tt)
  run-Reports (call_get_token_info slot_id) other =
      bind-Reports log _ _ (get_token_info-Reports log env logs c slot_id)
        (λ _. pure-Reports log tt)
  run-Reports (call_get_mechanism_list slot_id) other =
      bind-Reports log _ _ (get_mechanism_list-Reports log env logs c slot_id)
        (λ _. pure-Reports log tt)
  run-Reports (call_get_mechanism_info slot_id ms) other =
      bind-Reports log _ _ (get_mechanism_info-Reports log env logs c slot_id ms)
        (λ _. pure-Reports log tt)
  run-Reports (call_init_token slot_id pass label) other =
      bind-Reports log _ _ (init_token-Reports log env logs c slot_id pass label)
        (λ _. pure-Reports log tt)
  run-Reports (call_init_pin sh pass) other =
      bind-Reports log _ _ (init_pin-Reports log env logs c sh pass) (λ _. pure-Reports log tt)
  run-Reports (call_set_pin sh oldpin newpin) other =
      bind-Reports log _ _ (set_pin-Reports log env logs c sh oldpin newpin)
        (λ _. pure-Reports log tt)
  run-Reports (call_open_session slot_id flags) other =
      bind-Reports log _ _ (open_session-Reports log env logs c slot_id flags)
        (λ _. pure-Reports log tt)
  run-Reports (call_close_session sh) other =
      bind-Reports log _ _ (close_session-Reports log env logs c sh) (λ _. pure-Reports log tt)
  run-Reports (call_close_all_sessions slot_id) other =
      bind-Reports log _ _ (close_all_sessions-Reports log env logs c slot_id)
        (λ _. pure-Reports log tt)
  run-Reports (call_get_session_info sh) other =
      bind-Reports log _ _ (get_session_info-Reports log env logs c sh) (λ _. pure-Reports log tt)
  run-Reports (call_get_operation_state sh) other =
      bind-Reports log _ _ (get_operation_state-Reports log env logs c sh)
        (λ _. pure-Reports log tt)
  run-Reports (call_set_operation_state sh state encrypt_key auth_key) other =
      bind-Reports log _ _
        (set_operation_state-Reports log env logs c sh state encrypt_key auth_key)
        (λ _. pure-Reports log tt)
  run-Reports (call_login sh user_type pass) other =
      bind-Reports log _ _ (login-Reports log env logs c sh user_type pass)
        (λ _. pure-Reports log tt)
  run-Reports (call_logout sh) other =
      bind-Reports log _ _ (logout-Reports log env logs c sh) (λ _. pure-Reports log tt)
  run-Reports (call_create_object sh temp) other =
      bind-Reports log _ _ (create_object-Reports log env logs c sh temp) (λ _. pure-Reports log tt)
  run-Reports (call_copy_object sh o temp) other =
      bind-Reports log _ _ (copy_object-Reports log env logs c sh o temp) (λ _. pure-Reports log tt)
  run-Reports (call_destroy_object sh oh) other =
      bind-Reports log _ _ (destroy_object-Reports log env logs c sh oh) (λ _. pure-Reports log tt)
  run-Reports (call_get_object_size sh oh) other =
      bind-Reports log _ _ (get_object_size-Reports log env logs c sh oh) (λ _. pure-Reports log tt)
  run-Reports (call_get_attribute_value sh o a) other =
      bind-Reports log _ _ (get_attribute_value-Reports log env logs c sh o a)
        (λ _. pure-Reports log tt)
  run-Reports (call_set_attribute_value sh o a) other =
      bind-Reports log _ _ (set_attribute_value-Reports log env logs c sh o a)
        (λ _. pure-Reports log tt)
  run-Reports (call_find_objects_init sh temp) other =
      bind-Reports log _ _ (find_objects_init-Reports log env logs c sh temp)
        (λ _. pure-Reports log tt)
  run-Reports (call_find_objects sh max_objects) other =
      bind-Reports log _ _ (find_objects-Reports log env logs c sh max_objects)
        (λ _. pure-Reports log tt)
  run-Reports (call_find_objects_final sh) other =
      bind-Reports log _ _ (find_objects_final-Reports log env logs c sh) (λ _. pure-Reports log tt)
  run-Reports (call_encrypt_init sh m key) other =
      bind-Reports log _ _ (encrypt_init-Reports log env logs c sh m key) (λ _. pure-Reports log tt)
  run-Reports (call_encrypt sh input) other =
      bind-Reports log _ _ (encrypt-Reports log env logs c sh input) (λ _. pure-Reports log tt)
  run-Reports (call_encrypt_update sh input) other =
      bind-Reports log _ _ (encrypt_update-Reports log env logs c sh input)
        (λ _. pure-Reports log tt)
  run-Reports (call_encrypt_final sh) other =
      bind-Reports log _ _ (encrypt_final-Reports log env logs c sh) (λ _. pure-Reports log tt)
  run-Reports (call_decrypt_init sh m key) other =
      bind-Reports log _ _ (decrypt_init-Reports log env logs c sh m key) (λ _. pure-Reports log tt)
  run-Reports (call_decrypt sh input) other =
      bind-Reports log _ _ (decrypt-Reports log env logs c sh input) (λ _. pure-Reports log tt)
  run-Reports (call_decrypt_update sh input) other =
      bind-Reports log _ _ (decrypt_update-Reports log env logs c sh input)
        (λ _. pure-Reports log tt)
  run-Reports (call_decrypt_final sh) other =
      bind-Reports log _ _ (decrypt_final-Reports log env logs c sh) (λ _. pure-Reports log tt)
  run-Reports (call_digest_init sh m) other =
      bind-Reports log _ _ (digest_init-Reports log env logs c sh m) (λ _. pure-Reports log tt)
  run-Reports (call_digest sh input) other =
      bind-Reports log _ _ (digest-Reports log env logs c sh input) (λ _. pure-Reports log tt)
  run-Reports (call_digest_update sh part) other =
      bind-Reports log _ _ (digest_update-Reports log env logs c sh part) (λ _. pure-Reports log tt)
  run-Reports (call_digest_key sh key) other =
      bind-Reports log _ _ (digest_key-Reports log env logs c sh key) (λ _. pure-Reports log tt)
  run-Reports (call_digest_final sh) other =
      bind-Reports log _ _ (digest_final-Reports log env logs c sh) (λ _. pure-Reports log tt)
  run-Reports (call_digest_encrypt_update sh input) other =
      bind-Reports log _ _ (digest_encrypt_update-Reports log env logs c sh input)
        (λ _. pure-Reports log tt)
  run-Reports (call_decrypt_digest_update sh input) other =
      bind-Reports log _ _ (decrypt_digest_update-Reports log env logs c sh input)
        (λ _. pure-Reports log tt)
  run-Reports (call_sign_init sh m key) other =
      bind-Reports log _ _ (sign_init-Reports log env logs c sh m key) (λ _. pure-Reports log tt)
  run-Reports (call_sign sh input) other =
      bind-Reports log _ _ (sign-Reports log env logs c sh input) (λ _. pure-Reports log tt)
  run-Reports (call_sign_update sh part) other =
      bind-Reports log _ _ (sign_update-Reports log env logs c sh part) (λ _. pure-Reports log tt)
  run-Reports (call_sign_final sh) other =
      bind-Reports log _ _ (sign_final-Reports log env logs c sh) (λ _. pure-Reports log tt)
  run-Reports (call_sign_recover_init sh m key) other =
      bind-Reports log _ _ (sign_recover_init-Reports log env logs c sh m key)
        (λ _. pure-Reports log tt)
  run-Reports (call_sign_recover sh input) other =
      bind-Reports log _ _ (sign_recover-Reports log env logs c sh input) (λ _. pure-Reports log tt)
  run-Reports (call_verify_init sh m key) other =
      bind-Reports log _ _ (verify_init-Reports log env logs c sh m key) (λ _. pure-Reports log tt)
  run-Reports (call_verify sh message signature) other =
      bind-Reports log _ _ (verify-Reports log env logs c sh message signature)
        (λ _. pure-Reports log tt)
  run-Reports (call_verify_update sh part) other =
      bind-Reports log _ _ (verify_update-Reports log env logs c sh part) (λ _. pure-Reports log tt)
  run-Reports (call_verify_final sh part) other =
      bind-Reports log _ _ (verify_final-Reports log env logs c sh part) (λ _. pure-Reports log tt)
  run-Reports (call_verify_recover_init sh m key) other =
      bind-Reports log _ _ (verify_recover_init-Reports log env logs c sh m key)
        (λ _. pure-Reports log tt)
  run-Reports (call_verify_recover sh input) other =
      bind-Reports log _ _ (verify_recover-Reports log env logs c sh input)
        (λ _. pure-Reports log tt)
  run-Reports (call_sign_encrypt_update sh input) other =
      bind-Reports log _ _ (sign_encrypt_update-Reports log env logs c sh input)
        (λ _. pure-Reports log tt)
  run-Reports (call_decrypt_verify_update sh input) other =
      bind-Reports log _ _ (decrypt_verify_update-Reports log env logs c sh input)
        (λ _. pure-Reports log tt)
  run-Reports (call_generate_key sh m temp) other =
      bind-Reports log _ _ (generate_key-Reports log env logs c sh m temp)
        (λ _. pure-Reports log tt)
  run-Reports (call_generate_key_pair sh m public private) other =
      bind-Reports log _ _ (generate_key_pair-Reports log env logs c sh m public private)
        (λ _. pure-Reports log tt)
  run-Reports (call_wrap_key sh m wrappingkey key) other =
      bind-Reports log _ _ (wrap_key-Reports log env logs c sh m wrappingkey key)
        (λ _. pure-Reports log tt)
  run-Reports (call_unwrap_key sh m unwrappingkey wrappedkey a2) other =
      bind-Reports log _ _ (unwrap_key-Reports log env logs c sh m unwrappingkey wrappedkey a2)
        (λ _. pure-Reports log tt)
  run-Reports (call_derive_key sh m basekey a2) other =
      bind-Reports log _ _ (derive_key-Reports log env logs c sh m basekey a2)
        (λ _. pure-Reports log tt)
  run-Reports (call_seed_random sh seed) other =
      bind-Reports log _ _ (seed_random-Reports log env logs c sh seed) (λ _. pure-Reports log tt)
  run-Reports (call_generate_random sh n) other =
      bind-Reports log _ _ (generate_random-Reports log env logs c sh n) (λ _. pure-Reports log tt)

  -- Whatever the module does: a method of the context other than WaitForSlotEvent succeeds only
  -- if every function of the module that it called returned CKR_OK; it fails with the return
  -- value of the last function it called, which is not CKR_OK while those before returned CKR_OK,
  -- or else with CKR_ARGUMENTS_BAD or CKR_HOST_MEMORY of the binding itself, and then every
  -- function that it called, if any, returned CKR_OK; or it panics.
  pub run-Reported :
      (m : Method) (w : World S)
      → ((flags : ℕ) → m ≢ call_wait_for_slot_event flags)
      → Reported log w (run env c m w)
  run-Reported m w other = (run-Reports m other).runs w
