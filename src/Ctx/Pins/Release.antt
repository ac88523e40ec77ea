-- ===== src/Ctx/Pins/Release.antt =====
-- No program of calls leaves anything pinned.
use gopkcs.Prelude.{ℕ, ◌≡◌, sym, ap, ◌∙◌, ◌≢◌, none, some, List, [], ◌∷◌, arith}
use gopkcs.Machine.Effects.{Env, World, Outcome, ok, err, panic}
use gopkcs.Machine.Pins.{Uses, bind-Uses, pure-Uses, Keeps, After, IsTidy}
use gopkcs.Ctx.Methods.{
  Method, run, calls, call_initialize, call_finalize, call_get_info, call_wait_for_slot_event,
  call_get_slot_list, call_get_slot_info, call_get_token_info, call_get_mechanism_list,
  call_get_mechanism_info, call_init_token, call_init_pin, call_set_pin, call_open_session,
  call_close_session, call_close_all_sessions, call_get_session_info, call_get_operation_state,
  call_set_operation_state, call_login, call_logout, call_create_object, call_copy_object,
  call_destroy_object, call_get_object_size, call_get_attribute_value, call_set_attribute_value,
  call_find_objects_init, call_find_objects, call_find_objects_final, call_encrypt_init,
  call_encrypt, call_encrypt_update, call_encrypt_final, call_decrypt_init, call_decrypt,
  call_decrypt_update, call_decrypt_final, call_digest_init, call_digest, call_digest_update,
  call_digest_key, call_digest_final, call_digest_encrypt_update, call_decrypt_digest_update,
  call_sign_init, call_sign, call_sign_update, call_sign_final, call_sign_recover_init,
  call_sign_recover, call_verify_init, call_verify, call_verify_update, call_verify_final,
  call_verify_recover_init, call_verify_recover, call_sign_encrypt_update,
  call_decrypt_verify_update, call_generate_key, call_generate_key_pair, call_wrap_key,
  call_unwrap_key, call_derive_key, call_seed_random, call_generate_random,
}
use gopkcs.Ctx.Pins.General.{
  initialize-Uses, finalize-Uses, get_info-Uses, wait_for_slot_event-Uses,
}
use gopkcs.Ctx.Pins.Slots.{
  get_slot_list-Uses, get_slot_info-Uses, get_token_info-Uses, get_mechanism_list-Uses,
  get_mechanism_info-Uses, init_token-Uses,
}
use gopkcs.Ctx.Pins.Sessions.{
  init_pin-Uses, set_pin-Uses, open_session-Uses, close_session-Uses, close_all_sessions-Uses,
  get_session_info-Uses, get_operation_state-Uses, set_operation_state-Uses, login-Uses,
  logout-Uses,
}
use gopkcs.Ctx.Pins.Objects.{
  create_object-Uses, copy_object-Uses, destroy_object-Uses, get_object_size-Uses,
  get_attribute_value-Uses, set_attribute_value-Uses, find_objects_init-Uses, find_objects-Uses,
  find_objects_final-Uses,
}
use gopkcs.Ctx.Pins.Crypto.{
  encrypt_init-Uses, encrypt-Uses, encrypt_update-Uses, encrypt_final-Uses, decrypt_init-Uses,
  decrypt-Uses, decrypt_update-Uses, decrypt_final-Uses, digest_init-Uses, digest-Uses,
  digest_update-Uses, digest_key-Uses, digest_final-Uses, digest_encrypt_update-Uses,
  decrypt_digest_update-Uses,
}
use gopkcs.Ctx.Pins.Signatures.{
  sign_init-Uses, sign-Uses, sign_update-Uses, sign_final-Uses, sign_recover_init-Uses,
  sign_recover-Uses, verify_init-Uses, verify-Uses, verify_update-Uses, verify_final-Uses,
  verify_recover_init-Uses, verify_recover-Uses, sign_encrypt_update-Uses,
  decrypt_verify_update-Uses,
}
use gopkcs.Ctx.Pins.Keys.{
  generate_key-Uses, generate_key_pair-Uses, wrap_key-Uses, unwrap_key-Uses, derive_key-Uses,
  seed_random-Uses, generate_random-Uses,
}
use gopkcs.Ctx.Base.{Ctx}

module _ {S : Type 0} (env : Env S) (c : Ctx) where
  run-Uses : (m : Method) → Uses none (run env c m)
  unfolding run
  run-Uses (call_initialize opts) =
      bind-Uses none _ _ (initialize-Uses env c opts) (λ _. pure-Uses none tt)
  run-Uses call_finalize = bind-Uses none _ _ (finalize-Uses env c) (λ _. pure-Uses none tt)
  run-Uses call_get_info = bind-Uses none _ _ (get_info-Uses env c) (λ _. pure-Uses none tt)
  run-Uses (call_wait_for_slot_event flags) =
      bind-Uses none _ _ (wait_for_slot_event-Uses env c flags) (λ _. pure-Uses none tt)
  run-Uses (call_get_slot_list token_present) =
      bind-Uses none _ _ (get_slot_list-Uses env c token_present) (λ _. pure-Uses none tt)
  run-Uses (call_get_slot_info slot_id) =
      bind-Uses none _ _ (get_slot_info-Uses env c slot_id) (λ _. pure-Uses none tt)
  run-Uses (call_get_token_info slot_id) =
      bind-Uses none _ _ (get_token_info-Uses env c slot_id) (λ _. pure-Uses none tt)
  run-Uses (call_get_mechanism_list slot_id) =
      bind-Uses none _ _ (get_mechanism_list-Uses env c slot_id) (λ _. pure-Uses none tt)
  run-Uses (call_get_mechanism_info slot_id ms) =
      bind-Uses none _ _ (get_mechanism_info-Uses env c slot_id ms) (λ _. pure-Uses none tt)
  run-Uses (call_init_token slot_id pass label) =
      bind-Uses none _ _ (init_token-Uses env c slot_id pass label) (λ _. pure-Uses none tt)
  run-Uses (call_init_pin sh pass) =
      bind-Uses none _ _ (init_pin-Uses env c sh pass) (λ _. pure-Uses none tt)
  run-Uses (call_set_pin sh oldpin newpin) =
      bind-Uses none _ _ (set_pin-Uses env c sh oldpin newpin) (λ _. pure-Uses none tt)
  run-Uses (call_open_session slot_id flags) =
      bind-Uses none _ _ (open_session-Uses env c slot_id flags) (λ _. pure-Uses none tt)
  run-Uses (call_close_session sh) =
      bind-Uses none _ _ (close_session-Uses env c sh) (λ _. pure-Uses none tt)
  run-Uses (call_close_all_sessions slot_id) =
      bind-Uses none _ _ (close_all_sessions-Uses env c slot_id) (λ _. pure-Uses none tt)
  run-Uses (call_get_session_info sh) =
      bind-Uses none _ _ (get_session_info-Uses env c sh) (λ _. pure-Uses none tt)
  run-Uses (call_get_operation_state sh) =
      bind-Uses none _ _ (get_operation_state-Uses env c sh) (λ _. pure-Uses none tt)
  run-Uses (call_set_operation_state sh state encrypt_key auth_key) =
      bind-Uses none _ _ (set_operation_state-Uses env c sh state encrypt_key auth_key)
        (λ _. pure-Uses none tt)
  run-Uses (call_login sh user_type pass) =
      bind-Uses none _ _ (login-Uses env c sh user_type pass) (λ _. pure-Uses none tt)
  run-Uses (call_logout sh) = bind-Uses none _ _ (logout-Uses env c sh) (λ _. pure-Uses none tt)
  run-Uses (call_create_object sh temp) =
      bind-Uses none _ _ (create_object-Uses env c sh temp) (λ _. pure-Uses none tt)
  run-Uses (call_copy_object sh o temp) =
      bind-Uses none _ _ (copy_object-Uses env c sh o temp) (λ _. pure-Uses none tt)
  run-Uses (call_destroy_object sh oh) =
      bind-Uses none _ _ (destroy_object-Uses env c sh oh) (λ _. pure-Uses none tt)
  run-Uses (call_get_object_size sh oh) =
      bind-Uses none _ _ (get_object_size-Uses env c sh oh) (λ _. pure-Uses none tt)
  run-Uses (call_get_attribute_value sh o a) =
      bind-Uses none _ _ (get_attribute_value-Uses env c sh o a) (λ _. pure-Uses none tt)
  run-Uses (call_set_attribute_value sh o a) =
      bind-Uses none _ _ (set_attribute_value-Uses env c sh o a) (λ _. pure-Uses none tt)
  run-Uses (call_find_objects_init sh temp) =
      bind-Uses none _ _ (find_objects_init-Uses env c sh temp) (λ _. pure-Uses none tt)
  run-Uses (call_find_objects sh max_objects) =
      bind-Uses none _ _ (find_objects-Uses env c sh max_objects) (λ _. pure-Uses none tt)
  run-Uses (call_find_objects_final sh) =
      bind-Uses none _ _ (find_objects_final-Uses env c sh) (λ _. pure-Uses none tt)
  run-Uses (call_encrypt_init sh m key) =
      bind-Uses none _ _ (encrypt_init-Uses env c sh m key) (λ _. pure-Uses none tt)
  run-Uses (call_encrypt sh input) =
      bind-Uses none _ _ (encrypt-Uses env c sh input) (λ _. pure-Uses none tt)
  run-Uses (call_encrypt_update sh input) =
      bind-Uses none _ _ (encrypt_update-Uses env c sh input) (λ _. pure-Uses none tt)
  run-Uses (call_encrypt_final sh) =
      bind-Uses none _ _ (encrypt_final-Uses env c sh) (λ _. pure-Uses none tt)
  run-Uses (call_decrypt_init sh m key) =
      bind-Uses none _ _ (decrypt_init-Uses env c sh m key) (λ _. pure-Uses none tt)
  run-Uses (call_decrypt sh input) =
      bind-Uses none _ _ (decrypt-Uses env c sh input) (λ _. pure-Uses none tt)
  run-Uses (call_decrypt_update sh input) =
      bind-Uses none _ _ (decrypt_update-Uses env c sh input) (λ _. pure-Uses none tt)
  run-Uses (call_decrypt_final sh) =
      bind-Uses none _ _ (decrypt_final-Uses env c sh) (λ _. pure-Uses none tt)
  run-Uses (call_digest_init sh m) =
      bind-Uses none _ _ (digest_init-Uses env c sh m) (λ _. pure-Uses none tt)
  run-Uses (call_digest sh input) =
      bind-Uses none _ _ (digest-Uses env c sh input) (λ _. pure-Uses none tt)
  run-Uses (call_digest_update sh part) =
      bind-Uses none _ _ (digest_update-Uses env c sh part) (λ _. pure-Uses none tt)
  run-Uses (call_digest_key sh key) =
      bind-Uses none _ _ (digest_key-Uses env c sh key) (λ _. pure-Uses none tt)
  run-Uses (call_digest_final sh) =
      bind-Uses none _ _ (digest_final-Uses env c sh) (λ _. pure-Uses none tt)
  run-Uses (call_digest_encrypt_update sh input) =
      bind-Uses none _ _ (digest_encrypt_update-Uses env c sh input) (λ _. pure-Uses none tt)
  run-Uses (call_decrypt_digest_update sh input) =
      bind-Uses none _ _ (decrypt_digest_update-Uses env c sh input) (λ _. pure-Uses none tt)
  run-Uses (call_sign_init sh m key) =
      bind-Uses none _ _ (sign_init-Uses env c sh m key) (λ _. pure-Uses none tt)
  run-Uses (call_sign sh input) =
      bind-Uses none _ _ (sign-Uses env c sh input) (λ _. pure-Uses none tt)
  run-Uses (call_sign_update sh part) =
      bind-Uses none _ _ (sign_update-Uses env c sh part) (λ _. pure-Uses none tt)
  run-Uses (call_sign_final sh) =
      bind-Uses none _ _ (sign_final-Uses env c sh) (λ _. pure-Uses none tt)
  run-Uses (call_sign_recover_init sh m key) =
      bind-Uses none _ _ (sign_recover_init-Uses env c sh m key) (λ _. pure-Uses none tt)
  run-Uses (call_sign_recover sh input) =
      bind-Uses none _ _ (sign_recover-Uses env c sh input) (λ _. pure-Uses none tt)
  run-Uses (call_verify_init sh m key) =
      bind-Uses none _ _ (verify_init-Uses env c sh m key) (λ _. pure-Uses none tt)
  run-Uses (call_verify sh message signature) =
      bind-Uses none _ _ (verify-Uses env c sh message signature) (λ _. pure-Uses none tt)
  run-Uses (call_verify_update sh part) =
      bind-Uses none _ _ (verify_update-Uses env c sh part) (λ _. pure-Uses none tt)
  run-Uses (call_verify_final sh part) =
      bind-Uses none _ _ (verify_final-Uses env c sh part) (λ _. pure-Uses none tt)
  run-Uses (call_verify_recover_init sh m key) =
      bind-Uses none _ _ (verify_recover_init-Uses env c sh m key) (λ _. pure-Uses none tt)
  run-Uses (call_verify_recover sh input) =
      bind-Uses none _ _ (verify_recover-Uses env c sh input) (λ _. pure-Uses none tt)
  run-Uses (call_sign_encrypt_update sh input) =
      bind-Uses none _ _ (sign_encrypt_update-Uses env c sh input) (λ _. pure-Uses none tt)
  run-Uses (call_decrypt_verify_update sh input) =
      bind-Uses none _ _ (decrypt_verify_update-Uses env c sh input) (λ _. pure-Uses none tt)
  run-Uses (call_generate_key sh m temp) =
      bind-Uses none _ _ (generate_key-Uses env c sh m temp) (λ _. pure-Uses none tt)
  run-Uses (call_generate_key_pair sh m public private) =
      bind-Uses none _ _ (generate_key_pair-Uses env c sh m public private) (λ _. pure-Uses none tt)
  run-Uses (call_wrap_key sh m wrappingkey key) =
      bind-Uses none _ _ (wrap_key-Uses env c sh m wrappingkey key) (λ _. pure-Uses none tt)
  run-Uses (call_unwrap_key sh m unwrappingkey wrappedkey a2) =
      bind-Uses none _ _ (unwrap_key-Uses env c sh m unwrappingkey wrappedkey a2)
        (λ _. pure-Uses none tt)
  run-Uses (call_derive_key sh m basekey a2) =
      bind-Uses none _ _ (derive_key-Uses env c sh m basekey a2) (λ _. pure-Uses none tt)
  run-Uses (call_seed_random sh seed) =
      bind-Uses none _ _ (seed_random-Uses env c sh seed) (λ _. pure-Uses none tt)
  run-Uses (call_generate_random sh n) =
      bind-Uses none _ _ (generate_random-Uses env c sh n) (λ _. pure-Uses none tt)

  none-ne-some : {x : ℕ} → none ≢ some x
  none-ne-some e = cc

  some_inj : {w w' : World S} → some w ≡ some w' → w ≡ w'
  some_inj e = cc

  IsTidy-Keeps : (w v : World S) → IsTidy w → Keeps none w v → IsTidy v
  IsTidy-Keeps w v tidy k o h = k.others o none-ne-some ∙ tidy o (omega (arith, k.later))

  calls-After :
      (ms : List Method) (w w' : World S) (r : Outcome S (Unit {0}))
      → IsTidy w
      → After none w r
      → elim r [ ok u v ↦ calls env c ms v | err e v ↦ calls env c ms v | panic ↦ none ] ≡ some w'
      → ((v : World S) → IsTidy v → calls env c ms v ≡ some w' → (o : ℕ) → w'.pins o ≡ v.pins o)
      → (o : ℕ) → w'.pins o ≡ w.pins o
  calls-After ms w w' (ok u v) tidy k e h o =
      h v (IsTidy-Keeps w v tidy k) e o ∙ k.others o none-ne-some
  calls-After ms w w' (err x v) tidy k e h o =
      h v (IsTidy-Keeps w v tidy k) e o ∙ k.others o none-ne-some
  calls-After ms w w' panic tidy k e h o = cc

  -- After any sequence of calls of the context's methods, whatever the module does and whether
  -- they succeed or return errors, from a world in which pinners not yet made hold nothing:
  -- unless a call panics, every pinner holds what it held before.
  pub calls-pins :
      (ms : List Method) (w w' : World S)
      → IsTidy w
      → calls env c ms w ≡ some w'
      → (o : ℕ) → w'.pins o ≡ w.pins o
  unfolding calls
  calls-pins [] w w' tidy e o = ap (λ v. v.pins o) (sym (some_inj e))
  calls-pins (m ∷ ms) w w' tidy e o =
      calls-After ms w w' (run env c m w) tidy
        ((run-Uses m).runs w tidy (λ x h. absurd (none-ne-some h))) e
        (λ v tidy' e'. calls-pins ms v w' tidy' e') o
