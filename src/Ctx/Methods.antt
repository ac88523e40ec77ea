-- ===== src/Ctx/Methods.antt =====
-- The methods of the context as values, and programs of such calls.
use gopkcs.Prelude.{ℕ, Bool, Option, none, some, List, [], ◌∷◌}
use gopkcs.Machine.Effects.{Slice, Env, M, World, ok, err, panic, pure, ◌>>=◌}
use gopkcs.Ctx.General.{InitializeOption, initialize, finalize, get_info, wait_for_slot_event}
use gopkcs.Ctx.Slots.{
  get_slot_list, get_slot_info, get_token_info, get_mechanism_list, get_mechanism_info, init_token,
}
use gopkcs.Ctx.Sessions.{
  init_pin, set_pin, open_session, close_session, close_all_sessions, get_session_info,
  get_operation_state, set_operation_state, login, logout,
}
use gopkcs.Ctx.Objects.{
  create_object, copy_object, destroy_object, get_object_size, get_attribute_value,
  set_attribute_value, find_objects_init, find_objects, find_objects_final,
}
use gopkcs.Ctx.Crypto.{
  encrypt_init, encrypt, encrypt_update, encrypt_final, decrypt_init, decrypt, decrypt_update,
  decrypt_final, digest_init, digest, digest_update, digest_key, digest_final,
  digest_encrypt_update, decrypt_digest_update,
}
use gopkcs.Ctx.Signatures.{
  sign_init, sign, sign_update, sign_final, sign_recover_init, sign_recover, verify_init, verify,
  verify_update, verify_final, verify_recover_init, verify_recover, sign_encrypt_update,
  decrypt_verify_update,
}
use gopkcs.Ctx.Keys.{
  generate_key, generate_key_pair, wrap_key, unwrap_key, derive_key, seed_random, generate_random,
}
use gopkcs.Ctx.Base.{Ctx}
use gopkcs.Types.{Attribute, Mechanism}
use gopkcs.Prelude.Int.{ℤ}

pub data Method : Type 0 where
  call_initialize : (opts : List InitializeOption) → Method
  call_finalize : Method
  call_get_info : Method
  call_wait_for_slot_event : (flags : ℕ) → Method
  call_get_slot_list : (token_present : Bool) → Method
  call_get_slot_info : (slot_id : ℕ) → Method
  call_get_token_info : (slot_id : ℕ) → Method
  call_get_mechanism_list : (slot_id : ℕ) → Method
  call_get_mechanism_info : (slot_id : ℕ) (ms : List Mechanism) → Method
  call_init_token : (slot_id : ℕ) (pass : List ℕ) (label : List ℕ) → Method
  call_init_pin : (sh : ℕ) (pass : List ℕ) → Method
  call_set_pin : (sh : ℕ) (oldpin : List ℕ) (newpin : List ℕ) → Method
  call_open_session : (slot_id : ℕ) (flags : ℕ) → Method
  call_close_session : (sh : ℕ) → Method
  call_close_all_sessions : (slot_id : ℕ) → Method
  call_get_session_info : (sh : ℕ) → Method
  call_get_operation_state : (sh : ℕ) → Method
  call_set_operation_state : (sh : ℕ) (state : Slice) (encrypt_key : ℕ) (auth_key : ℕ) → Method
  call_login : (sh : ℕ) (user_type : ℕ) (pass : List ℕ) → Method
  call_logout : (sh : ℕ) → Method
  call_create_object : (sh : ℕ) (temp : List Attribute) → Method
  call_copy_object : (sh : ℕ) (o : ℕ) (temp : List Attribute) → Method
  call_destroy_object : (sh : ℕ) (oh : ℕ) → Method
  call_get_object_size : (sh : ℕ) (oh : ℕ) → Method
  call_get_attribute_value : (sh : ℕ) (o : ℕ) (a : List Attribute) → Method
  call_set_attribute_value : (sh : ℕ) (o : ℕ) (a : List Attribute) → Method
  call_find_objects_init : (sh : ℕ) (temp : List Attribute) → Method
  call_find_objects : (sh : ℕ) (max_objects : ℤ) → Method
  call_find_objects_final : (sh : ℕ) → Method
  call_encrypt_init : (sh : ℕ) (m : List Mechanism) (key : ℕ) → Method
  call_encrypt : (sh : ℕ) (input : Slice) → Method
  call_encrypt_update : (sh : ℕ) (input : Slice) → Method
  call_encrypt_final : (sh : ℕ) → Method
  call_decrypt_init : (sh : ℕ) (m : List Mechanism) (key : ℕ) → Method
  call_decrypt : (sh : ℕ) (input : Slice) → Method
  call_decrypt_update : (sh : ℕ) (input : Slice) → Method
  call_decrypt_final : (sh : ℕ) → Method
  call_digest_init : (sh : ℕ) (m : List Mechanism) → Method
  call_digest : (sh : ℕ) (input : Slice) → Method
  call_digest_update : (sh : ℕ) (part : Slice) → Method
  call_digest_key : (sh : ℕ) (key : ℕ) → Method
  call_digest_final : (sh : ℕ) → Method
  call_digest_encrypt_update : (sh : ℕ) (input : Slice) → Method
  call_decrypt_digest_update : (sh : ℕ) (input : Slice) → Method
  call_sign_init : (sh : ℕ) (m : List Mechanism) (key : ℕ) → Method
  call_sign : (sh : ℕ) (input : Slice) → Method
  call_sign_update : (sh : ℕ) (part : Slice) → Method
  call_sign_final : (sh : ℕ) → Method
  call_sign_recover_init : (sh : ℕ) (m : List Mechanism) (key : ℕ) → Method
  call_sign_recover : (sh : ℕ) (input : Slice) → Method
  call_verify_init : (sh : ℕ) (m : List Mechanism) (key : ℕ) → Method
  call_verify : (sh : ℕ) (message : Slice) (signature : Slice) → Method
  call_verify_update : (sh : ℕ) (part : Slice) → Method
  call_verify_final : (sh : ℕ) (part : Slice) → Method
  call_verify_recover_init : (sh : ℕ) (m : List Mechanism) (key : ℕ) → Method
  call_verify_recover : (sh : ℕ) (input : Slice) → Method
  call_sign_encrypt_update : (sh : ℕ) (input : Slice) → Method
  call_decrypt_verify_update : (sh : ℕ) (input : Slice) → Method
  call_generate_key : (sh : ℕ) (m : List Mechanism) (temp : List Attribute) → Method
  call_generate_key_pair :
      (sh : ℕ) (m : List Mechanism) (public : List Attribute) (private : List Attribute) → Method
  call_wrap_key : (sh : ℕ) (m : List Mechanism) (wrappingkey : ℕ) (key : ℕ) → Method
  call_unwrap_key :
      (sh : ℕ) (m : List Mechanism) (unwrappingkey : ℕ) (wrappedkey : Slice) (a2 : List Attribute)
      → Method
  call_derive_key : (sh : ℕ) (m : List Mechanism) (basekey : ℕ) (a2 : List Attribute) → Method
  call_seed_random : (sh : ℕ) (seed : Slice) → Method
  call_generate_random : (sh : ℕ) (n : ℤ) → Method

module _ {S : Type 0} (env : Env S) (c : Ctx) where
  unfoldable pub run : Method → M S (Unit {0})
  run (call_initialize opts) = do _ ← initialize env c opts; pure tt
  run call_finalize = do _ ← finalize env c; pure tt
  run call_get_info = do _ ← get_info env c; pure tt
  run (call_wait_for_slot_event flags) = do _ ← wait_for_slot_event env c flags; pure tt
  run (call_get_slot_list token_present) = do _ ← get_slot_list env c token_present; pure tt
  run (call_get_slot_info slot_id) = do _ ← get_slot_info env c slot_id; pure tt
  run (call_get_token_info slot_id) = do _ ← get_token_info env c slot_id; pure tt
  run (call_get_mechanism_list slot_id) = do _ ← get_mechanism_list env c slot_id; pure tt
  run (call_get_mechanism_info slot_id ms) = do _ ← get_mechanism_info env c slot_id ms; pure tt
  run (call_init_token slot_id pass label) = do _ ← init_token env c slot_id pass label; pure tt
  run (call_init_pin sh pass) = do _ ← init_pin env c sh pass; pure tt
  run (call_set_pin sh oldpin newpin) = do _ ← set_pin env c sh oldpin newpin; pure tt
  run (call_open_session slot_id flags) = do _ ← open_session env c slot_id flags; pure tt
  run (call_close_session sh) = do _ ← close_session env c sh; pure tt
  run (call_close_all_sessions slot_id) = do _ ← close_all_sessions env c slot_id; pure tt
  run (call_get_session_info sh) = do _ ← get_session_info env c sh; pure tt
  run (call_get_operation_state sh) = do _ ← get_operation_state env c sh; pure tt
  run (call_set_operation_state sh state encrypt_key auth_key) = do
    _ ← set_operation_state env c sh state encrypt_key auth_key
    pure tt
  run (call_login sh user_type pass) = do _ ← login env c sh user_type pass; pure tt
  run (call_logout sh) = do _ ← logout env c sh; pure tt
  run (call_create_object sh temp) = do _ ← create_object env c sh temp; pure tt
  run (call_copy_object sh o temp) = do _ ← copy_object env c sh o temp; pure tt
  run (call_destroy_object sh oh) = do _ ← destroy_object env c sh oh; pure tt
  run (call_get_object_size sh oh) = do _ ← get_object_size env c sh oh; pure tt
  run (call_get_attribute_value sh o a) = do _ ← get_attribute_value env c sh o a; pure tt
  run (call_set_attribute_value sh o a) = do _ ← set_attribute_value env c sh o a; pure tt
  run (call_find_objects_init sh temp) = do _ ← find_objects_init env c sh temp; pure tt
  run (call_find_objects sh max_objects) = do _ ← find_objects env c sh max_objects; pure tt
  run (call_find_objects_final sh) = do _ ← find_objects_final env c sh; pure tt
  run (call_encrypt_init sh m key) = do _ ← encrypt_init env c sh m key; pure tt
  run (call_encrypt sh input) = do _ ← encrypt env c sh input; pure tt
  run (call_encrypt_update sh input) = do _ ← encrypt_update env c sh input; pure tt
  run (call_encrypt_final sh) = do _ ← encrypt_final env c sh; pure tt
  run (call_decrypt_init sh m key) = do _ ← decrypt_init env c sh m key; pure tt
  run (call_decrypt sh input) = do _ ← decrypt env c sh input; pure tt
  run (call_decrypt_update sh input) = do _ ← decrypt_update env c sh input; pure tt
  run (call_decrypt_final sh) = do _ ← decrypt_final env c sh; pure tt
  run (call_digest_init sh m) = do _ ← digest_init env c sh m; pure tt
  run (call_digest sh input) = do _ ← digest env c sh input; pure tt
  run (call_digest_update sh part) = do _ ← digest_update env c sh part; pure tt
  run (call_digest_key sh key) = do _ ← digest_key env c sh key; pure tt
  run (call_digest_final sh) = do _ ← digest_final env c sh; pure tt
  run (call_digest_encrypt_update sh input) = do _ ← digest_encrypt_update env c sh input; pure tt
  run (call_decrypt_digest_update sh input) = do _ ← decrypt_digest_update env c sh input; pure tt
  run (call_sign_init sh m key) = do _ ← sign_init env c sh m key; pure tt
  run (call_sign sh input) = do _ ← sign env c sh input; pure tt
  run (call_sign_update sh part) = do _ ← sign_update env c sh part; pure tt
  run (call_sign_final sh) = do _ ← sign_final env c sh; pure tt
  run (call_sign_recover_init sh m key) = do _ ← sign_recover_init env c sh m key; pure tt
  run (call_sign_recover sh input) = do _ ← sign_recover env c sh input; pure tt
  run (call_verify_init sh m key) = do _ ← verify_init env c sh m key; pure tt
  run (call_verify sh message signature) = do _ ← verify env c sh message signature; pure tt
  run (call_verify_update sh part) = do _ ← verify_update env c sh part; pure tt
  run (call_verify_final sh part) = do _ ← verify_final env c sh part; pure tt
  run (call_verify_recover_init sh m key) = do _ ← verify_recover_init env c sh m key; pure tt
  run (call_verify_recover sh input) = do _ ← verify_recover env c sh input; pure tt
  run (call_sign_encrypt_update sh input) = do _ ← sign_encrypt_update env c sh input; pure tt
  run (call_decrypt_verify_update sh input) = do _ ← decrypt_verify_update env c sh input; pure tt
  run (call_generate_key sh m temp) = do _ ← generate_key env c sh m temp; pure tt
  run (call_generate_key_pair sh m public private) = do
    _ ← generate_key_pair env c sh m public private
    pure tt
  run (call_wrap_key sh m wrappingkey key) = do _ ← wrap_key env c sh m wrappingkey key; pure tt
  run (call_unwrap_key sh m unwrappingkey wrappedkey a2) = do
    _ ← unwrap_key env c sh m unwrappingkey wrappedkey a2
    pure tt
  run (call_derive_key sh m basekey a2) = do _ ← derive_key env c sh m basekey a2; pure tt
  run (call_seed_random sh seed) = do _ ← seed_random env c sh seed; pure tt
  run (call_generate_random sh n) = do _ ← generate_random env c sh n; pure tt

  -- The world after the calls, whatever they return; none when one of them panics.
  unfoldable pub calls : List Method → World S → Option (World S)
  unfolding run
  calls [] w = some w
  calls (m ∷ ms) w = elim (run m w) [ ok u v ↦ calls ms v | err e v ↦ calls ms v | panic ↦ none ]
