-- ===== src/FuncList.antt =====
-- funclist.go: the module's table of functions, and the loading of the module.
pub mod Table
pub mod Load
use gopkcs.Prelude.{ℕ, ◌+◌}
use gopkcs.Machine.Bytes.{Memory}
use gopkcs.Machine.Words.{load_word}

-- The addresses of the module's functions, in the order of the struct.
pub record FunctionList : Type 0 where
  pub handle : ℕ
  pub c_initialize : ℕ
  pub c_finalize : ℕ
  pub c_get_info : ℕ
  pub c_get_function_list : ℕ
  pub c_get_slot_list : ℕ
  pub c_get_slot_info : ℕ
  pub c_get_token_info : ℕ
  pub c_get_mechanism_list : ℕ
  pub c_get_mechanism_info : ℕ
  pub c_init_token : ℕ
  pub c_init_pin : ℕ
  pub c_set_pin : ℕ
  pub c_open_session : ℕ
  pub c_close_session : ℕ
  pub c_close_all_sessions : ℕ
  pub c_get_session_info : ℕ
  pub c_get_operation_state : ℕ
  pub c_set_operation_state : ℕ
  pub c_login : ℕ
  pub c_logout : ℕ
  pub c_create_object : ℕ
  pub c_copy_object : ℕ
  pub c_destroy_object : ℕ
  pub c_get_object_size : ℕ
  pub c_get_attribute_value : ℕ
  pub c_set_attribute_value : ℕ
  pub c_find_objects_init : ℕ
  pub c_find_objects : ℕ
  pub c_find_objects_final : ℕ
  pub c_encrypt_init : ℕ
  pub c_encrypt : ℕ
  pub c_encrypt_update : ℕ
  pub c_encrypt_final : ℕ
  pub c_decrypt_init : ℕ
  pub c_decrypt : ℕ
  pub c_decrypt_update : ℕ
  pub c_decrypt_final : ℕ
  pub c_digest_init : ℕ
  pub c_digest : ℕ
  pub c_digest_update : ℕ
  pub c_digest_key : ℕ
  pub c_digest_final : ℕ
  pub c_sign_init : ℕ
  pub c_sign : ℕ
  pub c_sign_update : ℕ
  pub c_sign_final : ℕ
  pub c_sign_recover_init : ℕ
  pub c_sign_recover : ℕ
  pub c_verify_init : ℕ
  pub c_verify : ℕ
  pub c_verify_update : ℕ
  pub c_verify_final : ℕ
  pub c_verify_recover_init : ℕ
  pub c_verify_recover : ℕ
  pub c_digest_encrypt_update : ℕ
  pub c_decrypt_digest_update : ℕ
  pub c_sign_encrypt_update : ℕ
  pub c_decrypt_verify_update : ℕ
  pub c_generate_key : ℕ
  pub c_generate_key_pair : ℕ
  pub c_wrap_key : ℕ
  pub c_unwrap_key : ℕ
  pub c_derive_key : ℕ
  pub c_seed_random : ℕ
  pub c_generate_random : ℕ
  pub c_get_function_status : ℕ
  pub c_cancel_function : ℕ
  pub c_wait_for_slot_event : ℕ

-- `handle` comes from the literal with which loadModule builds the struct.
unfoldable pub read_function_list : Memory → ℕ → ℕ → FunctionList
read_function_list m ptr handle = record {
  handle = handle;
  c_initialize = load_word m (ptr + 8);
  c_finalize = load_word m (ptr + 16);
  c_get_info = load_word m (ptr + 24);
  c_get_function_list = load_word m (ptr + 32);
  c_get_slot_list = load_word m (ptr + 40);
  c_get_slot_info = load_word m (ptr + 48);
  c_get_token_info = load_word m (ptr + 56);
  c_get_mechanism_list = load_word m (ptr + 64);
  c_get_mechanism_info = load_word m (ptr + 72);
  c_init_token = load_word m (ptr + 80);
  c_init_pin = load_word m (ptr + 88);
  c_set_pin = load_word m (ptr + 96);
  c_open_session = load_word m (ptr + 104);
  c_close_session = load_word m (ptr + 112);
  c_close_all_sessions = load_word m (ptr + 120);
  c_get_session_info = load_word m (ptr + 128);
  c_get_operation_state = load_word m (ptr + 136);
  c_set_operation_state = load_word m (ptr + 144);
  c_login = load_word m (ptr + 152);
  c_logout = load_word m (ptr + 160);
  c_create_object = load_word m (ptr + 168);
  c_copy_object = load_word m (ptr + 176);
  c_destroy_object = load_word m (ptr + 184);
  c_get_object_size = load_word m (ptr + 192);
  c_get_attribute_value = load_word m (ptr + 200);
  c_set_attribute_value = load_word m (ptr + 208);
  c_find_objects_init = load_word m (ptr + 216);
  c_find_objects = load_word m (ptr + 224);
  c_find_objects_final = load_word m (ptr + 232);
  c_encrypt_init = load_word m (ptr + 240);
  c_encrypt = load_word m (ptr + 248);
  c_encrypt_update = load_word m (ptr + 256);
  c_encrypt_final = load_word m (ptr + 264);
  c_decrypt_init = load_word m (ptr + 272);
  c_decrypt = load_word m (ptr + 280);
  c_decrypt_update = load_word m (ptr + 288);
  c_decrypt_final = load_word m (ptr + 296);
  c_digest_init = load_word m (ptr + 304);
  c_digest = load_word m (ptr + 312);
  c_digest_update = load_word m (ptr + 320);
  c_digest_key = load_word m (ptr + 328);
  c_digest_final = load_word m (ptr + 336);
  c_sign_init = load_word m (ptr + 344);
  c_sign = load_word m (ptr + 352);
  c_sign_update = load_word m (ptr + 360);
  c_sign_final = load_word m (ptr + 368);
  c_sign_recover_init = load_word m (ptr + 376);
  c_sign_recover = load_word m (ptr + 384);
  c_verify_init = load_word m (ptr + 392);
  c_verify = load_word m (ptr + 400);
  c_verify_update = load_word m (ptr + 408);
  c_verify_final = load_word m (ptr + 416);
  c_verify_recover_init = load_word m (ptr + 424);
  c_verify_recover = load_word m (ptr + 432);
  c_digest_encrypt_update = load_word m (ptr + 440);
  c_decrypt_digest_update = load_word m (ptr + 448);
  c_sign_encrypt_update = load_word m (ptr + 456);
  c_decrypt_verify_update = load_word m (ptr + 464);
  c_generate_key = load_word m (ptr + 472);
  c_generate_key_pair = load_word m (ptr + 480);
  c_wrap_key = load_word m (ptr + 488);
  c_unwrap_key = load_word m (ptr + 496);
  c_derive_key = load_word m (ptr + 504);
  c_seed_random = load_word m (ptr + 512);
  c_generate_random = load_word m (ptr + 520);
  c_get_function_status = load_word m (ptr + 528);
  c_cancel_function = load_word m (ptr + 536);
  c_wait_for_slot_event = load_word m (ptr + 544);
}
