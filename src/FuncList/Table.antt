-- ===== src/FuncList/Table.antt =====
-- The fields of the struct are the 68 words of CK_FUNCTION_LIST behind its version, in order.
use gopkcs.Prelude.{ℕ, zero, suc, ◌+◌, ◌≡◌, refl, ap, ◌∙◌, List, [], ◌∷◌, arith}
use gopkcs.Machine.Bytes.{Memory}
use gopkcs.Machine.Words.{load_word, load_words}
use gopkcs.FuncList.{FunctionList, read_function_list}

-- The struct's function fields in the order of their declaration.
pub functions_of : FunctionList → List ℕ
functions_of fl =
    fl.c_initialize ∷ fl.c_finalize ∷ fl.c_get_info ∷ fl.c_get_function_list ∷ fl.c_get_slot_list
    ∷ fl.c_get_slot_info ∷ fl.c_get_token_info ∷ fl.c_get_mechanism_list ∷ fl.c_get_mechanism_info
    ∷ fl.c_init_token ∷ fl.c_init_pin ∷ fl.c_set_pin ∷ fl.c_open_session ∷ fl.c_close_session
    ∷ fl.c_close_all_sessions ∷ fl.c_get_session_info ∷ fl.c_get_operation_state
    ∷ fl.c_set_operation_state ∷ fl.c_login ∷ fl.c_logout ∷ fl.c_create_object ∷ fl.c_copy_object
    ∷ fl.c_destroy_object ∷ fl.c_get_object_size ∷ fl.c_get_attribute_value
    ∷ fl.c_set_attribute_value ∷ fl.c_find_objects_init ∷ fl.c_find_objects
    ∷ fl.c_find_objects_final ∷ fl.c_encrypt_init ∷ fl.c_encrypt ∷ fl.c_encrypt_update
    ∷ fl.c_encrypt_final ∷ fl.c_decrypt_init ∷ fl.c_decrypt ∷ fl.c_decrypt_update
    ∷ fl.c_decrypt_final ∷ fl.c_digest_init ∷ fl.c_digest ∷ fl.c_digest_update ∷ fl.c_digest_key
    ∷ fl.c_digest_final ∷ fl.c_sign_init ∷ fl.c_sign ∷ fl.c_sign_update ∷ fl.c_sign_final
    ∷ fl.c_sign_recover_init ∷ fl.c_sign_recover ∷ fl.c_verify_init ∷ fl.c_verify
    ∷ fl.c_verify_update ∷ fl.c_verify_final ∷ fl.c_verify_recover_init ∷ fl.c_verify_recover
    ∷ fl.c_digest_encrypt_update ∷ fl.c_decrypt_digest_update ∷ fl.c_sign_encrypt_update
    ∷ fl.c_decrypt_verify_update ∷ fl.c_generate_key ∷ fl.c_generate_key_pair ∷ fl.c_wrap_key
    ∷ fl.c_unwrap_key ∷ fl.c_derive_key ∷ fl.c_seed_random ∷ fl.c_generate_random
    ∷ fl.c_get_function_status ∷ fl.c_cancel_function ∷ fl.c_wait_for_slot_event ∷ []

-- The words at literal offsets from a base.
words_at : Memory → ℕ → ℕ → ℕ → List ℕ
words_at m ptr off zero = []
words_at m ptr off (suc n) = load_word m (ptr + off) ∷ words_at m ptr (off + 8) n

words_at-eq : (m : Memory) (ptr off n : ℕ) → words_at m ptr off n ≡ load_words m (ptr + off) n
unfolding words_at load_words
words_at-eq m ptr off zero = refl
words_at-eq m ptr off (suc n) =
    ap (◌∷◌ (load_word m (ptr + off)))
      (words_at-eq m ptr (off + 8) n ∙ ap (λ x. load_words m x n) (omega arith))

functions_of-words_at :
    (m : Memory) (ptr handle : ℕ)
    → functions_of (read_function_list m ptr handle) ≡ words_at m ptr 8 68
unfolding functions_of read_function_list words_at
functions_of-words_at m ptr handle = refl

-- readFunctionList fills the struct's function fields, in the order of their declaration, with
-- the 68 consecutive words from offset 8 of CK_FUNCTION_LIST.
pub functions_of-read_function_list :
    (m : Memory) (ptr handle : ℕ)
    → functions_of (read_function_list m ptr handle) ≡ load_words m (ptr + 8) 68
functions_of-read_function_list m ptr handle =
    functions_of-words_at m ptr handle ∙ words_at-eq m ptr 8 68
