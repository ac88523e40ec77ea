-- ===== src/Errors/ReturnValues.antt =====
-- The return values of zconst.go, by their names.
use gopkcs.Prelude.{ℕ, List, [], ◌∷◌}
use gopkcs.Text.{Bytes, codes}

abbrev pub return_values : List (Bytes × ℕ)
return_values =
    (codes "CKR_OK", 0)
    ∷ (codes "CKR_CANCEL", 0x1)
    ∷ (codes "CKR_HOST_MEMORY", 0x2)
    ∷ (codes "CKR_SLOT_ID_INVALID", 0x3)
    ∷ (codes "CKR_GENERAL_ERROR", 0x5)
    ∷ (codes "CKR_FUNCTION_FAILED", 0x6)
    ∷ (codes "CKR_ARGUMENTS_BAD", 0x7)
    ∷ (codes "CKR_NO_EVENT", 0x8)
    ∷ (codes "CKR_NEED_TO_CREATE_THREADS", 0x9)
    ∷ (codes "CKR_CANT_LOCK", 0xa)
    ∷ (codes "CKR_ATTRIBUTE_READ_ONLY", 0x10)
    ∷ (codes "CKR_ATTRIBUTE_SENSITIVE", 0x11)
    ∷ (codes "CKR_ATTRIBUTE_TYPE_INVALID", 0x12)
    ∷ (codes "CKR_ATTRIBUTE_VALUE_INVALID", 0x13)
    ∷ (codes "CKR_ACTION_PROHIBITED", 0x1b)
    ∷ (codes "CKR_DATA_INVALID", 0x20)
    ∷ (codes "CKR_DATA_LEN_RANGE", 0x21)
    ∷ (codes "CKR_DEVICE_ERROR", 0x30)
    ∷ (codes "CKR_DEVICE_MEMORY", 0x31)
    ∷ (codes "CKR_DEVICE_REMOVED", 0x32)
    ∷ (codes "CKR_ENCRYPTED_DATA_INVALID", 0x40)
    ∷ (codes "CKR_ENCRYPTED_DATA_LEN_RANGE", 0x41)
    ∷ (codes "CKR_FUNCTION_CANCELED", 0x50)
    ∷ (codes "CKR_FUNCTION_NOT_PARALLEL", 0x51)
    ∷ (codes "CKR_FUNCTION_NOT_SUPPORTED", 0x54)
    ∷ (codes "CKR_KEY_HANDLE_INVALID", 0x60)
    ∷ (codes "CKR_KEY_SIZE_RANGE", 0x62)
    ∷ (codes "CKR_KEY_TYPE_INCONSISTENT", 0x63)
    ∷ (codes "CKR_KEY_NOT_NEEDED", 0x64)
    ∷ (codes "CKR_KEY_CHANGED", 0x65)
    ∷ (codes "CKR_KEY_NEEDED", 0x66)
    ∷ (codes "CKR_KEY_INDIGESTIBLE", 0x67)
    ∷ (codes "CKR_KEY_FUNCTION_NOT_PERMITTED", 0x68)
    ∷ (codes "CKR_KEY_NOT_WRAPPABLE", 0x69)
    ∷ (codes "CKR_KEY_UNEXTRACTABLE", 0x6a)
    ∷ (codes "CKR_MECHANISM_INVALID", 0x70)
    ∷ (codes "CKR_MECHANISM_PARAM_INVALID", 0x71)
    ∷ (codes "CKR_OBJECT_HANDLE_INVALID", 0x82)
    ∷ (codes "CKR_OPERATION_ACTIVE", 0x90)
    ∷ (codes "CKR_OPERATION_NOT_INITIALIZED", 0x91)
    ∷ (codes "CKR_PIN_INCORRECT", 0xa0)
    ∷ (codes "CKR_PIN_INVALID", 0xa1)
    ∷ (codes "CKR_PIN_LEN_RANGE", 0xa2)
    ∷ (codes "CKR_PIN_EXPIRED", 0xa3)
    ∷ (codes "CKR_PIN_LOCKED", 0xa4)
    ∷ (codes "CKR_SESSION_CLOSED", 0xb0)
    ∷ (codes "CKR_SESSION_COUNT", 0xb1)
    ∷ (codes "CKR_SESSION_HANDLE_INVALID", 0xb3)
    ∷ (codes "CKR_SESSION_PARALLEL_NOT_SUPPORTED", 0xb4)
    ∷ (codes "CKR_SESSION_READ_ONLY", 0xb5)
    ∷ (codes "CKR_SESSION_EXISTS", 0xb6)
    ∷ (codes "CKR_SESSION_READ_ONLY_EXISTS", 0xb7)
    ∷ (codes "CKR_SESSION_READ_WRITE_SO_EXISTS", 0xb8)
    ∷ (codes "CKR_SIGNATURE_INVALID", 0xc0)
    ∷ (codes "CKR_SIGNATURE_LEN_RANGE", 0xc1)
    ∷ (codes "CKR_TEMPLATE_INCOMPLETE", 0xd0)
    ∷ (codes "CKR_TEMPLATE_INCONSISTENT", 0xd1)
    ∷ (codes "CKR_TOKEN_NOT_PRESENT", 0xe0)
    ∷ (codes "CKR_TOKEN_NOT_RECOGNIZED", 0xe1)
    ∷ (codes "CKR_TOKEN_WRITE_PROTECTED", 0xe2)
    ∷ (codes "CKR_UNWRAPPING_KEY_HANDLE_INVALID", 0xf0)
    ∷ (codes "CKR_UNWRAPPING_KEY_SIZE_RANGE", 0xf1)
    ∷ (codes "CKR_UNWRAPPING_KEY_TYPE_INCONSISTENT", 0xf2)
    ∷ (codes "CKR_USER_ALREADY_LOGGED_IN", 0x100)
    ∷ (codes "CKR_USER_NOT_LOGGED_IN", 0x101)
    ∷ (codes "CKR_USER_PIN_NOT_INITIALIZED", 0x102)
    ∷ (codes "CKR_USER_TYPE_INVALID", 0x103)
    ∷ (codes "CKR_USER_ANOTHER_ALREADY_LOGGED_IN", 0x104)
    ∷ (codes "CKR_USER_TOO_MANY_TYPES", 0x105)
    ∷ (codes "CKR_WRAPPED_KEY_INVALID", 0x110)
    ∷ (codes "CKR_WRAPPED_KEY_LEN_RANGE", 0x112)
    ∷ (codes "CKR_WRAPPING_KEY_HANDLE_INVALID", 0x113)
    ∷ (codes "CKR_WRAPPING_KEY_SIZE_RANGE", 0x114)
    ∷ (codes "CKR_WRAPPING_KEY_TYPE_INCONSISTENT", 0x115)
    ∷ (codes "CKR_RANDOM_SEED_NOT_SUPPORTED", 0x120)
    ∷ (codes "CKR_RANDOM_NO_RNG", 0x121)
    ∷ (codes "CKR_DOMAIN_PARAMS_INVALID", 0x130)
    ∷ (codes "CKR_CURVE_NOT_SUPPORTED", 0x140)
    ∷ (codes "CKR_BUFFER_TOO_SMALL", 0x150)
    ∷ (codes "CKR_SAVED_STATE_INVALID", 0x160)
    ∷ (codes "CKR_INFORMATION_SENSITIVE", 0x170)
    ∷ (codes "CKR_STATE_UNSAVEABLE", 0x180)
    ∷ (codes "CKR_CRYPTOKI_NOT_INITIALIZED", 0x190)
    ∷ (codes "CKR_CRYPTOKI_ALREADY_INITIALIZED", 0x191)
    ∷ (codes "CKR_MUTEX_BAD", 0x1a0)
    ∷ (codes "CKR_MUTEX_NOT_LOCKED", 0x1a1)
    ∷ (codes "CKR_NEW_PIN_MODE", 0x1b0)
    ∷ (codes "CKR_NEXT_OTP", 0x1b1)
    ∷ (codes "CKR_EXCEEDED_MAX_ITERATIONS", 0x1b5)
    ∷ (codes "CKR_FIPS_SELF_TEST_FAILED", 0x1b6)
    ∷ (codes "CKR_LIBRARY_LOAD_FAILED", 0x1b7)
    ∷ (codes "CKR_PIN_TOO_WEAK", 0x1b8)
    ∷ (codes "CKR_PUBLIC_KEY_INVALID", 0x1b9)
    ∷ (codes "CKR_FUNCTION_REJECTED", 0x200)
    ∷ (codes "CKR_VENDOR_DEFINED", 0x80000000)
    ∷ []
