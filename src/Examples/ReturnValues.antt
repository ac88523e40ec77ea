-- ===== src/Examples/ReturnValues.antt =====
-- The return values of pkcs11t.h give the return values of zconst.go.
use gopkcs.Prelude.{ℕ, ◌≡◌, refl, List, [], ◌∷◌, ◌++◌}
use gopkcs.Text.{Bytes, codes, trim_space, fields, replace_all, contains, index, join}
use gopkcs.Constgen.{go_value}
use gopkcs.Constgen.Entries.{
  Entry, entries, line_entries, define_entries, is_constant, before_comment,
}
use gopkcs.Errors.ReturnValues.{return_values}
use gopkcs.Errors.Text.{hex, hex_from}

-- The lines from 1080 on that define return values.
abbrev lines : List Bytes
lines =
    codes "#define CKR_OK                                0x00000000UL"
    ∷ codes "#define CKR_CANCEL                            0x00000001UL"
    ∷ codes "#define CKR_HOST_MEMORY                       0x00000002UL"
    ∷ codes "#define CKR_SLOT_ID_INVALID                   0x00000003UL"
    ∷ codes "#define CKR_GENERAL_ERROR                     0x00000005UL"
    ∷ codes "#define CKR_FUNCTION_FAILED                   0x00000006UL"
    ∷ codes "#define CKR_ARGUMENTS_BAD                     0x00000007UL"
    ∷ codes "#define CKR_NO_EVENT                          0x00000008UL"
    ∷ codes "#define CKR_NEED_TO_CREATE_THREADS            0x00000009UL"
    ∷ codes "#define CKR_CANT_LOCK                         0x0000000AUL"
    ∷ codes "#define CKR_ATTRIBUTE_READ_ONLY               0x00000010UL"
    ∷ codes "#define CKR_ATTRIBUTE_SENSITIVE               0x00000011UL"
    ∷ codes "#define CKR_ATTRIBUTE_TYPE_INVALID            0x00000012UL"
    ∷ codes "#define CKR_ATTRIBUTE_VALUE_INVALID           0x00000013UL"
    ∷ codes "#define CKR_ACTION_PROHIBITED                 0x0000001BUL"
    ∷ codes "#define CKR_DATA_INVALID                      0x00000020UL"
    ∷ codes "#define CKR_DATA_LEN_RANGE                    0x00000021UL"
    ∷ codes "#define CKR_DEVICE_ERROR                      0x00000030UL"
    ∷ codes "#define CKR_DEVICE_MEMORY                     0x00000031UL"
    ∷ codes "#define CKR_DEVICE_REMOVED                    0x00000032UL"
    ∷ codes "#define CKR_ENCRYPTED_DATA_INVALID            0x00000040UL"
    ∷ codes "#define CKR_ENCRYPTED_DATA_LEN_RANGE          0x00000041UL"
    ∷ codes "#define CKR_FUNCTION_CANCELED                 0x00000050UL"
    ∷ codes "#define CKR_FUNCTION_NOT_PARALLEL             0x00000051UL"
    ∷ codes "#define CKR_FUNCTION_NOT_SUPPORTED            0x00000054UL"
    ∷ codes "#define CKR_KEY_HANDLE_INVALID                0x00000060UL"
    ∷ codes "#define CKR_KEY_SIZE_RANGE                    0x00000062UL"
    ∷ codes "#define CKR_KEY_TYPE_INCONSISTENT             0x00000063UL"
    ∷ codes "#define CKR_KEY_NOT_NEEDED                    0x00000064UL"
    ∷ codes "#define CKR_KEY_CHANGED                       0x00000065UL"
    ∷ codes "#define CKR_KEY_NEEDED                        0x00000066UL"
    ∷ codes "#define CKR_KEY_INDIGESTIBLE                  0x00000067UL"
    ∷ codes "#define CKR_KEY_FUNCTION_NOT_PERMITTED        0x00000068UL"
    ∷ codes "#define CKR_KEY_NOT_WRAPPABLE                 0x00000069UL"
    ∷ codes "#define CKR_KEY_UNEXTRACTABLE                 0x0000006AUL"
    ∷ codes "#define CKR_MECHANISM_INVALID                 0x00000070UL"
    ∷ codes "#define CKR_MECHANISM_PARAM_INVALID           0x00000071UL"
    ∷ codes "#define CKR_OBJECT_HANDLE_INVALID             0x00000082UL"
    ∷ codes "#define CKR_OPERATION_ACTIVE                  0x00000090UL"
    ∷ codes "#define CKR_OPERATION_NOT_INITIALIZED         0x00000091UL"
    ∷ codes "#define CKR_PIN_INCORRECT                     0x000000A0UL"
    ∷ codes "#define CKR_PIN_INVALID                       0x000000A1UL"
    ∷ codes "#define CKR_PIN_LEN_RANGE                     0x000000A2UL"
    ∷ codes "#define CKR_PIN_EXPIRED                       0x000000A3UL"
    ∷ codes "#define CKR_PIN_LOCKED                        0x000000A4UL"
    ∷ codes "#define CKR_SESSION_CLOSED                    0x000000B0UL"
    ∷ codes "#define CKR_SESSION_COUNT                     0x000000B1UL"
    ∷ codes "#define CKR_SESSION_HANDLE_INVALID            0x000000B3UL"
    ∷ codes "#define CKR_SESSION_PARALLEL_NOT_SUPPORTED    0x000000B4UL"
    ∷ codes "#define CKR_SESSION_READ_ONLY                 0x000000B5UL"
    ∷ codes "#define CKR_SESSION_EXISTS                    0x000000B6UL"
    ∷ codes "#define CKR_SESSION_READ_ONLY_EXISTS          0x000000B7UL"
    ∷ codes "#define CKR_SESSION_READ_WRITE_SO_EXISTS      0x000000B8UL"
    ∷ codes "#define CKR_SIGNATURE_INVALID                 0x000000C0UL"
    ∷ codes "#define CKR_SIGNATURE_LEN_RANGE               0x000000C1UL"
    ∷ codes "#define CKR_TEMPLATE_INCOMPLETE               0x000000D0UL"
    ∷ codes "#define CKR_TEMPLATE_INCONSISTENT             0x000000D1UL"
    ∷ codes "#define CKR_TOKEN_NOT_PRESENT                 0x000000E0UL"
    ∷ codes "#define CKR_TOKEN_NOT_RECOGNIZED              0x000000E1UL"
    ∷ codes "#define CKR_TOKEN_WRITE_PROTECTED             0x000000E2UL"
    ∷ codes "#define CKR_UNWRAPPING_KEY_HANDLE_INVALID     0x000000F0UL"
    ∷ codes "#define CKR_UNWRAPPING_KEY_SIZE_RANGE         0x000000F1UL"
    ∷ codes "#define CKR_UNWRAPPING_KEY_TYPE_INCONSISTENT  0x000000F2UL"
    ∷ codes "#define CKR_USER_ALREADY_LOGGED_IN            0x00000100UL"
    ∷ codes "#define CKR_USER_NOT_LOGGED_IN                0x00000101UL"
    ∷ codes "#define CKR_USER_PIN_NOT_INITIALIZED          0x00000102UL"
    ∷ codes "#define CKR_USER_TYPE_INVALID                 0x00000103UL"
    ∷ codes "#define CKR_USER_ANOTHER_ALREADY_LOGGED_IN    0x00000104UL"
    ∷ codes "#define CKR_USER_TOO_MANY_TYPES               0x00000105UL"
    ∷ codes "#define CKR_WRAPPED_KEY_INVALID               0x00000110UL"
    ∷ codes "#define CKR_WRAPPED_KEY_LEN_RANGE             0x00000112UL"
    ∷ codes "#define CKR_WRAPPING_KEY_HANDLE_INVALID       0x00000113UL"
    ∷ codes "#define CKR_WRAPPING_KEY_SIZE_RANGE           0x00000114UL"
    ∷ codes "#define CKR_WRAPPING_KEY_TYPE_INCONSISTENT    0x00000115UL"
    ∷ codes "#define CKR_RANDOM_SEED_NOT_SUPPORTED         0x00000120UL"
    ∷ codes "#define CKR_RANDOM_NO_RNG                     0x00000121UL"
    ∷ codes "#define CKR_DOMAIN_PARAMS_INVALID             0x00000130UL"
    ∷ codes "#define CKR_CURVE_NOT_SUPPORTED               0x00000140UL"
    ∷ codes "#define CKR_BUFFER_TOO_SMALL                  0x00000150UL"
    ∷ codes "#define CKR_SAVED_STATE_INVALID               0x00000160UL"
    ∷ codes "#define CKR_INFORMATION_SENSITIVE             0x00000170UL"
    ∷ codes "#define CKR_STATE_UNSAVEABLE                  0x00000180UL"
    ∷ codes "#define CKR_CRYPTOKI_NOT_INITIALIZED          0x00000190UL"
    ∷ codes "#define CKR_CRYPTOKI_ALREADY_INITIALIZED      0x00000191UL"
    ∷ codes "#define CKR_MUTEX_BAD                         0x000001A0UL"
    ∷ codes "#define CKR_MUTEX_NOT_LOCKED                  0x000001A1UL"
    ∷ codes "#define CKR_NEW_PIN_MODE                      0x000001B0UL"
    ∷ codes "#define CKR_NEXT_OTP                          0x000001B1UL"
    ∷ codes "#define CKR_EXCEEDED_MAX_ITERATIONS           0x000001B5UL"
    ∷ codes "#define CKR_FIPS_SELF_TEST_FAILED             0x000001B6UL"
    ∷ codes "#define CKR_LIBRARY_LOAD_FAILED               0x000001B7UL"
    ∷ codes "#define CKR_PIN_TOO_WEAK                      0x000001B8UL"
    ∷ codes "#define CKR_PUBLIC_KEY_INVALID                0x000001B9UL"
    ∷ codes "#define CKR_FUNCTION_REJECTED                 0x00000200UL"
    ∷ codes "#define CKR_VENDOR_DEFINED                    0x80000000UL"
    ∷ []

abbrev as_entries : List (Bytes × ℕ) → List Entry
as_entries [] = []
as_entries ((name, k) ∷ rest) = (name, codes "0x" ++ hex k) ∷ as_entries rest

-- What the generator makes of these lines is what zconst.go has.
lines-return_values : entries lines ≡ as_entries return_values
unfolding entries line_entries trim_space define_entries fields is_constant go_value replace_all
    contains index before_comment join hex hex_from
lines-return_values = refl
