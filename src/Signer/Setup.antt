-- ===== src/Signer/Setup.antt =====
-- openSession, findObject, getPublicKeyID, getPrivateKey and setup of signer.go. The messages of
-- errors are cut to their fixed parts.
pub mod Accounts
pub mod Sessions
use Prim.Native.String.{String}
use mathlib.Core.Option
use gopkcs.Prelude.{
  ℕ, suc, Bool, true, false, ◌&&◌, not, Option, none, some, List, [], ◌∷◌, ◌==◌, if◌then◌else◌,
}
use gopkcs.Prelude.Int.{ℤ, pos, negsuc}
use gopkcs.Machine.Bytes.{le_bytes}
use gopkcs.Machine.Effects.{Error, message}
use gopkcs.Errors.{ckr_user_already_logged_in, ckr_attribute_type_invalid}
use gopkcs.Types.{uint_to_bytes}
use gopkcs.Signer.Interface.{
  Ret, ok, err, Act, pure, fail, ◌>>=◌, ◌>>◌, wrapped, wrapping, best_effort, errors_is, Attr,
  Module, PublicKey, rsa, ecdsa, other_key, Key,
}
use gopkcs.Signer.Der.{be_bytes, der_octet_string}
use gopkcs.Signer.Params.{ec_curve_to_params}

abbrev pub ckf_serial_session : ℕ
ckf_serial_session = 4

abbrev pub cku_user : ℕ
cku_user = 1

abbrev pub cka_id : ℕ
cka_id = 0x102

abbrev pub cka_always_authenticate : ℕ
cka_always_authenticate = 0x202

-- Equality of Go strings.
unfoldable pub same_text : List ℕ → List ℕ → Bool
same_text [] [] = true
same_text [] (y ∷ ys) = false
same_text (x ∷ xs) [] = false
same_text (x ∷ xs) (y ∷ ys) = x == y && same_text xs ys

-- `pkcs11.NewAttribute` of an integer constant and of bytes.
abbrev pub number : ℕ → ℕ → Attr
number type v = record { type = type; value = uint_to_bytes v }

abbrev pub raw : ℕ → List ℕ → Attr
raw type v = record { type = type; value = v }

-- `big.NewInt(int64(e)).Bytes()`: the absolute value.
unfoldable pub exponent_bytes : ℤ → List ℕ
exponent_bytes (pos n) = be_bytes n
exponent_bytes (negsuc n) = be_bytes (suc n)

unfoldable pub ec_template : Ret (List ℕ) → Option (List ℕ) → Ret (List Attr)
ec_template (err e) point = err e
ec_template (ok params) none = err (message "pkcs11key: encode EC point")
ec_template (ok params) (some point) =
    ok (number 0 2 ∷ number 0x100 3 ∷ raw 0x180 params ∷ raw 0x181 (der_octet_string point) ∷ [])

-- The template of getPublicKeyID.
unfoldable pub public_template : PublicKey → Ret (List Attr)
unfolding ec_template exponent_bytes
public_template (rsa n e) =
    ok (number 0 2 ∷ number 0x100 0 ∷ raw 0x120 (be_bytes n) ∷ raw 0x122 (exponent_bytes e) ∷ [])
public_template (ecdsa curve point) = ec_template (ec_curve_to_params curve) point
public_template other_key = err (message "pkcs11key: unsupported public key type")

unfoldable pub first_value : List Attr → List ℕ
first_value [] = []
first_value (a ∷ rest) = a.value

module _ {T : Type 0} (m : Module T) where
  -- The end of findObject: what was found, with the search closed.
  finish_find : ℕ → Ret (List ℕ × Bool) → Act T ℕ
  finish_find session (err e) = do
    best_effort (m.find_objects_final session)
    fail (Error.wrap "pkcs11key: FindObjects" e)
  finish_find session (ok ([], more)) = do
    wrapping "pkcs11key: FindObjectsFinal" (m.find_objects_final session)
    fail (message "pkcs11key: object not found")
  finish_find session (ok (obj ∷ objs, more)) = do
    wrapping "pkcs11key: FindObjectsFinal" (m.find_objects_final session)
    pure obj

  unfoldable pub find_object : ℕ → List Attr → Act T ℕ
  unfolding finish_find
  find_object session template = do
    wrapping "pkcs11key: FindObjectsInit" (m.find_objects_init session template)
    λ t. let (r, t') = m.find_objects session 1 t in finish_find session r t'

  -- The body of the loop of openSession on the slot that has the token.
  finish_login : ℕ → Ret (Unit {0}) → Act T ℕ
  finish_login session (ok _) = pure session
  finish_login session (err e) =
      if errors_is e ckr_user_already_logged_in
      then pure session
      else (do best_effort (m.close_session session); fail (Error.wrap "pkcs11key: Login" e))

  unfoldable pub open_on : Key → ℕ → Act T ℕ
  unfolding finish_login
  open_on k slot = do
    session ← wrapping "pkcs11key: OpenSession" (m.open_session slot ckf_serial_session)
    λ t. let (r, t') = m.login session cku_user k.pin t in finish_login session r t'

  -- The loop of openSession over the slots.
  unfoldable pub open_first : Key → List ℕ → Act T ℕ
  open_first k [] t = (err (message "pkcs11key: token not found"), t)
  open_first k (slot ∷ slots) t =
      let (r, t') = m.get_token_info slot t in
      elim r [
        | err e ↦ open_first k slots t'
        | ok info ↦
            (let others = open_first k slots t' in
              if same_text info.label k.token_label then open_on k slot t' else others)
      ]

  unfoldable pub open_session : Key → Act T ℕ
  unfolding open_first open_on
  open_session k = do
    slots ← wrapping "pkcs11key: GetSlotList" (m.get_slot_list true)
    open_first k slots

  -- A CKA_ID that is missing or empty is an error.
  id_of : List ℕ → Act T (List ℕ)
  id_of [] = fail (message "pkcs11key: public key has no CKA_ID")
  id_of (b ∷ bs) = pure (b ∷ bs)

  abbrev lift : {A : Type 0} → Ret A → Act T A
  lift r t = (r, t)

  unfoldable pub get_public_key_id : Key → ℕ → Act T (List ℕ)
  unfolding id_of first_value find_object
  get_public_key_id k session = do
    template ← lift (public_template k.public_key)
    obj ← wrapping "pkcs11key: public key not found on token" (find_object session template)
    attrs ←
        wrapping "pkcs11key: GetAttributeValue CKA_ID"
          (m.get_attribute_value session obj (raw cka_id [] ∷ []))
    id_of (first_value attrs)

  abbrev is_set : List ℕ → Bool
  is_set [] = false
  is_set (b ∷ bs) = not (b == 0)

  -- Tokens that do not know CKA_ALWAYS_AUTHENTICATE do without.
  always_auth_of : Ret (List Attr) → Ret Bool
  unfolding first_value
  always_auth_of (ok attrs) = ok (is_set (first_value attrs))
  always_auth_of (err e) =
      if errors_is e ckr_attribute_type_invalid
      then ok false
      else err (Error.wrap "pkcs11key: GetAttributeValue" e)

  unfoldable pub get_private_key : Key → ℕ → List ℕ → Act T (ℕ × Bool)
  unfolding always_auth_of find_object
  get_private_key k session key_id = do
    obj ←
        wrapping "pkcs11key: private key not found"
          (find_object session (number 0 3 ∷ raw cka_id key_id ∷ []))
    always_auth ← λ t.
        let (r, t') = m.get_attribute_value session obj (raw cka_always_authenticate [] ∷ []) t in
        (always_auth_of r, t')
    pure (obj, always_auth)

  -- The error paths of setup: the session is closed and the key has none.
  abandon : {A : Type 0} → Key → ℕ → Error → T → Ret A × Key × T
  abandon k session e t =
      let (r, t') = m.close_session session t in (err e, record k { session = none }, t')

  finish_setup : Key → ℕ → Ret (ℕ × Bool) → T → Ret (Unit {0}) × Key × T
  unfolding abandon
  finish_setup k session (ok (obj, always_auth)) t =
      (ok tt, record k { private_key_handle = obj; always_authenticate = always_auth }, t)
  finish_setup k session (err e) t = abandon k session e t

  find_private : Key → ℕ → Ret (List ℕ) → T → Ret (Unit {0}) × Key × T
  unfolding abandon finish_setup get_private_key
  find_private k session (ok id) t =
      let (r, t') = get_private_key k session id t in finish_setup k session r t'
  find_private k session (err e) t = abandon k session e t

  -- The result of `setup`, the key that it has filled in, and the module's state.
  unfoldable pub setup : Key → T → Ret (Unit {0}) × Key × T
  unfolding find_private get_public_key_id open_session
  setup k t =
      let (opened, t') = open_session k t in
      elim opened [
        | err e ↦ (err e, k, t')
        | ok session ↦
            (let k' = record k { session = some session } in
              let (r, t'') = get_public_key_id k' session t' in find_private k' session r t'')
      ]
