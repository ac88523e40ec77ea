-- ===== src/Types.antt =====
-- types.go: the data that callers exchange with the binding.
pub mod Padding
use gopkcs.Prelude.{ℕ, ◌+◌, ◌/◌, ◌%◌, List, [], ◌∷◌, ◌++◌, Bool, true, false, ◌==◌, if◌then◌else◌}
use gopkcs.Prelude.Int.{ℤ, to_u64}
use gopkcs.Machine.Bytes.{le_bytes}
use gopkcs.Machine.Effects.{Slice, nil, M, pure, crash, bytes_of_string, ◌>>=◌}

pub record Version : Type 0 where
  pub major : ℕ
  pub minor : ℕ

-- Strings are the lists of their bytes.
pub record Info : Type 0 where
  pub cryptoki_version : Version
  pub manufacturer_id : List ℕ
  pub flags : ℕ
  pub library_description : List ℕ
  pub library_version : Version

pub record SlotInfo : Type 0 where
  pub slot_description : List ℕ
  pub manufacturer_id : List ℕ
  pub flags : ℕ
  pub hardware_version : Version
  pub firmware_version : Version

pub record TokenInfo : Type 0 where
  pub label : List ℕ
  pub manufacturer_id : List ℕ
  pub model : List ℕ
  pub serial_number : List ℕ
  pub flags : ℕ
  pub max_session_count : ℕ
  pub session_count : ℕ
  pub max_rw_session_count : ℕ
  pub rw_session_count : ℕ
  pub max_pin_len : ℕ
  pub min_pin_len : ℕ
  pub total_public_memory : ℕ
  pub free_public_memory : ℕ
  pub total_private_memory : ℕ
  pub free_private_memory : ℕ
  pub hardware_version : Version
  pub firmware_version : Version
  pub utc_time : List ℕ

pub record SessionInfo : Type 0 where
  pub slot_id : ℕ
  pub state : ℕ
  pub flags : ℕ
  pub device_error : ℕ

pub record MechanismInfo : Type 0 where
  pub min_key_size : ℕ
  pub max_key_size : ℕ
  pub flags : ℕ

-- `Value` is a slice in memory.
pub record Attribute : Type 0 where
  pub type : ℕ
  pub value : Slice

-- The calendar fields of a `time.Time`.
pub record Time : Type 0 where
  pub year : ℕ
  pub month : ℕ
  pub day : ℕ
  pub hour : ℕ
  pub minute : ℕ
  pub second : ℕ

-- The dynamic types that NewAttribute looks at; `other` is any type it does not know.
pub data AttributeArg : Type 0 where
  bool : Bool → AttributeArg
  int : ℤ → AttributeArg
  uint : ℕ → AttributeArg
  uint32 : ℕ → AttributeArg
  uint64 : ℕ → AttributeArg
  string : List ℕ → AttributeArg
  bytes : Slice → AttributeArg
  time : Time → AttributeArg
  other : AttributeArg

-- The 64-bit branch: CK_ULONG has eight bytes, little-endian.
unfoldable pub uint_to_bytes : ℕ → List ℕ
uint_to_bytes v = le_bytes 8 v

digit : ℕ → ℕ
digit d = b'0' + d % 10

two_digits : ℕ → List ℕ
unfolding digit
two_digits n = digit (n / 10) ∷ digit n ∷ []

four_digits : ℕ → List ℕ
unfolding two_digits
four_digits n = two_digits (n / 100) ++ two_digits n

-- `v.Format("20060102150405") + "00"`, for years below 10000.
unfoldable pub format_time : Time → List ℕ
unfolding two_digits four_digits
format_time t =
    four_digits t.year
    ++ (two_digits t.month
        ++ (two_digits t.day
            ++ (two_digits t.hour
                ++ (two_digits t.minute ++ (two_digits t.second ++ b'0' ∷ b'0' ∷ [])))))

unfoldable pub new_attribute : {S : Type 0} → ℕ → AttributeArg → M S Attribute
unfolding uint_to_bytes format_time
new_attribute typ (bool true) = do
  v ← bytes_of_string (1 ∷ [])
  pure (record { type = typ; value = v })
new_attribute typ (bool false) = do
  v ← bytes_of_string (0 ∷ [])
  pure (record { type = typ; value = v })
new_attribute typ (int v) = do
  b ← bytes_of_string (uint_to_bytes (to_u64 v))
  pure (record { type = typ; value = b })
new_attribute typ (uint v) = do
  b ← bytes_of_string (uint_to_bytes v)
  pure (record { type = typ; value = b })
new_attribute typ (uint32 v) = do
  b ← bytes_of_string (uint_to_bytes v)
  pure (record { type = typ; value = b })
new_attribute typ (uint64 v) = do
  b ← bytes_of_string (uint_to_bytes v)
  pure (record { type = typ; value = b })
new_attribute typ (string v) = do b ← bytes_of_string v; pure (record { type = typ; value = b })
new_attribute typ (bytes v) = pure (record { type = typ; value = v })
new_attribute typ (time v) = do
  b ← bytes_of_string (format_time v)
  pure (record { type = typ; value = b })
new_attribute typ other = crash

pub record OaepParams : Type 0 where
  pub hash_alg : ℕ
  pub mgf : ℕ
  pub source_type : ℕ
  pub source_data : Slice

pub record Ecdh1DeriveParams : Type 0 where
  pub kdf : ℕ
  pub shared_data : Slice
  pub public_key_data : Slice

pub record RsaAesKeyWrapParams : Type 0 where
  pub aes_key_bits : ℕ
  pub oaep_params : OaepParams

-- The dynamic value of `generator any`; `gcm g` points to the object `g` of the world.
pub data Generator : Type 0 where
  absent : Generator
  gcm : ℕ → Generator
  oaep : OaepParams → Generator
  ecdh : Ecdh1DeriveParams → Generator

pub record Mechanism : Type 0 where
  pub mechanism : ℕ
  pub parameter : Slice
  pub generator : Generator

-- The dynamic types that NewMechanism may be given.
pub data MechanismArg : Type 0 where
  none_given : MechanismArg
  raw : Slice → MechanismArg
  gcm_params : ℕ → MechanismArg
  oaep_params : OaepParams → MechanismArg
  ecdh_params : Ecdh1DeriveParams → MechanismArg
  rsa_aes_params : RsaAesKeyWrapParams → MechanismArg
  other_params : MechanismArg

unfoldable pub new_mechanism : {S : Type 0} → ℕ → MechanismArg → M S Mechanism
new_mechanism mech none_given =
    pure (record { mechanism = mech; parameter = nil; generator = absent })
new_mechanism mech (raw v) = pure (record { mechanism = mech; parameter = v; generator = absent })
new_mechanism mech (gcm_params g) =
    pure (record { mechanism = mech; parameter = nil; generator = gcm g })
new_mechanism mech (oaep_params v) =
    pure (record { mechanism = mech; parameter = nil; generator = oaep v })
new_mechanism mech (ecdh_params v) =
    pure (record { mechanism = mech; parameter = nil; generator = ecdh v })
new_mechanism mech (rsa_aes_params v) = crash
new_mechanism mech other_params = crash
