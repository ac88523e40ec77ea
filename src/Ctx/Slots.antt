-- ===== src/Ctx/Slots.antt =====
-- The methods of pkcs11.go on slots, tokens and mechanisms.
pub mod Label
pub mod Lists
use gopkcs.Prelude.{ℕ, ◌+◌, Bool, List, [], ◌∷◌, map, ◌==◌, if◌then◌else◌}
use gopkcs.Machine.Effects.{
  nil, Env, code, M, pure, fail, ◌>>=◌, ◌>>◌, new_pinner, new_word, get_word, make_words, allocate,
  pin, unpin, with_pinner, bytes_of_string,
}
use gopkcs.Errors.{check, ckr_arguments_bad}
use gopkcs.Types.{SlotInfo, TokenInfo, Mechanism, MechanismInfo, absent}
use gopkcs.Types.Padding.{pad_string}
use gopkcs.Params.{pin_bytes}
use gopkcs.Ctx.Base.{Ctx, invoke, get_text, get_version, first_words}

module _ {S : Type 0} (env : Env S) (c : Ctx) where
  unfoldable pub get_slot_list : Bool → M S (List ℕ)
  get_slot_list token_present = do
    let present = if token_present then 1 else 0
    count ← new_word
    o ← new_pinner
    pin o count
    rv ← invoke env c (λ fl. fl.c_get_slot_list) (present ∷ 0 ∷ count ∷ [])
    unpin o
    check rv
    n ← get_word count
    if n == 0 then pure [] else (do
      slots ← make_words n
      pin o slots.ptr
      pin o count
      rv2 ← invoke env c (λ fl. fl.c_get_slot_list) (present ∷ slots.ptr ∷ count ∷ [])
      unpin o
      check rv2
      n2 ← get_word count
      first_words slots n2)

  unfoldable pub get_slot_info : ℕ → M S SlotInfo
  get_slot_info slot_id = with_pinner λ o. do
    buf ← allocate 128
    pin o buf
    rv ← invoke env c (λ fl. fl.c_get_slot_info) (slot_id ∷ buf ∷ [])
    check rv
    slot_description ← get_text buf 64
    manufacturer_id ← get_text (buf + 64) 32
    flags ← get_word (buf + 96)
    hardware_version ← get_version (buf + 104)
    firmware_version ← get_version (buf + 106)
    pure (record {
      slot_description = slot_description;
      manufacturer_id = manufacturer_id;
      flags = flags;
      hardware_version = hardware_version;
      firmware_version = firmware_version;
    })

  unfoldable pub get_token_info : ℕ → M S TokenInfo
  get_token_info slot_id = with_pinner λ o. do
    buf ← allocate 256
    pin o buf
    rv ← invoke env c (λ fl. fl.c_get_token_info) (slot_id ∷ buf ∷ [])
    check rv
    label ← get_text buf 32
    manufacturer_id ← get_text (buf + 32) 32
    model ← get_text (buf + 64) 16
    serial_number ← get_text (buf + 80) 16
    let off = buf + 96
    flags ← get_word off
    max_session_count ← get_word (off + 8)
    session_count ← get_word (off + 16)
    max_rw_session_count ← get_word (off + 24)
    rw_session_count ← get_word (off + 32)
    max_pin_len ← get_word (off + 40)
    min_pin_len ← get_word (off + 48)
    total_public_memory ← get_word (off + 56)
    free_public_memory ← get_word (off + 64)
    total_private_memory ← get_word (off + 72)
    free_private_memory ← get_word (off + 80)
    hardware_version ← get_version (off + 88)
    firmware_version ← get_version (off + 90)
    utc_time ← get_text (off + 92) 16
    pure (record {
      label = label;
      manufacturer_id = manufacturer_id;
      model = model;
      serial_number = serial_number;
      flags = flags;
      max_session_count = max_session_count;
      session_count = session_count;
      max_rw_session_count = max_rw_session_count;
      rw_session_count = rw_session_count;
      max_pin_len = max_pin_len;
      min_pin_len = min_pin_len;
      total_public_memory = total_public_memory;
      free_public_memory = free_public_memory;
      total_private_memory = total_private_memory;
      free_private_memory = free_private_memory;
      hardware_version = hardware_version;
      firmware_version = firmware_version;
      utc_time = utc_time;
    })

  unfoldable pub get_mechanism_list : ℕ → M S (List Mechanism)
  get_mechanism_list slot_id = do
    count ← new_word
    o ← new_pinner
    pin o count
    rv ← invoke env c (λ fl. fl.c_get_mechanism_list) (slot_id ∷ 0 ∷ count ∷ [])
    unpin o
    check rv
    n ← get_word count
    if n == 0 then pure [] else (do
      mechs ← make_words n
      pin o mechs.ptr
      pin o count
      rv2 ← invoke env c (λ fl. fl.c_get_mechanism_list) (slot_id ∷ mechs.ptr ∷ count ∷ [])
      unpin o
      check rv2
      n2 ← get_word count
      ids ← first_words mechs n2
      pure (map (λ id. record { mechanism = id; parameter = nil; generator = absent }) ids))

  unfoldable pub get_mechanism_info : ℕ → List Mechanism → M S MechanismInfo
  get_mechanism_info slot_id [] = fail (code ckr_arguments_bad)
  get_mechanism_info slot_id (m ∷ ms) = with_pinner λ o. do
    buf ← allocate 24
    pin o buf
    rv ← invoke env c (λ fl. fl.c_get_mechanism_info) (slot_id ∷ m.mechanism ∷ buf ∷ [])
    check rv
    min_key_size ← get_word buf
    max_key_size ← get_word (buf + 8)
    flags ← get_word (buf + 16)
    pure (record { min_key_size = min_key_size; max_key_size = max_key_size; flags = flags })

  unfoldable pub init_token : ℕ → List ℕ → List ℕ → M S (Unit {0})
  init_token slot_id pass label = with_pinner λ o. do
    pin_slice ← bytes_of_string pass
    p_pin ← pin_bytes o pin_slice
    label_bytes ← bytes_of_string (pad_string label 32)
    pin o label_bytes.ptr
    rv ←
        invoke env c (λ fl. fl.c_init_token)
          (slot_id ∷ p_pin ∷ pin_slice.len ∷ label_bytes.ptr ∷ [])
    check rv
