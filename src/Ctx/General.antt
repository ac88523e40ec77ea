-- ===== src/Ctx/General.antt =====
-- Initialize, Finalize, GetInfo and WaitForSlotEvent of pkcs11.go.
use gopkcs.Prelude.{ℕ, ◌+◌, Option, none, some, List, [], ◌∷◌, ◌==◌, if◌then◌else◌}
use gopkcs.Machine.Effects.{
  Env, M, pure, ◌>>=◌, ◌>>◌, new_pinner, new_word, get_word, put_word, allocate, pin, unpin,
  with_pinner,
}
use gopkcs.Errors.{check, to_error}
use gopkcs.Types.{Info}
use gopkcs.Ctx.Base.{Ctx, invoke, get_text, get_version}

-- `reserved` is 0 for nil.
pub record InitializeArgs : Type 0 where
  pub flags : ℕ
  pub reserved : ℕ

abbrev pub InitializeOption : Type 0
InitializeOption = InitializeArgs → InitializeArgs

abbrev pub initialize_with_flags : ℕ → InitializeOption
initialize_with_flags flags a = record a { flags = flags }

abbrev pub initialize_with_reserved : ℕ → InitializeOption
initialize_with_reserved reserved a = record a { reserved = reserved }

abbrev pub ckf_os_locking_ok : ℕ
ckf_os_locking_ok = 2

pub apply_options : List InitializeOption → InitializeArgs → InitializeArgs
apply_options [] args = args
apply_options (opt ∷ opts) args = apply_options opts (opt args)

module _ {S : Type 0} (env : Env S) (c : Ctx) where
  unfoldable pub initialize : List InitializeOption → M S (Unit {0})
  unfolding apply_options
  initialize opts = with_pinner λ o. do
    let args = apply_options opts (record { flags = ckf_os_locking_ok; reserved = 0 })
    c_args ← allocate 48
    put_word (c_args + 32) args.flags
    if args.reserved == 0 then pure tt else put_word (c_args + 40) args.reserved
    pin o c_args
    if args.reserved == 0 then pure tt else pin o args.reserved
    rv ← invoke env c (λ fl. fl.c_initialize) (c_args ∷ [])
    check rv

  unfoldable pub finalize : M S (Unit {0})
  finalize = do rv ← invoke env c (λ fl. fl.c_finalize) (0 ∷ []); check rv

  unfoldable pub get_info : M S Info
  get_info = with_pinner λ o. do
    buf ← allocate 88
    pin o buf
    rv ← invoke env c (λ fl. fl.c_get_info) (buf ∷ [])
    check rv
    cryptoki_version ← get_version buf
    manufacturer_id ← get_text (buf + 2) 32
    flags ← get_word (buf + 40)
    library_description ← get_text (buf + 48) 32
    library_version ← get_version (buf + 80)
    pure (record {
      cryptoki_version = cryptoki_version;
      manufacturer_id = manufacturer_id;
      flags = flags;
      library_description = library_description;
      library_version = library_version;
    })

  -- The goroutine's body: what it sends on the channel before it closes it.
  unfoldable pub wait_for_slot_event : ℕ → M S (Option ℕ)
  wait_for_slot_event flags = do
    slot_id ← new_word
    o ← new_pinner
    pin o slot_id
    rv ← invoke env c (λ fl. fl.c_wait_for_slot_event) (flags ∷ slot_id ∷ 0 ∷ [])
    unpin o
    id ← get_word slot_id
    pure (elim (to_error rv) [ none ↦ some id | some e ↦ none ])
