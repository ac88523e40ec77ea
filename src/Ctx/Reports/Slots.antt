-- ===== src/Ctx/Reports/Slots.antt =====
-- The methods on slots and tokens report what the module returns.
use gopkcs.Prelude.{ℕ, refl, inl, Bool, List, [], ◌∷◌}
use gopkcs.Machine.Reports.{
  Reports, Logs, fail-Reports, with_pinner-Reports, bind-Reports, checked, pure-Reports,
}
use gopkcs.Machine.Reports.Primitives.{allocate-Reports, pin-Reports, get_word-Reports}
use gopkcs.Ctx.Reports.Base.{shared, invoke-Asks, get_text-Reports, get_version-Reports}
use gopkcs.Params.Reports.{pin_bytes-Reports}
use gopkcs.Machine.Effects.{Env}
use gopkcs.Ctx.Slots.{
  get_slot_list, get_slot_info, get_token_info, get_mechanism_list, get_mechanism_info, init_token,
}
use gopkcs.Ctx.Base.{Ctx}
use gopkcs.Types.{Mechanism}

module _ {S : Type 0} (log : S → List ℕ) (env : Env S) (logs : Logs env log) (c : Ctx) where
  pub get_slot_list-Reports :
      (token_present : Bool) → Reports log (get_slot_list env c token_present)
  unfolding get_slot_list
  get_slot_list-Reports token_present = search (shared) depth 60

  pub get_slot_info-Reports : (slot_id : ℕ) → Reports log (get_slot_info env c slot_id)
  unfolding get_slot_info
  get_slot_info-Reports slot_id = search shared depth 40

  pub get_token_info-Reports : (slot_id : ℕ) → Reports log (get_token_info env c slot_id)
  unfolding get_token_info
  get_token_info-Reports slot_id = with_pinner-Reports log _ λ o.
      bind-Reports log _ _ (allocate-Reports log 256) λ buf.
        bind-Reports log _ _ (pin-Reports log o buf) λ _.
          checked log _ _ (invoke-Asks log env c _ _ logs) (
            search
              (bind-Reports, pure-Reports, get_text-Reports, get_word-Reports, get_version-Reports)
              depth 60)

  pub get_mechanism_list-Reports : (slot_id : ℕ) → Reports log (get_mechanism_list env c slot_id)
  unfolding get_mechanism_list
  get_mechanism_list-Reports slot_id = search (shared) depth 60

  pub get_mechanism_info-Reports :
      (slot_id : ℕ) (ms : List Mechanism) → Reports log (get_mechanism_info env c slot_id ms)
  unfolding get_mechanism_info
  get_mechanism_info-Reports slot_id [] = fail-Reports log _ (inl refl)
  get_mechanism_info-Reports slot_id (m ∷ ms) = search shared depth 40

  pub init_token-Reports :
      (slot_id : ℕ) (pass : List ℕ) (label : List ℕ)
      → Reports log (init_token env c slot_id pass label)
  unfolding init_token
  init_token-Reports slot_id pass label = search (shared, pin_bytes-Reports) depth 40
