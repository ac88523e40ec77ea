-- ===== src/Signer/Setup/Sessions.antt =====
-- Sessions that setup opens and closes, counted by the module.
use gopkcs.Prelude.{
  ℕ, ◌≡◌, refl, ap, ◌∙◌, inl, inr, Bool, true, none, some, List, [], ◌∷◌, arith, Bool-cases,
}
use gopkcs.Machine.Effects.{Error}
use gopkcs.Types.{TokenInfo}
use gopkcs.Errors.{ckr_user_already_logged_in}
use gopkcs.Signer.Interface.{Ret, ok, err, errors_is, Module, Key}
use gopkcs.Signer.Setup.{
  finish_login, open_on, open_first, open_session, get_public_key_id, get_private_key, setup,
  abandon, finish_setup, find_private, same_text, ckf_serial_session, cku_user,
}
use gopkcs.Signer.Setup.Accounts.{remove, Accounts, get_public_key_id-Keeps, get_private_key-Keeps}

module _ {T : Type 0} (m : Module T) (held : T → List ℕ) (accounts : Accounts m held) where
  open accounts use {opens, open_fails, closes, slots_keep, info_keeps, login_keeps}

  -- What openSession does: a session more on success, none more on failure.
  Opened : T → Ret ℕ × T → Type 0
  Opened t (ok s, t') = held t' ≡ s ∷ held t
  Opened t (err e, t') = held t' ≡ held t

  remove_head : (s : ℕ) (xs : List ℕ) → remove s (s ∷ xs) ≡ xs
  remove_head s xs = ground arith

  finish_login-Opened :
      (t t' : T) (session : ℕ) (r : Ret (Unit {0}))
      → held t' ≡ session ∷ held t
      → Opened t (finish_login m session r t')
  unfolding finish_login Opened
  finish_login-Opened t t' session (ok _) h = h
  finish_login-Opened t t' session (err e) h =
      elim (Bool-cases (errors_is e ckr_user_already_logged_in)) [
        | inl hit ↦ rw hit h
        | inr miss ↦
            rw miss (closes session t' ∙ ap (remove session) h ∙ remove_head session (held t))
      ]

  open_on-Opened : (k : Key) (slot : ℕ) (t : T) → Opened t (open_on m k slot t)
  unfolding open_on
  open_on-Opened k slot t = go (m.open_session slot ckf_serial_session t) refl
    where
      go :
          (r : Ret ℕ × T)
          → m.open_session slot ckf_serial_session t ≡ r
          → Opened t (open_on m k slot t)
      go (ok s, t') e =
          rw (e, open_on)
            (finish_login-Opened t (m.login s cku_user k.pin t').1 s (m.login s cku_user k.pin t').0
              (login_keeps s cku_user k.pin t' ∙ opens slot ckf_serial_session t s t' e))
      go (err x, t') e =
          rw (e, open_on) (unfold Opened in open_fails slot ckf_serial_session t x t' e)

  Opened-later : (t t' : T) (r : Ret ℕ × T) → held t' ≡ held t → Opened t' r → Opened t r
  unfolding Opened
  Opened-later t t' (ok s, u) h o = o ∙ ap (◌∷◌ s) h
  Opened-later t t' (err e, u) h o = o ∙ h

  open_first-Opened : (k : Key) (slots : List ℕ) (t : T) → Opened t (open_first m k slots t)
  unfolding open_first
  open_first-Opened k [] t = unfold Opened in refl
  open_first-Opened k (slot ∷ slots) t =
      go (m.get_token_info slot t).0 refl (open_first-Opened k slots later)
    where
      later : T
      later = (m.get_token_info slot t).1

      kept : held later ≡ held t
      kept = info_keeps slot t

      go :
          (r : Ret TokenInfo)
          → (m.get_token_info slot t).0 ≡ r
          → Opened later (open_first m k slots later)
          → Opened t (open_first m k (slot ∷ slots) t)
      go (ok info) e rest =
          rw (e, open_first)
            (elim (Bool-cases (same_text info.label k.token_label)) [
              | inl hit ↦ rw hit (Opened-later t later _ kept (open_on-Opened k slot later))
              | inr miss ↦ rw miss (Opened-later t later _ kept rest)
            ])
      go (err x) e rest = rw (e, open_first) (Opened-later t later _ kept rest)

  open_session-Opened : (k : Key) (t : T) → Opened t (open_session m k t)
  unfolding open_session
  open_session-Opened k t = go (m.get_slot_list true t) refl
    where
      go : (r : Ret (List ℕ) × T) → m.get_slot_list true t ≡ r → Opened t (open_session m k t)
      go (ok slots, t') e =
          let kept : held t' ≡ held t = rw e at (slots_keep true t) in
          rw (e, open_session) (Opened-later t t' _ kept (open_first-Opened k slots t'))
      go (err x, t') e =
          let kept : held t' ≡ held t = rw e at (slots_keep true t) in
          rw (e, open_session) (unfold Opened in kept)

  Opened-ok : (t : T) (p : Ret ℕ × T) (s : ℕ) → p.0 ≡ ok s → Opened t p → held p.1 ≡ s ∷ held t
  unfolding Opened
  Opened-ok t (ok x, t') s e o = ground (arith, o)
  Opened-ok t (err x, t') s e o = cc

  Opened-err : (t : T) (p : Ret ℕ × T) (x : Error) → p.0 ≡ err x → Opened t p → held p.1 ≡ held t
  unfolding Opened
  Opened-err t (ok s, t') x e o = cc
  Opened-err t (err y, t') x e o = o

  -- What setup leaves: a key with a session that is the only one more, or neither.
  abbrev pub SetUp : T → Ret (Unit {0}) × Key × T → Type 0
  SetUp t (ok _, k, t') = (s : ℕ) × (k.session ≡ some s) × (held t' ≡ s ∷ held t)
  SetUp t (err e, k, t') = (k.session ≡ none) × (held t' ≡ held t)

  pub SetUp-ok :
      (t : T) (p : Ret (Unit {0}) × Key × T) (u : Unit {0})
      → p.0 ≡ ok u
      → SetUp t p
      → (s : ℕ) × (p.1.session ≡ some s) × (held p.2 ≡ s ∷ held t)
  SetUp-ok t (ok _, k, t') u e h = h
  SetUp-ok t (err x, k, t') u e h = cc

  pub SetUp-err :
      (t : T) (p : Ret (Unit {0}) × Key × T) (x : Error)
      → p.0 ≡ err x
      → SetUp t p
      → held p.2 ≡ held t
  SetUp-err t (ok _, k, t') x e h = cc
  SetUp-err t (err y, k, t') x e h = h.1

  abandon-SetUp :
      (k : Key) (session : ℕ) (e : Error) (t t' : T)
      → held t' ≡ session ∷ held t
      → SetUp t (abandon m k session e t')
  unfolding abandon
  abandon-SetUp k session e t t' h =
      (refl, closes session t' ∙ ap (remove session) h ∙ remove_head session (held t))

  finish_setup-SetUp :
      (k : Key) (session : ℕ) (r : Ret (ℕ × Bool)) (t t' : T)
      → k.session ≡ some session
      → held t' ≡ session ∷ held t
      → SetUp t (finish_setup m k session r t')
  unfolding finish_setup
  finish_setup-SetUp k session (ok (obj, auth)) t t' e h = (session, e, h)
  finish_setup-SetUp k session (err x) t t' e h = abandon-SetUp k session x t t' h

  find_private-SetUp :
      (k : Key) (session : ℕ) (r : Ret (List ℕ)) (t t' : T)
      → k.session ≡ some session
      → held t' ≡ session ∷ held t
      → SetUp t (find_private m k session r t')
  unfolding find_private
  find_private-SetUp k session (ok id) t t' e h =
      finish_setup-SetUp k session (get_private_key m k session id t').0 t
        (get_private_key m k session id t').1 e
        (get_private_key-Keeps m held accounts k session id t' ∙ h)
  find_private-SetUp k session (err x) t t' e h = abandon-SetUp k session x t t' h

  -- Key.setup, on a module that accounts for its sessions and a key without a session: after
  -- success one session more is open and the key holds it; after an error, whichever call failed,
  -- none more is open and the key has no session.
  pub setup-SetUp : (k : Key) (t : T) → k.session ≡ none → SetUp t (setup m k t)
  unfolding setup
  setup-SetUp k t fresh = go (open_session m k t).0 refl (open_session-Opened k t)
    where
      later : T
      later = (open_session m k t).1

      go :
          (r : Ret ℕ)
          → (open_session m k t).0 ≡ r
          → Opened t (open_session m k t)
          → SetUp t (setup m k t)
      go (ok s) e o =
          let opened : held later ≡ s ∷ held t = Opened-ok t (open_session m k t) s e o in
          let k' = record k { session = some s } in
          rw (e, setup)
            (find_private-SetUp k' s (get_public_key_id m k' s later).0 t
              (get_public_key_id m k' s later).1 refl
              (get_public_key_id-Keeps m held accounts k' s later ∙ opened))
      go (err x) e o = rw (e, setup) (fresh, Opened-err t (open_session m k t) x e o)
