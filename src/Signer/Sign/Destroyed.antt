-- ===== src/Signer/Sign/Destroyed.antt =====
-- What Destroy leaves of a Key.
use gopkcs.Prelude.{ℕ, ◌≡◌, refl, ap, inl, inr, none, some, List, Option-cases}
use gopkcs.Signer.Interface.{err, Module, SignerOpts, Key}
use gopkcs.Signer.Sign.{no_session, sign_on, key_sign, close_open, key_destroy}

module _ {T : Type 0} (m : Module T) where
  pub key_destroy-none : (k : Key) (t : T) → k.session ≡ none → key_destroy m k t ≡ (k, t)
  unfolding key_destroy close_open
  key_destroy-none k t e = ap (λ s. close_open m k s t) e

  pub key_destroy-some :
      (k : Key) (t : T) (s : ℕ)
      → k.session ≡ some s
      → key_destroy m k t ≡ (record k { session = none }, (m.close_session s t).1)
  unfolding key_destroy close_open
  key_destroy-some k t s e = ap (λ s. close_open m k s t) e

  key_destroy-session : (k : Key) (t : T) → (key_destroy m k t).0.session ≡ none
  key_destroy-session k t = elim (Option-cases k.session) [
    | inl e ↦ rw (key_destroy-none k t e) e
    | inr (s, e) ↦ rw (key_destroy-some k t s e) refl
  ]

  -- After Key.Destroy, Sign fails and a second Destroy does nothing, and neither calls the
  -- module.
  pub key_destroy-final :
      (k : Key) (t t' : T) (msg : List ℕ) (opts : SignerOpts)
      → (key_sign m (key_destroy m k t).0 msg opts t' ≡ (err no_session, t'))
        × (key_destroy m (key_destroy m k t).0 t' ≡ ((key_destroy m k t).0, t'))
  key_destroy-final k t t' msg opts = (
    unfold key_sign sign_on in (rw (key_destroy-session k t, sign_on) refl),
    key_destroy-none (key_destroy m k t).0 t' (key_destroy-session k t),
  )
