-- ===== src/Examples/Logins.antt =====
-- A key that is opened and signs, and one that logs in again.
use gopkcs.Prelude.{ℕ, ◌≡◌, refl, ap, inl, inr, true, arith, ◌==◌, Bool-cases}
use gopkcs.Signer.Pool.Concurrent.Families.{update}
use gopkcs.Signer.Login.{
  is_inside, is_writing, outside, opening, signing, renewing, Token, at_start, open_lock,
  open_login, open_unlock, sign_lock, renew_lock, LoginReach, at_first, and_step,
}
use gopkcs.Signer.Login.Safety.{signing-logged_in, renewing-alone}

abbrev opened : Token
opened = record at_start { place = update (λ _. outside) 0 opening }

abbrev logged : Token
logged = record opened { logged_in = true }

abbrev ready : Token
ready = record logged { place = update logged.place 0 outside }

ready-Reach : LoginReach 2 ready
ready-Reach =
    and_step
      (and_step (and_step at_first (open_lock 0 (omega arith) refl (λ j h. refl)))
        (open_login 0 (omega arith) refl))
      (open_unlock 0 (omega arith) refl)

ready-outside : (j : ℕ) → ready.place j ≡ outside
ready-outside j = elim (Bool-cases (0 == j)) [ inl here ↦ rw here refl | inr there ↦ rw there refl ]

abbrev signs : Token
signs = record ready { place = update ready.place 0 (signing true) }

abbrev renews : Token
renews = record ready { place = update ready.place 1 renewing }

signing-logged_in_example : signs.logged_in ≡ true
signing-logged_in_example =
    signing-logged_in 2 signs 0
      (and_step ready-Reach
        (sign_lock 0 (omega arith) refl (λ j h. ap is_writing (ready-outside j))))
      (omega arith) (inl refl)

renewing-alone_example : renews.place 0 ≡ outside
renewing-alone_example =
    renewing-alone 2 renews 1 0
      (and_step ready-Reach
        (renew_lock 1 (omega arith) refl (λ j h. ap is_inside (ready-outside j))))
      (omega arith) (omega arith) (λ e. omega (arith, e)) (inl refl)
