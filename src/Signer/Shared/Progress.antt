-- ===== src/Signer/Shared/Progress.antt =====
-- Calls on shared keys always come to an end: no order of sessionMu and the token's lock blocks.
use gopkcs.Prelude.{
  ℕ, suc, ◌+◌, ◌*◌, ◌≤◌, ◌<◌, ◌≡◌, refl, ap, ◌⊎◌, inl, inr, Bool, true, false, arith, ltb,
  Bool-cases,
}
use gopkcs.Signer.Pool.Concurrent.Families.{total-zero, update, total, total-update, total-member}
use gopkcs.Signer.Shared.{
  all_set_up, Stage, Keys, KeyStep, away, signing, entered, waiting, prepared, initialised,
  destroying, closing, opening, opened, sign_call, sign_lock, sign_refuse, read_lock, write_wait,
  write_lock, sign_fail, sign_init, sign_end, destroy_call, destroy_lock, destroy_again,
  destroy_close, setup_call, setup_lock, setup_end,
}
use gopkcs.Signer.Shared.Waiting.{call, rank, Rests, GoesOn}
use gopkcs.Signer.Shared.Enabled.{next}

pub data KeyRun (n : ℕ) (always : ℕ → Bool) : Keys → Keys → Type 0 where
  stop : {s : Keys} → KeyRun n always s s
  step : {s t u : Keys} → KeyStep n always s t → KeyRun n always t u → KeyRun n always s u

-- The calls that begin in a run, and its steps.
unfoldable pub calls : {n : ℕ} {always : ℕ → Bool} {s t : Keys} → KeyRun n always s t → ℕ
calls stop = 0
calls (step x r) = call x + calls r

unfoldable pub steps : {n : ℕ} {always : ℕ → Bool} {s t : Keys} → KeyRun n always s t → ℕ
steps stop = 0
steps (step x r) = suc (steps r)

module _ (n : ℕ) (always : ℕ → Bool) (s : Keys) where
  ranked :
      (i : ℕ) (p q : Stage)
      → i < n
      → s.stage i ≡ p
      → total rank n (update s.stage i q) + rank p ≡ total rank n s.stage + rank q
  ranked i p q low here = omega (arith, total-update rank s.stage i q n low, ap rank here)

  step-rank :
      (t : Keys) (x : KeyStep n always s t)
      → suc (total rank n t.stage) ≤ total rank n s.stage + 6 * call x
  step-rank _ (sign_call i k low here) = omega (arith, ranked i away (signing k) low here)
  step-rank _ (sign_lock i k low here free) =
      omega (arith, ranked i (signing k) (entered k) low here)
  step-rank _ (sign_refuse i k low here closed) = omega (arith, ranked i (entered k) away low here)
  step-rank _ (read_lock i k low here has plain free) =
      omega (arith, ranked i (entered k) (prepared k false) low here)
  step-rank _ (write_wait i k low here has always_so free) =
      omega (arith, ranked i (entered k) (waiting k) low here)
  step-rank _ (write_lock i k low here free) =
      omega (arith, ranked i (waiting k) (prepared k true) low here)
  step-rank _ (sign_fail i k b low here) = omega (arith, ranked i (prepared k b) away low here)
  step-rank _ (sign_init i k b low here) =
      omega (arith, ranked i (prepared k b) (initialised k b) low here)
  step-rank _ (sign_end i k b low here) = omega (arith, ranked i (initialised k b) away low here)
  step-rank _ (destroy_call i k low here) = omega (arith, ranked i away (destroying k) low here)
  step-rank _ (destroy_lock i k low here free) =
      omega (arith, ranked i (destroying k) (closing k) low here)
  step-rank _ (destroy_again i k low here closed) =
      omega (arith, ranked i (closing k) away low here)
  step-rank _ (destroy_close i k low here has) = omega (arith, ranked i (closing k) away low here)
  step-rank _ (setup_call i low here) = omega (arith, ranked i away opening low here)
  step-rank _ (setup_lock i low here free) = omega (arith, ranked i opening opened low here)
  step-rank _ (setup_end i low here) = omega (arith, ranked i opened away low here)

away_of : (p : Stage) → rank p ≡ 0 → p ≡ away
away_of away h = refl
away_of (signing k) h = absurd (omega arith)
away_of (entered k) h = absurd (omega arith)
away_of (waiting k) h = absurd (omega arith)
away_of (prepared k b) h = absurd (omega arith)
away_of (initialised k b) h = absurd (omega arith)
away_of (destroying k) h = absurd (omega arith)
away_of (closing k) h = absurd (omega arith)
away_of opening h = absurd (omega arith)
away_of opened h = absurd (omega arith)

module _ (n : ℕ) (always : ℕ → Bool) where
  run-rank :
      (s t : Keys) (r : KeyRun n always s t)
      → steps r + total rank n t.stage ≤ total rank n s.stage + 6 * calls r
  unfolding steps calls
  run-rank s _ stop = omega arith
  run-rank s u (step {t} x r) = omega (arith, step-rank n always s t x, run-rank t u r)

  Rests-or_GoesOn : (t : Keys) → Rests n t ⊎ GoesOn n always t
  Rests-or_GoesOn t = elim (Bool-cases (ltb 0 (total rank n t.stage))) [
    | inl some_left ↦ inr (next n always t (ground arith))
    | inr none_left ↦
        inl (λ i low. away_of (t.stage i) (ground (arith, total-member rank t.stage n i low)))
  ]

  -- sessionMu and the login lock do not deadlock, also where a Lock that has begun keeps new
  -- readers out: an execution, in any order, from keys that nobody uses has at most six steps for
  -- each call of Sign, Destroy or New that began, and in its last state either no goroutine is in
  -- a call, or one that is in a call can go on.
  pub calls-end :
      (t : Keys) (r : KeyRun n always all_set_up t)
      → (steps r ≤ 6 * calls r) × (Rests n t ⊎ GoesOn n always t)
  calls-end t r = (
    omega (arith, run-rank all_set_up t r, total-zero rank (λ _. away) n (λ i h. refl)),
    Rests-or_GoesOn t,
  )
