-- ===== src/Signer/Shared/Safety.antt =====
-- The calls of the module on the session of a key that goroutines share.
use gopkcs.Prelude.{ℕ, ◌+◌, ◌≤◌, ◌<◌, ◌≡◌, refl, ap, ◌≢◌, Bool, true, false, arith}
use gopkcs.Signer.Pool.Concurrent.Families.{total, total-member, total-members, total-zero}
use gopkcs.Signer.Shared.{
  away, signing, entered, waiting, prepared, initialised, destroying, closing, opening, opened,
  fresh, moved, Stage, Keys, KeyReach, enters, prepares, operates, flag,
}
use gopkcs.Signer.Shared.Invariant.{Sound, step-Sound}

Reach-Sound : (n : ℕ) (always : ℕ → Bool) (s : Keys) → KeyReach n always s → Sound n s
Reach-Sound n always _ fresh = record {
  mutex = λ k. omega (
    arith,
    total-zero (enters k) (λ _. away) n (λ i h. refl),
    total-zero (prepares k) (λ _. away) n (λ i h. refl),
    total-zero (operates k) (λ _. away) n (λ i h. refl),
  );
  has_session = λ k. omega (
    arith,
    total-zero (prepares k) (λ _. away) n (λ i h. refl),
    total-zero (operates k) (λ _. away) n (λ i h. refl),
  );
  active = λ k. total-zero (operates k) (λ _. away) n (λ i h. refl);
  closed = λ k. refl;
}
Reach-Sound n always t (moved {s} r x) = step-Sound n always s (Reach-Sound n always s r) t x

-- Whether a goroutine holds sessionMu of key k.
abbrev pub inside : ℕ → Stage → ℕ
inside k p = enters k p + prepares k p + operates k p

-- What holds of the session on which the goroutine's next call of the module is, if it is one:
-- SignInit needs a session without an operation, Sign one with an operation, and CloseSession, which
-- Destroy calls if the session is not nil, one without an operation.
abbrev pub Permitted : Keys → Stage → Type 0
Permitted s away = Unit
Permitted s (signing k) = Unit
Permitted s (entered k) = Unit
Permitted s (waiting k) = (s.closes k ≡ 0) × (s.operation k ≡ false)
Permitted s (prepared k b) = (s.closes k ≡ 0) × (s.operation k ≡ false)
Permitted s (initialised k b) = (s.closes k ≡ 0) × (s.operation k ≡ true)
Permitted s (destroying k) = Unit
Permitted s (closing k) = s.operation k ≡ false
Permitted s opening = Unit
Permitted s opened = Unit

module _ (n : ℕ) (s : Keys) (sound : Sound n s) (i : ℕ) (low : i < n) where
  permitted : (p : Stage) → s.stage i ≡ p → Permitted s p
  permitted away here = tt
  permitted (signing k) here = tt
  permitted (entered k) here = tt
  permitted (waiting k) here =
      let mine : 1 ≤ total (prepares k) n s.stage =
        ground (arith, total-member (prepares k) s.stage n i low, ap (prepares k) here) in
      (
        ground (arith, sound.has_session k, sound.closed k),
        ground (arith, sound.mutex k, sound.active k),
      )
  permitted (prepared k b) here =
      let mine : 1 ≤ total (prepares k) n s.stage =
        ground (arith, total-member (prepares k) s.stage n i low, ap (prepares k) here) in
      (
        ground (arith, sound.has_session k, sound.closed k),
        ground (arith, sound.mutex k, sound.active k),
      )
  permitted (initialised k b) here =
      let mine : 1 ≤ total (operates k) n s.stage =
        ground (arith, total-member (operates k) s.stage n i low, ap (operates k) here) in
      (
        ground (arith, sound.has_session k, sound.closed k),
        ground (arith, sound.mutex k, sound.active k),
      )
  permitted (destroying k) here = tt
  permitted (closing k) here =
      let mine : 1 ≤ total (enters k) n s.stage =
        ground (arith, total-member (enters k) s.stage n i low, ap (enters k) here) in
      ground (arith, sound.mutex k, sound.active k)
  permitted opening here = tt
  permitted opened here = tt

-- In every reachable state of keys that any number of goroutines use: at most one goroutine holds
-- sessionMu of a key; CloseSession has been called once for a key without a session and never for
-- one that has it; a goroutine about to call SignInit finds the session open in the module and
-- without an operation, one between SignInit and Sign finds it open and with the operation, and
-- one in Destroy with sessionMu finds it without an operation.
pub calls-guarded :
    (n : ℕ) (always : ℕ → Bool) (s : Keys) (i j k : ℕ)
    → KeyReach n always s
    → i < n
    → j < n
    → i ≢ j
    → Permitted s (s.stage i)
      × (inside k (s.stage i) + inside k (s.stage j) ≤ 1)
      × (flag (s.session k) + s.closes k ≡ 1)
calls-guarded n always s i j k reached low high ne =
    let sound = Reach-Sound n always s reached in
    (
      permitted n s sound i low (s.stage i) refl,
      omega (
        arith,
        sound.mutex k,
        total-members (enters k) s.stage n i j low high ne,
        total-members (prepares k) s.stage n i j low high ne,
        total-members (operates k) s.stage n i j low high ne,
      ),
      sound.closed k,
    )
