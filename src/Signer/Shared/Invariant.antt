-- ===== src/Signer/Shared/Invariant.antt =====
-- The invariant of shared keys, and that every step keeps it.
use gopkcs.Prelude.{
  ℕ, ◌+◌, ◌≤◌, ◌<◌, ◌≡◌, refl, ap, ◌∙◌, inl, inr, Bool, true, false, arith, ◌==◌, Bool-cases,
}
use gopkcs.Signer.Pool.Concurrent.Families.{update, total, total-update, total-member}
use gopkcs.Signer.Shared.{
  same, away, signing, entered, waiting, prepared, initialised, destroying, closing, opening,
  opened, sign_call, sign_lock, sign_refuse, read_lock, write_wait, write_lock, sign_fail,
  sign_init, sign_end, destroy_call, destroy_lock, destroy_again, destroy_close, setup_call,
  setup_lock, setup_end, Stage, Keys, KeyStep, holders, enters, prepares, operates, flag,
}

same_le : (j k : ℕ) → same j k ≤ 1
same_le j k = ground arith

same_hit : (k j : ℕ) → (k == j) ≡ true → same j k ≡ 1
same_hit k j h = ground arith

same_miss : (k j : ℕ) → (k == j) ≡ false → same j k ≡ 0
same_miss k j h = ground arith

pub record Sound (n : ℕ) (s : Keys) : Type 0 where
  pub mutex : (k : ℕ) → holders n k s.stage ≤ 1
  pub has_session :
      (k : ℕ) → total (prepares k) n s.stage + total (operates k) n s.stage ≤ flag (s.session k)
  pub active : (k : ℕ) → total (operates k) n s.stage ≡ flag (s.operation k)
  pub closed : (k : ℕ) → flag (s.session k) + s.closes k ≡ 1

-- What goroutine i gives up and takes on, key by key.
record Moves (n : ℕ) (f : ℕ → Stage) (i : ℕ) (p q : Stage) : Type 0 where
  entering :
      (k : ℕ) → total (enters k) n (update f i q) + enters k p ≡ total (enters k) n f + enters k q
  preparing :
      (k : ℕ)
      → total (prepares k) n (update f i q) + prepares k p ≡ total (prepares k) n f + prepares k q
  operating :
      (k : ℕ)
      → total (operates k) n (update f i q) + operates k p ≡ total (operates k) n f + operates k q

move : (n : ℕ) (f : ℕ → Stage) (i : ℕ) (p q : Stage) → i < n → f i ≡ p → Moves n f i p q
move n f i p q low here = record {
  entering = λ k. omega (arith, total-update (enters k) f i q n low, ap (enters k) here);
  preparing = λ k. omega (arith, total-update (prepares k) f i q n low, ap (prepares k) here);
  operating = λ k. omega (arith, total-update (operates k) f i q n low, ap (operates k) here);
}

module _ (n : ℕ) (always : ℕ → Bool) (s : Keys) (sound : Sound n s) where
  -- A goroutine moves without a change of the session or the operation.
  stage-Sound :
      (f : ℕ → Stage)
      → ((k : ℕ) → holders n k f ≤ 1)
      → ((k : ℕ) → total (prepares k) n f + total (operates k) n f ≤ flag (s.session k))
      → ((k : ℕ) → total (operates k) n f ≡ total (operates k) n s.stage)
      → Sound n (record s { stage = f })
  stage-Sound f few has keeps = record {
    mutex = few;
    has_session = has;
    active = λ k. keeps k ∙ sound.active k;
    closed = sound.closed;
  }

  -- Where the goroutine gives up what it holds, or takes nothing on.
  leave-Sound :
      (i : ℕ) (p q : Stage)
      → i < n
      → s.stage i ≡ p
      → ((j : ℕ) → enters j q + prepares j q + operates j q ≤ 0)
      → ((j : ℕ) → operates j p ≡ 0)
      → Sound n (record s { stage = update s.stage i q })
  leave-Sound i p q low here nothing calm =
      let m = move n s.stage i p q low here in
      stage-Sound _
        (λ j. omega (arith, m.entering j, m.preparing j, m.operating j, sound.mutex j, nothing j))
        (λ j. omega (arith, m.preparing j, m.operating j, sound.has_session j, nothing j))
        (λ j. omega (arith, m.operating j, nothing j, calm j))

  -- Where sessionMu is free.
  enter-Sound :
      (i k : ℕ) (p q : Stage)
      → i < n
      → s.stage i ≡ p
      → holders n k s.stage ≡ 0
      → ((j : ℕ) → (enters j q ≡ same j k) × (prepares j q ≡ 0) × (operates j q ≡ 0))
      → ((j : ℕ) → operates j p ≡ 0)
      → Sound n (record s { stage = update s.stage i q })
  enter-Sound i k p q low here free taken calm =
      let m = move n s.stage i p q low here in
      stage-Sound _
        (λ j. elim (Bool-cases (j == k)) [
          | inl hit ↦
              let e : j ≡ k = ground arith in
              let clear : holders n j s.stage ≡ 0 = rw e free in
              omega (arith, m.entering j, m.preparing j, m.operating j, taken j, clear, same_le j k)
          | inr miss ↦
              ground (arith, m.entering j, m.preparing j, m.operating j, taken j, sound.mutex j)
        ])
        (λ j. omega (arith, m.preparing j, m.operating j, sound.has_session j, taken j))
        (λ j. omega (arith, m.operating j, taken j, calm j))

  -- A goroutine that holds sessionMu has checked its session.
  prepare-Sound :
      (i k : ℕ) (q : Stage)
      → i < n
      → s.stage i ≡ entered k
      → s.session k ≡ true
      → ((j : ℕ) → (enters j q ≡ 0) × (prepares j q ≡ same j k) × (operates j q ≡ 0))
      → Sound n (record s { stage = update s.stage i q })
  prepare-Sound i k q low here has taken =
      let m = move n s.stage i (entered k) q low here in
      let inside : (j : ℕ) → same j k ≤ total (enters j) n s.stage =
        λ j. omega (arith, total-member (enters j) s.stage n i low, ap (enters j) here) in
      stage-Sound _
        (λ j. omega (arith, m.entering j, m.preparing j, m.operating j, sound.mutex j, taken j))
        (λ j. elim (Bool-cases (j == k)) [
          | inl hit ↦
              let e : j ≡ k = ground arith in
              let mine : s.session j ≡ true = rw e has in
              rw mine
                (omega (arith, m.preparing j, m.operating j, sound.mutex j, inside j, taken j))
          | inr miss ↦ ground (arith, m.preparing j, m.operating j, sound.has_session j, taken j)
        ])
        (λ j. omega (arith, m.operating j, taken j))

  pub step-Sound : (t : Keys) → KeyStep n always s t → Sound n t
  step-Sound _ (sign_call i k low here) =
      leave-Sound i away (signing k) low here (λ j. omega arith) (λ j. refl)
  step-Sound _ (sign_lock i k low here free) =
      enter-Sound i k (signing k) (entered k) low here free (λ j. (refl, refl, refl)) (λ j. refl)
  step-Sound _ (sign_refuse i k low here none_left) =
      leave-Sound i (entered k) away low here (λ j. omega arith) (λ j. refl)
  step-Sound _ (read_lock i k low here has plain free) =
      prepare-Sound i k (prepared k false) low here has (λ j. (refl, refl, refl))
  step-Sound _ (write_wait i k low here has always_so free) =
      prepare-Sound i k (waiting k) low here has (λ j. (refl, refl, refl))
  step-Sound _ (write_lock i k low here free) =
      let m = move n s.stage i (waiting k) (prepared k true) low here in
      stage-Sound _ (λ j. omega (arith, m.entering j, m.preparing j, m.operating j, sound.mutex j))
        (λ j. omega (arith, m.preparing j, m.operating j, sound.has_session j))
        (λ j. omega (arith, m.operating j))
  step-Sound _ (sign_fail i k b low here) =
      leave-Sound i (prepared k b) away low here (λ j. omega arith) (λ j. refl)
  step-Sound _ (sign_init i k b low here) =
      let m = move n s.stage i (prepared k b) (initialised k b) low here in
      record {
        mutex = λ j. omega (arith, m.entering j, m.preparing j, m.operating j, sound.mutex j);
        has_session = λ j. omega (arith, m.preparing j, m.operating j, sound.has_session j);
        active = λ j. elim (Bool-cases (k == j)) [
          | inl hit ↦ rw hit (
              omega (
                arith,
                m.operating j,
                sound.mutex j,
                total-member (prepares j) s.stage n i low,
                ap (prepares j) here,
                same_hit k j hit,
              ))
          | inr miss ↦ rw miss (omega (arith, m.operating j, sound.active j, same_miss k j miss))
        ];
        closed = sound.closed;
      }
  step-Sound _ (sign_end i k b low here) =
      let m = move n s.stage i (initialised k b) away low here in
      record {
        mutex = λ j. omega (arith, m.entering j, m.preparing j, m.operating j, sound.mutex j);
        has_session = λ j. omega (arith, m.preparing j, m.operating j, sound.has_session j);
        active = λ j. elim (Bool-cases (k == j)) [
          | inl hit ↦ rw hit (omega (arith, m.operating j, sound.mutex j, same_hit k j hit))
          | inr miss ↦ rw miss (omega (arith, m.operating j, sound.active j, same_miss k j miss))
        ];
        closed = sound.closed;
      }
  step-Sound _ (destroy_call i k low here) =
      leave-Sound i away (destroying k) low here (λ j. omega arith) (λ j. refl)
  step-Sound _ (destroy_lock i k low here free) =
      enter-Sound i k (destroying k) (closing k) low here free (λ j. (refl, refl, refl)) (λ j. refl)
  step-Sound _ (destroy_again i k low here none_left) =
      leave-Sound i (closing k) away low here (λ j. omega arith) (λ j. refl)
  step-Sound _ (destroy_close i k low here has) =
      let m = move n s.stage i (closing k) away low here in
      record {
        mutex = λ j. omega (arith, m.entering j, m.preparing j, m.operating j, sound.mutex j);
        has_session = λ j. elim (Bool-cases (k == j)) [
          | inl hit ↦ rw hit (
              omega (
                arith,
                m.preparing j,
                m.operating j,
                sound.mutex j,
                total-member (enters j) s.stage n i low,
                ap (enters j) here,
                same_hit k j hit,
              ))
          | inr miss ↦ rw miss (omega (arith, m.preparing j, m.operating j, sound.has_session j))
        ];
        active = λ j. omega (arith, m.operating j, sound.active j);
        closed = λ j. elim (Bool-cases (k == j)) [
          | inl hit ↦ rw hit (
              let e : k ≡ j = ground arith in
              let before : s.closes k ≡ 0 = omega (arith, sound.closed k, ap flag has) in
              rw before refl)
          | inr miss ↦ rw miss (sound.closed j)
        ];
      }
  step-Sound _ (setup_call i low here) =
      leave-Sound i away opening low here (λ j. omega arith) (λ j. refl)
  step-Sound _ (setup_lock i low here free) =
      leave-Sound i opening opened low here (λ j. omega arith) (λ j. refl)
  step-Sound _ (setup_end i low here) =
      leave-Sound i opened away low here (λ j. omega arith) (λ j. refl)
