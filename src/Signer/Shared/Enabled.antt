-- ===== src/Signer/Shared/Enabled.antt =====
-- In a state in which somebody is in a call, somebody in a call can go on.
use gopkcs.Prelude.{ℕ, ◌<◌, ◌≡◌, refl, inl, inr, Bool, arith, ltb, Bool-cases}
use gopkcs.Signer.Pool.Concurrent.Families.{total, total-member, total-positive, total-le}
use gopkcs.Signer.Shared.{
  Stage, Keys, holders, enters, prepares, operates, reads, writes, away, signing, entered, waiting,
  prepared, initialised, destroying, closing, opening, opened, sign_lock, sign_refuse, read_lock,
  write_wait, write_lock, sign_init, sign_end, destroy_lock, destroy_again, destroy_close,
  setup_lock, setup_end,
}
use gopkcs.Signer.Shared.Waiting.{
  rank, free, engaged, reads-free, writes-free, holds-engaged, GoesOn,
}
use gopkcs.Signer.Shared.{awaits, IsReadable}

module _ (n : ℕ) (always : ℕ → Bool) (s : Keys) where
  abbrev pub Next : Type 0
  Next = GoesOn n always s

  -- A goroutine that waits for nothing.
  from_free : (i : ℕ) (p : Stage) → i < n → s.stage i ≡ p → 0 < free p → Next
  from_free i away low here h = absurd (omega arith)
  from_free i (signing k) low here h = absurd (omega arith)
  from_free i (entered k) low here h = absurd (omega arith)
  from_free i (waiting k) low here h = absurd (omega arith)
  from_free i (prepared k b) low here h = (_, sign_init i k b low here, refl)
  from_free i (initialised k b) low here h = (_, sign_end i k b low here, refl)
  from_free i (destroying k) low here h = absurd (omega arith)
  from_free i (closing k) low here h = elim (Bool-cases (s.session k)) [
    | inl has ↦ (_, destroy_close i k low here has, refl)
    | inr none_left ↦ (_, destroy_again i k low here none_left, refl)
  ]
  from_free i opening low here h = absurd (omega arith)
  from_free i opened low here h = (_, setup_end i low here, refl)

  module _ (unlocked : total free n s.stage ≡ 0) where
    none_read : total reads n s.stage ≡ 0
    none_read = omega (arith, total-le reads free s.stage n reads-free)

    none_write : total writes n s.stage ≡ 0
    none_write = omega (arith, total-le writes free s.stage n writes-free)

    -- In a Lock that has begun, while nobody holds the token's lock.
    from_locking : (i : ℕ) (p : Stage) → i < n → s.stage i ≡ p → 0 < awaits p → Next
    from_locking i away low here h = absurd (omega arith)
    from_locking i (signing k) low here h = absurd (omega arith)
    from_locking i (entered k) low here h = absurd (omega arith)
    from_locking i (waiting k) low here h = (_, write_lock i k low here none_read, refl)
    from_locking i (prepared k b) low here h = absurd (omega arith)
    from_locking i (initialised k b) low here h = absurd (omega arith)
    from_locking i (destroying k) low here h = absurd (omega arith)
    from_locking i (closing k) low here h = absurd (omega arith)
    from_locking i opening low here h = absurd (omega arith)
    from_locking i opened low here h = absurd (omega arith)

    module _ (unclaimed : total awaits n s.stage ≡ 0) where
      readable : IsReadable n s.stage
      readable = omega (arith, none_write)

      -- With sessionMu, while nobody holds the token's lock or has called Lock of it.
      from_entered : (i k : ℕ) → i < n → s.stage i ≡ entered k → Next
      from_entered i k low here = elim (Bool-cases (s.session k)) [
        | inl has ↦ elim (Bool-cases (always k)) [
          | inl again ↦ (_, write_wait i k low here has again readable, refl)
          | inr plain ↦ (_, read_lock i k low here has plain readable, refl)
        ]
        | inr none_left ↦ (_, sign_refuse i k low here none_left, refl)
      ]

      module _ (unheld : total engaged n s.stage ≡ 0) where
        none_holds : (k : ℕ) → holders n k s.stage ≡ 0
        none_holds k = omega (
          arith,
          total-le (enters k) engaged s.stage n (λ p. omega (arith, holds-engaged k p)),
          total-le (prepares k) engaged s.stage n (λ p. omega (arith, holds-engaged k p)),
          total-le (operates k) engaged s.stage n (λ p. omega (arith, holds-engaged k p)),
        )

        -- While nobody holds a lock.
        from_waiting :
            (i : ℕ) (p : Stage) → i < n → s.stage i ≡ p → 0 < rank p → engaged p ≡ 0 → Next
        from_waiting i away low here h e = absurd (omega arith)
        from_waiting i (signing k) low here h e = (_, sign_lock i k low here (none_holds k), refl)
        from_waiting i (entered k) low here h e = absurd (omega arith)
        from_waiting i (waiting k) low here h e = absurd (omega arith)
        from_waiting i (prepared k b) low here h e = absurd (omega arith)
        from_waiting i (initialised k b) low here h e = absurd (omega arith)
        from_waiting i (destroying k) low here h e =
            (_, destroy_lock i k low here (none_holds k), refl)
        from_waiting i (closing k) low here h e = absurd (omega arith)
        from_waiting i opening low here h e = (_, setup_lock i low here readable, refl)
        from_waiting i opened low here h e = absurd (omega arith)

      from_engaged :
          (i : ℕ) (p : Stage)
          → i < n
          → s.stage i ≡ p
          → 0 < engaged p
          → free p ≡ 0
          → awaits p ≡ 0
          → Next
      from_engaged i away low here h e u = absurd (omega arith)
      from_engaged i (signing k) low here h e u = absurd (omega arith)
      from_engaged i (entered k) low here h e u = from_entered i k low here
      from_engaged i (waiting k) low here h e u = absurd (omega arith)
      from_engaged i (prepared k b) low here h e u = absurd (omega arith)
      from_engaged i (initialised k b) low here h e u = absurd (omega arith)
      from_engaged i (destroying k) low here h e u = absurd (omega arith)
      from_engaged i (closing k) low here h e u = absurd (omega arith)
      from_engaged i opening low here h e u = absurd (omega arith)
      from_engaged i opened low here h e u = absurd (omega arith)

      from_locked : 0 < total rank n s.stage → Next
      from_locked h = elim (Bool-cases (ltb 0 (total engaged n s.stage))) [
        | inl some_hold ↦
            (let (i, low, mine) = total-positive engaged s.stage n (ground arith) in
              from_engaged i (s.stage i) low refl mine
                (omega (arith, total-member free s.stage n i low))
                (omega (arith, total-member awaits s.stage n i low)))
        | inr none_hold ↦
            (let unheld : total engaged n s.stage ≡ 0 = ground arith in
              let (i, low, mine) = total-positive rank s.stage n h in
              from_waiting unheld i (s.stage i) low refl mine
                (omega (arith, total-member engaged s.stage n i low)))
      ]

    from_unlocked : 0 < total rank n s.stage → Next
    from_unlocked h = elim (Bool-cases (ltb 0 (total awaits n s.stage))) [
      | inl some_wait ↦
          (let (i, low, mine) = total-positive awaits s.stage n (ground arith) in
            from_locking i (s.stage i) low refl mine)
      | inr none_wait ↦ from_locked (ground arith) h
    ]

  pub next : 0 < total rank n s.stage → Next
  next h = elim (Bool-cases (ltb 0 (total free n s.stage))) [
    | inl some_free ↦
        (let (i, low, mine) = total-positive free s.stage n (ground arith) in
          from_free i (s.stage i) low refl mine)
    | inr none_free ↦ from_unlocked (ground arith) h
  ]
