-- ===== src/Signer/Pool/Concurrent/Safety.antt =====
-- What the invariant gives the users of a pool.
use gopkcs.Prelude.{
  ℕ, ◌≤◌, ◌<◌, ◌≡◌, refl, sym, ap, ◌∙◌, ◌≢◌, ◌⊎◌, inl, inr, true, List, [], ◌∷◌, arith, ltb, ◌==◌,
  if◌then◌else◌, Bool-cases, length, count,
}
use gopkcs.Signer.Pool.Concurrent.{Pc, idle, signing, collecting, returning, System, Reach}
use gopkcs.Signer.Pool.Concurrent.Families.{
  total, total-member, total-members, total-zero, total-positive, short_lacks_one, lacks_one_short,
  has_all_full,
}
use gopkcs.Signer.Pool.Concurrent.Invariant.{holds, destroying, AllDestroyed, Inv, Reach-Inv}

module _ (n size : ℕ) (s : System) (reach : Reach n size s) where
  inv : Inv n size s
  inv = Reach-Inv n size s reach

  open inv use {conserved, once, done}

  -- In every reachable state of a pool that any number of goroutines use, a key that one
  -- goroutine holds, in Sign or in Destroy, is one of the pool's, is held by no other goroutine
  -- and is not in the channel.
  pub holds-exclusive :
      (x i j : ℕ)
      → i < n
      → j < n
      → i ≢ j
      → 0 < holds x (s.pc i)
      → (holds x (s.pc j) ≡ 0) × (count x s.free ≡ 0) × (x < size)
  holds-exclusive x i j low high ne here = (
    ground (arith, total-members (holds x) s.pc n i j low high ne, conserved x),
    ground (arith, total-member (holds x) s.pc n i low, conserved x),
    ground (arith, total-member (holds x) s.pc n i low, conserved x),
  )

  free_once : (x : ℕ) → count x s.free ≤ (if ltb x size then 1 else 0)
  free_once x = omega (arith, conserved x)

  keeps_room : (x i : ℕ) → i < n → 0 < holds x (s.pc i) → length s.free < size
  keeps_room x i low here =
      lacks_one_short size s.free free_once x
        (ground (arith, total-member (holds x) s.pc n i low, conserved x))
        (ground (arith, total-member (holds x) s.pc n i low, conserved x))

  -- In every reachable state, a goroutine that has a key to give back, in Sign or in Destroy,
  -- finds room for it in the channel.
  pub send-free :
      (i k : ℕ) (keys : List ℕ)
      → i < n
      → (s.pc i ≡ signing k) ⊎ (s.pc i ≡ returning (k ∷ keys))
      → length s.free < size
  send-free i k keys low (inl e) = keeps_room k i low (rw e (ground arith))
  send-free i k keys low (inr e) = keeps_room k i low (rw e (ground arith))

  -- In every reachable state in which Pool.Destroy has finished, every key of the pool is
  -- destroyed.
  pub finished-AllDestroyed : s.finished ≡ true → AllDestroyed size s.destroyed
  finished-AllDestroyed = done

  -- In every reachable state in which no goroutine is in Sign or Destroy, the channel has each
  -- key of the pool exactly once and nothing else, so it is full.
  pub idle-free_full :
      ((i : ℕ) → i < n → s.pc i ≡ idle)
      → ((x : ℕ) → count x s.free ≡ (if ltb x size then 1 else 0)) × (length s.free ≡ size)
  idle-free_full quiet =
      let all : (x : ℕ) → count x s.free ≡ (if ltb x size then 1 else 0) = λ x.
        omega (arith, conserved x, total-zero (holds x) s.pc n (λ i l. ap (holds x) (quiet i l))) in
      (all, has_all_full size s.free free_once (λ x low. ground (arith, all x)))

  -- `destroyOnce` lets one goroutine in.
  one_destroyer :
      (i j : ℕ) → i < n → j < n → 0 < destroying (s.pc i) → 0 < destroying (s.pc j) → i ≡ j
  one_destroyer i j low high a b = elim (Bool-cases (i == j)) [
    | inl same ↦ ground arith
    | inr other ↦
        absurd
          (ground (arith, total-members destroying s.pc n i j low high (λ e. ground arith), once))
  ]

  key_in_channel : (x : ℕ) (xs : List ℕ) → length xs ≡ 0 → count x xs ≡ 0
  key_in_channel x [] h = refl
  key_in_channel x (y ∷ ys) h = absurd (omega arith)

  -- The holder of a key that the destroying goroutine lacks is in Sign.
  holder_signs :
      (i j x : ℕ) (keys : List ℕ)
      → i < n
      → j < n
      → s.pc i ≡ collecting keys
      → count x keys ≡ 0
      → (p : Pc) → s.pc j ≡ p
      → 0 < holds x p
      → (k : ℕ) × (s.pc j ≡ signing k)
  holder_signs i j x keys low high e none_here idle f h = absurd (omega arith)
  holder_signs i j x keys low high e none_here (signing k) f h = (k, f)
  holder_signs i j x keys low high e none_here (collecting others) f h =
      let same : i ≡ j = one_destroyer i j low high (rw e (omega arith)) (rw f (omega arith)) in
      let eq : collecting others ≡ collecting keys = sym f ∙ ap s.pc (sym same) ∙ e in
      absurd (omega (arith, ap (holds x) eq))
  holder_signs i j x keys low high e none_here (returning others) f h =
      let same : i ≡ j = one_destroyer i j low high (rw e (omega arith)) (rw f (omega arith)) in
      let eq : returning others ≡ collecting keys = sym f ∙ ap s.pc (sym same) ∙ e in
      absurd (omega (arith, ap (holds x) eq))

  -- In every reachable state in which Pool.Destroy still collects keys, there is a key in the
  -- channel or a goroutine is in Sign with one.
  pub collecting-progress :
      (i : ℕ) (keys : List ℕ)
      → i < n
      → s.pc i ≡ collecting keys
      → length keys < size
      → (0 < length s.free) ⊎ ((j : ℕ) × (k : ℕ) × (j < n) × (s.pc j ≡ signing k))
  collecting-progress i keys low e short = elim (Bool-cases (ltb 0 (length s.free))) [
    | inl some_free ↦ inl (ground arith)
    | inr none_free ↦
        (let (x, known, none_here) =
            short_lacks_one size keys
              (λ y. omega (arith, conserved y, total-member (holds y) s.pc n i low, ap (holds y) e))
              short in
          let held : 0 < total (holds x) n s.pc =
            ground (arith, conserved x, key_in_channel x s.free) in
          let (j, high, here) = total-positive (holds x) s.pc n held in
          let (k, signs) = holder_signs i j x keys low high e none_here (s.pc j) refl here in
          inr (j, k, high, signs))
  ]
