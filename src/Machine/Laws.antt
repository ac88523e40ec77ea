-- ===== src/Machine/Laws.antt =====
-- How the machine's primitives run, as equations.
use gopkcs.Prelude.{
  ℕ, suc, ◌+◌, ◌*◌, ◌≤◌, ◌<◌, ◌≡◌, refl, sym, ◌≢◌, inl, inr, Bool, false, ◌||◌, List, [], ◌∷◌,
  arith, ◌==◌, Bool-cases, replicate,
}
use gopkcs.Machine.Bytes.{store}
use gopkcs.Machine.Effects.{set_pins, World, ok, panic, allocate, make_bytes, make_words, max_alloc}

-- Whether a pinner that holds these addresses holds this one.
abbrev pub elem : ℕ → List ℕ → Bool
elem x [] = false
elem x (p ∷ ps) = p == x || elem x ps

abbrev pub allocated : {S : Type 0} → ℕ → World S → World S
allocated n w = record w { mem = store w.mem w.next (replicate n 0); next = w.next + suc n }

module _ {S : Type 0} (n : ℕ) (w : World S) where
  pub allocate_run : allocate n w ≡ ok w.next (allocated n w)
  unfolding allocate
  allocate_run = refl

  pub make_bytes_run :
      n ≤ max_alloc → make_bytes n w ≡ ok (record { ptr = w.next; len = n }) (allocated n w)
  unfolding make_bytes allocate
  make_bytes_run h = ground arith

  pub make_words_run :
      n * 8 ≤ max_alloc
      → make_words n w ≡ ok (record { ptr = w.next; len = n }) (allocated (n * 8) w)
  unfolding make_words allocate
  make_words_run h = ground arith

  pub make_bytes_panic : max_alloc < n → make_bytes n w ≡ panic
  unfolding make_bytes
  make_bytes_panic h = ground arith

-- The next pinner released, when the others hold what they held.
pub set_pins_own :
    {S : Type 0} (w : World S) (pins : ℕ → List ℕ)
    → w.pins w.pinners ≡ []
    → ((x : ℕ) → w.pinners ≢ x → pins x ≡ w.pins x)
    → (x : ℕ) → set_pins pins w.pinners [] x ≡ w.pins x
set_pins_own w pins fresh others x = elim (Bool-cases (w.pinners == x)) [
  | inl hit ↦ rw hit (let here : w.pinners ≡ x = ground arith in rw (← here) (sym fresh))
  | inr miss ↦ rw miss (others x (λ e. ground arith))
]
