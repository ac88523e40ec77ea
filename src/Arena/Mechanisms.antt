-- ===== src/Arena/Mechanisms.antt =====
-- marshalMechanism: the CK_MECHANISM that the module reads.
use gopkcs.Prelude.{
  ℕ, ◌+◌, ◌<◌, ◌≡◌, refl, ◌≢◌, inl, inr, true, List, [], ◌∷◌, arith, ◌==◌, if◌then◌else◌,
  Bool-cases,
}
use gopkcs.Machine.Structures.{store_words, AreWords}
use gopkcs.Machine.Laws.{elem, make_bytes_run}
use gopkcs.Machine.Effects.{Slice, World, Env, ok, set_pins, pin, put_word}
use gopkcs.Types.{Mechanism}
use gopkcs.Params.{pin_bytes}
use gopkcs.Params.Layout.{address, Builds, built, built-Builds}
use gopkcs.Arena.{param_bytes, marshal_mechanism}

module _ {S : Type 0} (env : Env S) (o : ℕ) (mech : Mechanism) (rest : List Mechanism)
    (w w1 : World S) (params : Slice)
    (ready : param_bytes env o mech.parameter mech.generator w ≡ ok params w1) where
  abbrev words : List ℕ
  words = mech.mechanism ∷ address params ∷ params.len ∷ []

  abbrev buffer_pins : ℕ → List ℕ
  buffer_pins = set_pins w1.pins o (w1.next ∷ w1.pins o)

  abbrev all_pins : ℕ → List ℕ
  all_pins =
      if params.len == 0 then buffer_pins else set_pins buffer_pins o (params.ptr ∷ buffer_pins o)

  marshalled : World S
  marshalled = record w1 { mem = built w1 24 words; next = w1.next + 25; pins = all_pins }

  marshal_mechanism_run : marshal_mechanism env o (mech ∷ rest) w ≡ ok w1.next marshalled
  unfolding marshal_mechanism pin_bytes pin put_word store_words built marshalled
  marshal_mechanism_run =
      let second : w1.next + 8 + 8 ≡ w1.next + 16 = omega arith in
      elim (Bool-cases (params.len == 0)) [
        | inl hit ↦ rw (ready, make_bytes_run 24 w1 (omega arith), second, hit) refl
        | inr miss ↦ rw (ready, make_bytes_run 24 w1 (omega arith), second, miss) refl
      ]

  -- Where the first mechanism's parameter has been laid out, and its fields fit in words,
  -- marshalMechanism succeeds with the address of a structure of the mechanism's type, the
  -- address of the parameter (NULL if empty) and its length; memory that was in use is unchanged;
  -- structure and parameter are pinned and other pinners are unchanged.
  pub marshal_mechanism-Builds :
      AreWords (mech.mechanism ∷ params.ptr ∷ params.len ∷ [])
      → (b : Slice) × (w' : World S) × (marshal_mechanism env o (mech ∷ rest) w ≡ ok b.ptr w')
        × Builds (mech.mechanism ∷ address params ∷ params.len ∷ []) w1 b w'
        × (elem b.ptr (w'.pins o) ≡ true)
        × (0 < params.len → elem params.ptr (w'.pins o) ≡ true)
        × ((x : ℕ) → o ≢ x → w'.pins x ≡ w1.pins x)
  unfolding marshalled
  marshal_mechanism-Builds (a, (b, (c, _))) = (
    record { ptr = w1.next; len = 24 },
    marshalled,
    marshal_mechanism_run,
    built-Builds w1 (w1.next + 25) all_pins words (a, (ground arith, (c, tt))),
    ground arith,
    λ h. ground arith,
    λ x h. ground arith,
  )
