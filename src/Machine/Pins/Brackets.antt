-- ===== src/Machine/Pins/Brackets.antt =====
-- The primitives between `Pin` and `Unpin`, and the pinner that is made before.
use gopkcs.Prelude.{
  ℕ, suc, refl, ap, inl, inr, Bool, true, false, none, some, List, arith, ◌==◌, if◌then◌else◌,
  Bool-cases,
}
use gopkcs.Machine.Effects.{
  crash, pure, allocate, World, Env, Outcome, ok, err, panic, M, ◌>>=◌, new_pinner, pin, syscall_n,
}
use gopkcs.Machine.Pins.{After, Uses}
use gopkcs.Machine.Pins.Bracket.{
  Certain, Ends, Unused, bind-Certain, bind-Ends, bind-Unused, none-Unused, Ends-Unused, unpin-Ends,
}

pub pin-Certain : {S : Type 0} (o p : ℕ) → Certain o (pin {S = S} o p)
unfolding pin
pin-Certain o p = record {
  runs = λ w. record {
    later = omega arith;
    others = λ x ne. elim (Bool-cases (o == x)) [
      | inl hit ↦ absurd (ne (ap some (ground arith)))
      | inr miss ↦ rw miss refl
    ];
  };
}

pub syscall_n-Certain :
    {S : Type 0} (o : ℕ) (env : Env S) (fn : ℕ) (args : List ℕ) → Certain o (syscall_n env fn args)
unfolding syscall_n
syscall_n-Certain o env fn args = record {
  runs = λ w. record { later = omega arith; others = λ x ne. refl };
}

-- `var pinner runtime.Pinner` without a deferred Unpin.
pub new_pinner-Uses :
    {S A : Type 0} (f : ℕ → M S A) → ((o : ℕ) → Unused o (f o)) → Uses none (new_pinner >>= f)
unfolding new_pinner
new_pinner-Uses {S} {A} f h = record {
  runs = λ w tidy made. go w (f w.pinners (record w { pinners = suc w.pinners })) (
      (h w.pinners).runs (record w { pinners = suc w.pinners }) (λ x l. tidy x (omega arith))
        (omega arith) (tidy w.pinners (omega arith)));
}
  where
    go :
        (w : World S) (r : Outcome S A)
        → After none (record w { pinners = suc w.pinners }) r
        → After none w r
    go w (ok b u) l = record { later = omega (arith, l.later); others = l.others }
    go w (err e u) l = record { later = omega (arith, l.later); others = l.others }
    go w panic l = tt

module _ {S : Type 0} (o : ℕ) where
  pub allocate-Certain : (n : ℕ) → Certain o (allocate {S = S} n)
  unfolding allocate
  allocate-Certain n = record { runs = λ w. record { later = omega arith; others = λ x ne. refl } }

  module _ {A : Type 0} where
    pub pure-Certain : (a : A) → Certain o (pure {S = S} a)
    pure-Certain a = record { runs = λ w. record { later = omega arith; others = λ x ne. refl } }

    pub crash-Certain : Certain {A = A} o (crash {S = S})
    crash-Certain = record { runs = λ w. tt }

    pub if-Certain :
        (b : Bool) (m k : M S A) → Certain o m → Certain o k → Certain o (if b then m else k)
    if-Certain true m k h l = h
    if-Certain false m k h l = l

    pub if-Unused :
        (b : Bool) (m k : M S A) → Unused o m → Unused o k → Unused o (if b then m else k)
    if-Unused true m k h l = h
    if-Unused false m k h l = l

pub ruleset brackets = (
  new_pinner-Uses, bind-Unused, if-Unused, none-Unused, Ends-Unused, unpin-Ends, bind-Ends,
  bind-Certain, pin-Certain, syscall_n-Certain, allocate-Certain, pure-Certain, crash-Certain,
  if-Certain,
)
