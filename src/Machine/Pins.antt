-- ===== src/Machine/Pins.antt =====
-- Which pinners a piece of code uses, and that a pinner is released at the end.
pub mod Primitives
pub mod Bracket
pub mod Brackets
use gopkcs.Prelude.{ℕ, suc, ◌-◌, ◌≤◌, ◌<◌, ◌≡◌, refl, ◌∙◌, ◌≢◌, Option, none, some, [], arith}
use gopkcs.Machine.Effects.{
  Error, World, Env, Outcome, ok, err, panic, M, pure, fail, crash, ◌>>=◌, ◌>>◌, and_then, finally,
  unpinned, set_pins, allocate, make_bytes, make_words, make_bytes_int, make_words_int, put_bytes,
  put_word, get_bytes, get_word, get_byte, get_words, new_word, bytes_of_string, prefix, new_pinner,
  pin, unpin, with_pinner, syscall_n,
}
use gopkcs.Machine.Laws.{set_pins_own}

-- Pinners that are not in use hold nothing.
abbrev pub IsTidy : {S : Type 0} → World S → Type 0
IsTidy w = (o : ℕ) → w.pinners ≤ o → w.pins o ≡ []

-- From w to w' nothing changed but for what the given pinner holds.
pub record Keeps {S : Type 0} (own : Option ℕ) (w w' : World S) : Type 0 where
  pub later : w.pinners ≤ w'.pinners
  pub others : (x : ℕ) → own ≢ some x → w'.pins x ≡ w.pins x

abbrev pub After : {S A : Type 0} → Option ℕ → World S → Outcome S A → Type 0
After own w (ok a w') = Keeps own w w'
After own w (err e w') = Keeps own w w'
After own w panic = Unit

-- A pinner that the code may use is one that has been made.
abbrev pub IsMade : {S : Type 0} → Option ℕ → World S → Type 0
IsMade own w = (x : ℕ) → own ≡ some x → x < w.pinners

-- The code pins with the given pinner at most.
pub record Uses {S A : Type 0} (own : Option ℕ) (m : M S A) : Type 0 where
  pub runs : (w : World S) → IsTidy w → IsMade own w → After own w (m w)

module _ {S : Type 0} (own : Option ℕ) where
  Keeps-IsTidy : (w w' : World S) → IsTidy w → IsMade own w → Keeps own w w' → IsTidy w'
  Keeps-IsTidy w w' tidy made k o h =
      k.others o (λ e. omega (arith, made o e, k.later)) ∙ tidy o (omega (arith, k.later))

  Keeps-IsMade : (w w' : World S) → IsMade own w → Keeps own w w' → IsMade own w'
  Keeps-IsMade w w' made k x e = omega (arith, made x e, k.later)

  Keeps-trans : (w v u : World S) → Keeps own w v → Keeps own v u → Keeps own w u
  Keeps-trans w v u a b = record {
    later = omega (arith, a.later, b.later);
    others = λ x h. b.others x h ∙ a.others x h;
  }

  pub Keeps-same :
      (w w' : World S) → w'.pinners ≡ w.pinners → ((x : ℕ) → w'.pins x ≡ w.pins x) → Keeps own w w'
  Keeps-same w w' p h = record { later = omega (arith, p); others = λ x _. h x }

  module _ {A : Type 0} where
    pub pure-Uses : (a : A) → Uses own (pure {S = S} a)
    pure-Uses a = record { runs = λ w tidy made. Keeps-same w w refl (λ x. refl) }

    pub fail-Uses : (e : Error) → Uses {A = A} own (fail {S = S} e)
    fail-Uses e = record { runs = λ w tidy made. Keeps-same w w refl (λ x. refl) }

    pub crash-Uses : Uses {A = A} own (crash {S = S})
    crash-Uses = record { runs = λ w tidy made. tt }

  After-trans :
      {B : Type 0} (w v : World S) (r : Outcome S B) → Keeps own w v → After own v r → After own w r
  After-trans w v (ok b u) k h = Keeps-trans w v u k h
  After-trans w v (err e u) k h = Keeps-trans w v u k h
  After-trans w v panic k h = tt

  module _ {A B : Type 0} where
    and_then-After :
        (w : World S) (r : Outcome S A) (f : A → M S B)
        → IsTidy w
        → IsMade own w
        → After own w r
        → ((a : A) → Uses own (f a))
        → After own w (and_then r f)
    and_then-After w (ok a v) f tidy made k h =
        After-trans w v (f a v) k
          ((h a).runs v (Keeps-IsTidy w v tidy made k) (Keeps-IsMade w v made k))
    and_then-After w (err e v) f tidy made k h = k
    and_then-After w panic f tidy made k h = tt

    pub bind-Uses :
        (m : M S A) (f : A → M S B) → Uses own m → ((a : A) → Uses own (f a)) → Uses own (m >>= f)
    bind-Uses m f a h = record {
      runs = λ w tidy made. and_then-After w (m w) f tidy made (a.runs w tidy made) h;
    }

-- Code that pins nothing may stand anywhere.
pub Uses-none : {S A : Type 0} (own : Option ℕ) (m : M S A) → Uses none m → Uses own m
Uses-none {S} {A} own m h = record {
  runs = λ w tidy made. weaken w (m w) (h.runs w tidy (λ x e. absurd (none-ne-some x e)));
}
  where
    none-ne-some : (x : ℕ) → none ≢ some x
    none-ne-some x e = cc

    weaken : (w : World S) (r : Outcome S A) → After none w r → After own w r
    weaken w (ok a v) k = record { later = k.later; others = λ x _. k.others x (none-ne-some x) }
    weaken w (err e v) k = record { later = k.later; others = λ x _. k.others x (none-ne-some x) }
    weaken w panic k = tt

some_inj : {a b : ℕ} → some a ≡ some b → a ≡ b
some_inj e = cc

-- `defer pinner.Unpin()`: at the end the pinner holds nothing.
pub with_pinner-Uses :
    {S A : Type 0} (own : Option ℕ) (body : ℕ → M S A)
    → ((o : ℕ) → Uses (some o) (body o))
    → Uses own (with_pinner body)
unfolding with_pinner
with_pinner-Uses {S} {A} own body h = record {
  runs = λ w tidy made. released w tidy (body w.pinners (record w { pinners = suc w.pinners })) (
      (h w.pinners).runs (record w { pinners = suc w.pinners }) (λ o l. tidy o (omega arith))
        (λ x e. omega (arith, some_inj e)));
}
  where
    released :
        (w : World S)
        → IsTidy w
        → (r : Outcome S A) → After (some w.pinners) (record w { pinners = suc w.pinners }) r
        → After own w (finally r (unpinned w.pinners))
    released w tidy (ok a v) k = record {
      later = omega (arith, k.later);
      others = λ x _.
          set_pins_own w v.pins (tidy w.pinners (omega arith))
            (λ y ne. k.others y (λ e. ne (some_inj e))) x;
    }
    released w tidy (err e v) k = record {
      later = omega (arith, k.later);
      others = λ x _.
          set_pins_own w v.pins (tidy w.pinners (omega arith))
            (λ y ne. k.others y (λ e. ne (some_inj e))) x;
    }
    released w tidy panic k = tt
