-- ===== src/Machine/Pins/Bracket.antt =====
-- A pinner that is unpinned by hand: between `Pin` and `Unpin` nothing may return.
use gopkcs.Prelude.{
  ℕ, ◌<◌, ◌≡◌, sym, ap, ◌∙◌, ◌≢◌, inl, inr, none, some, [], arith, ◌==◌, Bool-cases,
}
use gopkcs.Machine.Effects.{
  World, Outcome, ok, err, panic, M, ◌>>=◌, ◌>>◌, and_then, unpin, set_pins,
}
use gopkcs.Machine.Pins.{IsTidy, Keeps, After, Uses}

-- Code that may not return an error, and pins with `o` at most.
abbrev pub CertainAfter : {S A : Type 0} → ℕ → World S → Outcome S A → Type 0
CertainAfter o w (ok a w') = Keeps (some o) w w'
CertainAfter o w (err e w') = ⊥
CertainAfter o w panic = Unit

pub record Certain {S A : Type 0} (o : ℕ) (m : M S A) : Type 0 where
  pub runs : (w : World S) → CertainAfter o w (m w)

-- Code that leaves `o` empty, whatever it holds at first.
abbrev pub EndsAfter : {S A : Type 0} → ℕ → World S → Outcome S A → Type 0
EndsAfter o w (ok a w') = Keeps (some o) w w' × (w'.pins o ≡ [])
EndsAfter o w (err e w') = Keeps (some o) w w' × (w'.pins o ≡ [])
EndsAfter o w panic = Unit

pub record Ends {S A : Type 0} (o : ℕ) (m : M S A) : Type 0 where
  pub runs : (w : World S) → IsTidy w → o < w.pinners → EndsAfter o w (m w)

-- Code that leaves `o` empty if it is empty at first.
pub record Unused {S A : Type 0} (o : ℕ) (m : M S A) : Type 0 where
  pub runs : (w : World S) → IsTidy w → o < w.pinners → w.pins o ≡ [] → After none w (m w)

none-ne-some : (x : ℕ) → none ≢ some x
none-ne-some x e = cc

inj : {a b : ℕ} → some a ≡ some b → a ≡ b
inj e = cc

module _ {S : Type 0} (o : ℕ) where
  trans : (w v u : World S) → Keeps (some o) w v → Keeps (some o) v u → Keeps (some o) w u
  trans w v u a b = record {
    later = omega (arith, a.later, b.later);
    others = λ x h. b.others x h ∙ a.others x h;
  }

  IsTidy-Keeps : (w v : World S) → IsTidy w → o < w.pinners → Keeps (some o) w v → IsTidy v
  IsTidy-Keeps w v tidy made k x h =
      k.others x (λ e. omega (arith, inj e, made, k.later)) ∙ tidy x (omega (arith, k.later))

  -- What `o` holds is the same if it is empty before and after.
  emptied : (w v : World S) → w.pins o ≡ [] → v.pins o ≡ [] → Keeps (some o) w v → Keeps none w v
  emptied w v a b k = record {
    later = k.later;
    others = λ x _. elim (Bool-cases (o == x)) [
      | inl hit ↦ let same : o ≡ x = ground arith in rw (← same) (b ∙ sym a)
      | inr miss ↦ k.others x (λ e. ground (arith, inj e))
    ];
  }

  module _ {A B : Type 0} where
    Certain-and_then :
        (w : World S) (r : Outcome S A) (f : A → M S B)
        → CertainAfter o w r
        → ((a : A) → Certain o (f a))
        → CertainAfter o w (and_then r f)
    Certain-and_then w (ok a v) f k h = go (f a v) ((h a).runs v)
      where
        go : (r : Outcome S B) → CertainAfter o v r → CertainAfter o w r
        go (ok b u) l = trans w v u k l
        go (err e u) l = l
        go panic l = tt
    Certain-and_then w (err e v) f k h = absurd k
    Certain-and_then w panic f k h = tt

    pub bind-Certain :
        (m : M S A) (f : A → M S B)
        → Certain o m
        → ((a : A) → Certain o (f a))
        → Certain o (m >>= f)
    bind-Certain m f a h = record { runs = λ w. Certain-and_then w (m w) f (a.runs w) h }

    Ends-and_then :
        (w : World S) (r : Outcome S A) (f : A → M S B)
        → IsTidy w
        → o < w.pinners
        → CertainAfter o w r
        → ((a : A) → Ends o (f a))
        → EndsAfter o w (and_then r f)
    Ends-and_then w (ok a v) f tidy made k h =
        go (f a v) ((h a).runs v (IsTidy-Keeps w v tidy made k) (omega (arith, k.later)))
      where
        go : (r : Outcome S B) → EndsAfter o v r → EndsAfter o w r
        go (ok b u) l = (trans w v u k l.0, l.1)
        go (err e u) l = (trans w v u k l.0, l.1)
        go panic l = tt
    Ends-and_then w (err e v) f tidy made k h = absurd k
    Ends-and_then w panic f tidy made k h = tt

    pub bind-Ends :
        (m : M S A) (f : A → M S B) → Certain o m → ((a : A) → Ends o (f a)) → Ends o (m >>= f)
    bind-Ends m f a h = record {
      runs = λ w tidy made. Ends-and_then w (m w) f tidy made (a.runs w) h;
    }

    Unused-and_then :
        (w : World S) (r : Outcome S A) (f : A → M S B)
        → IsTidy w
        → o < w.pinners
        → w.pins o ≡ []
        → After none w r
        → ((a : A) → Unused o (f a))
        → After none w (and_then r f)
    Unused-and_then w (ok a v) f tidy made empty k h = go (f a v) (
        (h a).runs v (λ x l. k.others x (none-ne-some x) ∙ tidy x (omega (arith, k.later)))
          (omega (arith, k.later)) (k.others o (none-ne-some o) ∙ empty))
      where
        go : (r : Outcome S B) → After none v r → After none w r
        go (ok b u) l = record {
          later = omega (arith, k.later, l.later);
          others = λ x ne. l.others x ne ∙ k.others x ne;
        }
        go (err e u) l = record {
          later = omega (arith, k.later, l.later);
          others = λ x ne. l.others x ne ∙ k.others x ne;
        }
        go panic l = tt
    Unused-and_then w (err e v) f tidy made empty k h = k
    Unused-and_then w panic f tidy made empty k h = tt

    pub bind-Unused :
        (m : M S A) (f : A → M S B) → Uses none m → ((a : A) → Unused o (f a)) → Unused o (m >>= f)
    bind-Unused m f a h = record {
      runs = λ w tidy made empty.
          Unused-and_then w (m w) f tidy made empty
            (a.runs w tidy (λ x e. absurd (none-ne-some x e))) h;
    }

  apart : (w : World S) (x : ℕ) → o ≢ x → set_pins w.pins o [] x ≡ w.pins x
  apart w x ne = ground arith

  self : (w : World S) → set_pins w.pins o [] o ≡ []
  self w = ground arith

  module _ {A : Type 0} where
    pub none-Unused : (m : M S A) → Uses none m → Unused o m
    none-Unused m a = record {
      runs = λ w tidy made empty. a.runs w tidy (λ x e. absurd (none-ne-some x e));
    }

    pub Ends-Unused : (m : M S A) → Ends o m → Unused o m
    Ends-Unused m a = record { runs = λ w tidy made empty. go w empty (m w) (a.runs w tidy made) }
      where
        go : (w : World S) → w.pins o ≡ [] → (r : Outcome S A) → EndsAfter o w r → After none w r
        go w empty (ok b v) k = emptied w v empty k.1 k.0
        go w empty (err e v) k = emptied w v empty k.1 k.0
        go w empty panic k = tt

    pub unpin-Ends : (k : M S A) → Unused o k → Ends o (unpin o >> k)
    unfolding unpin
    unpin-Ends k a = record {
      runs = λ w tidy made.
          let v = record w { pins = set_pins w.pins o [] } in
          go w (k v) (a.runs v (λ x h. ground (arith, tidy x)) made (ground arith));
    }
      where
        go :
            (w : World S) (r : Outcome S A)
            → After none (record w { pins = set_pins w.pins o [] }) r
            → EndsAfter o w r
        go w (ok b u) l = (
          record {
            later = l.later;
            others = λ x ne. l.others x (none-ne-some x) ∙ apart w x (λ e. ne (ap some e));
          },
          l.others o (none-ne-some o) ∙ self w,
        )
        go w (err e u) l = (
          record {
            later = l.later;
            others = λ x ne. l.others x (none-ne-some x) ∙ apart w x (λ e. ne (ap some e));
          },
          l.others o (none-ne-some o) ∙ self w,
        )
        go w panic l = tt
