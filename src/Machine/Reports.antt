-- ===== src/Machine/Reports.antt =====
-- Return values of the module and errors of the program: a refusal ends the code with its value.
pub mod Primitives
use gopkcs.Prelude.{
  ℕ, zero, suc, ◌+◌, ◌-◌, ◌≡◌, refl, ap, ◌∙◌, ◌≢◌, ◌⊎◌, inl, inr, Bool, true, false, List, ◌∷◌,
  ◌++◌, arith, ◌==◌, if◌then◌else◌, ==_iff, Bool-cases, replicate,
}
use gopkcs.Machine.Effects.{
  Error, code, World, Env, Outcome, ok, err, panic, M, pure, fail, crash, ◌>>=◌, ◌>>◌, and_then,
  finally, unpinned, unpin, with_pinner, syscall_n,
}
use gopkcs.Errors.{check, to_error, return_error, ckr_arguments_bad, ckr_host_memory}

-- The module's state keeps the return values, the newest first.
pub record Logs {S : Type 0} (env : Env S) (log : S → List ℕ) : Type 0 where
  pub logs :
      (fn : ℕ) (args : List ℕ) (t : S) (m : ℕ → ℕ)
      → log (env.call fn args t m).token ≡ (env.call fn args t m).rv ∷ log t

-- The two errors that the binding makes itself.
abbrev pub IsOwn : Error → Type 0
IsOwn e = (e ≡ code ckr_arguments_bad) ⊎ (e ≡ code ckr_host_memory)

module _ {S : Type 0} (log : S → List ℕ) where
  -- The calls from w to w', if any, have succeeded.
  abbrev pub Clean : World S → World S → Type 0
  Clean w w' = (k : ℕ) × (log w'.token ≡ replicate k 0 ++ log w.token)

  -- The last call returned the error's value, and the calls before it have succeeded.
  abbrev pub Refused : Error → World S → World S → Type 0
  Refused e w w' =
      (rv : ℕ) × (k : ℕ) × (e ≡ code rv)
      × (rv ≢ 0)
      × (log w'.token ≡ rv ∷ (replicate k 0 ++ log w.token))

  abbrev pub Reported : {A : Type 0} → World S → Outcome S A → Type 0
  Reported w (ok a w') = Clean w w'
  Reported w (err e w') = Refused e w w' ⊎ (IsOwn e × Clean w w')
  Reported w panic = Unit

  -- The code succeeds only if all its calls do, and otherwise ends with the first that does not.
  pub record Reports {A : Type 0} (m : M S A) : Type 0 where
    pub runs : (w : World S) → Reported w (m w)

  -- The code makes one call and returns what it returns.
  abbrev pub Asked : World S → Outcome S ℕ → Type 0
  Asked w (ok rv w') = log w'.token ≡ rv ∷ log w.token
  Asked w (err e w') = ⊥
  Asked w panic = Unit

  pub record Asks (m : M S ℕ) : Type 0 where
    pub runs : (w : World S) → Asked w (m w)

  replicate_add :
      (k l : ℕ) (t : List ℕ) → replicate k 0 ++ (replicate l 0 ++ t) ≡ replicate (k + l) 0 ++ t
  replicate_add zero l t = ap (λ n. replicate n 0 ++ t) (omega arith)
  replicate_add (suc k) l t =
      ap (λ s. 0 ∷ s) (replicate_add k l t) ∙ first (k + l) (suc k + l) (omega arith)
    where
      first : (n m : ℕ) → suc n ≡ m → replicate (suc n) 0 ++ t ≡ replicate m 0 ++ t
      first n m e = ap (λ n. replicate n 0 ++ t) e

  Clean-trans : (w v u : World S) → Clean w v → Clean v u → Clean w u
  Clean-trans w v u (k, a) (l, b) =
      (l + k, b ∙ ap (λ t. replicate l 0 ++ t) a ∙ replicate_add l k (log w.token))

  Refused-trans : (e : Error) (w v u : World S) → Clean w v → Refused e v u → Refused e w u
  Refused-trans e w v u (k, a) (rv, l, same, bad, b) = (
    rv,
    l + k,
    same,
    bad,
    b ∙ ap (λ t. rv ∷ (replicate l 0 ++ t)) a ∙ ap (λ t. rv ∷ t) (replicate_add l k (log w.token)),
  )

  Reported-trans :
      {A : Type 0} (w v : World S) (r : Outcome S A) → Clean w v → Reported v r → Reported w r
  Reported-trans w v (ok a u) c h = Clean-trans w v u c h
  Reported-trans w v (err e u) c (inl h) = inl (Refused-trans e w v u c h)
  Reported-trans w v (err e u) c (inr (own, h)) = inr (own, Clean-trans w v u c h)
  Reported-trans w v panic c h = tt

  pub Clean-same : (w w' : World S) → w'.token ≡ w.token → Clean w w'
  Clean-same w w' e = (0, ap log e)

  module _ {A : Type 0} where
    pub pure-Reports : (a : A) → Reports (pure {S = S} a)
    pure-Reports a = record { runs = λ w. Clean-same w w refl }

    pub crash-Reports : Reports {A = A} (crash {S = S})
    crash-Reports = record { runs = λ w. tt }

    pub fail-Reports : (e : Error) → IsOwn e → Reports {A = A} (fail {S = S} e)
    fail-Reports e own = record { runs = λ w. inr (own, Clean-same w w refl) }

    pub if-Reports : (b : Bool) (m k : M S A) → Reports m → Reports k → Reports (if b then m else k)
    if-Reports true m k h l = h
    if-Reports false m k h l = l

    finally-Reported :
        (w w1 : World S) (r : Outcome S A) (o : ℕ)
        → w1.token ≡ w.token
        → Reported w1 r
        → Reported w (finally r (unpinned o))
    finally-Reported w w1 (ok a u) o e (k, h) = (k, h ∙ ap (λ t. replicate k 0 ++ log t) e)
    finally-Reported w w1 (err x u) o e (inl (rv, k, same, bad, h)) =
        inl (rv, k, same, bad, h ∙ ap (λ t. rv ∷ (replicate k 0 ++ log t)) e)
    finally-Reported w w1 (err x u) o e (inr (own, (k, h))) =
        inr (own, (k, h ∙ ap (λ t. replicate k 0 ++ log t) e))
    finally-Reported w w1 panic o e h = tt

    pub with_pinner-Reports :
        (body : ℕ → M S A) → ((o : ℕ) → Reports (body o)) → Reports (with_pinner body)
    unfolding with_pinner
    with_pinner-Reports body h = record {
      runs = λ w.
          finally-Reported w (record w { pinners = suc w.pinners }) _ w.pinners refl
            ((h w.pinners).runs (record w { pinners = suc w.pinners }));
    }

  module _ {A B : Type 0} where
    and_then-Reported :
        (w : World S) (r : Outcome S A) (f : A → M S B)
        → Reported w r
        → ((a : A) → Reports (f a))
        → Reported w (and_then r f)
    and_then-Reported w (ok a v) f c h = Reported-trans w v (f a v) c ((h a).runs v)
    and_then-Reported w (err e v) f c h = c
    and_then-Reported w panic f c h = tt

    pub bind-Reports :
        (m : M S A) (f : A → M S B) → Reports m → ((a : A) → Reports (f a)) → Reports (m >>= f)
    bind-Reports m f a h = record { runs = λ w. and_then-Reported w (m w) f (a.runs w) h }

  module _ {B : Type 0} where
    checked_from :
        (w v : World S) (rv : ℕ) (k : M S B)
        → log v.token ≡ rv ∷ log w.token
        → Reports k
        → Reported w ((check rv >> k) v)
    checked_from w v rv k e h = elim (Bool-cases (rv == 0)) [
      | inl fine ↦ rw fine (
          Reported-trans w v (k v) (1, e ∙ ap (λ x. x ∷ log w.token) ((==_iff rv 0).0 fine))
            (h.runs v))
      | inr bad ↦ rw bad (inl (rv, 0, refl, (λ z. ground arith), e))
    ]

    Asked-checked :
        (w : World S) (r : Outcome S ℕ) (k : M S B)
        → Asked w r
        → Reports k
        → Reported w (and_then r (λ rv. check rv >> k))
    Asked-checked w (ok rv v) k e h = checked_from w v rv k e h
    Asked-checked w (err x v) k e h = absurd e
    Asked-checked w panic k e h = tt

    -- The call, and what follows if it succeeds.
    pub checked : (m : M S ℕ) (k : M S B) → Asks m → Reports k → Reports (m >>= λ rv. check rv >> k)
    checked m k a h = record { runs = λ w. Asked-checked w (m w) k (a.runs w) h }

    Asked-unpinned :
        (w : World S) (r : Outcome S ℕ) (o : ℕ) (k : M S B)
        → Asked w r
        → Reports k
        → Reported w (and_then r (λ rv. unpin o >> (check rv >> k)))
    unfolding unpin
    Asked-unpinned w (ok rv v) o k e h = checked_from w (unpinned o v) rv k e h
    Asked-unpinned w (err x v) o k e h = absurd e
    Asked-unpinned w panic o k e h = tt

    pub checked_unpinned :
        (m : M S ℕ) (o : ℕ) (k : M S B)
        → Asks m
        → Reports k
        → Reports (m >>= λ rv. unpin o >> (check rv >> k))
    checked_unpinned m o k a h = record { runs = λ w. Asked-unpinned w (m w) o k (a.runs w) h }

  checked_at : (w v : World S) (rv : ℕ) → log v.token ≡ rv ∷ log w.token → Reported w (check rv v)
  checked_at w v rv e = elim (Bool-cases (rv == 0)) [
    | inl fine ↦ rw fine (1, e ∙ ap (λ x. x ∷ log w.token) ((==_iff rv 0).0 fine))
    | inr bad ↦ rw bad (inl (rv, 0, refl, (λ z. ground arith), e))
  ]

  Asked-last : (w : World S) (r : Outcome S ℕ) → Asked w r → Reported w (and_then r check)
  Asked-last w (ok rv v) e = checked_at w v rv e
  Asked-last w (err x v) e = absurd e
  Asked-last w panic e = tt

  pub checked_last : (m : M S ℕ) → Asks m → Reports (m >>= λ rv. check rv)
  checked_last m a = record { runs = λ w. Asked-last w (m w) (a.runs w) }

  pub syscall_n-Asks :
      (env : Env S) → Logs env log → (fn : ℕ) (args : List ℕ) → Asks (syscall_n env fn args)
  unfolding syscall_n
  syscall_n-Asks env l fn args = record { runs = λ w. l.logs fn args w.token w.mem }
