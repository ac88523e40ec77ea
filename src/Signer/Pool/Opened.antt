-- ===== src/Signer/Pool/Opened.antt =====
-- The keys that NewPool makes: how many there are, and that each has a session.
use gopkcs.Prelude.{
  ℕ, zero, suc, ◌+◌, ◌≡◌, refl, some, List, [], ◌∷◌, ◌++◌, arith, length, length-append,
}
use gopkcs.Signer.Interface.{err, ok, PublicKey, Ret, Module, Key}
use gopkcs.Signer.Setup.{setup}
use gopkcs.Signer.Setup.Accounts.{Accounts}
use gopkcs.Signer.Setup.Sessions.{SetUp-ok, setup-SetUp, SetUp}
use gopkcs.Signer.Sign.{blank, new_key}
use gopkcs.Signer.Pool.{make_keys}

abbrev pub HasSession : Key → Type 0
HasSession k = (s : ℕ) × (k.session ≡ some s)

abbrev pub AreOpen : List Key → Type 0
AreOpen [] = Unit
AreOpen (k ∷ keys) = HasSession k × AreOpen keys

-- After success there are n keys, each with a session.
abbrev pub Numbers : ℕ → Ret (List Key) → Type 0
Numbers n (ok keys) = (length keys ≡ n) × AreOpen keys
Numbers n (err e) = Unit

AreOpen-snoc : (keys : List Key) (k : Key) → AreOpen keys → HasSession k → AreOpen (keys ++ k ∷ [])
AreOpen-snoc [] k h o = (o, tt)
AreOpen-snoc (j ∷ keys) k (h, hs) o = (h, AreOpen-snoc keys k hs o)

-- The new key, if there is one.
abbrev MadeOpen : Ret Key → Type 0
MadeOpen (ok k) = HasSession k
MadeOpen (err e) = Unit

module _ {T : Type 0} (m : Module T) (held : T → List ℕ) (accounts : Accounts m held)
    (label pass : List ℕ) (public : PublicKey) where
  new_key-MadeOpen : (t : T) → MadeOpen (new_key m label pass public t).0
  unfolding new_key
  new_key-MadeOpen t = go (setup m k0 t).0 refl (setup-SetUp m held accounts k0 t refl)
    where
      k0 : Key
      k0 = blank label pass public

      go :
          (r : Ret (Unit {0}))
          → (setup m k0 t).0 ≡ r
          → SetUp m held accounts t (setup m k0 t)
          → MadeOpen (new_key m label pass public t).0
      go (ok u) e s =
          let (h, has, more) = SetUp-ok m held accounts t (setup m k0 t) u e s in
          rw (e, new_key) (h, has)
      go (err x) e s = rw (e, new_key) tt

  pub make_keys-Numbers :
      (n : ℕ) (keys : List Key) (t : T)
      → AreOpen keys
      → Numbers (length keys + n) (make_keys m label pass public n keys t).0
  unfolding make_keys
  make_keys-Numbers zero keys t h = (omega arith, h)
  make_keys-Numbers (suc n) keys t h =
      go (new_key m label pass public t).0 refl (new_key-MadeOpen t)
        (λ k o. make_keys-Numbers n (keys ++ k ∷ []) later (AreOpen-snoc keys k h o))
    where
      later : T
      later = (new_key m label pass public t).1

      go :
          (r : Ret Key)
          → (new_key m label pass public t).0 ≡ r
          → MadeOpen (new_key m label pass public t).0
          → ((k : Key)
              → HasSession k
              → Numbers
                  (length (keys ++ k ∷ []) + n)
                  (make_keys m label pass public n (keys ++ k ∷ []) later).0)
          → Numbers (length keys + suc n) (make_keys m label pass public (suc n) keys t).0
      go (ok k) e one rest =
          let opened : HasSession k = rw e at one in
          let size : length (keys ++ k ∷ []) + n ≡ length keys + suc n =
            omega (arith, length-append keys (k ∷ [])) in
          rw (e, make_keys) (rw (← size) (rest k opened))
      go (err x) e one rest = rw (e, make_keys) tt
