-- ===== src/Signer/Pool/Sessions.antt =====
-- The sessions that NewPool opens, against a module that counts them.
use gopkcs.Prelude.{
  ℕ, zero, suc, ◌+◌, ◌-◌, ◌≡◌, refl, ap, inl, inr, Option, none, some, List, [], ◌∷◌, ◌++◌, arith,
  ◌==◌, if◌then◌else◌, Option-cases, length, count, count-append,
}
use gopkcs.Signer.Interface.{err, ok, PublicKey, Ret, Module, Key}
use gopkcs.Signer.Setup.Accounts.{Accounts, remove}
use gopkcs.Signer.Setup.Sessions.{SetUp-err, SetUp-ok, setup-SetUp, SetUp}
use gopkcs.Signer.Sign.{blank, new_key, key_destroy}
use gopkcs.Signer.Sign.Destroyed.{key_destroy-none, key_destroy-some}
use gopkcs.Signer.Pool.Opened.{AreOpen, Numbers, make_keys-Numbers}
use gopkcs.Signer.Pool.{new_pool, new_pool_of, Pool, make_keys, destroy_all}
use gopkcs.Signer.Setup.{setup}
use gopkcs.Machine.Effects.{Error}
use gopkcs.Prelude.Int.{negsuc, pos, ℤ}

abbrev session_of : Option ℕ → List ℕ
session_of none = []
session_of (some s) = s ∷ []

-- The sessions of keys.
abbrev pub sessions : List Key → List ℕ
sessions [] = []
sessions (k ∷ keys) = session_of k.session ++ sessions keys

one_if : ℕ → ℕ → ℕ
one_if x s = if x == s then 1 else 0

count-remove : (x s : ℕ) (ys : List ℕ) → count x (remove s ys) ≡ count x ys - one_if x s
unfolding one_if
count-remove x s [] = ground arith
count-remove x s (y ∷ ys) = ground (arith, count-remove x s ys)

count-sessions_cons :
    (k : Key) (keys : List Key) (x : ℕ)
    → count x (sessions (k ∷ keys)) ≡ count x (sessions (k ∷ [])) + count x (sessions keys)
count-sessions_cons k keys x = omega (
  arith,
  count-append x (session_of k.session) (sessions keys),
  count-append x (session_of k.session) [],
)

count-sessions_snoc :
    (keys : List Key) (k : Key) (x : ℕ)
    → count x (sessions (keys ++ k ∷ [])) ≡ count x (sessions keys) + count x (sessions (k ∷ []))
count-sessions_snoc [] k x = omega arith
count-sessions_snoc (j ∷ keys) k x = omega (
  arith,
  count-sessions_cons j (keys ++ k ∷ []) x,
  count-sessions_cons j keys x,
  count-sessions_snoc keys k x,
)

module _ {T : Type 0} (m : Module T) (held : T → List ℕ) (accounts : Accounts m held) where
  open accounts use {closes}

  count-destroy :
      (k : Key) (t : T) (x : ℕ)
      → count x (held (key_destroy m k t).1) ≡ count x (held t) - count x (sessions (k ∷ []))
  count-destroy k t x = elim (Option-cases k.session) [
    | inl e ↦ rw (key_destroy-none m k t e, e) (omega arith)
    | inr (s, e) ↦
        rw (key_destroy-some m k t s e, closes s t, count-remove x s (held t), e)
          (unfold one_if in ground arith)
  ]

  count-destroy_all :
      (keys : List Key) (t : T) (x : ℕ)
      → count x (held (destroy_all m keys t)) ≡ count x (held t) - count x (sessions keys)
  unfolding destroy_all
  count-destroy_all [] t x = omega arith
  count-destroy_all (k ∷ keys) t x = omega (
    arith,
    count-destroy_all keys (key_destroy m k t).1 x,
    count-destroy k t x,
    count-sessions_cons k keys x,
  )

  -- A call that makes keys from keys: it opens their sessions, or closes those there were.
  Opens : List ℕ → T → Ret (List Key) × T → Type 0
  Opens before t (ok keys, t') =
      (x : ℕ) → count x (held t') + count x before ≡ count x (held t) + count x (sessions keys)
  Opens before t (err e, t') = (x : ℕ) → count x (held t') ≡ count x (held t) - count x before

  -- `new_key`, as a call that makes one key from none.
  one_key : Ret Key → Ret (List Key)
  one_key (ok k) = ok (k ∷ [])
  one_key (err e) = err e

  new_key-Opens :
      (label pass : List ℕ) (public : PublicKey) (t : T)
      → Opens [] t (one_key (new_key m label pass public t).0, (new_key m label pass public t).1)
  unfolding new_key Opens one_key
  new_key-Opens label pass public t =
      go (setup m k0 t).0 refl (setup-SetUp m held accounts k0 t refl)
    where
      k0 : Key
      k0 = blank label pass public

      go :
          (r : Ret (Unit {0}))
          → (setup m k0 t).0 ≡ r
          → SetUp m held accounts t (setup m k0 t)
          → Opens [] t
              (one_key (new_key m label pass public t).0, (new_key m label pass public t).1)
      go (ok u) e s =
          let (h, has, more) = SetUp-ok m held accounts t (setup m k0 t) u e s in
          rw (e, new_key) (λ x. rw (has, more) (ground arith))
      go (err x) e s =
          let same : held (setup m k0 t).2 ≡ held t =
            SetUp-err m held accounts t (setup m k0 t) x e s in
          rw (e, new_key) (λ y. rw same (omega arith))

  Opens-err :
      (t t' : T) (e : Error)
      → Opens [] t (err e, t')
      → (x : ℕ) → count x (held t') ≡ count x (held t)
  unfolding Opens
  Opens-err t t' e h x = omega (arith, h x)

  Opens-more :
      (before : List Key) (k : Key) (t t' : T) (r : Ret (List Key) × T)
      → Opens [] t (ok (k ∷ []), t')
      → Opens (sessions (before ++ k ∷ [])) t' r
      → Opens (sessions before) t r
  unfolding Opens
  Opens-more before k t t' (ok keys, u) one more =
      λ x. omega (arith, one x, more x, count-sessions_snoc before k x)
  Opens-more before k t t' (err e, u) one more =
      λ x. omega (arith, one x, more x, count-sessions_snoc before k x)

  make_keys-Opens :
      (label pass : List ℕ) (public : PublicKey) (n : ℕ) (keys : List Key) (t : T)
      → Opens (sessions keys) t (make_keys m label pass public n keys t)
  unfolding make_keys
  make_keys-Opens label pass public zero keys t = unfold Opens in λ x. refl
  make_keys-Opens label pass public (suc n) keys t =
      go (new_key m label pass public t).0 refl (new_key-Opens label pass public t)
        (λ k. make_keys-Opens label pass public n (keys ++ k ∷ []) later)
    where
      later : T
      later = (new_key m label pass public t).1

      go :
          (r : Ret Key)
          → (new_key m label pass public t).0 ≡ r
          → Opens [] t (one_key (new_key m label pass public t).0, later)
          → ((k : Key)
              → Opens
                  (sessions (keys ++ k ∷ []))
                  later
                  (make_keys m label pass public n (keys ++ k ∷ []) later))
          → Opens (sessions keys) t (make_keys m label pass public (suc n) keys t)
      go (ok k) e one rest =
          let opened : Opens [] t (ok (k ∷ []), later) = unfold one_key in (rw e at one) in
          rw (e, make_keys) (Opens-more keys k t later _ opened (rest k))
      go (err x) e one rest =
          let same : Opens [] t (err x, later) = unfold one_key in (rw e at one) in
          rw (e, make_keys)
            (unfold Opens in
              (λ y. omega (arith, count-destroy_all keys later y, Opens-err t later x same y)))

  -- What NewPool of n keys leaves: a pool of the public key with n keys, each with a session, and
  -- these sessions are all that is open more; or no session is.
  abbrev pub Makes : ℤ → PublicKey → T → Ret Pool × T → Type 0
  Makes n public t (ok pool, t') =
      (pos (length pool.free) ≡ n)
      × AreOpen pool.free
      × (pool.public ≡ public)
      × ((x : ℕ) → count x (held t') ≡ count x (held t) + count x (sessions pool.free))
  Makes n public t (err e, t') = (x : ℕ) → count x (held t') ≡ count x (held t)

  Opens-Makes :
      (n : ℕ) (public : PublicKey) (t t' : T) (r : Ret (List Key))
      → Numbers n r
      → Opens [] t (r, t')
      → Makes
          (pos n)
          public
          t
          (elim r [ ok keys ↦ ok (new_pool_of public keys) | err e ↦ err e ], t')
  unfolding Opens
  Opens-Makes n public t t' (ok keys) (size, has) h =
      (ap pos size, has, refl, λ x. omega (arith, h x))
  Opens-Makes n public t t' (err e) u h = λ x. omega (arith, h x)

  -- NewPool of n keys, on a module that accounts for its sessions: after success the pool has the
  -- public key and exactly n keys, each with a session, and the open sessions are those from
  -- before and those of the keys; after a failure, at whatever key, they are those from before.
  pub new_pool-Makes :
      (n : ℤ) (label pass : List ℕ) (public : PublicKey) (t : T)
      → Makes n public t (new_pool m n label pass public t)
  unfolding new_pool
  new_pool-Makes (pos (suc n)) label pass public t =
      Opens-Makes (suc n) public t (make_keys m label pass public (suc n) [] t).1
        (make_keys m label pass public (suc n) [] t).0
        (let e : 0 + suc n ≡ suc n = omega arith in
          rw e at (make_keys-Numbers m held accounts label pass public (suc n) [] t tt))
        (make_keys-Opens label pass public (suc n) [] t)
  new_pool-Makes (pos zero) label pass public t = λ x. refl
  new_pool-Makes (negsuc n) label pass public t = λ x. refl
