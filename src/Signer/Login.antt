-- ===== src/Signer/Login.antt =====
-- The login of a token that several keys share, under the read-write lock of signer.go: setup and
-- Sign of any number of goroutines, each with a key on that token.
pub mod Safety
use gopkcs.Prelude.{ℕ, ◌-◌, ◌<◌, ◌≡◌, Bool, true, false}
use gopkcs.Signer.Pool.Concurrent.Families.{update}

-- Where a goroutine stands. `signing b` remembers whether the user was logged in when the lock was
-- taken.
pub data Place : Type 0 where
  outside : Place  -- without the lock
  opening : Place  -- in setup, with the lock for reading
  signing : Bool → Place  -- in Sign, with the lock for reading
  renewing : Place  -- in Sign, with the lock for writing, before the login
  renewed : Place  -- in Sign, with the lock for writing, after the login

-- Holding the lock, for reading or writing, and holding it for writing.
abbrev pub is_inside : Place → Bool
is_inside outside = false
is_inside opening = true
is_inside (signing b) = true
is_inside renewing = true
is_inside renewed = true

abbrev pub is_writing : Place → Bool
is_writing outside = false
is_writing opening = false
is_writing (signing b) = false
is_writing renewing = true
is_writing renewed = true

pub record Token : Type 0 where
  pub logged_in : Bool
  pub place : ℕ → Place

abbrev pub at_start : Token
at_start = record { logged_in = false; place = λ _. outside }

-- One step of goroutine i out of n. The lock is taken for reading while nobody writes, and for
-- writing while nobody else is inside.
pub data LoginStep (n : ℕ) (s : Token) : Token → Type 0 where
  open_lock :
      (i : ℕ)
      → i < n
      → s.place i ≡ outside
      → ((j : ℕ) → j < n → is_writing (s.place j) ≡ false)
      → LoginStep n s (record s { place = update s.place i opening })
  open_login : (i : ℕ) → i < n → s.place i ≡ opening → LoginStep n s (record s { logged_in = true })
  open_unlock :
      (i : ℕ)
      → i < n
      → s.place i ≡ opening
      → LoginStep n s (record s { place = update s.place i outside })
  sign_lock :
      (i : ℕ)
      → i < n
      → s.place i ≡ outside
      → ((j : ℕ) → j < n → is_writing (s.place j) ≡ false)
      → LoginStep n s (record s { place = update s.place i (signing s.logged_in) })
  sign_unlock :
      (i : ℕ) (b : Bool)
      → i < n
      → s.place i ≡ signing b
      → LoginStep n s (record s { place = update s.place i outside })
  renew_lock :
      (i : ℕ)
      → i < n
      → s.place i ≡ outside
      → ((j : ℕ) → j < n → is_inside (s.place j) ≡ false)
      → LoginStep n s (record s { place = update s.place i renewing })
  renew_logout :
      (i : ℕ) → i < n → s.place i ≡ renewing → LoginStep n s (record s { logged_in = false })
  renew_login :
      (i : ℕ)
      → i < n
      → s.place i ≡ renewing
      → LoginStep n s (record s { logged_in = true; place = update s.place i renewed })
  renew_fail :  -- the login is refused
      (i : ℕ)
      → i < n
      → s.place i ≡ renewing
      → LoginStep n s (record s { place = update s.place i outside })
  renew_unlock :
      (i : ℕ)
      → i < n
      → s.place i ≡ renewed
      → LoginStep n s (record s { place = update s.place i outside })

pub data LoginReach (n : ℕ) : Token → Type 0 where
  at_first : LoginReach n at_start
  and_step : {s t : Token} → LoginReach n s → LoginStep n s t → LoginReach n t
