-- ===== src/Signer/Shared.antt =====
-- Keys of one token that any number of goroutines share: Sign and Destroy under sessionMu of the key
-- and the read-write lock of the token, and New under that lock.
pub mod Invariant
pub mod Safety
pub mod Waiting
pub mod Enabled
pub mod Progress
use gopkcs.Prelude.{ℕ, suc, ◌+◌, ◌-◌, ◌<◌, ◌≡◌, Bool, true, false, not, ◌==◌, if◌then◌else◌}
use gopkcs.Signer.Pool.Concurrent.Families.{update, total}

-- Where a goroutine stands; the number is that of the key, the flag tells whether the token's lock
-- is held for writing.
pub data Stage : Type 0 where
  away : Stage
  signing : ℕ → Stage  -- in Sign, waiting for sessionMu
  entered : ℕ → Stage  -- in Sign, with sessionMu, before the check of the session
  waiting : ℕ → Stage  -- in Sign, with sessionMu, in a Lock of the token's lock that has begun
  prepared : ℕ → Bool → Stage  -- with both locks, before SignInit
  initialised : ℕ → Bool → Stage  -- with both locks, between SignInit and Sign of the module
  destroying : ℕ → Stage  -- in Destroy, waiting for sessionMu
  closing : ℕ → Stage  -- in Destroy, with sessionMu
  opening : Stage  -- in setup, waiting for the token's lock
  opened : Stage  -- in setup, with the token's lock for reading

abbrev pub flag : Bool → ℕ
flag b = if b then 1 else 0

abbrev pub same : ℕ → ℕ → ℕ
same k j = flag (k == j)

-- Who holds sessionMu of key k: before the check of its session, before SignInit, after SignInit.
abbrev pub enters : ℕ → Stage → ℕ
enters k away = 0
enters k (signing j) = 0
enters k (entered j) = same k j
enters k (waiting j) = 0
enters k (prepared j b) = 0
enters k (initialised j b) = 0
enters k (destroying j) = 0
enters k (closing j) = same k j
enters k opening = 0
enters k opened = 0

abbrev pub prepares : ℕ → Stage → ℕ
prepares k away = 0
prepares k (signing j) = 0
prepares k (entered j) = 0
prepares k (waiting j) = same k j
prepares k (prepared j b) = same k j
prepares k (initialised j b) = 0
prepares k (destroying j) = 0
prepares k (closing j) = 0
prepares k opening = 0
prepares k opened = 0

abbrev pub operates : ℕ → Stage → ℕ
operates k away = 0
operates k (signing j) = 0
operates k (entered j) = 0
operates k (waiting j) = 0
operates k (prepared j b) = 0
operates k (initialised j b) = same k j
operates k (destroying j) = 0
operates k (closing j) = 0
operates k opening = 0
operates k opened = 0

-- Who holds the token's lock for reading, and for writing.
abbrev pub reads : Stage → ℕ
reads away = 0
reads (signing j) = 0
reads (entered j) = 0
reads (waiting j) = 0
reads (prepared j b) = flag (not b)
reads (initialised j b) = flag (not b)
reads (destroying j) = 0
reads (closing j) = 0
reads opening = 0
reads opened = 1

abbrev pub writes : Stage → ℕ
writes away = 0
writes (signing j) = 0
writes (entered j) = 0
writes (waiting j) = 0
writes (prepared j b) = flag b
writes (initialised j b) = flag b
writes (destroying j) = 0
writes (closing j) = 0
writes opening = 0
writes opened = 0

-- Who has called Lock of the token's lock and does not have it yet.
abbrev pub awaits : Stage → ℕ
awaits away = 0
awaits (signing j) = 0
awaits (entered j) = 0
awaits (waiting j) = 1
awaits (prepared j b) = 0
awaits (initialised j b) = 0
awaits (destroying j) = 0
awaits (closing j) = 0
awaits opening = 0
awaits opened = 0

-- `session k` tells whether the key still has its session, `operation k` whether the module has a
-- signature operation on that session (SignInit begins it, and Sign ends it, whatever Sign returns),
-- and `closes k` counts the calls of CloseSession with it.
pub record Keys : Type 0 where
  pub stage : ℕ → Stage
  pub session : ℕ → Bool
  pub operation : ℕ → Bool
  pub closes : ℕ → ℕ

-- Every key has been set up, and nobody uses one.
abbrev pub all_set_up : Keys
all_set_up = record {
  stage = λ _. away;
  session = λ _. true;
  operation = λ _. false;
  closes = λ _. 0;
}

-- The goroutines, of the first n, that hold sessionMu of key k.
abbrev pub holders : ℕ → ℕ → (ℕ → Stage) → ℕ
holders n k f = total (enters k) n f + total (prepares k) n f + total (operates k) n f

-- Nobody has the token's lock for writing or has called Lock of it. RLock waits for this, and so does
-- Lock before it keeps others out.
abbrev pub IsReadable : ℕ → (ℕ → Stage) → Type 0
IsReadable n f = total writes n f + total awaits n f ≡ 0

-- One step of goroutine i out of n; `always k` is the key's alwaysAuthenticate.
pub data KeyStep (n : ℕ) (always : ℕ → Bool) (s : Keys) : Keys → Type 0 where
  sign_call :
      (i k : ℕ)
      → i < n
      → s.stage i ≡ away
      → KeyStep n always s (record s { stage = update s.stage i (signing k) })
  sign_lock :
      (i k : ℕ)
      → i < n
      → s.stage i ≡ signing k
      → holders n k s.stage ≡ 0
      → KeyStep n always s (record s { stage = update s.stage i (entered k) })
  sign_refuse :  -- the session is nil
      (i k : ℕ)
      → i < n
      → s.stage i ≡ entered k
      → s.session k ≡ false
      → KeyStep n always s (record s { stage = update s.stage i away })
  read_lock :
      (i k : ℕ)
      → i < n
      → s.stage i ≡ entered k
      → s.session k ≡ true
      → always k ≡ false
      → IsReadable n s.stage
      → KeyStep n always s (record s { stage = update s.stage i (prepared k false) })
  write_wait :  -- Lock keeps other writers and new readers out
      (i k : ℕ)
      → i < n
      → s.stage i ≡ entered k
      → s.session k ≡ true
      → always k ≡ true
      → IsReadable n s.stage
      → KeyStep n always s (record s { stage = update s.stage i (waiting k) })
  write_lock :  -- and waits for the readers that are there
      (i k : ℕ)
      → i < n
      → s.stage i ≡ waiting k
      → total reads n s.stage ≡ 0
      → KeyStep n always s (record s { stage = update s.stage i (prepared k true) })
  sign_fail :  -- the login, the choice of mechanism or SignInit fails
      (i k : ℕ) (b : Bool)
      → i < n
      → s.stage i ≡ prepared k b
      → KeyStep n always s (record s { stage = update s.stage i away })
  sign_init :
      (i k : ℕ) (b : Bool)
      → i < n
      → s.stage i ≡ prepared k b
      → KeyStep n always s (record s {
        stage = update s.stage i (initialised k b);
        operation = update s.operation k true;
      })
  sign_end :
      (i k : ℕ) (b : Bool)
      → i < n
      → s.stage i ≡ initialised k b
      → KeyStep n always s
          (record s { stage = update s.stage i away; operation = update s.operation k false })
  destroy_call :
      (i k : ℕ)
      → i < n
      → s.stage i ≡ away
      → KeyStep n always s (record s { stage = update s.stage i (destroying k) })
  destroy_lock :
      (i k : ℕ)
      → i < n
      → s.stage i ≡ destroying k
      → holders n k s.stage ≡ 0
      → KeyStep n always s (record s { stage = update s.stage i (closing k) })
  destroy_again :  -- the session is nil
      (i k : ℕ)
      → i < n
      → s.stage i ≡ closing k
      → s.session k ≡ false
      → KeyStep n always s (record s { stage = update s.stage i away })
  destroy_close :
      (i k : ℕ)
      → i < n
      → s.stage i ≡ closing k
      → s.session k ≡ true
      → KeyStep n always s (record s {
        stage = update s.stage i away;
        session = update s.session k false;
        closes = update s.closes k (suc (s.closes k));
      })
  setup_call :
      (i : ℕ)
      → i < n
      → s.stage i ≡ away
      → KeyStep n always s (record s { stage = update s.stage i opening })
  setup_lock :
      (i : ℕ)
      → i < n
      → s.stage i ≡ opening
      → IsReadable n s.stage
      → KeyStep n always s (record s { stage = update s.stage i opened })
  setup_end :
      (i : ℕ)
      → i < n
      → s.stage i ≡ opened
      → KeyStep n always s (record s { stage = update s.stage i away })

pub data KeyReach (n : ℕ) (always : ℕ → Bool) : Keys → Type 0 where
  fresh : KeyReach n always all_set_up
  moved : {s t : Keys} → KeyReach n always s → KeyStep n always s t → KeyReach n always t
