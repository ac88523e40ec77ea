-- ===== src/Signer/Pool/Concurrent/Owners.antt =====
-- A pool as a table of owners, which forgets the channel and the order of its keys.
use gopkcs.Prelude.{ℕ, ◌<◌, ◌≡◌, Bool, true, false, Option, none, some}
use gopkcs.Signer.Pool.Concurrent.{System}
use gopkcs.Signer.Pool.Concurrent.Families.{update}
use gopkcs.Signer.Pool.Concurrent.Invariant.{holds, AllDestroyed}

-- The goroutine that has a key, if any, the keys that are destroyed, and whether the pool is.
pub record Owners : Type 0 where
  pub owner : ℕ → Option ℕ
  pub destroyed : ℕ → Bool
  pub over : Bool

abbrev pub vacant : Owners
vacant = record { owner = λ _. none; destroyed = λ _. false; over = false }

-- What users of a pool of the given size can do to the table.
pub data Move (size : ℕ) (a : Owners) : Owners → Type 0 where
  acquire :
      (i k : ℕ)
      → k < size
      → a.owner k ≡ none
      → Move size a (record a { owner = update a.owner k (some i) })
  seize :
      (i k : ℕ)
      → k < size
      → a.owner k ≡ none
      → Move size a
          (record a { owner = update a.owner k (some i); destroyed = update a.destroyed k true })
  release :
      (i k : ℕ) → a.owner k ≡ some i → Move size a (record a { owner = update a.owner k none })
  close : AllDestroyed size a.destroyed → Move size a (record a { over = true })
  stay : Move size a a

-- The table of a state: an owner is the goroutine that holds the key.
pub record Abstracts (n : ℕ) (s : System) (a : Owners) : Type 0 where
  pub held : (x j : ℕ) → a.owner x ≡ some j → (j < n) × (0 < holds x (s.pc j))
  pub owned : (x j : ℕ) → j < n → 0 < holds x (s.pc j) → a.owner x ≡ some j
  pub destroyed : a.destroyed ≡ s.destroyed
  pub over : a.over ≡ s.finished

-- The tables that moves can make of the vacant one.
pub data Possible (size : ℕ) : Owners → Type 0 where
  unused : Possible size vacant
  after : {a b : Owners} → Possible size a → Move size a b → Possible size b
